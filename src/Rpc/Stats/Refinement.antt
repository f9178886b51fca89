-- ===== src/Rpc/Stats/Refinement.antt =====
-- rpc/stats.go: the tree as a table of counters, by method and name.
use bigmachine.Prelude.{
  ℕ, ◌+◌, refl, Bool, true, false, Option, none, some, List, [], ◌∷◌, Text, codes, if◌then◌else◌,
  ltb, text_eq, if_intro, arith,
}
use bigmachine.Rpc.Stats.{
  Entries, end, get, child, update_at, add, raise, is_named, at_method, at_machine, start,
  add_bytes, finish_machine, finish, Event, started, finished, record_event, record_events,
}
use bigmachine.Rpc.Stats.Tables.{
  Table, change, larger, table_bytes, table_event, table_events, IsFlat, method_entries, Shows,
  Changes, add-Changes, raise-Changes, method_entries-method, method_entries-machine,
}

-- An operation at a method shows the change of the table; one at a machine shows none.
update_at-Shows :
    (method name : Text) (f : ℕ → ℕ) (op : Entries → Entries) (es : Entries) (t : Table)
    → Changes name f op
    → Shows es t
    → Shows (update_at (at_method method) op es) (change method name f t)
update_at-Shows method name f op es t c s = record {
  flat = λ m. rw (method_entries-method method m op es) (
      if_intro IsFlat (text_eq method m) (op (method_entries m es)) (method_entries m es)
        (c (method_entries m es) (s.flat m)).0 (s.flat m));
  shown = λ m n.
      rw (method_entries-method method m op es)
        (ground (arith, (c (method_entries m es) (s.flat m)).1 n, s.shown m n));
}

machine-Shows :
    (addr method : Text) (op : Entries → Entries) (es : Entries) (t : Table)
    → Shows es t
    → Shows (update_at (at_machine addr method) op es) t
machine-Shows addr method op es t s = record {
  flat = λ m. rw (method_entries-machine addr method m op es) (s.flat m);
  shown = λ m n. rw (method_entries-machine addr method m op es) (s.shown m n);
}

if-Shows :
    (b : Bool) (es fs : Entries) (t u : Table)
    → Shows es t
    → Shows fs u
    → Shows (if b then es else fs) (if b then t else u)
if-Shows true es fs t u h k = h
if-Shows false es fs t u h k = k

add_bytes-Shows :
    (method name max_name : Text) (bytes : Option ℕ) (es : Entries) (t : Table)
    → Shows es t
    → Shows (add_bytes method name max_name bytes es) (table_bytes method name max_name bytes t)
unfolding add_bytes
add_bytes-Shows method name max_name none es t s = s
add_bytes-Shows method name max_name (some b) es t s =
    if-Shows (ltb 0 b) _ es _ t
      (update_at-Shows method max_name (larger b) (raise max_name b) _ _ (raise-Changes max_name b)
        (update_at-Shows method name (λ n. n + b) (add name b) es t (add-Changes name b) s))
      s

-- Each call of the statistics does to the tree what its event does to the table.
record_event-Shows :
    (e : Event) (es : Entries) (t : Table)
    → Shows es t
    → Shows (record_event e es) (table_event e t)
unfolding record_event start finish finish_machine
record_event-Shows (started addr method) es t s =
    let t' = change method (codes "count") (λ n. n + 1) t in
    let counted =
      update_at-Shows method (codes "count") (λ n. n + 1) (add (codes "count") 1) es t
        (add-Changes (codes "count") 1) s in
    if_intro (λ x. Shows x t') (is_named addr) _ _
      (machine-Shows addr method (add (codes "count") 1) _ t' counted) counted
record_event-Shows (finished d) es t s =
    let timed =
      update_at-Shows d.method (codes "time") (λ n. n + d.elapsed) (add (codes "time") d.elapsed) es
        t (add-Changes (codes "time") d.elapsed) s in
    let sized =
      add_bytes-Shows d.method (codes "replybytes") (codes "maxreplybytes") d.reply_bytes _ _ (
        add_bytes-Shows d.method (codes "requestbytes") (codes "maxrequestbytes") d.request_bytes _
          _ timed) in
    let tallied =
      if-Shows d.did_fail _ _ _ _
        (update_at-Shows d.method (codes "errors") (λ n. n + 1) (add (codes "errors") 1) _ _
          (add-Changes (codes "errors") 1) sized)
        sized in
    let maximal =
      update_at-Shows d.method (codes "maxtime") (larger d.elapsed)
        (raise (codes "maxtime") d.elapsed) _ _ (raise-Changes (codes "maxtime") d.elapsed)
        tallied in
    if_intro (λ x. Shows x (table_event (finished d) t)) (is_named d.addr) _ _
      (machine-Shows d.addr d.method (raise (codes "maxtime") d.elapsed) _ _
        (machine-Shows d.addr d.method (add (codes "time") d.elapsed) _ _ maximal))
      maximal

-- A tree that has the counters of a table for each method, and no trees among them, has after any
-- sequence of starts and ends of RPCs the counters of the table that the same events make of that one.
pub record_events-Shows :
    (events : List Event) (es : Entries) (t : Table)
    → Shows es t
    → Shows (record_events events es) (table_events events t)
unfolding record_events table_events
record_events-Shows [] es t s = s
record_events-Shows (e ∷ events) es t s =
    record_events-Shows events (record_event e es) (table_event e t) (record_event-Shows e es t s)

-- The empty tree shows the table of zeros.
pub end-Shows : Shows end (λ m n. 0)
unfolding get child
end-Shows = record { flat = λ m k. tt; shown = λ m n. refl }
