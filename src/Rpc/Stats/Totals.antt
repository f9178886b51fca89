-- ===== src/Rpc/Stats/Totals.antt =====
-- rpc/stats.go: what the counters of a method come to.
use bigmachine.Prelude.{
  ℕ, ◌+◌, ◌≡◌, ◌∙◌, ◌&&◌, List, [], ◌∷◌, Text, codes, if◌then◌else◌, text_eq, arith,
}
use bigmachine.Rpc.Stats.{end, get, count_of, Done, Event, started, finished, record_events}
use bigmachine.Rpc.Stats.Refinement.{record_events-Shows, end-Shows}
use bigmachine.Rpc.Stats.Tables.{Table, larger, table_event, table_events, method_entries}

-- The RPCs of a method that were started, those that failed, and the longest time of one.
unfoldable pub n_started : Text → List Event → ℕ
n_started m [] = 0
n_started m (started addr method ∷ es) =
    let rest = n_started m es in if text_eq method m then 1 + rest else rest
n_started m (finished d ∷ es) = n_started m es

unfoldable pub n_failed : Text → List Event → ℕ
n_failed m [] = 0
n_failed m (started addr method ∷ es) = n_failed m es
n_failed m (finished d ∷ es) =
    let rest = n_failed m es in if text_eq d.method m && d.did_fail then 1 + rest else rest

unfoldable pub longest : Text → List Event → ℕ
longest m [] = 0
longest m (started addr method ∷ es) = longest m es
longest m (finished d ∷ es) =
    let rest = longest m es in if text_eq d.method m then larger d.elapsed rest else rest

table_event_count :
    (m : Text) (d : Done) (t : Table)
    → table_event (finished d) t m (codes "count") ≡ t m (codes "count")
table_event_count m d t = ground arith

table_event_errors :
    (m : Text) (d : Done) (t : Table)
    → table_event (finished d) t m (codes "errors") ≡ (
        if text_eq d.method m && d.did_fail then t m (codes "errors") + 1 else t m (codes "errors"))
table_event_errors m d t = ground arith

table_event_maxtime :
    (m : Text) (d : Done) (t : Table)
    → table_event (finished d) t m (codes "maxtime") ≡ (
        if text_eq d.method m
        then larger d.elapsed (t m (codes "maxtime"))
        else t m (codes "maxtime"))
table_event_maxtime m d t = ground arith

table_events_count :
    (m : Text) (es : List Event) (t : Table)
    → table_events es t m (codes "count") ≡ t m (codes "count") + n_started m es
unfolding table_events n_started
table_events_count m [] t = omega arith
table_events_count m (started addr method ∷ es) t =
    ground (arith, table_events_count m es (table_event (started addr method) t))
table_events_count m (finished d ∷ es) t =
    table_events_count m es (table_event (finished d) t) ∙ ground (arith, table_event_count m d t)

table_events_errors :
    (m : Text) (es : List Event) (t : Table)
    → table_events es t m (codes "errors") ≡ t m (codes "errors") + n_failed m es
unfolding table_events n_failed
table_events_errors m [] t = omega arith
table_events_errors m (started addr method ∷ es) t =
    table_events_errors m es (table_event (started addr method) t) ∙ ground arith
table_events_errors m (finished d ∷ es) t =
    table_events_errors m es (table_event (finished d) t) ∙ ground (arith, table_event_errors m d t)

table_events_maxtime :
    (m : Text) (es : List Event) (t : Table)
    → table_events es t m (codes "maxtime") ≡ larger (t m (codes "maxtime")) (longest m es)
unfolding table_events longest
table_events_maxtime m [] t = ground arith
table_events_maxtime m (started addr method ∷ es) t =
    table_events_maxtime m es (table_event (started addr method) t) ∙ ground arith
table_events_maxtime m (finished d ∷ es) t =
    table_events_maxtime m es (table_event (finished d) t)
    ∙ ground (arith, table_event_maxtime m d t)

-- From no statistics, after any sequence of starts and ends of RPCs: the count of a method is the
-- number of its RPCs that were started, its errors those that failed, and its maximal time that of
-- the longest.
pub record_events-totals :
    (m : Text) (es : List Event)
    → let counters = method_entries m (record_events es end) in
      (count_of (get (codes "count") counters) ≡ n_started m es)
      × (count_of (get (codes "errors") counters) ≡ n_failed m es)
      × (count_of (get (codes "maxtime") counters) ≡ longest m es)
record_events-totals m es =
    let shows = record_events-Shows es end (λ m n. 0) end-Shows in
    (
      shows.shown m (codes "count") ∙ table_events_count m es (λ m n. 0) ∙ omega arith,
      shows.shown m (codes "errors") ∙ table_events_errors m es (λ m n. 0) ∙ omega arith,
      shows.shown m (codes "maxtime") ∙ table_events_maxtime m es (λ m n. 0) ∙ ground arith,
    )
