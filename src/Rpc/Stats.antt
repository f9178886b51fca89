-- ===== src/Rpc/Stats.antt =====
-- rpc/stats.go: the tree of counters that the server and the client keep of their RPCs.
--
-- An expvar.Map is a list of entries, each a counter or another tree; a path is followed by name,
-- and what is on the way is made if it is not there.
pub mod Tables
pub mod Refinement
pub mod Totals
use bigmachine.Prelude.{
  ℕ, ◌+◌, Bool, true, false, Option, none, some, List, [], ◌∷◌, Text, codes, if◌then◌else◌, ltb,
  text_eq,
}

mutual
  pub data Node : Type 0 where
    counter : ℕ → Node
    tree : Entries → Node

  pub data Entries : Type 0 where
    end : Entries
    entry : Text → Node → Entries → Entries

-- Map.Get.
unfoldable pub get : Text → Entries → Option Node
get k end = none
get k (entry j v es) = if text_eq j k then some v else get k es

-- Map.Set.
unfoldable pub put : Text → Node → Entries → Entries
put k v end = entry k v end
put k v (entry j w es) =
    let rest = put k v es in if text_eq j k then entry k v es else entry j w rest

abbrev pub entries_of : Option Node → Entries
entries_of none = end
entries_of (some (counter n)) = end
entries_of (some (tree es)) = es

abbrev pub count_of : Option Node → ℕ
count_of none = 0
count_of (some (counter n)) = n
count_of (some (tree es)) = 0

-- The entries of a child; a child that is missing, or no tree, is replaced by a new one.
unfoldable pub child : Text → Entries → Entries
child k es = entries_of (get k es)

-- What is done to the tree at a path: Path, and a method of what it returns.
unfoldable pub update_at : List Text → (Entries → Entries) → Entries → Entries
unfolding child
update_at [] f es = f es
update_at (k ∷ path) f es = put k (tree (update_at path f (child k es))) es

-- Map.Add by what is there; a tree stays.
abbrev pub added : Text → ℕ → Entries → Option Node → Entries
added k n es none = put k (counter n) es
added k n es (some (counter m)) = put k (counter (m + n)) es
added k n es (some (tree ts)) = es

unfoldable pub add : Text → ℕ → Entries → Entries
add k n es = added k n es (get k es)

abbrev pub raised : Text → ℕ → Entries → Option Node → Entries
raised k n es none = es
raised k n es (some (counter m)) = if ltb m n then put k (counter n) es else es
raised k n es (some (tree ts)) = es

-- `max`: Add(name, 0), and Set if the value is larger.
unfoldable pub raise : Text → ℕ → Entries → Entries
unfolding add
raise k n es = let es' = add k 0 es in raised k n es' (get k es')

abbrev pub is_named : Text → Bool
is_named [] = false
is_named (c ∷ t) = true

abbrev pub at_method : Text → List Text
at_method method = codes "method" ∷ method ∷ []

abbrev pub at_machine : Text → Text → List Text
at_machine addr method = codes "machine" ∷ addr ∷ codes "method" ∷ method ∷ []

-- Start.
unfoldable pub start : Text → Text → Entries → Entries
unfolding update_at add
start addr method es =
    let es' = update_at (at_method method) (add (codes "count") 1) es in
    if is_named addr then update_at (at_machine addr method) (add (codes "count") 1) es' else es'

-- The size of a payload, under two names; -1 is `none`, and 0 counts as little.
unfoldable pub add_bytes : Text → Text → Text → Option ℕ → Entries → Entries
unfolding update_at add raise
add_bytes method name max_name none es = es
add_bytes method name max_name (some n) es =
    if ltb 0 n
    then update_at (at_method method) (raise max_name n)
        (update_at (at_method method) (add name n) es)
    else es

-- An RPC that is done: its address and method, its milliseconds, its sizes and whether it failed.
pub record Done : Type 0 where
  pub addr : Text
  pub method : Text
  pub elapsed : ℕ
  pub request_bytes : Option ℕ
  pub reply_bytes : Option ℕ
  pub did_fail : Bool

-- The times of a machine.
unfoldable pub finish_machine : Done → Entries → Entries
unfolding update_at add raise
finish_machine d es =
    update_at (at_machine d.addr d.method) (raise (codes "maxtime") d.elapsed)
      (update_at (at_machine d.addr d.method) (add (codes "time") d.elapsed) es)

-- The function that Start returns.
unfoldable pub finish : Done → Entries → Entries
unfolding update_at add raise add_bytes finish_machine
finish d es =
    let es1 = update_at (at_method d.method) (add (codes "time") d.elapsed) es in
    let es2 =
      add_bytes d.method (codes "requestbytes") (codes "maxrequestbytes") d.request_bytes es1 in
    let es3 = add_bytes d.method (codes "replybytes") (codes "maxreplybytes") d.reply_bytes es2 in
    let es4 =
      if d.did_fail then update_at (at_method d.method) (add (codes "errors") 1) es3 else es3 in
    let es5 = update_at (at_method d.method) (raise (codes "maxtime") d.elapsed) es4 in
    if is_named d.addr then finish_machine d es5 else es5

-- The calls of the RPCs that run, in the order in which they are made.
pub data Event : Type 0 where
  started : (addr method : Text) → Event
  finished : Done → Event

unfoldable pub record_event : Event → Entries → Entries
unfolding start finish
record_event (started addr method) es = start addr method es
record_event (finished d) es = finish d es

unfoldable pub record_events : List Event → Entries → Entries
unfolding record_event
record_events [] es = es
record_events (e ∷ events) es = record_events events (record_event e es)
