-- ===== src/Rpc/Stats/Tables.antt =====
-- rpc/stats.go: the table that a tree of counters stands for, and what single counters do to it.
use bigmachine.Prelude.{
  ℕ, ◌+◌, ◌≡◌, refl, ap, ◌∙◌, Option, none, some, List, [], ◌∷◌, Text, codes, if◌then◌else◌, ltb,
  text_eq, text_eq_iff, text_eq_refl, if_intro, Bool-cases, inl, inr, arith, ◌&&◌,
}
use bigmachine.Rpc.Stats.{
  Node, counter, tree, Entries, end, entry, get, put, count_of, child, update_at, added, add,
  raised, raise, at_method, at_machine, Event, started, finished,
}

-- The abstract state: the counters of each method.
abbrev pub Table : Type 0
Table = Text → Text → ℕ

abbrev pub change : Text → Text → (ℕ → ℕ) → Table → Table
change method name f t m n = if text_eq method m && text_eq name n then f (t m n) else t m n

-- The larger of two.
abbrev pub larger : ℕ → ℕ → ℕ
larger v n = if ltb n v then v else n

abbrev pub table_bytes : Text → Text → Text → Option ℕ → Table → Table
table_bytes method name max_name none t = t
table_bytes method name max_name (some b) t =
    if ltb 0 b then change method max_name (larger b) (change method name (λ n. n + b) t) else t

-- What an event does to the table.
abbrev pub table_event : Event → Table → Table
table_event (started addr method) t = change method (codes "count") (λ n. n + 1) t
table_event (finished d) t =
    let t1 = change d.method (codes "time") (λ n. n + d.elapsed) t in
    let t2 =
      table_bytes d.method (codes "requestbytes") (codes "maxrequestbytes") d.request_bytes t1 in
    let t3 = table_bytes d.method (codes "replybytes") (codes "maxreplybytes") d.reply_bytes t2 in
    let t4 = if d.did_fail then change d.method (codes "errors") (λ n. n + 1) t3 else t3 in
    change d.method (codes "maxtime") (larger d.elapsed) t4

unfoldable pub table_events : List Event → Table → Table
table_events [] t = t
table_events (e ∷ events) t = table_events events (table_event e t)

pub get-put :
    (k j : Text) (v : Node) (es : Entries)
    → get j (put k v es) ≡ (if text_eq k j then some v else get j es)
unfolding get put
get-put k j v end = ground (arith, text_eq_iff k j)
get-put k j v (entry i w es) =
    ground (arith, text_eq_iff k j, text_eq_iff i k, text_eq_iff i j, get-put k j v es)

abbrev pub IsCounter : Option Node → Type 0
IsCounter none = Unit
IsCounter (some (counter n)) = Unit
IsCounter (some (tree es)) = ⊥

-- Entries with no tree among them.
abbrev pub IsFlat : Entries → Type 0
IsFlat es = (k : Text) → IsCounter (get k es)

-- The counters that the tree has of a method.
abbrev pub method_entries : Text → Entries → Entries
method_entries m es = child m (child (codes "method") es)

-- A tree that stands for a table.
pub record Shows (es : Entries) (t : Table) : Type 0 where
  pub flat : (m : Text) → IsFlat (method_entries m es)
  pub shown : (m n : Text) → count_of (get n (method_entries m es)) ≡ t m n

pub child-put :
    (k j : Text) (es fs : Entries)
    → child j (put k (tree es) fs) ≡ (if text_eq k j then es else child j fs)
unfolding child
child-put k j es fs = ground (arith, get-put k j (tree es) fs)

-- An operation on the counters of a method does what a change does to the table.
abbrev pub Changes : Text → (ℕ → ℕ) → (Entries → Entries) → Type 0
Changes name f op =
    (es : Entries)
    → IsFlat es
    → IsFlat (op es)
      × ((n : Text)
          → count_of (get n (op es))
            ≡ (if text_eq name n then f (count_of (get n es)) else count_of (get n es)))

pub put_counter-IsFlat :
    (k : Text) (v : ℕ) (es : Entries) → IsFlat es → IsFlat (put k (counter v) es)
put_counter-IsFlat k v es h j =
    rw (get-put k j (counter v) es)
      (if_intro IsCounter (text_eq k j) (some (counter v)) (get j es) tt (h j))

pub added-Changes :
    (name : Text) (v : ℕ) (es : Entries) (o : Option Node)
    → get name es ≡ o
    → IsFlat es
    → IsFlat (added name v es o)
      × ((n : Text)
          → count_of (get n (added name v es o))
            ≡ (if text_eq name n then count_of (get n es) + v else count_of (get n es)))
      × (get name (added name v es o) ≡ some (counter (count_of o + v)))
added-Changes name v es none e h = (
  put_counter-IsFlat name v es h,
  λ n. ground (arith, get-put name n (counter v) es, text_eq_iff name n, e),
  ground (arith, get-put name name (counter v) es, text_eq_refl name),
)
added-Changes name v es (some (counter m)) e h = (
  put_counter-IsFlat name (m + v) es h,
  λ n. ground (arith, get-put name n (counter (m + v)) es, text_eq_iff name n, e),
  ground (arith, get-put name name (counter (m + v)) es, text_eq_refl name),
)
added-Changes name v es (some (tree ts)) e h = absurd (rw e at (h name))

pub add-Changes : (name : Text) (v : ℕ) → Changes name (λ n. n + v) (add name v)
unfolding add
add-Changes name v es h = let all = added-Changes name v es (get name es) refl h in (all.0, all.1)

pub raised-Changes :
    (name : Text) (v m : ℕ) (es : Entries)
    → get name es ≡ some (counter m)
    → IsFlat es
    → IsFlat (raised name v es (some (counter m)))
      × ((n : Text)
          → count_of (get n (raised name v es (some (counter m))))
            ≡ (if text_eq name n then larger v (count_of (get n es)) else count_of (get n es)))
raised-Changes name v m es e h = (
  if_intro IsFlat (ltb m v) (put name (counter v) es) es (put_counter-IsFlat name v es h) h,
  λ n. ground (arith, get-put name n (counter v) es, text_eq_iff name n, e),
)

pub raise-Changes : (name : Text) (v : ℕ) → Changes name (larger v) (raise name v)
unfolding raise add
raise-Changes name v es h =
    let zeroed = added-Changes name 0 es (get name es) refl h in
    let es' = added name 0 es (get name es) in
    let m = count_of (get name es) + 0 in
    let lifted = raised-Changes name v m es' zeroed.2 zeroed.0 in
    rw zeroed.2 (lifted.0, λ n. lifted.1 n ∙ ground (arith, zeroed.1 n))

pub method_entries-method :
    (method m : Text) (op : Entries → Entries) (es : Entries)
    → method_entries m (update_at (at_method method) op es)
      ≡ (if text_eq method m then op (method_entries m es) else method_entries m es)
unfolding update_at
method_entries-method method m op es =
    let ms = child (codes "method") es in
    ap (child m)
      (child-put (codes "method") (codes "method") (put method (tree (op (child method ms))) ms) es)
    ∙ child-put method m (op (child method ms)) ms
    ∙ elim (Bool-cases (text_eq method m)) [
      | inl e ↦ rw e (ap (λ k. op (child k ms)) ((text_eq_iff method m).0 e))
      | inr e ↦ rw e refl
    ]

pub method_entries-machine :
    (addr method m : Text) (op : Entries → Entries) (es : Entries)
    → method_entries m (update_at (at_machine addr method) op es) ≡ method_entries m es
unfolding update_at
method_entries-machine addr method m op es =
    ap (child m) (child-put (codes "machine") (codes "method") _ es)
