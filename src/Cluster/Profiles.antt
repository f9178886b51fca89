-- ===== src/Cluster/Profiles.antt =====
-- bigmachine.go: pprofIndex, the sums of the machines' profile counts.
use bigmachine.Prelude.{
  ℕ, ◌+◌, ◌≡◌, none, some, List, [], ◌∷◌, Text, if◌then◌else◌, text_eq, text_eq_iff, lookup, insert,
  lookup-insert, arith,
}

-- profileStat.
pub record ProfileStat : Type 0 where
  pub name : Text
  pub count : ℕ

-- `aggregate[p.Name].Count`: 0 for a name that is missing.
abbrev pub count_of : Text → List (Text × ℕ) → ℕ
count_of name agg = elim (lookup name agg) [ none ↦ 0 | some n ↦ n ]

-- The inner loop, over the profiles of one machine.
unfoldable pub aggregate_machine : List ProfileStat → List (Text × ℕ) → List (Text × ℕ)
aggregate_machine [] agg = agg
aggregate_machine (p ∷ ps) agg =
    aggregate_machine ps (insert p.name (count_of p.name agg + p.count) agg)

unfoldable pub aggregate : List (List ProfileStat) → List (Text × ℕ) → List (Text × ℕ)
unfolding aggregate_machine
aggregate [] agg = agg
aggregate (ps ∷ stats) agg = aggregate stats (aggregate_machine ps agg)

-- The counts of a name, summed.
unfoldable pub sum_machine : Text → List ProfileStat → ℕ
sum_machine name [] = 0
sum_machine name (p ∷ ps) =
    let rest = sum_machine name ps in if text_eq p.name name then p.count + rest else rest

unfoldable pub sum_all : Text → List (List ProfileStat) → ℕ
unfolding sum_machine
sum_all name [] = 0
sum_all name (ps ∷ stats) = sum_machine name ps + sum_all name stats

aggregate_machine-sum :
    (name : Text) (ps : List ProfileStat) (agg : List (Text × ℕ))
    → count_of name (aggregate_machine ps agg) ≡ count_of name agg + sum_machine name ps
unfolding aggregate_machine sum_machine
aggregate_machine-sum name [] agg = omega arith
aggregate_machine-sum name (p ∷ ps) agg =
    let agg' = insert p.name (count_of p.name agg + p.count) agg in
    ground (
      arith,
      aggregate_machine-sum name ps agg',
      lookup-insert p.name name (count_of p.name agg + p.count) agg,
      text_eq_iff p.name name,
    )

-- The index shows, for each profile, the sum of its counts over all entries of all machines.
pub aggregate-sum :
    (name : Text) (stats : List (List ProfileStat)) (agg : List (Text × ℕ))
    → count_of name (aggregate stats agg) ≡ count_of name agg + sum_all name stats
unfolding aggregate sum_all
aggregate-sum name [] agg = omega arith
aggregate-sum name (ps ∷ stats) agg =
    ground (
      arith,
      aggregate-sum name stats (aggregate_machine ps agg),
      aggregate_machine-sum name ps agg,
    )
