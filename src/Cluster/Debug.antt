-- ===== src/Cluster/Debug.antt =====
-- bigmachine.go and profile.go: the diagnostic pages, their routes, and the dumps of a program.
--
-- What the machines answer, the numbers that strconv finds in a form and the templates are
-- arguments. The writes of a page are one text: the writer has been written to if it is not empty.
use bigmachine.Prelude.{
  ℕ, ◌+◌, ◌≡◌, refl, ap, ◌∙◌, false, Option, none, some, List, [], ◌∷◌, ◌++◌, Text, codes,
  if◌then◌else◌, ◌==◌, text_eq_iff, lookup, insert, sort_by, insert_by, text_ltb, if_elim,
  lookup-insert, inl, inr, All, arith,
}
use bigmachine.Machine.Retry.{Result, ok, err, Result-cases}
use bigmachine.Cluster.Profiles.{
  ProfileStat, count_of, aggregate, aggregate-sum, sum_machine, sum_all,
}

-- The handlers that HandleDebugPrefix registers.
pub data Handler : Type 0 where
  pprof_index status : Handler

unfoldable pub handle_debug_prefix : Text → List (Text × Handler)
handle_debug_prefix prefix =
    (prefix ++ codes "pprof/", pprof_index) ∷ (prefix ++ codes "status", status) ∷ []

-- HandleDebug.
unfoldable pub handle_debug : List (Text × Handler)
unfolding handle_debug_prefix
handle_debug = handle_debug_prefix (codes "/debug/bigmachine/")

abbrev or_whole : Text → Option Text → Text
or_whole t none = t
or_whole t (some rest) = rest

unfoldable pub after_prefix : Text → Text → Option Text
after_prefix t [] = some t
after_prefix [] (p ∷ ps) = none
after_prefix (c ∷ t) (p ∷ ps) = let rest = after_prefix t ps in if c == p then rest else none

-- strings.TrimPrefix.
unfoldable pub trim_prefix : Text → Text → Text
unfolding after_prefix
trim_prefix t prefix = or_whole t (after_prefix t prefix)

-- The page that a path of pprofIndex asks for: a profile by its name, or the index.
unfoldable pub which_profile : Text → Text
unfolding trim_prefix
which_profile path = trim_prefix path (codes "/debug/bigmachine/pprof/")

-- A machine, and what its Supervisor.Profiles returns.
pub record Polled (Err : Type 0) : Type 0 where
  pub addr : Text
  pub reply : Result Err (List ProfileStat)

abbrev pub stats_of : List (Text × List ProfileStat) → List (List ProfileStat)
stats_of [] = []
stats_of ((addr, mstats) ∷ rest) = mstats ∷ stats_of rest

-- What the index shows: `All`, in the order of the names, and `Machines`.
pub record Index : Type 0 where
  pub all : List (Text × ℕ)
  pub machines : List (Text × List ProfileStat)

module _ {Err : Type 0} where
  -- The goroutines of pprofIndex, in the order in which they end. They return nil: an error of a
  -- machine is logged, and g.Wait returns none.
  unfoldable pub fetch :
      List (Polled Err) → List (Text × List ProfileStat) → List (Text × List ProfileStat)
  fetch [] stats = stats
  fetch (p ∷ ps) stats = elim p.reply [
    | err e ↦ fetch ps stats
    | ok mstats ↦ fetch ps (insert p.addr mstats stats)
  ]

  unfoldable pub index : List (Polled Err) → Index
  unfolding fetch
  index polled =
      let stats = fetch polled [] in
      record {
        all = sort_by (λ (p : Text × ℕ). p.0) (aggregate (stats_of stats) []);
        machines = stats;
      }

  -- The counts of a name over the machines that answered.
  unfoldable pub answered : Text → List (Polled Err) → ℕ
  answered name [] = 0
  answered name (p ∷ ps) = elim p.reply [
    | err e ↦ answered name ps
    | ok mstats ↦ sum_machine name mstats + answered name ps
  ]

-- A key that is missing is added at the end.
sum_all-insert :
    (name addr : Text) (ps : List ProfileStat) (stats : List (Text × List ProfileStat))
    → lookup addr stats ≡ none
    → sum_all name (stats_of (insert addr ps stats))
      ≡ sum_all name (stats_of stats) + sum_machine name ps
unfolding lookup insert sum_all
sum_all-insert name addr ps [] h = omega arith
sum_all-insert name addr ps ((a, qs) ∷ stats) h =
    let rest = sum_all-insert name addr ps stats in ground (arith, rest, h)

text_ltb_irrefl : (s : Text) → text_ltb s s ≡ false
unfolding text_ltb
text_ltb_irrefl [] = refl
text_ltb_irrefl (c ∷ s) = ground (arith, text_ltb_irrefl s)

abbrev by_name : Text × ℕ → Text
by_name p = p.0

-- Sorting by the keys does not change what is found at a key.
lookup-insert_by :
    (name : Text) (x : Text × ℕ) (xs : List (Text × ℕ))
    → lookup name (insert_by by_name x xs) ≡ lookup name (x ∷ xs)
unfolding lookup insert_by
lookup-insert_by name x [] = refl
lookup-insert_by name x (y ∷ ys) =
    if_elim (λ l. lookup name l ≡ lookup name (x ∷ y ∷ ys)) (text_ltb y.0 x.0)
      (y ∷ insert_by by_name x ys) (x ∷ y ∷ ys)
      (λ h. ground (
        arith,
        lookup-insert_by name x ys,
        text_eq_iff x.0 name,
        text_eq_iff y.0 name,
        text_ltb_irrefl x.0,
        h,
      ))
      (λ h. refl)

lookup-sort_by :
    (name : Text) (xs : List (Text × ℕ)) → lookup name (sort_by by_name xs) ≡ lookup name xs
unfolding lookup sort_by
lookup-sort_by name [] = refl
lookup-sort_by name (x ∷ xs) =
    let rest = lookup-sort_by name xs in
    ground (arith, lookup-insert_by name x (sort_by by_name xs), rest)

module _ {Err : Type 0} where
  -- No two machines have the same address: they are the values of a map by address.
  abbrev pub Distinct : List (Polled Err) → Type 0
  Distinct [] = Unit
  Distinct (p ∷ ps) = All (λ q. ¬ (p.addr ≡ q.addr)) ps × Distinct ps

  still_missing :
      (p : Polled Err) (mstats : List ProfileStat) (stats : List (Text × List ProfileStat))
      (ps : List (Polled Err))
      → All (λ q. ¬ (p.addr ≡ q.addr)) ps
      → All (λ q. lookup q.addr stats ≡ none) ps
      → All (λ q. lookup q.addr (insert p.addr mstats stats) ≡ none) ps
  still_missing p mstats stats [] h k = tt
  still_missing p mstats stats (q ∷ ps) h k = (
    ground (arith, lookup-insert p.addr q.addr mstats stats, text_eq_iff p.addr q.addr, h.0, k.0),
    still_missing p mstats stats ps h.1 k.1,
  )

  fetch-sum :
      (name : Text) (ps : List (Polled Err)) (stats : List (Text × List ProfileStat))
      → Distinct ps
      → All (λ q. lookup q.addr stats ≡ none) ps
      → sum_all name (stats_of (fetch ps stats)) ≡ sum_all name (stats_of stats) + answered name ps
  unfolding fetch answered
  fetch-sum name [] stats d h = omega arith
  fetch-sum name (p ∷ ps) stats d h = elim (Result-cases p.reply) [
    | inl (mstats, q) ↦
        let missing = still_missing p mstats stats ps d.0 h.1 in
        ground (
          arith,
          q,
          fetch-sum name ps (insert p.addr mstats stats) d.1 missing,
          sum_all-insert name p.addr mstats stats h.0,
        )
    | inr (e, q) ↦ ground (arith, q, fetch-sum name ps stats d.1 h.1)
  ]

  none_known :
      (ps : List (Polled Err)) → All (λ q. lookup {V = List ProfileStat} q.addr [] ≡ none) ps
  unfolding lookup
  none_known [] = tt
  none_known (p ∷ ps) = (refl, none_known ps)

  -- In whatever order the machines answer, the index shows for each profile the sum of its counts
  -- over those that do, if no two machines have the same address.
  pub index-answered :
      (name : Text) (polled : List (Polled Err))
      → Distinct polled
      → count_of name (index polled).all ≡ answered name polled
  unfolding index lookup sum_all
  index-answered name polled d =
      let stats = stats_of (fetch polled []) in
      let sums : count_of name (aggregate stats []) ≡ answered name polled =
        ground
          (arith, aggregate-sum name stats [], fetch-sum name polled [] d (none_known polled)) in
      ap (λ (o : Option ℕ). elim o [ none ↦ 0 | some n ↦ n ])
        (lookup-sort_by name (aggregate stats []))
      ∙ sums
