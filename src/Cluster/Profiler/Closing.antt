-- ===== src/Cluster/Profiler/Closing.antt =====
-- profile.go: each profile that is fetched is closed once, however Marshal ends.
use bigmachine.Prelude.{
  ℕ, suc, ◌+◌, ◌<◌, ◌≤◌, ◌≡◌, ◌∙◌, Option, some, List, [], ◌∷◌, ◌++◌, Text, if◌then◌else◌, text_eq,
  text_eq_iff, text_eq_refl, lookup, insert, delete, arith, Option-cases, inl, inr, ◌&&◌, ◌==◌, not,
  codes, sort_by, if_intro, ltb,
}
use bigmachine.Errors.{Errors}
use bigmachine.Machine.Retry.{Result, ok, err, Result-cases}
use bigmachine.Cluster.Profiler.{
  Buffer, Pages, Profiler, Outcome, no_profiles, Source, collect, close_at, close_rest, finish,
  append_profile, write_text, parse_each, write_merged, write_profile, write_all, marshal_all,
  is_empty,
}

-- How often a text is in a list.
unfoldable pub times : Text → List Text → ℕ
times a [] = 0
times a (x ∷ xs) = let rest = times a xs in if text_eq x a then suc rest else rest

-- How many entries a list has for a key: at most one, if it stands for a map.
unfoldable pub entries {ℓ} : {V : Type ℓ} → Text → List (Text × V) → ℕ
entries a [] = 0
entries a ((x, v) ∷ m) = let rest = entries a m in if text_eq x a then suc rest else rest

abbrev pub IsMap {ℓ} : {V : Type ℓ} → List (Text × V) → Type 0
IsMap m = (a : Text) → entries a m ≤ 1

module _ {V : Type 0} where
  entries-insert :
      (k a : Text) (v : V) (m : List (Text × V))
      → entries a (insert k v m) ≤ (if text_eq k a && entries a m == 0 then 1 else entries a m)
  unfolding entries insert
  entries-insert k a v [] = ground arith
  entries-insert k a v ((x, w) ∷ m) =
      ground (arith, text_eq_iff k a, text_eq_iff x k, text_eq_iff x a, entries-insert k a v m)

  insert-IsMap : (k : Text) (v : V) (m : List (Text × V)) → IsMap m → IsMap (insert k v m)
  insert-IsMap k v m h a = ground (arith, entries-insert k a v m, h a)

  entries-delete :
      (k a : Text) (m : List (Text × V))
      → entries a (delete k m) ≡ (if text_eq k a then 0 else entries a m)
  unfolding entries delete
  entries-delete k a [] = ground arith
  entries-delete k a ((x, w) ∷ m) =
      ground (arith, text_eq_iff k a, text_eq_iff x k, text_eq_iff x a, entries-delete k a m)

  entries-lookup : (a : Text) (v : V) (m : List (Text × V)) → lookup a m ≡ some v → 0 < entries a m
  unfolding entries lookup
  entries-lookup a v [] h = ground (arith, h)
  entries-lookup a v ((x, w) ∷ m) h = ground (arith, h, entries-lookup a v m)

module _ {Err Prof : Type 0} where
  -- The buffers that were fetched are those that are closed and those that are left.
  abbrev Kept : List (Text × Buffer Err Prof) → Pages Err Prof → Type 0
  Kept fetched s = (a : Text) → times a s.closed + entries a s.profiles ≡ entries a fetched

  close_at-Kept :
      (fetched : List (Text × Buffer Err Prof)) (a : Text) (s : Pages Err Prof)
      → IsMap fetched
      → 0 < entries a s.profiles
      → Kept fetched s
      → Kept fetched (close_at a s)
  unfolding close_at times
  close_at-Kept fetched a s hm ha h b =
      ground (arith, h b, hm b, entries-delete a b s.profiles, text_eq_iff a b)

  times-close_rest :
      (a : Text) (m : List (Text × Buffer Err Prof)) (closed : List Text)
      → times a (close_rest m closed) ≡ times a closed + entries a m
  unfolding close_rest times entries
  times-close_rest a [] closed = omega arith
  times-close_rest a ((x, v) ∷ m) closed = ground (arith, times-close_rest a m (x ∷ closed))

  -- What the deferred function leaves.
  abbrev pub AllClosed : List (Text × Buffer Err Prof) → Outcome Err × Pages Err Prof → Type 0
  AllClosed fetched r = (a : Text) → times a r.1.closed ≡ entries a fetched

  finish-AllClosed :
      (fetched : List (Text × Buffer Err Prof)) (r : Outcome Err × Pages Err Prof)
      → Kept fetched r.1
      → AllClosed fetched (finish r)
  unfolding finish
  finish-AllClosed fetched (o, s) h a = times-close_rest a s.profiles s.closed ∙ h a

  collect-IsMap :
      (ss : List (Source Err Prof)) (m : List (Text × Buffer Err Prof))
      → IsMap m
      → IsMap (collect ss m)
  unfolding collect
  collect-IsMap [] m h = h
  collect-IsMap (s ∷ ss) m h =
      let plain : IsMap (collect ss m) = collect-IsMap ss m h in
      if_intro (IsMap {V = Buffer Err Prof}) s.running _ _
        (elim s.reply
          as (λ r. IsMap {V = Buffer Err Prof} (elim r [
            | err e ↦ collect ss m
            | ok (err e) ↦ collect ss m
            | ok (ok b) ↦ collect ss (insert s.addr b m)
          ])) [
            | err e ↦ plain
            | ok (err e) ↦ plain
            | ok (ok b) ↦ collect-IsMap ss (insert s.addr b m) (insert-IsMap s.addr b m h)
          ])
        plain

module _ (E : Errors) (Prof : Type 0) where
  open E use {Err}

  append_profile-Kept :
      (fetched : List (Text × Buffer Err Prof)) (a : Text) (b : Buffer Err Prof)
      (s : Pages Err Prof)
      → IsMap fetched
      → 0 < entries a s.profiles
      → Kept fetched s
      → Kept fetched (append_profile E Prof a b s).1
  unfolding append_profile close_at
  append_profile-Kept fetched a b s hm ha h c = ground (arith, close_at-Kept fetched a s hm ha h c)

  write_text-Kept :
      (fetched : List (Text × Buffer Err Prof)) (as' : List Text) (s : Pages Err Prof)
      → IsMap fetched
      → Kept fetched s
      → Kept fetched (write_text E Prof as' s).1
  unfolding write_text
  write_text-Kept fetched [] s hm h = h
  write_text-Kept fetched (a ∷ rest) s hm h = elim (Option-cases (lookup a s.profiles)) [
    | inl q ↦ λ c. ground (arith, q, write_text-Kept fetched rest s hm h c)
    | inr (b, q) ↦
        let s' : Pages Err Prof = (append_profile E Prof a b s).1 in
        let h' : Kept fetched s' =
          append_profile-Kept fetched a b s hm (entries-lookup a b s.profiles q) h in
        elim (Option-cases (append_profile E Prof a b s).0) [
          | inl r ↦ λ c. ground (arith, q, r, write_text-Kept fetched rest s' hm h' c)
          | inr (e, r) ↦ λ c. ground (arith, q, r, h' c)
        ]
  ]

  left :
      (fetched : List (Text × Buffer Err Prof)) (a : Text) (b : Buffer Err Prof) (c : Text)
      (rest : List (Text × Buffer Err Prof)) (s : Pages Err Prof)
      → IsMap fetched
      → Kept fetched s
      → entries c ((a, b) ∷ rest) ≤ entries c s.profiles
      → entries c rest ≤ entries c (close_at a s).profiles
  unfolding close_at entries
  left fetched a b c rest s hm h hs =
      ground (arith, hs, h c, hm c, entries-delete a c s.profiles, text_eq_iff a c)

  parse_each-Kept :
      (fetched m : List (Text × Buffer Err Prof)) (parsed : List Prof) (s : Pages Err Prof)
      → IsMap fetched
      → ((a : Text) → entries a m ≤ entries a s.profiles)
      → Kept fetched s
      → Kept fetched (parse_each E Prof m parsed s).1
  unfolding parse_each entries
  parse_each-Kept fetched [] parsed s hm hs h = h
  parse_each-Kept fetched ((a, b) ∷ rest) parsed s hm hs h =
      let here : 0 < entries a s.profiles = ground (arith, hs a, text_eq_refl a) in
      let h' : Kept fetched (close_at a s) = close_at-Kept fetched a s hm here h in
      let hs' : (c : Text) → entries c rest ≤ entries c (close_at a s).profiles =
        λ c. left fetched a b c rest s hm h (hs c) in
      elim (Result-cases b.parsed) [
        | inr (e, q) ↦ λ c. ground (arith, q, h' c)
        | inl (p, q) ↦ λ c.
            ground
              (arith, q, parse_each-Kept fetched rest (parsed ++ p ∷ []) (close_at a s) hm hs' h' c)
      ]

  write_merged-Kept :
      (fetched : List (Text × Buffer Err Prof)) (merge : List Prof → Result Err Prof)
      (print : Prof → Text × Option Err) (parsed : List Prof) (s : Pages Err Prof)
      → Kept fetched s
      → Kept fetched (write_merged E Prof merge print parsed s).1
  unfolding write_merged
  write_merged-Kept fetched merge print parsed s h c = ground (arith, h c)

  write_profile-Kept :
      (merge : List Prof → Result Err Prof) (print : Prof → Text × Option Err) (s : Pages Err Prof)
      (fetched : List (Text × Buffer Err Prof))
      → IsMap fetched
      → Kept fetched s
      → Kept fetched (write_profile E Prof merge print s).1
  unfolding write_profile
  write_profile-Kept merge print s fetched hm h =
      let s' : Pages Err Prof = (parse_each E Prof s.profiles [] s).1 in
      let h' : Kept fetched s' = parse_each-Kept fetched s.profiles [] s hm (λ a. omega arith) h in
      elim (Result-cases (parse_each E Prof s.profiles [] s).0) [
        | inr (e, q) ↦ λ c. ground (arith, q, h' c)
        | inl (ps, q) ↦ λ c. ground (arith, q, write_merged-Kept fetched merge print ps s' h' c)
      ]

  -- Each profile that is fetched is closed once: whatever fails to be copied, parsed, merged or
  -- written, and in whatever order the machines answer.
  pub marshal_all-AllClosed :
      (merge : List Prof → Result Err Prof) (print : Prof → Text × Option Err) (p : Profiler)
      (machines : List Text) (sources : List (Source Err Prof))
      → AllClosed (collect sources []) (marshal_all E Prof merge print p machines sources)
  unfolding marshal_all write_all times entries
  marshal_all-AllClosed merge print p machines sources =
      let fetched : List (Text × Buffer Err Prof) = collect sources [] in
      let s : Pages Err Prof = record { out = []; closed = []; profiles = fetched } in
      let hm : IsMap fetched = collect-IsMap sources [] (λ a. ground arith) in
      let h : Kept fetched s = λ a. omega arith in
      let text : Outcome Err × Pages Err Prof =
        if ltb 0 p.debug && not (text_eq p.which (codes "profiles"))
        then write_text E Prof (sort_by (λ a. a) machines) s
        else write_profile E Prof merge print s in
      let r : Outcome Err × Pages Err Prof =
        if is_empty E Prof fetched then (no_profiles, s) else text in
      let kept : Outcome Err × Pages Err Prof → Type 0 = λ x. Kept fetched x.1 in
      finish-AllClosed fetched r (
        if_intro kept (is_empty E Prof fetched) (no_profiles, s) text h
          (if_intro kept (ltb 0 p.debug && not (text_eq p.which (codes "profiles"))) _ _
            (write_text-Kept fetched (sort_by (λ a. a) machines) s hm h)
            (write_profile-Kept merge print s fetched hm h)))
