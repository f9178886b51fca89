-- ===== src/Local/Failures.antt =====
-- local.go: the processes that Start leaves.
use bigmachine.Prelude.{
  ℕ, suc, ◌+◌, ◌≡◌, refl, ap, ◌∙◌, Option, none, some, List, [], ◌∷◌, Text, if◌then◌else◌, length,
  arith, ◌==◌, Option-cases, inl, inr,
}
use bigmachine.Machine.Retry.{Result, ok, err, Result-cases}
use bigmachine.Local.{
  LocalSystem, Launch, Started, start, process_env, url_of, with_muxer, with_process, and_rest,
}

module _ {Err : Type 0} where
  -- The processes that are started before the first failure.
  unfoldable pub n_started : List (Launch Err) → ℕ
  n_started [] = 0
  n_started (l ∷ ls) =
      let rest = n_started ls in
      elim l.port [ err e ↦ 0 | ok p ↦ elim l.started [ some e ↦ 0 | none ↦ suc rest ] ]

  -- How many machines Start returns, if it does not fail.
  abbrev pub n_returned : Result Err (List Started) → Option ℕ
  n_returned (ok ms) = some (length ms)
  n_returned (err e) = none

module _ {Err A : Type 0} where
  and_rest_state :
      (m : Started) (r : Result Err (List Started) × LocalSystem A) → (and_rest m r).1 ≡ r.1
  and_rest_state m (ok ms, s) = refl
  and_rest_state m (err e, s) = refl

  and_rest_returned :
      (m : Started) (r : Result Err (List Started) × LocalSystem A) (n k : ℕ)
      → n_returned r.0 ≡ (if n == k then some n else none)
      → n_returned (and_rest m r).0 ≡ (if suc n == suc k then some (suc n) else none)
  and_rest_returned m (ok ms, s) n k h = ground (arith, h)
  and_rest_returned m (err e, s) n k h = ground (arith, h)

  -- Start leaves the processes that it started before a failure, and returns all machines or none: one
  -- that fails in the middle leaves processes that no machine stands for.
  pub start-processes :
      (environ : List Text) (ls : List (Launch Err)) (s : LocalSystem A)
      → (length (start environ ls s).1.processes ≡ n_started ls + length s.processes)
        × (n_returned (start environ ls s).0
            ≡ (if n_started ls == length ls then some (n_started ls) else none))
  unfolding start n_started
  start-processes environ [] s = (omega arith, ground arith)
  start-processes environ (l ∷ ls) s = elim (Result-cases l.port) [
    | inr (e, q) ↦ (ground (arith, q), ground (arith, q))
    | inl (port, q) ↦ elim (Option-cases l.started) [
      | inr (e, r) ↦ (ground (arith, q, r), ground (arith, q, r))
      | inl r ↦
          let s' : LocalSystem A =
            with_process (process_env environ s.authority_filename port) (with_muxer s) in
          let ih = start-processes environ ls s' in
          let m : Started = record { id = s.fresh; addr = url_of port; maxprocs = 1 } in
          let left = ap (λ t. length t.processes) (and_rest_state m (start environ ls s')) in
          (
            rw (q, r) (left ∙ ih.0 ∙ omega arith),
            rw (q, r) (and_rest_returned m (start environ ls s') (n_started ls) (length ls) ih.1),
          )
    ]
  ]
