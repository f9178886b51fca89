-- ===== src/Commands/Pi.antt =====
-- cmd/bigpi/bigpi.go: the estimate of π on a cluster.
--
-- A point is what two draws of the random source give; which points are inside the circle is a test
-- on floating-point numbers and a parameter.
use bigmachine.Prelude.{
  ℕ, zero, suc, ◌+◌, ◌*◌, ◌/◌, ◌%◌, ◌^◌, ◌≡◌, Bool, Option, none, some, List, [], ◌∷◌,
  if◌then◌else◌,
}
use bigmachine.Machine.Retry.{Result, ok, err}

-- A machine with its processors: for each, the error of its call, and the points that it draws.
pub record Worker (Err Point : Type 0) : Type 0 where
  pub maxprocs : ℕ
  pub failure : ℕ → Option Err
  pub draws : ℕ → ℕ → Point

module _ {Point : Type 0} (inside : Point → Bool) where
  -- Sample, from the i-th point, with the count so far.
  unfoldable pub sample_from : ℕ → ℕ → (ℕ → Point) → ℕ → ℕ
  sample_from zero i draws m = m
  sample_from (suc n) i draws m =
      let m' = if inside (draws i) then suc m else m in sample_from n (suc i) draws m'

  unfoldable pub sample : ℕ → (ℕ → Point) → ℕ
  unfolding sample_from
  sample n draws = sample_from n 0 draws 0

module _ {Err Point : Type 0} (inside : Point → Bool) where
  -- The calls to the processors of a machine, from the i-th: the first error, or the total, which is
  -- a uint64.
  unfoldable pub call_procs : ℕ → ℕ → ℕ → Worker Err Point → ℕ → Result Err ℕ
  unfolding sample
  call_procs per zero i w total = ok total
  call_procs per (suc procs) i w total =
      let rest =
        call_procs per procs (suc i) w ((total + sample inside per (w.draws i)) % 2 ^ 64) in
      elim (w.failure i) [ none ↦ rest | some e ↦ err e ]

  unfoldable pub call_machines : ℕ → List (Worker Err Point) → ℕ → Result Err ℕ
  unfolding call_procs
  call_machines per_machine [] total = ok total
  call_machines per_machine (w ∷ ws) total =
      elim (call_procs (per_machine / w.maxprocs) w.maxprocs 0 w total) [
        | err e ↦ err e
        | ok total' ↦ call_machines per_machine ws total'
      ]

  -- The rest of main, from the machines that Start returned: the total, or log.Fatal. A start of no
  -- machines is an error, so that the division is defined.
  unfoldable pub distribute : (nsamples nmachine : ℕ) → List (Worker Err Point) → Result Err ℕ
  unfolding call_machines
  distribute nsamples nmachine ws = call_machines (nsamples / nmachine) ws 0

-- The samples that are taken.
unfoldable pub samples_of : {Err Point : Type 0} → ℕ → List (Worker Err Point) → ℕ
samples_of per_machine [] = 0
samples_of per_machine (w ∷ ws) =
    (per_machine / w.maxprocs) * w.maxprocs + samples_of per_machine ws

unfoldable pub cores : {Err Point : Type 0} → List (Worker Err Point) → ℕ
cores [] = 0
cores (w ∷ ws) = w.maxprocs + cores ws

module _ {Err Point : Type 0} (inside : Point → Bool) where
  -- No call fails.
  abbrev pub Succeeds : Worker Err Point → Type 0
  Succeeds w = (i : ℕ) → w.failure i ≡ none
