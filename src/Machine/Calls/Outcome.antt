-- ===== src/Machine/Calls/Outcome.antt =====
-- machine.go: what Machine.Call promises its callers.
use bigmachine.Prelude.{
  ◌≡◌, ap, ◌∙◌, true, ◌⊎◌, inl, inr, Option, none, some, List, [], ◌∷◌, if◌then◌else◌, contains,
  arith, Bool-cases,
}
use mathlib.Core.Path.{subst}
use mathlib.Core.Option.{some-injective}
use bigmachine.Errors.{Errors}
use bigmachine.Machine.States.{State, unstarted, starting, running, stopped}
use bigmachine.Machine.{Machine, wait, context}
use bigmachine.Machine.Waiting.{
  interfere, apply, waiting, deriving_context, releasing, reaches, wait-closed,
}
use bigmachine.Machine.Invariant.{apply-IsValid, interfere-IsValid}
use bigmachine.Machine.Valid.{IsValid}
use bigmachine.Machine.Calls.{
  Turn, Returned, Round, returns, loops, blocks, call_running, await_running, round, finish, call,
}

-- Some element satisfies the predicate.
abbrev pub Any {ℓ} : {A : Type ℓ} → (A → Type 0) → List A → Type 0
Any P [] = ⊥
Any P (x ∷ xs) = P x ⊎ Any P xs

module _ (E : Errors) where
  open E use {Err, make, canceled}

  abbrev RoundIsValid : Round E → Type 0
  RoundIsValid (returns r) = IsValid r.machine
  RoundIsValid (loops m) = IsValid m
  RoundIsValid blocks = Unit {0}

  call_running-IsValid :
      (t : Turn Err) (m : Machine Err) → IsValid m → IsValid (call_running E t m).machine
  unfolding call_running apply
  call_running-IsValid t m v =
      let m0 = interfere t.between m in
      let m1 = (context m0).1 in
      let m2 = interfere t.during m1 in
      let m3 = interfere t.settling m2 in
      apply-IsValid (releasing (context m0).0) m3 (
        interfere-IsValid t.settling m2 (
          interfere-IsValid t.during m1
            (apply-IsValid deriving_context m0 (interfere-IsValid t.between m v))))

  await_running-IsValid :
      (t : Turn Err) (m : Machine Err) → IsValid m → RoundIsValid (await_running E t m)
  unfolding await_running apply
  await_running-IsValid t m v = after t.done
    where
      m2 : Machine Err
      m2 = interfere t.asleep (wait running m).1

      w : IsValid m2
      w = interfere-IsValid t.asleep (wait running m).1 (apply-IsValid (waiting running) m v)

      after :
          (done : Option Err)
          → RoundIsValid (elim done [
            | some e ↦ returns (record { error = some e; machine = m2 })
            | none ↦ if contains m2.closed (wait running m).0 then loops m2 else blocks
          ])
      after (some e) = w
      after none = elim (Bool-cases (contains m2.closed (wait running m).0)) [
        | inl p ↦ rw p w
        | inr p ↦ rw p tt
      ]

  round-IsValid :
      (s : State) (t : Turn Err) (m : Machine Err) → IsValid m → RoundIsValid (round E s t m)
  unfolding round
  round-IsValid running t m v = call_running-IsValid t m v
  round-IsValid stopped t m v = v
  round-IsValid unstarted t m v = await_running-IsValid t m v
  round-IsValid starting t m v = await_running-IsValid t m v

  -- Whatever Call does with a valid machine, and the others do meanwhile, it leaves a valid one.
  pub call-IsValid :
      (ts : List (Turn Err)) (m : Machine Err) (r : Returned Err)
      → IsValid m
      → call E ts m ≡ some r
      → IsValid r.machine
  unfolding call
  call-IsValid [] m r v e = cc
  call-IsValid (t ∷ ts) m r v e =
      after (round E m1.state t m1) (round-IsValid m1.state t m1 w) (call-IsValid ts) e
    where
      m1 : Machine Err
      m1 = interfere t.before m

      w : IsValid m1
      w = interfere-IsValid t.before m v

      after :
          (o : Round E)
          → RoundIsValid o
          → ((m' : Machine Err) (r' : Returned Err)
              → IsValid m'
              → call E ts m' ≡ some r'
              → IsValid r'.machine)
          → finish E (call E ts) o ≡ some r
          → IsValid r.machine
      after (returns x) u ih d = subst (λ y. IsValid y.machine) (some-injective x r d) u
      after (loops m2) u ih d = ih m2 r u d
      after blocks u ih d = cc

  -- Call goes on as soon as the machine runs: in a round that found the machine not yet started or
  -- starting, and whose caller does not give up, some operation that moves the machine to Running
  -- or beyond ends the wait.
  pub await_running-wakes :
      (t : Turn Err) (m : Machine Err)
      → IsValid m
      → t.done ≡ none
      → reaches running t.asleep ≡ true
      → await_running E t m ≡ loops (interfere t.asleep (wait running m).1)
  unfolding await_running
  await_running-wakes t m v alive moved =
      ground (arith, wait-closed running m t.asleep v.chans_below v.closed_below)

  -- A round returns no error only if its RPC returned none.
  abbrev NilOutcome : Turn Err → Round E → Type 0
  NilOutcome t (returns r) = r.error ≡ none → t.outcome ≡ none
  NilOutcome t _ = Unit {0}

  await_running-NilOutcome : (t : Turn Err) (m : Machine Err) → NilOutcome t (await_running E t m)
  unfolding await_running
  await_running-NilOutcome t m = ground arith

  round-NilOutcome : (s : State) (t : Turn Err) (m : Machine Err) → NilOutcome t (round E s t m)
  unfolding round call_running
  round-NilOutcome running t m = λ h. ground arith
  round-NilOutcome stopped t m = λ h. cc
  round-NilOutcome unstarted t m = await_running-NilOutcome t m
  round-NilOutcome starting t m = await_running-NilOutcome t m

  -- Call returns no error only if some RPC that it made returned none.
  pub call_nil :
      (ts : List (Turn Err)) (m : Machine Err) (r : Returned Err)
      → call E ts m ≡ some r
      → r.error ≡ none
      → Any (λ t. t.outcome ≡ none) ts
  unfolding call
  call_nil [] m r e n = cc
  call_nil (t ∷ ts) m r e n =
      let m1 = interfere t.before m in
      after (round E m1.state t m1) (round-NilOutcome m1.state t m1) (λ m' d. call_nil ts m' r d n)
        e
    where
      after :
          (o : Round E)
          → NilOutcome t o
          → ((m' : Machine Err) → call E ts m' ≡ some r → Any (λ x. x.outcome ≡ none) ts)
          → finish E (call E ts) o ≡ some r
          → Any (λ x. x.outcome ≡ none) (t ∷ ts)
      after (returns x) u ih d = inl (u (ap (λ y. y.error) (some-injective x r d) ∙ n))
      after (loops m2) u ih d = inr (ih m2 d)
      after blocks u ih d = cc
