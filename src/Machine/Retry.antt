-- ===== src/Machine/Retry.antt =====
-- machine.go: retryCall and RetryCall, the loops that retry a call until it succeeds, fails for
-- good, or the retry policy gives up.
--
-- `call n` is what the n-th attempt returns and `wait n` what `retry.Wait` returns after it; both
-- come from the environment (the RPC client, the clock and the contexts).
use bigmachine.Prelude.{
  ℕ, zero, suc, ◌+◌, ◌<◌, ◌≤◌, ◌≡◌, ◌↔◌, ◌⊎◌, refl, sym, Bool, true, false, not, inl, inr, Option,
  none, some, [], ◌∷◌, Text, codes, if◌then◌else◌, arith, ◌∙◌, Bool-cases, Option-cases,
}
use native.Mathlib.Decide.{dec_lt}
use bigmachine.Errors.{Errors, Laws, severity, message, cause, fatal}

pub data Result {ℓ} (Err : Type 0) (A : Type ℓ) : Type ℓ where
  ok : A → Result Err A
  err : Err → Result Err A

module _ (E : Errors) where
  open E use {Err, make, matches}

  -- errors.Match(errors.E(errors.Fatal), err).
  abbrev pub is_fatal : Err → Bool
  is_fatal e = matches (make (severity fatal ∷ [])) e

  abbrev pub fatal_calling : Text → Err → Err
  fatal_calling method e =
      make (message (codes "fatal error calling") ∷ message method ∷ cause e ∷ [])

module _ (E : Errors) {R : Type 0} where
  open E use {Err, make, is_temporary}

  -- What follows a failed attempt; `rest` is the next round.
  unfoldable pub after_failure :
      Text → Option Err → Option (Result Err R) → Err → Option (Result Err R)
  after_failure method waited rest e =
      if is_fatal E e
      then some (err (fatal_calling E method e))
      else elim waited [ some w ↦ some (err (make (severity fatal ∷ cause w ∷ []))) | none ↦ rest ]

  -- retryCall from the given number of retries; `none` when the fuel runs out.
  unfoldable pub retry_call :
      ℕ → ℕ → Text → (ℕ → Result Err R) → (ℕ → Option Err) → Option (Result Err R)
  unfolding after_failure
  retry_call zero retries method call wait = none
  retry_call (suc fuel) retries method call wait = elim (call retries) [
    | ok r ↦ some (ok r)
    | err e ↦
        let rest = retry_call fuel (suc retries) method call wait in
        after_failure method (wait retries) rest e
  ]

  -- RetryCall, whose attempts are Machine.Call.
  unfoldable pub retry_temporary :
      ℕ → ℕ → (ℕ → Result Err R) → (ℕ → Option Err) → Option (Result Err R)
  retry_temporary zero retries call wait = none
  retry_temporary (suc fuel) retries call wait = elim (call retries) [
    | ok r ↦ some (ok r)
    | err e ↦
        let rest = retry_temporary fuel (suc retries) call wait in
        if not (is_temporary e) then some (err e) else elim (wait retries) [
          | some w ↦ some (err (make (severity fatal ∷ cause w ∷ [])))
          | none ↦ rest
        ]
  ]

  -- The attempt fails with an error that is worth another attempt, and the policy allows one.
  abbrev pub Retriable : (ℕ → Result Err R) → (ℕ → Option Err) → ℕ → Type 0
  Retriable call wait n = (e : Err) × (call n ≡ err e) × (is_fatal E e ≡ false) × (wait n ≡ none)

pub Result-cases :
    {Err R : Type 0} (r : Result Err R) → ((a : R) × (r ≡ ok a)) ⊎ ((e : Err) × (r ≡ err e))
Result-cases (ok a) = inl (a, refl)
Result-cases (err e) = inr (e, refl)

module _ (E : Errors) {R : Type 0} (method : Text) (call : ℕ → Result E.Err R)
    (wait : ℕ → Option E.Err) where
  open E use {Err, make}

  -- The ways in which one attempt ends.
  data Attempt (n : ℕ) : Type 0 where
    succeeds : (r : R) → call n ≡ ok r → Attempt n
    fails : (e : Err) → call n ≡ err e → is_fatal E e ≡ true → Attempt n
    gives_up : (e w : Err) → call n ≡ err e → is_fatal E e ≡ false → wait n ≡ some w → Attempt n
    again : Retriable E call wait n → Attempt n

  attempt : (n : ℕ) → Attempt n
  attempt n = elim (Result-cases (call n)) [
    | inl (r, p) ↦ succeeds r p
    | inr (e, p) ↦ elim (Bool-cases (is_fatal E e)) [
      | inl f ↦ fails e p f
      | inr f ↦ elim (Option-cases (wait n)) [
        | inl q ↦ again (e, p, f, q)
        | inr (w, q) ↦ gives_up e w p f q
      ]
    ]
  ]

  abbrev run : ℕ → ℕ → Option (Result Err R)
  run fuel n = retry_call E fuel n method call wait

  run-again : (fuel n : ℕ) → Retriable E call wait n → run (suc fuel) n ≡ run fuel (suc n)
  unfolding retry_call
  run-again fuel n (e, p, f, q) = rw (p, retry_call, f, q)

  -- retryCall returns once the policy gives up: fuel past the attempt after which it does is enough.
  pub retry_call-total :
      (fuel n k : ℕ) (w : Err)
      → n ≤ k
      → k < n + fuel
      → wait k ≡ some w
      → (r : Result Err R) × (retry_call E fuel n method call wait ≡ some r)
  unfolding retry_call
  retry_call-total zero n k w h l e = absurd (omega arith)
  retry_call-total (suc fuel) n k w h l e = elim (attempt n) [
    | succeeds r p ↦ (ok r, rw (p, retry_call))
    | fails x p f ↦ (err (fatal_calling E method x), rw (p, retry_call, f))
    | gives_up x v p f q ↦ (err (make (severity fatal ∷ cause v ∷ [])), rw (p, retry_call, f, q))
    | again a ↦
        let next = retry_call-total fuel (suc n) k w (later a.3) (omega arith) e in
        (next.0, run-again fuel n a ∙ next.1)
  ]
    where
      later : wait n ≡ none → n < k
      later q = ground (arith, e, q)

  run_through :
      (fuel n k : ℕ)
      → n ≤ k
      → k < n + fuel
      → ((j : ℕ) → n ≤ j → j < k → Retriable E call wait j)
      → (r : R) → call k ≡ ok r
      → run fuel n ≡ some (ok r)
  unfolding retry_call
  run_through zero n k h l a r p = absurd (omega arith)
  run_through (suc fuel) n k h l a r p = elim (dec_lt n k) [
    | yes q ↦
        run-again fuel n (a n (omega arith) q)
        ∙ run_through fuel (suc n) k q (omega arith) (λ j u v. a j (omega arith) v) r p
    | no q ↦ let e : n ≡ k = omega arith in rw (e, p, retry_call)
  ]

  run_ok :
      (fuel n : ℕ) (r : R)
      → run fuel n ≡ some (ok r)
      → (k : ℕ) × (n ≤ k)
        × (k < n + fuel)
        × (call k ≡ ok r)
        × ((j : ℕ) → n ≤ j → j < k → Retriable E call wait j)
  unfolding retry_call
  run_ok zero n r e = cc
  run_ok (suc fuel) n r e = elim (attempt n) [
    | succeeds x p ↦ (n, omega arith, omega arith, ground arith, λ j u v. absurd (omega arith))
    | fails x p f ↦ absurd (ground arith)
    | gives_up x v p f q ↦ absurd (ground arith)
    | again a ↦
        let (k, h, l, p, b) = run_ok fuel (suc n) r (sym (run-again fuel n a) ∙ e) in
        (
          k,
          omega arith,
          omega arith,
          p,
          λ j u v. elim (dec_lt n j) [
            | yes q ↦ b j q v
            | no q ↦ let i : j ≡ n = omega arith in rw i a
          ],
        )
  ]

  -- retryCall returns a reply exactly when it is the reply of an attempt within the fuel before
  -- which every attempt failed with an error that is not fatal and the policy allowed another one.
  pub retry_call-ok_iff :
      (fuel : ℕ) (r : R)
      → (retry_call E fuel 0 method call wait ≡ some (ok r))
        ↔ ((k : ℕ) × (k < fuel) × (call k ≡ ok r) × ((j : ℕ) → j < k → Retriable E call wait j))
  retry_call-ok_iff fuel r = (
    λ e. let (k, _, l, p, b) = run_ok fuel 0 r e in (k, omega arith, p, λ j v. b j (omega arith) v),
    λ (k, l, p, b). run_through fuel 0 k (omega arith) (omega arith) (λ j u v. b j v) r p,
  )

  -- With a policy that gives up, RetryCall returns too, and an error that it returns is not
  -- temporary: another RetryCall would not retry it.
  pub retry_temporary-total :
      Laws E
      → (fuel n k : ℕ) (w : Err) → n ≤ k
      → k < n + fuel
      → wait k ≡ some w
      → (r : Result Err R) × (retry_temporary E fuel n call wait ≡ some r)
        × ((e : Err) → r ≡ err e → E.is_temporary e ≡ false)
  unfolding retry_temporary
  retry_temporary-total laws zero n k w h l e = absurd (omega arith)
  retry_temporary-total laws (suc fuel) n k w h l e = elim (Result-cases (call n)) [
    | inl (r, p) ↦ (ok r, rw (p, retry_temporary), λ x q. cc)
    | inr (x, p) ↦ elim (Bool-cases (E.is_temporary x)) [
      | inr f ↦ (err x, rw (p, retry_temporary, f), λ y q. ground arith)
      | inl f ↦ elim (Option-cases (wait n)) [
        | inr (v, q) ↦ (
          err (make (severity fatal ∷ cause v ∷ [])),
          rw (p, retry_temporary, f, q),
          λ y d. ground (arith, laws.fatal_not_temporary (cause v ∷ [])),
        )
        | inl q ↦
            let next = retry_temporary-total laws fuel (suc n) k w (ground arith) (omega arith) e in
            (next.0, rw (p, retry_temporary, f, q) next.1, next.2)
      ]
    ]
  ]
