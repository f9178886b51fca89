-- ===== src/Machine/Timeouts.antt =====
-- machine.go: call, timeoutCall and retryCall with the deadlines of their contexts.
--
-- A context is its deadline, `none` for none. The client's Call and retry.Wait take a context and
-- the time, and return what they return and the time at which they do.
use bigmachine.Prelude.{
  ℕ, zero, suc, ◌+◌, ◌*◌, ◌≤◌, ◌<◌, ◌≡◌, refl, sym, ap, ◌∙◌, inl, inr, Option, none, some, [], ◌∷◌,
  Text, codes, if◌then◌else◌, ltb, arith, Bool-cases, Option-cases,
}
use mathlib.Core.Path.{subst}
use native.Mathlib.Decide.{dec_lt}
use bigmachine.Errors.{Errors, severity, cause, fatal}
use bigmachine.Machine.Retry.{Result, ok, err, Result-cases, is_fatal, fatal_calling}

abbrev minute : ℕ
minute = 60 * 1000000000

-- context.WithTimeout, at a time: the earlier one of the parent's deadline and the new one.
unfoldable pub with_timeout : ℕ → ℕ → Option ℕ → Option ℕ
with_timeout now timeout none = some (now + timeout)
with_timeout now timeout (some d) = some (if ltb d (now + timeout) then d else now + timeout)

-- A time is within a context's deadline.
abbrev pub Within : ℕ → Option ℕ → Type 0
Within t none = Unit {0}
Within t (some d) = t ≤ d

-- A call of a context's user, in the order: the context, the time.
abbrev pub Timed : Type 0 → Type 0
Timed A = Option ℕ → ℕ → A × ℕ

module _ (E : Errors) {R : Type 0} where
  open E use {Err, make}

  -- timeoutCall, for a call of a service method.
  unfoldable pub timeout_call : ℕ → Timed (Result Err R) → Timed (Result Err R)
  timeout_call timeout call ctx now = call (with_timeout now timeout ctx) now

  -- The rounds of retryCall, from a number of retries: `ctx` is the caller's context and
  -- `retry_ctx` the one of the overall timeout. `none` when the fuel runs out.
  unfoldable pub rounds :
      ℕ
      → (retries rpc_timeout : ℕ) (method : Text) (ctx retry_ctx : Option ℕ)
        (call : ℕ → Timed (Result Err R)) (wait : ℕ → Timed (Option Err)) (now : ℕ)
      → Option (Result Err R × ℕ)
  unfolding timeout_call
  rounds zero retries rpc_timeout method ctx retry_ctx call wait now = none
  rounds (suc fuel) retries rpc_timeout method ctx retry_ctx call wait now =
      let done = timeout_call rpc_timeout (call retries) ctx now in
      let waited = wait retries retry_ctx done.1 in
      let rest = rounds fuel (suc retries) rpc_timeout method ctx retry_ctx call wait waited.1 in
      elim done.0 [
        | ok r ↦ some (ok r, done.1)
        | err e ↦
            if is_fatal E e then some (err (fatal_calling E method e), done.1) else elim waited.0 [
              | some w ↦ some (err (make (severity fatal ∷ cause w ∷ [])), waited.1)
              | none ↦ rest
            ]
      ]

  -- retryCall.
  unfoldable pub retry_call_at :
      ℕ
      → (overall_timeout rpc_timeout : ℕ) (method : Text) (call : ℕ → Timed (Result Err R))
        (wait : ℕ → Timed (Option Err))
      → Option ℕ
      → ℕ
      → Option (Result Err R × ℕ)
  unfolding rounds
  retry_call_at fuel overall_timeout rpc_timeout method call wait ctx now =
      rounds fuel 0 rpc_timeout method ctx (with_timeout now overall_timeout ctx) call wait now

  -- Machine.ping.
  unfoldable pub ping :
      ℕ
      → (call : ℕ → Timed (Result Err R)) (wait : ℕ → Timed (Option Err)) → Option ℕ
      → ℕ
      → Option (Result Err R × ℕ)
  unfolding retry_call_at
  ping fuel call wait =
      retry_call_at fuel (9 * minute) (3 * minute) (codes "Supervisor.Ping") call wait

-- What returns by the deadline of its context, if it is called by then.
abbrev pub Honours : {A : Type 0} → Timed A → Type 0
Honours f = (ctx : Option ℕ) (now : ℕ) → Within now ctx → Within (f ctx now).1 ctx

-- A wait fails at once when its context is done.
abbrev pub FailsLate : {A : Type 0} → Timed (Option A) → Type 0
FailsLate {A} wait =
    (d now : ℕ)
    → d < now
    → ((wait (some d) now).1 ≡ now) × ((w : A) × ((wait (some d) now).0 ≡ some w))

with_timeout-start :
    (now timeout : ℕ) (ctx : Option ℕ) → Within now ctx → Within now (with_timeout now timeout ctx)
unfolding with_timeout
with_timeout-start now timeout none h = omega arith
with_timeout-start now timeout (some d) h = ground arith

with_timeout-end :
    (now timeout : ℕ) (ctx : Option ℕ) (t : ℕ)
    → Within t (with_timeout now timeout ctx)
    → (t ≤ now + timeout) × Within t ctx
unfolding with_timeout
with_timeout-end now timeout none t h = (h, tt)
with_timeout-end now timeout (some d) t h = (ground arith, ground arith)

-- There is always a deadline.
with_timeout-some :
    (now timeout : ℕ) (ctx : Option ℕ) → (d : ℕ) × (with_timeout now timeout ctx ≡ some d)
unfolding with_timeout
with_timeout-some now timeout none = (now + timeout, refl)
with_timeout-some now timeout (some d) = (if ltb d (now + timeout) then d else now + timeout, refl)

module _ (E : Errors) {R : Type 0} (method : Text) (rpc_timeout : ℕ) (ctx : Option ℕ)
    (call : ℕ → Timed (Result E.Err R)) (wait : ℕ → Timed (Option E.Err))
    (calls : (j : ℕ) → Honours (call j)) (waits : (j : ℕ) → Honours (wait j))
    (late : (j : ℕ) → FailsLate (wait j))
    (forward : (j : ℕ) (c : Option ℕ) (t : ℕ) → t ≤ (call j c t).1)
    (slow : (j : ℕ) (c : Option ℕ) (t : ℕ) → (wait j c t).0 ≡ none → t < (wait j c t).1) where
  open E use {Err, make}

  -- An attempt that starts by the deadline returns by it or within its own timeout.
  abbrev Returns : ℕ → Option (Result Err R × ℕ) → Type 0
  Returns d o =
      (r : Result Err R) × (t : ℕ) × (o ≡ some (r, t)) × (t ≤ d + rpc_timeout) × Within t ctx

  -- Where a wait after an attempt ends.
  wait-end :
      (n d t : ℕ)
      → t ≤ d + rpc_timeout
      → Within t ctx
      → ((u : ℕ) → u ≤ d → Within u ctx)
      → let waited = wait n (some d) t in
        (waited.1 ≤ d + rpc_timeout) × Within waited.1 ctx × (waited.0 ≡ none → waited.1 ≤ d)
  wait-end n d t h inside within = elim (dec_lt d t) [
    | yes q ↦
        let (at_once, (w, failed)) = late n d t q in
        (
          omega (arith, at_once),
          subst (λ u. Within u ctx) (sym at_once) inside,
          λ e. absurd (ground (arith, e, failed)),
        )
    | no q ↦
        let by_then = waits n (some d) t (omega arith) in
        (omega (arith, by_then), within _ by_then, λ e. by_then)
  ]

  rounds-total :
      (fuel n d now : ℕ)
      → d < now + fuel
      → now ≤ d
      → ((t : ℕ) → t ≤ d → Within t ctx)
      → Returns d (rounds E fuel n rpc_timeout method ctx (some d) call wait now)
  unfolding rounds timeout_call
  rounds-total zero n d now l le within = absurd (omega arith)
  rounds-total (suc fuel) n d now l le within =
      let c = with_timeout now rpc_timeout ctx in
      let done = call n c now in
      let waited = wait n (some d) done.1 in
      let in_rpc = calls n c now (with_timeout-start now rpc_timeout ctx (within now le)) in
      let (soon, inside) = with_timeout-end now rpc_timeout ctx done.1 in_rpc in
      let ended = wait-end n d done.1 (omega (arith, soon)) inside within in
      elim (Result-cases done.0) [
        | inl (r, p) ↦ (ok r, done.1, rw (rounds, p), omega (arith, soon), inside)
        | inr (e, p) ↦ elim (Bool-cases (is_fatal E e)) [
          | inl f ↦ (
            err (fatal_calling E method e),
            done.1,
            rw (rounds, p, f),
            omega (arith, soon),
            inside,
          )
          | inr f ↦ elim (Option-cases waited.0) [
            | inl q ↦
                let later = slow n (some d) done.1 q in
                let (r, t, same, bound, within_t) =
                  rounds-total fuel (suc n) d waited.1 (omega (arith, later, forward n c now))
                    (ended.2 q) within in
                (r, t, rw (rounds, p, f, q) same, bound, within_t)
            | inr (w, q) ↦ (
              err (make (severity fatal ∷ cause w ∷ [])),
              waited.1,
              rw (rounds, p, f, q),
              ended.0,
              ended.1,
            )
          ]
        ]
      ]

  -- With a policy that never gives up, as retry.Backoff, retryCall returns still, within its overall
  -- timeout and one attempt's timeout after its start and by the deadline of its context, after at most
  -- as many attempts as the overall timeout has nanoseconds and one, if it is called by that deadline,
  -- no attempt ends before it starts, each attempt and each wait returns by the deadline of its own
  -- context, a wait after that deadline fails at once, and one that does not fail takes some time. An
  -- attempt has the caller's context and may outlast the overall timeout.
  pub retry_call_at-total :
      (fuel overall_timeout now : ℕ)
      → overall_timeout < fuel
      → Within now ctx
      → (r : Result Err R) × (t : ℕ) × (retry_call_at E fuel overall_timeout rpc_timeout method call
            wait ctx now
          ≡ some (r, t))
        × (t ≤ now + overall_timeout + rpc_timeout)
        × Within t ctx
  unfolding retry_call_at
  retry_call_at-total fuel overall_timeout now l h =
      let (d, same) = with_timeout-some now overall_timeout ctx in
      let start = with_timeout-start now overall_timeout ctx h in
      let ends = with_timeout-end now overall_timeout ctx in
      let le : now ≤ d = subst (Within now) same start in
      let inside : (t : ℕ) → t ≤ d → (t ≤ now + overall_timeout) × Within t ctx =
        λ t q. ends t (subst (Within t) (sym same) q) in
      let (r, t, e, bound, within) =
        rounds-total fuel 0 d now (omega (arith, (inside d (omega arith)).0)) le
          (λ t q. (inside t q).1) in
      (
        r,
        t,
        ap (λ c. rounds E fuel 0 rpc_timeout method ctx c call wait now) same ∙ e,
        omega (arith, bound, (inside d (omega arith)).0),
        within,
      )
