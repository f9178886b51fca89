-- ===== src/Machine/Calls.antt =====
-- machine.go: Machine.Call, which waits for the machine to run, ties the call to the machine's
-- lifetime, and fails fast when the machine is stopped.
--
-- A Turn is one round of its loop as the environment plays it: the operations that other
-- goroutines perform on the machine between the steps of the round, what the RPC returns, and how
-- a wait ends.
pub mod Outcome
use bigmachine.Prelude.{
  ℕ, suc, ◌≡◌, refl, Bool, true, false, not, ◌||◌, ◌&&◌, ◌⊎◌, inl, inr, Option, none, some, List,
  [], ◌∷◌, Text, codes, if◌then◌else◌, contains, arith, Bool-cases, Option-cases,
}
use bigmachine.Errors.{Errors, Laws, Arg, severity, kind, message, cause, fatal, unavailable}
use bigmachine.Machine.States.{State, unstarted, starting, running, stopped, state_leb}
use bigmachine.Machine.{Machine, wait, context, release}
use bigmachine.Machine.Waiting.{Op, interfere, apply, waiting, deriving_context, releasing}
use bigmachine.Machine.Invariant.{apply-IsValid, interfere-IsValid}
use bigmachine.Machine.Valid.{IsValid}

pub record Turn (Err : Type 0) : Type 0 where
  -- Before the state is loaded, and before `m.context` takes the lock.
  pub before : List (Op Err)
  pub between : List (Op Err)
  -- While the RPC runs, what it returns (`none` for nil), and the caller's ctx.Err() then. If both
  -- contexts were canceled, `caller_first` tells which came first.
  pub during : List (Op Err)
  pub outcome : Option Err
  pub ctx_err : Option Err
  pub caller_first : Bool
  -- Before the state is loaded again.
  pub settling : List (Op Err)
  -- While Call waits for the machine to run; the error if it takes the case of ctx.Done().
  pub asleep : List (Op Err)
  pub done : Option Err

-- What Call returns, with the machine at that time.
pub record Returned (Err : Type 0) : Type 0 where
  pub error : Option Err
  pub machine : Machine Err

module _ (E : Errors) where
  open E use {Err, make, same, canceled}

  -- `==` between two errors, where nil is equal to nil alone.
  abbrev pub same_err : Option Err → Option Err → Bool
  same_err none none = true
  same_err (some a) (some b) = same a b
  same_err _ _ = false

  unfoldable pub ctx_call_err : ℕ → Turn Err → Machine Err → Option Err
  ctx_call_err c t m =
      let by_machine : Option Err = if contains m.canceled c then some canceled else none in
      elim t.ctx_err [
        | none ↦ by_machine
        | some e ↦ if contains m.canceled c && not t.caller_first then some canceled else some e
      ]

  unfoldable pub stopped_args : Text → Option Err → List (Arg Err)
  stopped_args addr none =
      kind unavailable ∷ message (codes "machine ") ∷ message addr ∷ message (codes " stopped") ∷ []
  stopped_args addr (some e) =
      kind unavailable
      ∷ message (codes "machine ")
      ∷ message addr
      ∷ message (codes " stopped")
      ∷ cause e
      ∷ []

  -- The case Stopped.
  unfoldable pub stopped_error : Machine Err → Err
  unfolding stopped_args
  stopped_error m = make (severity fatal ∷ stopped_args m.addr m.error)

  -- The case Running, up to the return or the fall through to Stopped.
  unfoldable pub call_running : Turn Err → Machine Err → Returned Err
  unfolding ctx_call_err stopped_error
  call_running t m =
      let (c, m1) = context (interfere t.between m) in
      let m2 = interfere t.during m1 in
      let ctx_err = ctx_call_err c t m2 in
      let m3 = interfere t.settling m2 in
      let keep =
        same_err t.outcome none
        || (not (same_err t.outcome ctx_err) || not (state_leb stopped m3.state)) in
      record { error = if keep then t.outcome else some (stopped_error m3); machine = release c m3 }

  -- How a round of the loop ends.
  pub data Round : Type 0 where
    returns : Returned Err → Round
    loops : Machine Err → Round
    blocks : Round

  -- The default case: wait for the machine to run, or for the caller's context.
  unfoldable pub await_running : Turn Err → Machine Err → Round
  await_running t m =
      let (c, m1) = wait running m in
      let m2 = interfere t.asleep m1 in
      elim t.done [
        | some e ↦ returns (record { error = some e; machine = m2 })
        | none ↦ if contains m2.closed c then loops m2 else blocks
      ]

  -- The switch on the state that was loaded.
  unfoldable pub round : State → Turn Err → Machine Err → Round
  unfolding call_running await_running
  round running t m = returns (call_running t m)
  round stopped t m = returns (record { error = some (stopped_error m); machine = m })
  round unstarted t m = await_running t m
  round starting t m = await_running t m

  -- The end of a round: return, or go round the loop.
  abbrev pub finish : (Machine Err → Option (Returned Err)) → Round → Option (Returned Err)
  finish rest (returns r) = some r
  finish rest (loops m) = rest m
  finish rest blocks = none

  -- Call over the turns that the environment plays; `none` if it is still waiting at their end.
  unfoldable pub call : List (Turn Err) → Machine Err → Option (Returned Err)
  unfolding round
  call [] m = none
  call (t ∷ ts) m = let m1 = interfere t.before m in finish (call ts) (round m1.state t m1)
