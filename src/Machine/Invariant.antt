-- ===== src/Machine/Invariant.antt =====
-- machine.go: what holds of a machine between two locked sections.
use bigmachine.Prelude.{
  ℕ, suc, ◌≡◌, refl, inl, inr, some, List, [], ◌∷◌, ◌++◌, if◌then◌else◌, All-append, All-remove,
  Below, remove, contains-Below, arith, Bool-cases,
}
use bigmachine.Machine.States.{State, unstarted, starting, running, stopped, state_leb}
use bigmachine.Machine.{Machine, triggered, kept, set_state, wait, context, release}
use bigmachine.Machine.Waiting.{
  Op, setting_state, setting_error, waiting, deriving_context, releasing, recording, apply,
  interfere, has_waiter-below,
}
use bigmachine.Machine.Valid.{
  Valid, IsValid, All-kept, kept-Ahead, Below-triggered, kept-Distinct, kept-Open, Below-suc,
  ChansBelow-suc, Distinct-append, Open-below,
}

module _ {Err : Type 0} (m : Machine Err) (v : IsValid m) where
  moved-Valid :
      (t : State) (cancelers canceled : List ℕ)
      → Below m.fresh cancelers
      → Below m.fresh canceled
      → (t ≡ stopped → cancelers ≡ [])
      → Valid t (kept t m.waiters) (triggered t m.waiters ++ m.closed) cancelers canceled m.fresh
  moved-Valid t cancelers canceled b d clear = record {
    ahead = kept-Ahead t m.waiters;
    distinct = kept-Distinct t m.waiters v.distinct;
    open_waiters = kept-Open t m.closed m.waiters v.distinct v.open_waiters;
    chans_below = All-kept _ t m.waiters v.chans_below;
    closed_below =
        All-append _ (triggered t m.waiters) m.closed
          (Below-triggered m.fresh t m.waiters v.chans_below) v.closed_below;
    cancelers_below = b;
    canceled_below = d;
    stopped_clear = clear;
  }

  set_state-IsValid : (t : State) → IsValid (set_state t m)
  unfolding set_state
  set_state-IsValid unstarted =
      moved-Valid unstarted _ _ v.cancelers_below v.canceled_below (λ e. cc)
  set_state-IsValid starting = moved-Valid starting _ _ v.cancelers_below v.canceled_below (λ e. cc)
  set_state-IsValid running = moved-Valid running _ _ v.cancelers_below v.canceled_below (λ e. cc)
  set_state-IsValid stopped =
      moved-Valid stopped [] _ tt
        (All-append _ m.cancelers m.canceled v.cancelers_below v.canceled_below) (λ e. refl)

  wait-IsValid : (t : State) → IsValid (wait t m).1
  unfolding wait
  wait-IsValid t = elim (Bool-cases (state_leb t m.state)) [
    | inl e ↦
        rw (e, if◌then◌else◌)
          (record {
            ahead = v.ahead;
            distinct = v.distinct;
            open_waiters = Open-below m.fresh m.closed m.waiters v.chans_below v.open_waiters;
            chans_below = ChansBelow-suc m.fresh m.waiters v.chans_below;
            closed_below = (omega arith, Below-suc m.fresh m.closed v.closed_below);
            cancelers_below = Below-suc m.fresh m.cancelers v.cancelers_below;
            canceled_below = Below-suc m.fresh m.canceled v.canceled_below;
            stopped_clear = v.stopped_clear;
          })
    | inr e ↦
        rw (e, if◌then◌else◌)
          (record {
            ahead = All-append _ m.waiters _ v.ahead (ground arith, tt);
            distinct =
                Distinct-append _ m.waiters (has_waiter-below m.fresh m.waiters v.chans_below)
                  v.distinct;
            open_waiters =
                All-append _ m.waiters _ v.open_waiters
                  (contains-Below m.fresh m.fresh m.closed v.closed_below (omega arith), tt);
            chans_below =
                All-append _ m.waiters _ (ChansBelow-suc m.fresh m.waiters v.chans_below)
                  (omega arith, tt);
            closed_below = Below-suc m.fresh m.closed v.closed_below;
            cancelers_below = Below-suc m.fresh m.cancelers v.cancelers_below;
            canceled_below = Below-suc m.fresh m.canceled v.canceled_below;
            stopped_clear = v.stopped_clear;
          })
  ]

  fresh-Valid :
      (cancelers canceled : List ℕ)
      → Below (suc m.fresh) cancelers
      → Below (suc m.fresh) canceled
      → (m.state ≡ stopped → cancelers ≡ [])
      → Valid m.state m.waiters m.closed cancelers canceled (suc m.fresh)
  fresh-Valid cancelers canceled b d clear = record {
    ahead = v.ahead;
    distinct = v.distinct;
    open_waiters = v.open_waiters;
    chans_below = ChansBelow-suc m.fresh m.waiters v.chans_below;
    closed_below = Below-suc m.fresh m.closed v.closed_below;
    cancelers_below = b;
    canceled_below = d;
    stopped_clear = clear;
  }

  context-IsValid : IsValid (context m).1
  unfolding context
  context-IsValid = elim (Bool-cases (state_leb stopped m.state)) [
    | inl e ↦
        rw (e, if◌then◌else◌)
          (fresh-Valid _ _ (Below-suc m.fresh m.cancelers v.cancelers_below)
            (omega arith, Below-suc m.fresh m.canceled v.canceled_below) v.stopped_clear)
    | inr e ↦
        rw (e, if◌then◌else◌)
          (fresh-Valid _ _ (omega arith, Below-suc m.fresh m.cancelers v.cancelers_below)
            (Below-suc m.fresh m.canceled v.canceled_below) (λ d. ground arith))
  ]

  release-IsValid : (c : ℕ) → IsValid (release c m)
  unfolding release
  release-IsValid c = record {
    ahead = v.ahead;
    distinct = v.distinct;
    open_waiters = v.open_waiters;
    chans_below = v.chans_below;
    closed_below = v.closed_below;
    cancelers_below = All-remove _ c m.cancelers v.cancelers_below;
    canceled_below = v.canceled_below;
    stopped_clear = λ e. rw (v.stopped_clear e) (unfold remove in refl);
  }

-- Each operation keeps the machine valid: the waiters are for states that are still ahead, on
-- open channels of their own, and a stopped machine has no context left to cancel.
pub apply-IsValid : {Err : Type 0} (o : Op Err) (m : Machine Err) → IsValid m → IsValid (apply o m)
unfolding apply
apply-IsValid (setting_state t) m v = set_state-IsValid m v t
apply-IsValid (setting_error e) m v = set_state-IsValid (record m { error = some e }) v stopped
apply-IsValid (waiting t) m v = wait-IsValid m v t
apply-IsValid deriving_context m v = context-IsValid m v
apply-IsValid (releasing c) m v = release-IsValid m v c
apply-IsValid (recording a b d) m v = v

-- Any sequence of operations on a machine keeps it well-formed: its waiters wait, on channels of
-- their own that are not closed, for states that are still ahead; all identifiers are below the next; and
-- a stopped machine has no cancelers.
pub interfere-IsValid :
    {Err : Type 0} (os : List (Op Err)) (m : Machine Err) → IsValid m → IsValid (interfere os m)
unfolding interfere
interfere-IsValid [] m v = v
interfere-IsValid (o ∷ os) m v = interfere-IsValid os (apply o m) (apply-IsValid o m v)
