-- ===== src/Machine/Waiting.antt =====
-- machine.go: what a channel of Wait promises, over any sequence of operations on the machine.
use bigmachine.Prelude.{
  ℕ, ◌<◌, ◌≡◌, refl, Bool, true, false, ◌||◌, ◌⊎◌, inl, inr, some, List, [], ◌∷◌, ◌++◌,
  if◌then◌else◌, ◌==◌, ==_refl, All, All-append, Below, contains, ◌∙◌, contains-append,
  contains-Below, arith, Bool-cases,
}
use bigmachine.Machine.States.{State, stopped, state_leb}
use bigmachine.Machine.{
  StateWaiter, Machine, triggered, kept, set_state, set_error, wait, context, release,
  record_keepalive,
}

-- The sections of code that run under the machine's lock, in the order in which they get it.
pub data Op (Err : Type 0) : Type 0 where
  setting_state : State → Op Err
  setting_error : Err → Op Err
  waiting : State → Op Err
  deriving_context : Op Err
  releasing : ℕ → Op Err
  recording : ℕ → ℕ → ℕ → Op Err

module _ {Err : Type 0} where
  unfoldable pub apply : Op Err → Machine Err → Machine Err
  unfolding set_state set_error wait context release record_keepalive
  apply (setting_state s) m = set_state s m
  apply (setting_error e) m = set_error e m
  apply (waiting s) m = (wait s m).1
  apply deriving_context m = (context m).1
  apply (releasing c) m = release c m
  apply (recording elapsed now next) m = record_keepalive elapsed now next m

  unfoldable pub interfere : List (Op Err) → Machine Err → Machine Err
  interfere [] m = m
  interfere (o ∷ os) m = interfere os (apply o m)

  -- Some operation moves the machine to the state or beyond.
  abbrev pub op_reaches : State → Op Err → Bool
  op_reaches s (setting_state t) = state_leb s t
  op_reaches s (setting_error e) = state_leb s stopped
  op_reaches s _ = false

  unfoldable pub reaches : State → List (Op Err) → Bool
  reaches s [] = false
  reaches s (o ∷ os) = op_reaches s o || reaches s os

-- Whether a waiter on the channel is registered.
unfoldable pub has_waiter : ℕ → List StateWaiter → Bool
has_waiter c [] = false
has_waiter c (w ∷ ws) = w.chan == c || has_waiter c ws

-- All waiters on the channel wait for one state.
abbrev pub WaitsFor : ℕ → State → List StateWaiter → Type 0
WaitsFor c s ws = All (λ w. w.chan ≡ c → w.state ≡ s) ws

abbrev pub ChansBelow : ℕ → List StateWaiter → Type 0
ChansBelow n ws = All (λ w. w.chan < n) ws

kept-WaitsFor :
    (c : ℕ) (s t : State) (ws : List StateWaiter) → WaitsFor c s ws → WaitsFor c s (kept t ws)
unfolding kept
kept-WaitsFor c s t [] h = tt
kept-WaitsFor c s t (w ∷ ws) h = elim (Bool-cases (state_leb w.state t)) [
  | inl e ↦ rw (e, if◌then◌else◌) (kept-WaitsFor c s t ws h.1)
  | inr e ↦ rw (e, if◌then◌else◌) (h.0, kept-WaitsFor c s t ws h.1)
]

contains-triggered :
    (c : ℕ) (s t : State) (ws : List StateWaiter)
    → WaitsFor c s ws
    → contains (triggered t ws) c ≡ (if state_leb s t then has_waiter c ws else false)
unfolding contains triggered has_waiter
contains-triggered c s t [] h = ground arith
contains-triggered c s t (w ∷ ws) h = ground (arith, contains-triggered c s t ws h.1)

has_waiter-kept :
    (c : ℕ) (s t : State) (ws : List StateWaiter)
    → WaitsFor c s ws
    → has_waiter c (kept t ws) ≡ (if state_leb s t then false else has_waiter c ws)
unfolding kept has_waiter
has_waiter-kept c s t [] h = ground arith
has_waiter-kept c s t (w ∷ ws) h = ground (arith, has_waiter-kept c s t ws h.1)

-- The channel was handed out by Wait for the state, and is closed or has a waiter.
pub record Tracks {Err : Type 0} (c : ℕ) (s : State) (m : Machine Err) : Type 0 where
  pub handed_out : c < m.fresh
  pub waits_for : WaitsFor c s m.waiters
  pub closed_or_waiting : (contains m.closed c ≡ true) ⊎ (has_waiter c m.waiters ≡ true)

pub has_waiter-append :
    (c : ℕ) (xs ys : List StateWaiter)
    → has_waiter c (xs ++ ys) ≡ (has_waiter c xs || has_waiter c ys)
unfolding has_waiter
has_waiter-append c [] ys = refl
has_waiter-append c (x ∷ xs) ys = ground (arith, has_waiter-append c xs ys)

pub has_waiter-below : (n : ℕ) (ws : List StateWaiter) → ChansBelow n ws → has_waiter n ws ≡ false
unfolding has_waiter
has_waiter-below n [] h = refl
has_waiter-below n (w ∷ ws) h = ground (arith, has_waiter-below n ws h.1)

WaitsFor-absent : (c : ℕ) (s : State) (ws : List StateWaiter) → ChansBelow c ws → WaitsFor c s ws
WaitsFor-absent c s [] h = tt
WaitsFor-absent c s (w ∷ ws) h = (λ e. absurd (omega (arith, e)), WaitsFor-absent c s ws h.1)

module _ {Err : Type 0} (c : ℕ) (s : State) (m : Machine Err) (k : Tracks c s m) where
  set_state-closed :
      (t : State) → contains (set_state t m).closed c ≡ (contains m.closed c || state_leb s t)
  unfolding set_state
  set_state-closed t = ground (
    arith,
    contains-append (triggered t m.waiters) m.closed c,
    contains-triggered c s t m.waiters k.waits_for,
    k.closed_or_waiting,
  )

  set_state-Tracks : (t : State) → Tracks c s (set_state t m)
  unfolding set_state
  set_state-Tracks t = record {
    handed_out = ground (arith, k.handed_out);
    waits_for = ground (arith, kept-WaitsFor c s t m.waiters k.waits_for);
    closed_or_waiting = ground (
      arith,
      contains-append (triggered t m.waiters) m.closed c,
      contains-triggered c s t m.waiters k.waits_for,
      has_waiter-kept c s t m.waiters k.waits_for,
      k.closed_or_waiting,
    );
  }

module _ {Err : Type 0} (c : ℕ) (s : State) where
  same-Tracks :
      (m m' : Machine Err)
      → m'.fresh ≡ m.fresh
      → m'.waiters ≡ m.waiters
      → m'.closed ≡ m.closed
      → Tracks c s m
      → Tracks c s m'
  same-Tracks m m' f w d k = record {
    handed_out = rw f k.handed_out;
    waits_for = rw w k.waits_for;
    closed_or_waiting = rw (d, w) k.closed_or_waiting;
  }

  apply-closed :
      (m : Machine Err) (o : Op Err)
      → Tracks c s m
      → contains (apply o m).closed c ≡ (contains m.closed c || op_reaches s o)
  unfolding apply contains
  apply-closed m (setting_state t) k = set_state-closed c s m k t
  apply-closed m (setting_error e) k =
      set_state-closed c s (record m { error = some e }) (same-Tracks m _ refl refl refl k) stopped
  apply-closed m (waiting t) k = ground (arith, k.handed_out)
  apply-closed m _ k = ground arith

  wait-Tracks : (m : Machine Err) (t : State) → Tracks c s m → Tracks c s (wait t m).1
  unfolding wait contains has_waiter
  wait-Tracks m t k = record {
    handed_out = ground (arith, k.handed_out);
    waits_for = elim (Bool-cases (state_leb t m.state)) [
      | inl e ↦ rw (e, if◌then◌else◌) k.waits_for
      | inr e ↦
          rw (e, if◌then◌else◌)
            (All-append _ m.waiters _ k.waits_for
              ((λ d. absurd (omega (arith, k.handed_out, d))), tt))
    ];
    closed_or_waiting = ground (
      arith,
      has_waiter-append c m.waiters (record { chan = m.fresh; state = t } ∷ []),
      k.closed_or_waiting,
    );
  }

  context-Tracks : (m : Machine Err) → Tracks c s m → Tracks c s (context m).1
  unfolding context
  context-Tracks m k = record {
    handed_out = ground (arith, k.handed_out);
    waits_for = elim (Bool-cases (state_leb stopped m.state)) [
      | inl e ↦ rw (e, if◌then◌else◌) k.waits_for
      | inr e ↦ rw (e, if◌then◌else◌) k.waits_for
    ];
    closed_or_waiting = ground (arith, k.closed_or_waiting);
  }

  apply-Tracks : (m : Machine Err) (o : Op Err) → Tracks c s m → Tracks c s (apply o m)
  unfolding apply
  apply-Tracks m (setting_state t) k = set_state-Tracks c s m k t
  apply-Tracks m (setting_error e) k =
      same-Tracks (set_state stopped (record m { error = some e })) _ refl refl refl (
        set_state-Tracks c s (record m { error = some e }) (same-Tracks m _ refl refl refl k)
          stopped)
  apply-Tracks m (waiting t) k = wait-Tracks m t k
  apply-Tracks m deriving_context k = context-Tracks m k
  apply-Tracks m (releasing d) k = same-Tracks m _ refl refl refl k
  apply-Tracks m (recording a b d) k = same-Tracks m _ refl refl refl k

  interfere-closed :
      (m : Machine Err) (os : List (Op Err))
      → Tracks c s m
      → contains (interfere os m).closed c ≡ (contains m.closed c || reaches s os)
  unfolding interfere reaches
  interfere-closed m [] k = ground arith
  interfere-closed m (o ∷ os) k =
      ground (arith, interfere-closed (apply o m) os (apply-Tracks m o k), apply-closed m o k)

-- A new channel is tracked.
new-Tracks :
    {Err : Type 0} (s : State) (m : Machine Err)
    → ChansBelow m.fresh m.waiters
    → Tracks (wait s m).0 s (wait s m).1
unfolding wait contains has_waiter
new-Tracks s m h = record {
  handed_out = ground arith;
  waits_for = elim (Bool-cases (state_leb s m.state)) [
    | inl e ↦ rw (e, if◌then◌else◌) (WaitsFor-absent m.fresh s m.waiters h)
    | inr e ↦
        rw (e, if◌then◌else◌)
          (All-append _ m.waiters _ (WaitsFor-absent m.fresh s m.waiters h) ((λ d. refl), tt))
  ];
  closed_or_waiting = ground (
    arith,
    has_waiter-append m.fresh m.waiters (record { chan = m.fresh; state = s } ∷ []),
    ==_refl m.fresh,
  );
}

-- A channel that Wait returns for a state is closed, after any later operations on the machine,
-- exactly when the machine had reached the state at the call or some operation moved it to the
-- state or beyond. The waiters' channels are taken to be below the next identifier.
pub wait-closed :
    {Err : Type 0} (s : State) (m : Machine Err) (os : List (Op Err))
    → ChansBelow m.fresh m.waiters
    → Below m.fresh m.closed
    → contains (interfere os (wait s m).1).closed (wait s m).0
      ≡ (state_leb s m.state || reaches s os)
wait-closed s m os h b =
    interfere-closed (wait s m).0 s (wait s m).1 os (new-Tracks s m h)
    ∙ unfold wait contains in
      ground (arith, contains-Below m.fresh m.fresh m.closed b, ==_refl m.fresh)
