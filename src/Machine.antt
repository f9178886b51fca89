-- ===== src/Machine.antt =====
-- machine.go: the state of a Machine and the operations that hold its lock.
--
-- A channel and a context are identifiers, drawn from `fresh`; `closed` holds the channels that
-- were closed and `canceled` the contexts that were canceled. The fields `client`, `cancel` and
-- `event` are functions of the environment; what they are called with is in `events`.
pub mod States
pub mod Waiting
pub mod Contexts
pub mod Valid
pub mod Invariant
pub mod Latencies
pub mod Retry
pub mod Timeouts
pub mod Dumps
pub mod Beginning
pub mod Calls
pub mod Loop
pub mod Exec
pub mod Ooms
pub mod Tails
use bigmachine.Prelude.{
  ℕ, suc, ◌+◌, ◌-◌, ◌%◌, ◌≡◌, Bool, true, false, Option, none, some, List, [], ◌∷◌, ◌++◌, Text,
  if◌then◌else◌, ltb, leb, length, get_or, set, remove,
}
use States.{State, unstarted, starting, running, stopped, state_leb}

-- `chan struct{}` with the state that it waits for.
pub record StateWaiter : Type 0 where
  pub chan : ℕ
  pub state : State

pub data Event (Err : Type 0) : Type 0 where
  machine_alive : Text → Event Err
  machine_stop : Text → Event Err
  machine_error : Text → Err → Event Err

pub record Machine (Err : Type 0) : Type 0 where
  pub addr : Text
  pub no_exec : Bool
  pub services : List (Text × ℕ)
  pub environ : List Text
  pub owner : Bool
  pub state : State
  pub error : Option Err
  pub waiters : List StateWaiter
  pub cancelers : List ℕ
  pub next_keepalive : ℕ
  pub num_keepalive : ℕ
  pub keepalive_reply_times : List ℕ
  pub closed : List ℕ
  pub canceled : List ℕ
  pub fresh : ℕ
  pub events : List (Event Err)

-- numKeepaliveReplyTimes.
abbrev pub num_keepalive_reply_times : ℕ
num_keepalive_reply_times = 10

-- The loop of setState: the channels of the waiters that are served, and the waiters that stay.
unfoldable pub triggered : State → List StateWaiter → List ℕ
triggered s [] = []
triggered s (w ∷ ws) =
    let rest = triggered s ws in if state_leb w.state s then w.chan ∷ rest else rest

unfoldable pub kept : State → List StateWaiter → List StateWaiter
kept s [] = []
kept s (w ∷ ws) = let rest = kept s ws in if state_leb w.state s then rest else w ∷ rest

-- `for i := range times`, with the index i counting up to the n rounds.
unfoldable pub collect_times : ℕ → ℕ → ℕ → ℕ → List ℕ → List ℕ
collect_times ℕ.zero i n num times = []
collect_times (suc rounds) i n num times =
    get_or times ((num - i - 1) % n) 0 ∷ collect_times rounds (suc i) n num times

module _ {Err : Type 0} where
  -- `if s >= Stopped { ... }`.
  unfoldable pub cancel_all : Machine Err → Machine Err
  cancel_all m = record m {
    canceled = m.cancelers ++ m.canceled;
    cancelers = [];
    events = machine_stop m.addr ∷ m.events;
  }

  unfoldable pub set_state : State → Machine Err → Machine Err
  unfolding triggered kept cancel_all
  set_state s m =
      let m' = record m { waiters = kept s m.waiters; state = s } in
      let m'' = if state_leb stopped s then cancel_all m' else m' in
      record m'' { closed = triggered s m.waiters ++ m''.closed }

  unfoldable pub set_error : Err → Machine Err → Machine Err
  unfolding set_state
  set_error e m =
      let m' = set_state stopped (record m { error = some e }) in
      record m' { events = machine_error m.addr e ∷ m'.events }

  -- Wait: the channel, closed already if the state is reached.
  unfoldable pub wait : State → Machine Err → ℕ × Machine Err
  wait s m =
      let c = m.fresh in
      let m' = record m { fresh = suc c } in
      (
        c,
        if state_leb s m.state
            then record m' { closed = c ∷ m.closed }
            else record m' { waiters = m.waiters ++ (record { chan = c; state = s }) ∷ [] },
      )

  -- context: a derived context that is canceled when the machine stops.
  unfoldable pub context : Machine Err → ℕ × Machine Err
  context m =
      let c = m.fresh in
      let m' = record m { fresh = suc c } in
      (
        c,
        if state_leb stopped m.state
            then record m' { canceled = c ∷ m.canceled }
            else record m' { cancelers = c ∷ m.cancelers },
      )

  -- The function that `context` returns.
  unfoldable pub release : ℕ → Machine Err → Machine Err
  release c m = record m { cancelers = remove c m.cancelers }

  -- The locked section of the keepalive loop: `now` is time.Now(), `elapsed` time.Since(callStart).
  unfoldable pub record_keepalive : ℕ → ℕ → ℕ → Machine Err → Machine Err
  record_keepalive elapsed now next m = record m {
    keepalive_reply_times =
        set m.keepalive_reply_times (m.num_keepalive % length m.keepalive_reply_times) elapsed;
    num_keepalive = suc m.num_keepalive;
    next_keepalive = now + next;
  }

  unfoldable pub keepalive_reply_times : Machine Err → List ℕ
  unfolding collect_times
  keepalive_reply_times m =
      let len = length m.keepalive_reply_times in
      let n = if ltb m.num_keepalive len then m.num_keepalive else len in
      collect_times n 0 n m.num_keepalive m.keepalive_reply_times
