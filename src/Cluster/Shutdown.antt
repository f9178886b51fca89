-- ===== src/Cluster/Shutdown.antt =====
-- bigmachine.go: shutdownAllMachines, how a session's machines are told to exit and waited for.
--
-- The calls and the times at which the channels are closed are arguments; times count from the end
-- of the calls.
use bigmachine.Prelude.{
  ℕ, ◌*◌, ◌^◌, ◌≤◌, ◌≡◌, refl, Bool, true, false, Option, none, some, List, [], ◌∷◌, Text,
  if◌then◌else◌, ltb, arith, All, ◌++◌,
}

-- shutdownRequest.
pub record ShutdownRequest : Type 0 where
  pub delay : ℕ
  pub message : Text

-- A machine of Machines(): `tail_done` is `none` for the nil channel of a machine that was dialed,
-- and otherwise tells when the channel is closed, if ever.
pub record Member : Type 0 where
  pub addr : Text
  pub tail_done : Option (Option ℕ)

-- The calls of the first loop, each made whatever the others return.
unfoldable pub shutdown_calls : Text → List Member → List (Text × ShutdownRequest)
shutdown_calls marker [] = []
shutdown_calls marker (m ∷ ms) =
    (m.addr, record { delay = 10 ^ 9; message = marker }) ∷ shutdown_calls marker ms

-- The `select` of a goroutine: how long it waits, and whether it logs that the time has passed.
unfoldable pub wait_tail : ℕ → Option (Option ℕ) → ℕ × Bool
wait_tail duration none = (duration, true)
wait_tail duration (some none) = (duration, true)
wait_tail duration (some (some t)) = if ltb t duration then (t, false) else (duration, true)

abbrev pub max : ℕ → ℕ → ℕ
max a b = if ltb a b then b else a

-- wg.Wait: the longest of the waits, and the addresses that are logged.
unfoldable pub wait_tails : ℕ → List Member → ℕ × List Text
unfolding wait_tail
wait_tails duration [] = (0, [])
wait_tails duration (m ∷ ms) =
    let (t, late) = wait_tail duration m.tail_done in
    let (rest, logged) = wait_tails duration ms in
    (max t rest, if late then m.addr ∷ logged else logged)

-- shutdownAllMachines: its calls, how long it waits after them, and the addresses that it logs.
unfoldable pub shutdown_all : ℕ → Text → List Member → List (Text × ShutdownRequest) × ℕ × List Text
unfolding shutdown_calls wait_tails
shutdown_all duration marker ms =
    let (t, logged) = wait_tails duration ms in (shutdown_calls marker ms, t, logged)

-- B.Shutdown, up to the system's.
unfoldable pub shutdown : Text → List Member → List (Text × ShutdownRequest) × ℕ × List Text
unfolding shutdown_all
shutdown marker ms = shutdown_all (20 * 10 ^ 9) marker ms

-- Every machine has a channel that was closed by then.
abbrev pub ClosedBy : ℕ → List Member → Type 0
ClosedBy t ms = All (λ m. (u : ℕ) × (m.tail_done ≡ some (some u)) × (u ≤ t)) ms

-- How a wait ends: every channel is closed and nothing is logged; or a machine is logged, and all
-- of the duration has passed.
pub data Ended (duration : ℕ) (ms : List Member) : ℕ → List Text → Type 0 where
  closed : (t : ℕ) → t ≤ duration → ClosedBy t ms → Ended duration ms t []
  timed_out : (a : Text) (logged : List Text) → Ended duration ms duration (a ∷ logged)

logged_dialed :
    (duration : ℕ) (ms : List Member) (m : Member)
    → m.tail_done ≡ none
    → ¬ ((wait_tails duration (ms ++ m ∷ [])).1 ≡ [])
unfolding wait_tails wait_tail
logged_dialed duration [] m h = ground (arith, h)
logged_dialed duration (n ∷ ms) m h = ground (arith, logged_dialed duration ms m h)

bounded_lem : (duration : ℕ) (ms : List Member) → (wait_tails duration ms).0 ≤ duration
unfolding wait_tails wait_tail
bounded_lem duration [] = omega arith
bounded_lem duration (m ∷ ms) = ground (arith, bounded_lem duration ms)

timed_out_lem :
    (duration : ℕ) (ms : List Member)
    → ¬ ((wait_tails duration ms).1 ≡ [])
    → (wait_tails duration ms).0 ≡ duration
unfolding wait_tails wait_tail
timed_out_lem duration [] h = absurd (h refl)
timed_out_lem duration (m ∷ ms) h =
    ground (arith, h, bounded_lem duration ms, timed_out_lem duration ms)

-- A machine that was dialed has no channel, so that one of them makes Shutdown wait for all of its
-- 20 seconds, whatever the others do.
pub shutdown-dialed :
    (marker : Text) (ms : List Member) (m : Member)
    → m.tail_done ≡ none
    → (shutdown marker (ms ++ m ∷ [])).1 ≡ 20 * 10 ^ 9
unfolding shutdown shutdown_all
shutdown-dialed marker ms m h =
    timed_out_lem (20 * 10 ^ 9) (ms ++ m ∷ []) (logged_dialed (20 * 10 ^ 9) ms m h)
