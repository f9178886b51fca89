-- ===== src/Supervisor/Watchdog.antt =====
-- supervisor.go: the watchdog and the keepalives that hold it off.
--
-- Times are nanoseconds on one clock. A wake of the watchdog's loop comes with the readings of the
-- clock that the code takes, and with the share of memory in use, in thousandths of a percent.
use bigmachine.Prelude.{
  ℕ, ◌+◌, ◌-◌, ◌*◌, ◌≤◌, ◌≡◌, refl, Bool, true, false, Option, none, some, List, [], ◌∷◌, ◌++◌,
  if◌then◌else◌, ltb, leb, arith, All,
}
use bigmachine.Machine.Retry.{Result, ok, err}
use bigmachine.Supervisor.Uploads.{latest}

abbrev pub second : ℕ
second = 1000000000

abbrev pub mem_profile_period : ℕ
mem_profile_period = 60 * second

-- The case of the select that is taken.
pub data Source : Type 0 where
  tick : Source
  received : ℕ → Source
  ended : Source

pub record Wake (Err : Type 0) : Type 0 where
  pub source : Source
  -- time.Since(next), time.Since(lastMemProfile) and the time.Now() that ends the round.
  pub now : ℕ
  pub profile_now : ℕ
  pub profiled : ℕ
  -- mem.VirtualMemory().
  pub memory : Result Err ℕ

pub record Watchdog : Type 0 where
  pub next : ℕ
  -- `none` is the zero time.
  pub last_mem_profile : Option ℕ
  pub healthy : Bool
  -- The codes that system.Exit was called with, the latest first; Exit may return.
  pub exits : List ℕ

unfoldable pub start_watchdog : ℕ → Watchdog
start_watchdog now = record {
  next = now + 120 * second;
  last_mem_profile = none;
  healthy = true;
  exits = [];
}

abbrev pub is_stale : ℕ → Option ℕ → Bool
is_stale now none = true
is_stale now (some t) = ltb mem_profile_period (now - t)

abbrev pub sent : Source → Option ℕ
sent tick = none
sent (received t) = some t
sent ended = none

abbrev pub next_of : Option ℕ → ℕ → ℕ
next_of none next = next
next_of (some t) next = t

next_of-le :
    (o : Option ℕ) (next deadline : ℕ)
    → deadline ≤ next
    → ((t : ℕ) → o ≡ some t → deadline ≤ t)
    → deadline ≤ next_of o next
next_of-le none next deadline h hs = h
next_of-le (some t) next deadline h hs = hs t refl

abbrev pub goes_on : Source → Bool
goes_on tick = true
goes_on (received t) = true
goes_on ended = false

module _ {Err : Type 0} where
  -- The memory profile of a round.
  unfoldable pub profile : Wake Err → Watchdog → Watchdog
  profile w s =
      if is_stale w.profile_now s.last_mem_profile
      then elim w.memory [
        | err e ↦ s
        | ok used ↦ record s { healthy = leb used 95000; last_mem_profile = some w.profiled }
      ]
      else s

  -- A round of the loop that does not return.
  unfoldable pub wake : Wake Err → Watchdog → Watchdog
  unfolding profile
  wake w s =
      let next = next_of (sent w.source) s.next in
      let exits = if ltb next w.now then 1 ∷ s.exits else s.exits in
      profile w (record s { next = next; exits = exits })

  unfoldable pub watchdog : List (Wake Err) → Watchdog → Watchdog
  watchdog [] s = s
  watchdog (w ∷ ws) s = let rest = watchdog ws (wake w s) in if goes_on w.source then rest else s

  abbrev pub sent_by : Wake Err → Option ℕ
  sent_by w = sent w.source

  abbrev pub GoesOn : Wake Err → Type 0
  GoesOn w = goes_on w.source ≡ true

  pub wake-next : (w : Wake Err) (s : Watchdog) → (wake w s).next ≡ next_of (sent_by w) s.next
  unfolding wake profile
  wake-next w s = ground arith

  pub wake-exits :
      (w : Wake Err) (s : Watchdog)
      → (wake w s).exits ≡ (if ltb (wake w s).next w.now then 1 ∷ s.exits else s.exits)
  unfolding wake profile
  wake-exits w s = ground arith

  pub watchdog-next :
      (ws : List (Wake Err)) (s : Watchdog)
      → All GoesOn ws
      → (watchdog ws s).next ≡ latest sent_by s.next ws
  unfolding watchdog latest
  watchdog-next [] s h = refl
  watchdog-next (w ∷ ws) s h = ground (arith, watchdog-next ws (wake w s) h.1, wake-next w s, h.0)

  watchdog-append :
      (ws vs : List (Wake Err)) (s : Watchdog)
      → All GoesOn ws
      → watchdog (ws ++ vs) s ≡ watchdog vs (watchdog ws s)
  unfolding watchdog
  watchdog-append [] vs s h = refl
  watchdog-append (w ∷ ws) vs s h = ground (arith, watchdog-append ws vs (wake w s) h.1, h.0)

  -- While its context lives, the watchdog exits at a wake exactly when the clock is past the
  -- deadline of the latest keepalive that it received, or past the first deadline if it received
  -- none.
  pub watchdog-exits :
      (ws : List (Wake Err)) (w : Wake Err) (s : Watchdog)
      → All GoesOn ws
      → GoesOn w
      → (watchdog (ws ++ w ∷ []) s).exits ≡ (
          let before = (watchdog ws s).exits in
          if ltb (next_of (sent_by w) (latest sent_by s.next ws)) w.now then 1 ∷ before else before)
  unfolding watchdog
  watchdog-exits ws w s h hw = ground (
    arith,
    watchdog-append ws (w ∷ []) s h,
    wake-exits w (watchdog ws s),
    wake-next w (watchdog ws s),
    watchdog-next ws s h,
    hw,
  )

  -- Once a keepalive's deadline is received in time, no wake up to that deadline exits, if each
  -- later keepalive asks for no earlier deadline.
  pub watchdog-holds :
      (ws : List (Wake Err)) (s : Watchdog) (deadline : ℕ)
      → deadline ≤ s.next
      → All (λ w. (w.now ≤ deadline) × ((t : ℕ) → sent_by w ≡ some t → deadline ≤ t)) ws
      → (watchdog ws s).exits ≡ s.exits
  unfolding watchdog
  watchdog-holds [] s deadline h hs = refl
  watchdog-holds (w ∷ ws) s deadline h hs =
      let next_le : deadline ≤ (wake w s).next =
        ground (arith, wake-next w s, next_of-le (sent_by w) s.next deadline h hs.0.1) in
      ground (arith, wake-exits w s, hs.0.0, watchdog-holds ws (wake w s) deadline next_le hs.1)
