-- ===== src/Supervisor/Upkeep.antt =====
-- machine.go and supervisor.go: the driver's keepalive loop against the watchdog of its machine.
--
-- Both sides read one clock: the code compares readings of the same machine only. The steps of an
-- exchange take the time that the environment says, the pause between two is the code's.
use bigmachine.Prelude.{
  ℕ, suc, ◌+◌, ◌-◌, ◌*◌, ◌/◌, ◌≤◌, ◌≡◌, refl, ◌∙◌, Bool, true, false, none, some, List, [], ◌∷◌,
  if◌then◌else◌, ltb, length, arith, All, All-imp,
}
use bigmachine.Errors.{Errors}
use bigmachine.Machine.{Machine, record_keepalive}
use bigmachine.Machine.Waiting.{interfere}
use bigmachine.Machine.Retry.{Result, ok, err}
use bigmachine.Machine.Loop.{Beat, failed, replied, going, alive, keepalive_loop}
use bigmachine.Supervisor.Watchdog.{second, Wake, Watchdog, tick, watchdog}
use bigmachine.Supervisor.Keepalive.{
  ℤ, pos, negsuc, until, KeepaliveReply, taken, keepalive, keepalive-holds,
}

-- `const keepalive` of Machine.loop.
abbrev pub keepalive_interval : ℕ
keepalive_interval = 300 * second

-- The wait for nextc: a timer with a duration that is not positive fires at once.
unfoldable pub pause : ℕ → ℤ → ℕ
pause period (pos next) = (if ltb period next then period else next) / 2
pause period (negsuc _) = 0

-- A keepalive call that succeeds: how long its steps take, the watchdog's round that takes it, and
-- the later rounds up to that of the next call.
pub record Exchange (Err : Type 0) : Type 0 where
  -- From callStart to the time.Now() of Supervisor.Keepalive, with the failed attempts, none of which reaches it.
  pub there : ℕ
  -- From there to the watchdog's time.Since(next).
  pub taking : ℕ
  -- From there to the time.Until(t) of the reply.
  pub replying : ℕ
  -- From there to the driver's time.After.
  pub back : ℕ
  -- From there to the loop's select, if the reply tells that the machine is unhealthy: the loop itself
  -- takes the profile and the expvars (Machine.Dumps.take_dumps).
  pub dumping : ℕ
  pub round : Wake Err
  pub fresh : Bool
  pub ticks : List (Wake Err)

pause-le : (period t now : ℕ) → now ≤ t → pause period (until t now) * 2 ≤ t - now
unfolding pause until
pause-le period t now h = ground arith

-- m.nextKeepalive is `now` and the time that the reply tells, which may be negative.
abbrev replied_beat : {Err : Type 0} → Bool → ℕ → ℕ → ℤ → Beat Err
replied_beat healthy elapsed now (pos n) =
    replied [] elapsed now n (if healthy then none else some []) [] none
replied_beat healthy elapsed now (negsuc n) =
    replied [] elapsed (now - suc n) 0 (if healthy then none else some []) [] none

module _ {Err : Type 0} where
  abbrev pub arrives : Exchange Err → ℕ → ℕ
  arrives x start = start + x.there

  abbrev pub taken_at : Exchange Err → ℕ → ℕ
  taken_at x start = arrives x start + x.taking

  abbrev pub replied_at : Exchange Err → ℕ → ℕ
  replied_at x start = taken_at x start + x.replying

  abbrev pub heard_at : Exchange Err → ℕ → ℕ
  heard_at x start = replied_at x start + x.back

  -- Supervisor.Keepalive, called with the driver's interval.
  unfoldable pub exchange : Exchange Err → ℕ → Watchdog → Result Err KeepaliveReply × Watchdog
  unfolding keepalive
  exchange x start w =
      keepalive (arrives x start) keepalive_interval
        (taken (record x.round { now = taken_at x start }) (replied_at x start)) x.fresh w

  -- The round of the driver's loop that the call ends in.
  unfoldable pub beat : Exchange Err → ℕ → Result Err KeepaliveReply → Beat Err
  beat x start (err e) = failed [] e
  beat x start (ok r) =
      let now = heard_at x start in replied_beat r.healthy (now - start) now r.next

  -- When the driver's next call starts: the timer runs while the dumps are taken.
  unfoldable pub next_start : ℕ → Exchange Err → ℕ → Result Err KeepaliveReply → ℕ
  unfolding pause
  next_start period x start (err e) = heard_at x start
  next_start period x start (ok r) =
      let waits = pause period r.next in
      let dumps = if r.healthy then 0 else x.dumping in
      heard_at x start + (if ltb waits dumps then dumps else waits)

  -- What becomes of the watchdog.
  unfoldable pub watch : ℕ → List (Exchange Err) → ℕ → Watchdog → Watchdog
  unfolding exchange next_start
  watch period [] start w = w
  watch period (x ∷ xs) start w =
      let done = exchange x start w in
      watch period xs (next_start period x start done.0) (watchdog x.ticks done.1)

  -- What the driver's loop sees.
  unfoldable pub beats : ℕ → List (Exchange Err) → ℕ → Watchdog → List (Beat Err)
  unfolding exchange next_start beat
  beats period [] start w = []
  beats period (x ∷ xs) start w =
      let done = exchange x start w in
      beat x start done.0
      ∷ beats period xs (next_start period x start done.0) (watchdog x.ticks done.1)

  -- A quarter of the interval for the call, one for the reply, and three for the reply with the dumps.
  abbrev pub IsPrompt : Exchange Err → Type 0
  IsPrompt x =
      (x.there + x.taking ≤ 75 * second)
      × (x.taking + x.replying + x.back ≤ 75 * second)
      × (x.taking + x.replying + x.back + x.dumping ≤ 225 * second)

  abbrev pub horizon : List (Exchange Err) → ℕ → ℕ
  horizon [] start = start
  horizon (x ∷ xs) start = taken_at x start

  -- The ticks of an exchange are those up to the round that takes the next keepalive.
  unfoldable pub InOrder : ℕ → List (Exchange Err) → ℕ → Watchdog → Type 0
  unfolding exchange next_start
  InOrder period [] start w = Unit
  InOrder period (x ∷ xs) start w =
      let done = exchange x start w in
      let start' = next_start period x start done.0 in
      All (λ v. (v.now ≤ horizon xs start') × (v.source ≡ tick)) x.ticks
      × InOrder period xs start' (watchdog x.ticks done.1)

  -- The next keepalive is taken before the deadline of this one.
  next_start-le :
      (period : ℕ) (x : Exchange Err) (start : ℕ) (w : Watchdog)
      → IsPrompt x
      → next_start period x start (exchange x start w).0 + 75 * second
        ≤ arrives x start + keepalive_interval
  unfolding next_start exchange keepalive until pause
  next_start-le period x start w h =
      let t = arrives x start + keepalive_interval in
      let waited = pause-le period t (replied_at x start) (omega (arith, h.1)) in
      ground (arith, waited, h.0, h.1, h.2)

  -- The ticks after an exchange come before its deadline.
  horizon-le :
      (period : ℕ) (x : Exchange Err) (xs : List (Exchange Err)) (start : ℕ) (w : Watchdog)
      → All IsPrompt (x ∷ xs)
      → horizon xs (next_start period x start (exchange x start w).0)
        ≤ arrives x start + keepalive_interval
  horizon-le period x [] start w h = omega (arith, next_start-le period x start w h.0)
  horizon-le period x (y ∷ ys) start w h =
      omega (arith, next_start-le period x start w h.0, h.1.0.0)

  watch-exits :
      (period : ℕ) (xs : List (Exchange Err)) (start : ℕ) (w : Watchdog)
      → All IsPrompt xs
      → InOrder period xs start w
      → (watch period xs start w).exits ≡ w.exits
  unfolding watch InOrder
  watch-exits period [] start w hp ho = refl
  watch-exits period (x ∷ xs) start w hp ho =
      let (x_prompt, xs_prompt) = hp in
      let (early, rest) = ho in
      let deadline = arrives x start + keepalive_interval in
      let bound = horizon-le period x xs start w hp in
      let held =
        keepalive-holds (arrives x start) keepalive_interval
          (record x.round { now = taken_at x start }) (replied_at x start) x.fresh w x.ticks
          (omega (arith, x_prompt.1)) (omega (arith, x_prompt.1))
          (All-imp _ _ x.ticks
            (λ v q. (omega (arith, q.0, bound), λ t e. absurd (ground (arith, q.1, e)))) early) in
      watch-exits period xs _ _ xs_prompt rest ∙ held.0

module _ (E : Errors) where
  open E use {Err}

  beat-going :
      (healthy : Bool) (elapsed now : ℕ) (next : ℤ) (bs : List (Beat Err)) (m : Machine Err)
      → (m' : Machine Err) × (keepalive_loop E (replied_beat healthy elapsed now next ∷ bs) m
          ≡ keepalive_loop E bs m')
        × (m'.state ≡ m.state)
        × (m'.num_keepalive ≡ suc m.num_keepalive)
  unfolding keepalive_loop interfere record_keepalive
  beat-going true elapsed now (pos n) bs m =
      (record_keepalive elapsed now n (alive E m), refl, refl, refl)
  beat-going false elapsed now (pos n) bs m =
      (record_keepalive elapsed now n (alive E m), refl, refl, refl)
  beat-going true elapsed now (negsuc n) bs m =
      (record_keepalive elapsed (now - suc n) 0 (alive E m), refl, refl, refl)
  beat-going false elapsed now (negsuc n) bs m =
      (record_keepalive elapsed (now - suc n) 0 (alive E m), refl, refl, refl)

  beats-going :
      (period : ℕ) (xs : List (Exchange Err)) (start : ℕ) (w : Watchdog) (m : Machine Err)
      → (m' : Machine Err) × (keepalive_loop E (beats period xs start w) m ≡ going m')
        × (m'.state ≡ m.state)
        × (m'.num_keepalive ≡ m.num_keepalive + length xs)
  unfolding keepalive_loop beats beat exchange keepalive
  beats-going period [] start w m = (m, refl, refl, omega arith)
  beats-going period (x ∷ xs) start w m =
      let done = exchange x start w in
      let start' = next_start period x start done.0 in
      let w' = watchdog x.ticks done.1 in
      let now = heard_at x start in
      let t = arrives x start + keepalive_interval in
      let healthy = if x.fresh then done.1.healthy else w.healthy in
      let (m1, same, state, count) =
        beat-going healthy (now - start) now (until t (replied_at x start))
          (beats period xs start' w') m in
      let (m2, same', state', count') = beats-going period xs start' w' m1 in
      (m2, same ∙ same', state' ∙ state, omega (arith, count, count'))

  -- As long as each keepalive call reaches the watchdog within a quarter of the interval, its reply is
  -- back within a quarter, and within three quarters the dumps that the loop takes on an unhealthy
  -- reply are done too, the driver's keepalive loop goes on, undisturbed by other goroutines,
  -- without a change of the machine's state, after one recorded keepalive for each call, and the watchdog does not exit at
  -- any of its rounds: whatever keepalive period the driver has, and whenever between two
  -- keepalives the watchdog ticks.
  pub watch-beats :
      (period : ℕ) (xs : List (Exchange Err)) (start : ℕ) (w : Watchdog) (m : Machine Err)
      → All IsPrompt xs
      → InOrder period xs start w
      → ((watch period xs start w).exits ≡ w.exits)
        × ((m' : Machine Err) × (keepalive_loop E (beats period xs start w) m ≡ going m')
            × (m'.state ≡ m.state)
            × (m'.num_keepalive ≡ m.num_keepalive + length xs))
  watch-beats period xs start w m h o =
      (watch-exits period xs start w h o, beats-going period xs start w m)
