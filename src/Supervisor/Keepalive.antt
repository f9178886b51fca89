-- ===== src/Supervisor/Keepalive.antt =====
-- supervisor.go: Keepalive, which hands a deadline to the watchdog.
--
-- A time.Duration is an integer: the rest of a deadline that has passed is negative.
use bigmachine.Prelude.{
  ℕ, ◌+◌, ◌-◌, ◌≤◌, ◌≡◌, ◌∙◌, Bool, some, List, if◌then◌else◌, leb, arith, All,
}
use bigmachine.Machine.Retry.{Result, ok, err}
use bigmachine.Supervisor.Watchdog.{
  Wake, Watchdog, received, wake, watchdog, sent_by, watchdog-holds, wake-next, wake-exits,
}

pub data ℤ : Type 0 where
  pos : ℕ → ℤ
  negsuc : ℕ → ℤ

-- time.Until(t), at a time.
unfoldable pub until : ℕ → ℕ → ℤ
until t now = if leb now t then pos (t - now) else negsuc (now - t - 1)

-- keepaliveReply.
pub record KeepaliveReply : Type 0 where
  pub next : ℤ
  pub healthy : Bool

-- The select of Keepalive: the watchdog takes the deadline, in a round of its loop, or ctx is done.
pub data Accepted (Err : Type 0) : Type 0 where
  taken : (round : Wake Err) (replied_at : ℕ) → Accepted Err
  gave_up : Err → Accepted Err

module _ {Err : Type 0} where
  -- Keepalive at a time, for an interval. The health is read after the watchdog's round or before
  -- its end: `fresh` tells which.
  unfoldable pub keepalive :
      (now next : ℕ)
      → Accepted Err
      → (fresh : Bool) → Watchdog
      → Result Err KeepaliveReply × Watchdog
  unfolding until
  keepalive now next (taken w at) fresh s =
      let t = now + next in
      let s' = wake (record w { source = received t }) s in
      (ok (record { next = until t at; healthy = if fresh then s'.healthy else s.healthy }), s')
  keepalive now next (gave_up e) fresh s = (err e, s)

  -- A Keepalive that the watchdog takes before its deadline holds the watchdog off up to that
  -- deadline: no wake by then exits, if later keepalives ask for no earlier deadline. The reply
  -- tells the time that is left of the deadline.
  pub keepalive-holds :
      (now next : ℕ) (w : Wake Err) (at : ℕ) (fresh : Bool) (s : Watchdog) (ws : List (Wake Err))
      → w.now ≤ now + next
      → at ≤ now + next
      → All (λ v. (v.now ≤ now + next) × ((t : ℕ) → sent_by v ≡ some t → now + next ≤ t)) ws
      → let done = keepalive now next (taken w at) fresh s in
        ((watchdog ws done.1).exits ≡ s.exits)
        × ((r : KeepaliveReply) → done.0 ≡ ok r → r.next ≡ pos (now + next - at))
  unfolding keepalive until
  keepalive-holds now next w at fresh s ws hw ha hs =
      let w' = record w { source = received (now + next) } in
      let s' = wake w' s in
      let deadline : s'.next ≡ now + next = wake-next w' s in
      let calm : s'.exits ≡ s.exits = ground (arith, wake-exits w' s, deadline, hw) in
      (watchdog-holds ws s' (now + next) (omega (arith, deadline)) hs ∙ calm, λ r e. ground arith)
