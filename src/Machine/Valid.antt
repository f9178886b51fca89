-- ===== src/Machine/Valid.antt =====
-- machine.go: the well-formedness of a machine, and the lists of waiters that it is about.
use bigmachine.Prelude.{
  ℕ, suc, ◌<◌, ◌≡◌, refl, false, inl, inr, List, [], ◌∷◌, ◌++◌, if◌then◌else◌, All, All-imp, Below,
  contains, contains-append, arith, Bool-cases,
}
use bigmachine.Machine.States.{State, stopped, rank, state_leb}
use bigmachine.Machine.{StateWaiter, Machine, triggered, kept}
use bigmachine.Machine.Waiting.{ChansBelow, has_waiter, has_waiter-append, has_waiter-below}

-- The waiters wait for states that are still ahead.
abbrev pub Ahead : State → List StateWaiter → Type 0
Ahead s ws = All (λ w. rank s < rank w.state) ws

-- No two waiters share a channel.
abbrev pub Distinct : List StateWaiter → Type 0
Distinct [] = Unit
Distinct (w ∷ ws) = (has_waiter w.chan ws ≡ false) × Distinct ws

-- No waiter's channel is closed: no channel is closed twice.
abbrev pub Open : List ℕ → List StateWaiter → Type 0
Open closed ws = All (λ w. contains closed w.chan ≡ false) ws

pub record Valid (s : State) (waiters : List StateWaiter) (closed cancelers canceled : List ℕ)
    (fresh : ℕ) : Type 0 where
  pub ahead : Ahead s waiters
  pub distinct : Distinct waiters
  pub open_waiters : Open closed waiters
  pub chans_below : ChansBelow fresh waiters
  pub closed_below : Below fresh closed
  pub cancelers_below : Below fresh cancelers
  pub canceled_below : Below fresh canceled
  pub stopped_clear : s ≡ stopped → cancelers ≡ []

abbrev pub IsValid : {Err : Type 0} → Machine Err → Type 0
IsValid m = Valid m.state m.waiters m.closed m.cancelers m.canceled m.fresh

pub All-kept {κ} :
    (P : StateWaiter → Type κ) (t : State) (ws : List StateWaiter) → All P ws → All P (kept t ws)
unfolding kept
All-kept P t [] h = tt
All-kept P t (w ∷ ws) h = elim (Bool-cases (state_leb w.state t)) [
  | inl e ↦ rw (e, if◌then◌else◌) (All-kept P t ws h.1)
  | inr e ↦ rw (e, if◌then◌else◌) (h.0, All-kept P t ws h.1)
]

pub kept-Ahead : (t : State) (ws : List StateWaiter) → Ahead t (kept t ws)
unfolding kept
kept-Ahead t [] = tt
kept-Ahead t (w ∷ ws) = ground (arith, kept-Ahead t ws)

pub Below-triggered :
    (n : ℕ) (t : State) (ws : List StateWaiter) → ChansBelow n ws → Below n (triggered t ws)
unfolding triggered
Below-triggered n t [] h = tt
Below-triggered n t (w ∷ ws) h = ground (arith, Below-triggered n t ws h.1)

pub absent-kept :
    (c : ℕ) (t : State) (ws : List StateWaiter)
    → has_waiter c ws ≡ false
    → (has_waiter c (kept t ws) ≡ false) × (contains (triggered t ws) c ≡ false)
unfolding kept triggered has_waiter contains
absent-kept c t [] h = (refl, refl)
absent-kept c t (w ∷ ws) h = ground (arith, absent-kept c t ws)

pub kept-Distinct : (t : State) (ws : List StateWaiter) → Distinct ws → Distinct (kept t ws)
unfolding kept
kept-Distinct t [] h = tt
kept-Distinct t (w ∷ ws) h = ground (arith, absent-kept w.chan t ws, kept-Distinct t ws h.1)

pub Open-cons :
    (c : ℕ) (closed : List ℕ) (ws : List StateWaiter)
    → has_waiter c ws ≡ false
    → Open closed ws
    → Open (c ∷ closed) ws
unfolding has_waiter contains
Open-cons c closed [] h k = tt
Open-cons c closed (w ∷ ws) h k = ground (arith, Open-cons c closed ws)

pub kept-Open :
    (t : State) (closed : List ℕ) (ws : List StateWaiter)
    → Distinct ws
    → Open closed ws
    → Open (triggered t ws ++ closed) (kept t ws)
unfolding kept triggered
kept-Open t closed [] d h = tt
kept-Open t closed (w ∷ ws) d h =
    let a = absent-kept w.chan t ws d.0 in
    let rest = kept-Open t closed ws d.1 h.1 in
    elim (Bool-cases (state_leb w.state t)) [
      | inl e ↦ rw (e, if◌then◌else◌) (Open-cons w.chan _ (kept t ws) a.0 rest)
      | inr e ↦
          rw (e, if◌then◌else◌)
            (ground (arith, contains-append (triggered t ws) closed w.chan, a, h.0), rest)
    ]

pub Below-suc : (n : ℕ) (xs : List ℕ) → Below n xs → Below (suc n) xs
Below-suc n xs = All-imp _ _ xs (λ a h. omega arith)

pub ChansBelow-suc : (n : ℕ) (ws : List StateWaiter) → ChansBelow n ws → ChansBelow (suc n) ws
ChansBelow-suc n ws = All-imp _ _ ws (λ w h. omega arith)

pub Distinct-append :
    (w : StateWaiter) (ws : List StateWaiter)
    → has_waiter w.chan ws ≡ false
    → Distinct ws
    → Distinct (ws ++ w ∷ [])
unfolding has_waiter
Distinct-append w [] h d = (refl, tt)
Distinct-append w (x ∷ ws) h d =
    (ground (arith, has_waiter-append x.chan ws (w ∷ [])), Distinct-append w ws (ground arith) d.1)

pub Open-below :
    (n : ℕ) (closed : List ℕ) (ws : List StateWaiter)
    → ChansBelow n ws
    → Open closed ws
    → Open (n ∷ closed) ws
Open-below n closed ws b = Open-cons n closed ws (has_waiter-below n ws b)
