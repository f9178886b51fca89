-- ===== src/Testing/Killing.antt =====
-- testsystem/testsystem.go: the machines that Start adds and Kill takes away.
use mathlib.Core.List.{append_assoc, append-nil}
use bigmachine.Prelude.{
  ℕ, zero, suc, ◌+◌, ◌-◌, ◌≡◌, refl, sym, ap, ◌∙◌, none, some, List, [], ◌∷◌, ◌++◌, if◌then◌else◌,
  ltb, ◌==◌, length, length-append, arith,
}
use bigmachine.Testing.{System, start, without, kill, wait}

-- How often a machine is among the machines.
unfoldable pub count : ℕ → List ℕ → ℕ
count m [] = 0
count m (x ∷ xs) = let rest = count m xs in if x == m then suc rest else rest

-- What is taken out: one of the given machine, if there is one, and nothing else.
without-count :
    (m j : ℕ) (xs : List ℕ)
    → count j xs ≡ elim (without m xs) [
      | some ys ↦ if j == m then suc (count j ys) else count j ys
      | none ↦ if j == m then 0 else count j xs
    ]
unfolding without count
without-count m j [] = ground arith
without-count m j (x ∷ xs) = ground (arith, without-count m j xs)

-- Kill takes one machine out, if that machine is there, and leaves all others; it says whether it
-- did.
pub kill-count :
    (m draw : ℕ) (s : System)
    → ((kill (some m) draw s).0 ≡ ltb 0 (count m s.machines))
      × ((j : ℕ)
          → count j (kill (some m) draw s).1.machines
            ≡ (if j == m then count j s.machines - 1 else count j s.machines))
unfolding kill count
kill-count m draw s = (
  ground (arith, without-count m m s.machines),
  λ j. ground (arith, without-count m j s.machines),
)

-- The system with one more machine.
abbrev one_more : System → System
one_more s = record s { machines = s.machines ++ s.fresh ∷ []; fresh = suc s.fresh }

start-machines : (n : ℕ) (s : System) → (start n s).1.machines ≡ s.machines ++ (start n s).0
unfolding start
start-machines zero s = sym (append-nil s.machines)
start-machines (suc n) s =
    start-machines n (one_more s) ∙ append_assoc s.machines (s.fresh ∷ []) (start n (one_more s)).0

length-start : (n : ℕ) (s : System) → length (start n s).0 ≡ n
unfolding start
length-start zero s = refl
length-start (suc n) s = ap suc (length-start n (one_more s))

-- Start adds as many machines as it is asked for and returns them, so that a Wait for the number of
-- machines of before and those returns.
pub start-wait :
    (n : ℕ) (s : System)
    → ((start n s).1.machines ≡ s.machines ++ (start n s).0)
      × (length (start n s).0 ≡ n)
      × (wait (length s.machines + n) (start n s).1 ≡ some (length s.machines + n))
unfolding wait
start-wait n s =
    let len = ap length (start-machines n s) ∙ length-append s.machines (start n s).0 in
    (start-machines n s, length-start n s, ground (arith, len, length-start n s))
