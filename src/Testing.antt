-- ===== src/Testing.antt =====
-- testsystem/testsystem.go: the system of in-process machines that tests use.
--
-- A machine is known by an identifier, the pointer of the program.
pub mod Killing
use bigmachine.Prelude.{
  ℕ, zero, suc, ◌+◌, ◌*◌, Bool, true, false, Option, none, some, List, [], ◌∷◌, ◌++◌, Text,
  if◌then◌else◌, ltb, leb, ◌==◌, length, get_or,
}

pub record System : Type 0 where
  pub machineprocs : ℕ
  pub keepalive_period : ℕ
  pub keepalive_timeout : ℕ
  pub keepalive_rpc_timeout : ℕ
  pub exited : Bool
  pub machines : List ℕ
  -- The machines that Kill was called on, and the next pointer.
  pub killed : List ℕ
  pub fresh : ℕ

abbrev pub second : ℕ
second = 1000000000

unfoldable pub new : System
new = record {
  machineprocs = 1;
  keepalive_period = 0;
  keepalive_timeout = 0;
  keepalive_rpc_timeout = 0;
  exited = false;
  machines = [];
  killed = [];
  fresh = 0;
}

-- The loop of Start, with the machines that it made.
unfoldable pub start : ℕ → System → List ℕ × System
start zero s = ([], s)
start (suc n) s =
    let s' = record s { machines = s.machines ++ s.fresh ∷ []; fresh = suc s.fresh } in
    let rest = start n s' in (s.fresh ∷ rest.0, rest.1)

unfoldable pub n_machines : System → ℕ
n_machines s = length s.machines

-- Wait returns n once it returns; `none` while it blocks.
unfoldable pub wait : ℕ → System → Option ℕ
wait n s = if ltb (length s.machines) n then none else some n

-- The loop of Kill: the machines without the first that is m, if there is one.
unfoldable pub without : ℕ → List ℕ → Option (List ℕ)
without m [] = none
without m (x ∷ xs) =
    let rest = without m xs in
    if x == m then some xs else elim rest [ some ys ↦ some (x ∷ ys) | none ↦ none ]

abbrev pub is_empty : List ℕ → Bool
is_empty [] = true
is_empty (x ∷ xs) = false

-- The machine that is meant: rand.Intn's draw for nil.
abbrev pub target_of : Option ℕ → ℕ → List ℕ → ℕ
target_of (some m) draw machines = m
target_of none draw machines = get_or machines draw 0

-- Kill, with a pointer or nil, and the draw below the number of machines.
unfoldable pub kill : Option ℕ → ℕ → System → Bool × System
unfolding without
kill m draw s =
    let target = target_of m draw s.machines in
    if is_empty s.machines then (false, s) else elim (without target s.machines) [
      | some xs ↦ (true, record s { machines = xs; killed = target ∷ s.killed })
      | none ↦ (false, s)
    ]

unfoldable pub exit : System → System
exit s = record s { exited = true }

abbrev pub or_default : ℕ → ℕ → ℕ
or_default zero d = d
or_default (suc n) d = suc n

unfoldable pub keepalive_config : System → ℕ × ℕ × ℕ
keepalive_config s = (
  or_default s.keepalive_period (60 * second),
  or_default s.keepalive_timeout (120 * second),
  or_default s.keepalive_rpc_timeout (10 * second),
)

-- Index; `none` is a panic.
unfoldable pub index : ℕ → List ℕ → Option ℕ
index i [] = none
index zero (m ∷ ms) = some m
index (suc i) (m ∷ ms) = index i ms

unfoldable pub exited : System → Bool
exited s = s.exited

-- Main, ListenAndServe and a second Shutdown panic: `none`. `is_done` is whether s.done is closed.
unfoldable pub shutdown : (is_done : Bool) → Option Bool
shutdown true = none
shutdown false = some true
