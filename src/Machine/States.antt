-- ===== src/Machine/States.antt =====
-- machine.go: the states of a machine, which are ordered.
use bigmachine.Prelude.{ℕ, Bool, Text, codes, leb}

pub data State : Type 0 where
  unstarted starting running stopped : State

-- The values of the constants, an `iota`.
abbrev pub rank : State → ℕ
rank unstarted = 0
rank starting = 1
rank running = 2
rank stopped = 3

abbrev pub state_leb : State → State → Bool
state_leb s t = leb (rank s) (rank t)

unfoldable pub to_text : State → Text
to_text unstarted = codes "UNSTARTED"
to_text starting = codes "STARTING"
to_text running = codes "RUNNING"
to_text stopped = codes "STOPPED"
