-- ===== src/Machine/Exec.antt =====
-- machine.go: exec, which uploads the driver's binary to a machine and execs it there.
--
-- The calls that it makes go to a machine whose state is R; fatbin's image of the driver is a
-- parameter.
pub mod Upload
use bigmachine.Prelude.{ℕ, ◌+◌, ◌-◌, ◌*◌, ◌/◌, ◌≡◌, Option, none, some, List, [], ◌∷◌, Text, codes}
use bigmachine.Errors.{Errors, severity, message, fatal}
use bigmachine.Machine.Retry.{Result, ok, err}

-- A call: what it returns and the machine that it leaves.
pub record Remote (Err R : Type 0) : Type 0 where
  -- Supervisor.Info: GOOS and GOARCH.
  pub info : R → Result Err (Text × Text) × R
  pub set_environ : List Text → R → Option Err × R
  pub set_args : List Text → R → Option Err × R
  -- Supervisor.Keepalive, with the interval in seconds.
  pub keepalive : ℕ → R → Option Err × R
  pub set_binary : Text → R → Option Err × R
  pub exec : R → Option Err × R

-- fatbin.Self(), its Stat (the size of an image) and its Open.
pub record Self (Err : Type 0) : Type 0 where
  pub stat : Text → Text → Option ℕ
  pub open_image : Text → Text → Result Err Text

-- `floor`, in bytes per second.
abbrev pub floor : ℕ
floor = 102400

-- uploadTimeout in seconds.
unfoldable pub upload_timeout : ℕ → ℕ
upload_timeout size = (size + floor - 1) / floor

module _ {Err R : Type 0} where
  -- `if err := call; err != nil { return err }`.
  abbrev pub then_call : Option Err × R → (R → Option Err × R) → Option Err × R
  then_call (some e, r) next = (some e, r)
  then_call (none, r) next = next r

  -- The error of the keepalive is only logged.
  abbrev pub ignoring : Option Err × R → (R → Option Err × R) → Option Err × R
  ignoring (e, r) next = next r

module _ (E : Errors) {R : Type 0} (remote : Remote E.Err R) where
  open E use {Err, make}

  unfoldable pub upload : Self Err → Text → Text → ℕ → R → Option Err × R
  unfolding upload_timeout
  upload self goos goarch size r = ignoring (remote.keepalive (upload_timeout size) r) (λ r1.
      elim (self.open_image goos goarch) [
        | err e ↦ (some e, r1)
        | ok binary ↦ then_call (remote.set_binary binary r1) (λ r2. remote.exec r2)
      ])

  -- What follows Supervisor.Info.
  unfoldable pub exec_on : Self Err → List Text → List Text → Text × Text → R → Option Err × R
  unfolding upload
  exec_on self environ args (goos, goarch) r = elim (self.stat goos goarch) [
    | none ↦ (
      some (
          make (
            severity fatal
            ∷ message (codes "no image for ")
            ∷ message goos
            ∷ message (codes "/")
            ∷ message goarch
            ∷ [])),
      r,
    )
    | some size ↦
        then_call (remote.set_environ environ r)
          (λ r1. then_call (remote.set_args args r1) (λ r2. upload self goos goarch size r2))
  ]

  unfoldable pub exec : Result Err (Self Err) → List Text → List Text → R → Option Err × R
  unfolding exec_on
  exec self environ args r = elim self [
    | err e ↦ (some e, r)
    | ok image ↦ elim (remote.info r).0 [
      | err e ↦ (some e, (remote.info r).1)
      | ok os_arch ↦ exec_on image environ args os_arch (remote.info r).1
    ]
  ]
