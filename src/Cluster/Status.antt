-- ===== src/Cluster/Status.antt =====
-- status.go and expvar.go: the pages that show the status and the variables of all machines.
--
-- The template, the clock and json.Marshal are parameters.
use bigmachine.Prelude.{
  ℕ, ◌+◌, ◌-◌, ◌%◌, ◌^◌, ◌<◌, ◌≡◌, ap, Bool, true, false, Option, none, some, List, [], ◌∷◌, ◌++◌,
  Text, codes, if◌then◌else◌, insert, arith, Reordered, sort_by, sort_by-Reordered,
}
use bigmachine.Errors.{Errors, message}
use bigmachine.Machine.States.{State}
use bigmachine.Machine.States
use bigmachine.Machine.Retry.{Result, ok, err}

-- errgroup.Group: Wait returns the first error, in the order in which the goroutines end.
unfoldable pub wait_group : {Err : Type 0} → List (Option Err) → Option Err
wait_group [] = none
wait_group (none ∷ es) = wait_group es
wait_group (some e ∷ es) = some e

-- The index of the last pause in PauseNs, from the uint32 NumGC.
unfoldable pub last_pause_index : ℕ → ℕ
last_pause_index num_gc = (num_gc + 255) % 2 ^ 32 % 256

-- The last pause is that of the last garbage collection, whose pause the runtime stores at the
-- number of the collections before it, modulo 256: the sum that wraps around does no harm.
pub last_pause_index-previous :
    (num_gc : ℕ)
    → 0 < num_gc
    → num_gc < 2 ^ 32
    → (last_pause_index num_gc ≡ (num_gc - 1) % 256) × (last_pause_index num_gc < 256)
unfolding last_pause_index
last_pause_index-previous num_gc h k = (omega arith, omega arith)

-- machineInfo: its error, and the rest, which is what the machine replied or zero.
pub record Info (Err Stats : Type 0) : Type 0 where
  pub error : Option Err
  pub stats : Stats

-- A machine of Machines() when writeStatus looks at it, and what the three calls of allInfo, in the
-- order in which they end, and their replies come to if it is asked.
pub record Seen (Err Stats : Type 0) : Type 0 where
  pub addr : Text
  pub state : State
  pub calls : List (Option Err)
  pub stats : Stats

abbrev pub is_running : State → Bool
is_running s = elim s [ State.running ↦ true | _ ↦ false ]

unfoldable pub all_info : {Err Stats : Type 0} → Seen Err Stats → Info Err Stats
unfolding wait_group
all_info m = record { error = wait_group m.calls; stats = m.stats }

module _ (E : Errors) {Stats : Type 0} where
  open E use {Err, format}

  -- infos[i]: a machine that is not running is not asked, and its statistics are zero.
  unfoldable pub info_of : Stats → Seen Err Stats → Info Err Stats
  unfolding all_info
  info_of zeros m = if is_running m.state then all_info m else record {
    error =
        some (format (message (codes "machine state ") ∷ message (States.to_text m.state) ∷ []));
    stats = zeros;
  }

  -- A row of the page; the template writes those without an error.
  unfoldable pub row : (Text → Stats → Text) → Text → Info Err Stats → Text
  row render addr i = elim i.error [
    | some e ↦ addr ++ codes " : " ++ E.to_text e ++ 10 ∷ []
    | none ↦ render addr i.stats
  ]

  unfoldable pub write_rows : (Text → Stats → Text) → Stats → List (Seen Err Stats) → Text
  unfolding row info_of
  write_rows render zeros [] = []
  write_rows render zeros (m ∷ ms) =
      row render m.addr (info_of zeros m) ++ write_rows render zeros ms

  -- writeStatus; g.Wait returns nil.
  unfoldable pub write_status : (Text → Stats → Text) → Stats → List (Seen Err Stats) → Text
  unfolding write_rows
  write_status render zeros machines = write_rows render zeros (sort_by (λ m. m.addr) machines)

  -- The page does not depend on the order of Machines(), which ranges over a map.
  pub write_status-Reordered :
      (render : Text → Stats → Text) (zeros : Stats) (ms ns : List (Seen Err Stats))
      → Reordered (λ m. m.addr) ms ns
      → write_status render zeros ms ≡ write_status render zeros ns
  unfolding write_status
  write_status-Reordered render zeros ms ns r =
      ap (write_rows render zeros) (sort_by-Reordered (λ m. m.addr) ms ns r)

-- A machine of expvar.go, and what its goroutine's call gives.
pub record Exporter (Err : Type 0) : Type 0 where
  pub addr : Text
  pub owned : Bool
  pub reply : Result Err (List (Text × Text))

-- Expvars.MarshalJSON: the map that it makes, from v.Key and v.Value.
unfoldable pub expvars_map : List (Text × Text) → List (Text × Text) → List (Text × Text)
expvars_map [] m = m
expvars_map ((key, value) ∷ vars) m = expvars_map vars (insert key value m)

-- The goroutines of machineVars.String, in the order in which they store their variables.
unfoldable pub machine_vars :
    {Err : Type 0}
    → List (Exporter Err)
    → List (Text × List (Text × Text))
    → List (Text × List (Text × Text))
machine_vars [] vars = vars
machine_vars (m ∷ ms) vars =
    if m.owned
    then elim m.reply [
      | err e ↦ machine_vars ms vars
      | ok v ↦ machine_vars ms (insert m.addr v vars)
    ]
    else machine_vars ms vars

-- String, by json.Marshal.
unfoldable pub vars_string :
    {Err : Type 0}
    → (List (Text × List (Text × Text)) → Result Err Text)
    → List (Exporter Err)
    → Text
unfolding machine_vars
vars_string marshal ms = elim (marshal (machine_vars ms [])) [
  | ok t ↦ t
  | err e ↦ codes "\"error\""
]
