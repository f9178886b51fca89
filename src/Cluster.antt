-- ===== src/Cluster.antt =====
-- bigmachine.go: the B of a program, which knows its machines by their addresses.
--
-- The map holds each machine as it is when it is added; its later life is the subject of Machine.
pub mod Params
pub mod Starting
pub mod Dialing
pub mod Profiles
pub mod Profiler
pub mod Status
pub mod Shutdown
pub mod Registry
pub mod Refinement
pub mod Debug
pub mod Pages
pub mod Rows
use bigmachine.Prelude.{
  ℕ, Bool, true, false, Option, none, some, List, [], ◌∷◌, ◌++◌, Text, codes, if◌then◌else◌, lookup,
  insert, delete, replicate, text_eq,
}
use bigmachine.Errors.{Errors, Arg, kind, message, cause, invalid, unavailable}
use bigmachine.Machine.{Machine, num_keepalive_reply_times}
use bigmachine.Machine.States.{unstarted}
use bigmachine.Machine.Retry.{Result, ok, err}
use bigmachine.Rpc.Services.{MethodInfo, Server, new_server, register}

pub record B (Err : Type 0) : Type 0 where
  pub name : Text
  pub machines : List (Text × Machine Err)
  pub driver : Bool
  pub running : Bool

-- The map of services is a list, each name with its instance.
pub data Param : Type 0 where
  services : List (Text × ℕ) → Param
  environ : List Text → Param

-- What `run` comes to: log.Fatal, a driver, or the server of a machine.
pub data Boot (Err : Type 0) : Type 0 where
  fatal_exit : List (Arg Err) → Boot Err
  drives : B Err → Boot Err
  serves : B Err → Server → Boot Err

-- `for name, iface := range s`: the names of a Go map are distinct, so that the order is free.
unfoldable pub insert_all : List (Text × ℕ) → List (Text × ℕ) → List (Text × ℕ)
insert_all [] m = m
insert_all ((name, iface) ∷ s) m = insert name iface (insert_all s m)

abbrev pub is_none_given : List (Text × ℕ) → Bool
is_none_given [] = true
is_none_given (s ∷ ss) = false

module _ {Err : Type 0} where
  -- Start before `run`, with the Name options.
  unfoldable pub new_b : List Text → B Err
  new_b [] = record { name = []; machines = []; driver = false; running = false }
  new_b (name ∷ []) = record { name = name; machines = []; driver = false; running = false }
  new_b (name ∷ other ∷ names) = new_b (other ∷ names)

  -- run: the mode, then what system.Init and maybeInit of the supervisor return, and the method
  -- set of the supervisor.
  unfoldable pub run : Text → Option Err → Option Err → ℕ → List MethodInfo → B Err → Boot Err
  run mode init_err supervisor_err supervisor methods b =
      let driver = text_eq mode [] in
      if driver
      then elim init_err [
        | some e ↦ fatal_exit (cause e ∷ [])
        | none ↦ drives (record b { driver = true; running = true })
      ]
      else if text_eq mode (codes "machine")
      then elim init_err [
        | some e ↦ fatal_exit (cause e ∷ [])
        | none ↦ elim supervisor_err [
          | some e ↦ fatal_exit (cause e ∷ [])
          | none ↦
              serves (record b { running = true })
                (register (codes "Supervisor") supervisor methods new_server)
        ]
      ]
      else fatal_exit (message (codes "invalid bigmachine mode ") ∷ message mode ∷ [])

  unfoldable pub apply_param : Param → Machine Err → Machine Err
  unfolding insert_all
  apply_param (services s) m = record m { services = insert_all s m.services }
  apply_param (environ e) m = record m { environ = m.environ ++ e }

  unfoldable pub apply_params : List Param → Machine Err → Machine Err
  unfolding apply_param
  apply_params [] m = m
  apply_params (p ∷ ps) m = apply_params ps (apply_param p m)

  -- Machine.start, before its goroutine.
  unfoldable pub begin : Machine Err → Machine Err
  begin m = record m { cancelers = [] }

  -- `&Machine{Addr: addr, owner: false}`.
  unfoldable pub dialed_machine : Text → Machine Err
  dialed_machine addr = record {
    addr = addr;
    no_exec = false;
    services = [];
    environ = [];
    owner = false;
    state = unstarted;
    error = none;
    waiters = [];
    cancelers = [];
    next_keepalive = 0;
    num_keepalive = 0;
    keepalive_reply_times = replicate num_keepalive_reply_times 0;
    closed = [];
    canceled = [];
    fresh = 0;
    events = [];
  }

  unfoldable pub add : Machine Err → B Err → B Err
  add m b = record b { machines = insert m.addr m b.machines }

  -- Dial, by what b.machines[addr] is.
  unfoldable pub dial_at : Text → B Err → Option (Machine Err) → Machine Err × B Err
  unfolding begin dialed_machine add
  dial_at addr b (some m) = (m, b)
  dial_at addr b none = let m = begin (dialed_machine addr) in (m, add m b)

  unfoldable pub dial : Text → B Err → Machine Err × B Err
  unfolding dial_at
  dial addr b = dial_at addr b (lookup addr b.machines)

  -- The goroutine of Dial, once the machine is stopped.
  unfoldable pub reap : Text → B Err → B Err
  reap addr b = record b { machines = delete addr b.machines }

  unfoldable pub own : List Param → Machine Err → Machine Err
  unfolding apply_params begin
  own params m = begin (record (apply_params params m) { owner = true })

  -- Machines, in some order.
  unfoldable pub values : List (Text × Machine Err) → List (Machine Err)
  values [] = []
  values ((addr, m) ∷ rest) = m ∷ values rest

  unfoldable pub machines : B Err → List (Machine Err)
  unfolding values
  machines b = values b.machines

module _ (E : Errors) where
  open E use {Err, make}

  -- A machine that is started, before what the loop goes on to do.
  abbrev pub and_rest :
      Machine Err
      → Result Err (List (Machine Err)) × B Err
      → Result Err (List (Machine Err)) × B Err
  and_rest m (ok ns, b) = (ok (m ∷ ns), b)
  and_rest m (err e, b) = (err e, b)

  -- The loop of Start.
  unfoldable pub start_each :
      List Param → List (Machine Err) → B Err → Result Err (List (Machine Err)) × B Err
  unfolding own add
  start_each params [] b = (ok [], b)
  start_each params (m ∷ ms) b =
      let rest = start_each params ms (add (own params m) b) in
      if is_none_given (apply_params params m).services
      then (err (make (kind invalid ∷ message (codes "no services provided") ∷ [])), b)
      else and_rest (own params m) rest

  unfoldable pub start :
      Result Err (List (Machine Err)) → List Param → B Err → Result Err (List (Machine Err)) × B Err
  unfolding start_each
  start (err e) params b = (err e, b)
  start (ok []) params b =
      (err (make (kind unavailable ∷ message (codes "no machines started") ∷ [])), b)
  start (ok (m ∷ ms)) params b = start_each params (m ∷ ms) b
