-- ===== src/Supervisor/Reports.antt =====
-- supervisor.go: the calls that report on the process, and those that end it or extend it.
--
-- The operating system's and the runtime's answers are arguments; times are in nanoseconds.
use bigmachine.Prelude.{
  ℕ, ◌+◌, ◌-◌, ◌*◌, ◌^◌, ◌≤◌, ◌≡◌, Bool, true, ◌&&◌, Option, none, some, List, [], ◌∷◌, Text, codes,
  if◌then◌else◌, leb, ltb, ◌==◌, text_eq, arith,
}
use bigmachine.Errors.{Errors, message}
use bigmachine.Machine.Retry.{Result, ok, err}
use bigmachine.Rpc.Services.{MethodInfo, Server, register}
use bigmachine.Cluster.Profiles.{ProfileStat}

-- Ping.
unfoldable pub ping : ℕ → ℕ
ping seq = seq

-- MemInfo.
pub record MemInfo (Sys Runtime : Type 0) : Type 0 where
  pub system : Sys
  pub runtime : Runtime

module _ {Err : Type 0} where
  -- runtime.ReadMemStats and mem.VirtualMemory.
  unfoldable pub mem_info :
      {Sys Runtime : Type 0}
      → Bool
      → Runtime
      → Result Err Sys
      → MemInfo Sys Runtime
      → Option Err × MemInfo Sys Runtime
  mem_info read stats (err e) info =
      (some e, if read then record info { runtime = stats } else info)
  mem_info read stats (ok vm) info =
      (none, record { system = vm; runtime = if read then stats else info.runtime })

  -- DiskInfo and LoadInfo: disk.Usage, or load.AvgWithContext, and the record of the reply.
  unfoldable pub usage_info : {Usage : Type 0} → Result Err Usage → Usage → Option Err × Usage
  usage_info (err e) info = (some e, info)
  usage_info (ok u) info = (none, u)

-- Register, by the methods of the instance, which Server.Register always takes, and maybeInit.
unfoldable pub register_service :
    {Err : Type 0} → Text → ℕ → List MethodInfo → Option Err → Server → Option Err × Server
register_service name instance' methods init_err s = (init_err, register name instance' methods s)

-- A context: the time that is left until its deadline, and when it ends, with its error, if ever.
pub record Ctx (Err : Type 0) : Type 0 where
  pub left : Option ℕ
  pub ends : Option (ℕ × Err)

unfoldable pub is_context_alive_for : {Err : Type 0} → Ctx Err → ℕ → Bool
is_context_alive_for c dur = elim c.left [ none ↦ true | some d ↦ leb dur d ]

-- What a profile's pipe comes to: for how long it is taken, and what closes it.
pub record Taken (Err : Type 0) : Type 0 where
  pub lasts : ℕ
  pub ends : Option Err

-- The goroutine of CPUProfile, which begins some time after the check: the error of
-- pprof.StartCPUProfile, or the `select` between the timer and the context, here with the timer if both
-- are ready.
unfoldable pub take_profile : {Err : Type 0} → Option Err → ℕ → Ctx Err → ℕ → Taken Err
take_profile (some e) late c dur = record { lasts = 0; ends = some e }
take_profile none late c dur = elim c.ends [
  | none ↦ record { lasts = dur; ends = none }
  | some (t, e) ↦
      if ltb t (late + dur)
      then record { lasts = t - late; ends = some e }
      else record { lasts = dur; ends = none }
]

abbrev pub or_30s : ℕ → ℕ
or_30s dur = if dur == 0 then 30 * 10 ^ 9 else dur

-- pprof.Profile: its name, its count, and the error of its WriteTo.
pub record Pprof (Err : Type 0) : Type 0 where
  pub name : Text
  pub count : ℕ
  pub written : Option Err

unfoldable pub find_profile : {Err : Type 0} → Text → List (Pprof Err) → Option (Pprof Err)
find_profile name [] = none
find_profile name (p ∷ ps) =
    let rest = find_profile name ps in if text_eq p.name name then some p else rest

-- Profiles.
unfoldable pub profiles : {Err : Type 0} → List (Pprof Err) → List ProfileStat
profiles [] = []
profiles (p ∷ ps) = record { name = p.name; count = p.count } ∷ profiles ps

-- What the goroutine of Shutdown does: it sleeps, prints the message and exits.
pub data Ending : Type 0 where
  sleep : ℕ → Ending
  print : Text → Ending
  exit : ℕ → Ending

unfoldable pub shutdown : ℕ → Text → List Ending
shutdown delay text = sleep delay ∷ print text ∷ exit 1 ∷ []

module _ (E : Errors) where
  open E use {Err, format}

  -- CPUProfile, with the text of a duration.
  unfoldable pub cpu_profile : (ℕ → Text) → ℕ → Option Err → ℕ → Ctx Err → Result Err (Taken Err)
  unfolding take_profile is_context_alive_for
  cpu_profile show dur started late c =
      if is_context_alive_for c (or_30s dur)
      then ok (take_profile started late c (or_30s dur))
      else err (
          format (
            message (codes "context is too short for duration ")
            ∷ message (show (or_30s dur))
            ∷ []))

  -- Profile: whether the garbage is collected first, and what closes the pipe.
  unfoldable pub profile : Text → Bool → List (Pprof Err) → Bool × Result Err (Option Err)
  unfolding find_profile
  profile name gc all = (
    text_eq name (codes "heap") && gc,
    elim (find_profile name all) [
      | none ↦ err (format (message (codes "no such profile ") ∷ message name ∷ []))
      | some p ↦ ok p.written
    ],
  )

  -- A CPU profile whose context ends at its deadline lasts as long as it was asked for, half a minute if
  -- that was zero, and ends without an error, if the deadline leaves that time after the delay with
  -- which the profile begins.
  pub cpu_profile-lasts :
      (show : ℕ → Text) (dur late d : ℕ) (e : Err) (c : Ctx Err)
      → c.left ≡ some d
      → c.ends ≡ some (d, e)
      → late + or_30s dur ≤ d
      → cpu_profile show dur none late c ≡ ok (record { lasts = or_30s dur; ends = none })
  unfolding cpu_profile
  cpu_profile-lasts show dur late d e c hl he h = ground (arith, hl, he, h)
