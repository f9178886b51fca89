-- ===== src/Cluster/Profiler.antt =====
-- profile.go: the profiler, which writes a profile of one machine or of all.
--
-- What the machines answer, the copies, pprof's Parse and Merge are arguments. A nil entry of the map
-- of profiles is an entry that the list leaves out: the code reads both alike.
pub mod Closing
pub mod Formats
pub mod Single
use bigmachine.Prelude.{
  ℕ, ◌+◌, ◌*◌, ◌^◌, Bool, true, false, ◌&&◌, not, Option, none, some, List, [], ◌∷◌, ◌++◌, Text,
  codes, if◌then◌else◌, ltb, text_eq, lookup, insert, delete, sort_by,
}
use bigmachine.Errors.{Errors, message, cause}
use bigmachine.Machine.Retry.{Result, ok, err}

-- profiler; the numbers of the request's form are taken not to be negative.
pub record Profiler : Type 0 where
  pub which : Text
  pub addr : Text
  pub sec : ℕ
  pub debug : ℕ
  pub gc : Bool

-- The call that getProfile makes: Supervisor.CPUProfile with nanoseconds, or Supervisor.Profile.
pub data Request : Type 0 where
  cpu_profile : ℕ → Request
  profile : Text → ℕ → Bool → Request

unfoldable pub get_profile : Profiler → Request
get_profile p =
    if text_eq p.which (codes "profile")
    then cpu_profile (p.sec * 10 ^ 9)
    else profile p.which p.debug p.gc

abbrev pub text_plain : Text
text_plain = codes "text/plain; charset=utf-8"

abbrev pub octet_stream : Text
octet_stream = codes "application/octet-stream"

unfoldable pub content_type : Profiler → Text
content_type p =
    if ltb 0 p.debug && not (text_eq p.which (codes "profile")) then text_plain else octet_stream

-- A buffer or a stream of a profile: what io.Copy writes of it and returns, what profile.Parse
-- gives of it, and what its Close returns.
pub record Buffer (Err Prof : Type 0) : Type 0 where
  pub copy : Text × Option Err
  pub parsed : Result Err Prof
  pub close : Option Err

-- The writer's contents, the buffers that have been closed, and those of `profiles`.
pub record Pages (Err Prof : Type 0) : Type 0 where
  pub out : Text
  pub closed : List Text
  pub profiles : List (Text × Buffer Err Prof)

-- What Marshal returns: nil, errNoProfiles, or another error.
pub data Outcome (Err : Type 0) : Type 0 where
  done : Outcome Err
  no_profiles : Outcome Err
  failed : Err → Outcome Err

-- A machine of Machines() and what its goroutine comes to: whether it is running, the call of
-- getProfile, and filebuf.New of its reply.
pub record Source (Err Prof : Type 0) : Type 0 where
  pub addr : Text
  pub running : Bool
  pub reply : Result Err (Result Err (Buffer Err Prof))

module _ {Err Prof : Type 0} where
  -- The goroutines, in the order in which they come to store their profiles.
  unfoldable pub collect :
      List (Source Err Prof) → List (Text × Buffer Err Prof) → List (Text × Buffer Err Prof)
  collect [] profiles = profiles
  collect (s ∷ ss) profiles =
      if s.running
      then elim s.reply [
        | err e ↦ collect ss profiles
        | ok (err e) ↦ collect ss profiles
        | ok (ok b) ↦ collect ss (insert s.addr b profiles)
      ]
      else collect ss profiles

  -- `prof.Close()` and `profiles[m] = nil`.
  unfoldable pub close_at : Text → Pages Err Prof → Pages Err Prof
  close_at a s = record s { closed = a ∷ s.closed; profiles = delete a s.profiles }

  abbrev pub write : Text → Pages Err Prof → Pages Err Prof
  write t s = record s { out = s.out ++ t }

  -- The deferred closes of the buffers that are left.
  unfoldable pub close_rest : List (Text × Buffer Err Prof) → List Text → List Text
  close_rest [] closed = closed
  close_rest ((a, b) ∷ rest) closed = close_rest rest (a ∷ closed)

  unfoldable pub finish : Outcome Err × Pages Err Prof → Outcome Err × Pages Err Prof
  unfolding close_rest
  finish (o, s) = (o, record s { closed = close_rest s.profiles s.closed; profiles = [] })

module _ (E : Errors) (Prof : Type 0) where
  open E use {Err, format}

  -- One round of the loop over the sorted machines, for a machine with a profile.
  unfoldable pub append_profile :
      Text → Buffer Err Prof → Pages Err Prof → Option Err × Pages Err Prof
  unfolding close_at
  append_profile a b s =
      let s' = close_at a (write b.copy.0 (write (a ++ codes ":" ++ 10 ∷ []) s)) in
      elim b.copy.1 [
        | some e ↦ (
          some (
              format (message (codes "failed to append profile from ") ∷ message a ∷ cause e ∷ [])),
          s',
        )
        | none ↦ (none, write (10 ∷ []) s')
      ]

  -- The debug output, from the addresses in their order.
  unfoldable pub write_text : List Text → Pages Err Prof → Outcome Err × Pages Err Prof
  unfolding append_profile
  write_text [] s = (done, s)
  write_text (a ∷ rest) s = elim (lookup a s.profiles) [
    | none ↦ write_text rest s
    | some b ↦
        let (failure, s') = append_profile a b s in
        elim failure [ some e ↦ (failed e, s') | none ↦ write_text rest s' ]
  ]

  -- The loop that parses: the profiles that are left when it ends, those parsed, and the closed.
  unfoldable pub parse_each :
      List (Text × Buffer Err Prof)
      → List Prof
      → Pages Err Prof
      → Result Err (List Prof) × Pages Err Prof
  unfolding close_at
  parse_each [] parsed s = (ok parsed, s)
  parse_each ((a, b) ∷ rest) parsed s = elim b.parsed [
    | err e ↦ (
      err (format (message (codes "failed to parse profile from ") ∷ message a ∷ cause e ∷ [])),
      close_at a s,
    )
    | ok p ↦ parse_each rest (parsed ++ p ∷ []) (close_at a s)
  ]

  -- profile.Merge, and the Write of its profile: what it writes and returns.
  unfoldable pub write_merged :
      (List Prof → Result Err Prof)
      → (Prof → Text × Option Err)
      → List Prof
      → Pages Err Prof
      → Outcome Err × Pages Err Prof
  write_merged merge print parsed s = elim (merge parsed) [
    | err e ↦ (failed (format (message (codes "profile merge error: ") ∷ cause e ∷ [])), s)
    | ok p ↦
        let (text, failure) = print p in
        elim failure [
          | some e ↦ (
            failed (format (message (codes "failed to write profile: ") ∷ cause e ∷ [])),
            write text s,
          )
          | none ↦ (done, write text s)
        ]
  ]

  unfoldable pub write_profile :
      (List Prof → Result Err Prof)
      → (Prof → Text × Option Err)
      → Pages Err Prof
      → Outcome Err × Pages Err Prof
  unfolding parse_each write_merged
  write_profile merge print s =
      let (parsed, s') = parse_each s.profiles [] s in
      elim parsed [ err e ↦ (failed e, s') | ok ps ↦ write_merged merge print ps s' ]

  abbrev pub is_empty : List (Text × Buffer Err Prof) → Bool
  is_empty [] = true
  is_empty (b ∷ bs) = false

  -- Marshal for all machines, once the profiles are fetched; g.Wait returns nil, as each goroutine does.
  unfoldable pub write_all :
      (List Prof → Result Err Prof)
      → (Prof → Text × Option Err)
      → Profiler
      → List Text
      → Pages Err Prof
      → Outcome Err × Pages Err Prof
  unfolding write_text write_profile finish
  write_all merge print p machines s = finish (
      if is_empty s.profiles
      then (no_profiles, s)
      else if ltb 0 p.debug && not (text_eq p.which (codes "profiles"))
      then write_text (sort_by (λ a. a) machines) s
      else write_profile merge print s)

  unfoldable pub marshal_all :
      (List Prof → Result Err Prof)
      → (Prof → Text × Option Err)
      → Profiler
      → List Text
      → List (Source Err Prof)
      → Outcome Err × Pages Err Prof
  unfolding collect write_all
  marshal_all merge print p machines sources =
      write_all merge print p machines
        (record { out = []; closed = []; profiles = collect sources [] })
