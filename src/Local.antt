-- ===== src/Local.antt =====
-- local.go: the system whose machines are processes of the local host.
--
-- The operating system, the network and http2 are arguments, the authority is that of Authority. A
-- machine is named by the number of the call that made it.
pub mod Environment
pub mod Failures
pub mod Events
use bigmachine.Prelude.{
  ℕ, suc, ◌*◌, ◌+◌, ◌^◌, Bool, true, false, Option, none, some, List, [], ◌∷◌, ◌++◌, Text, codes,
  if◌then◌else◌, text_eq, contains,
}
use bigmachine.Errors.{Errors, message, cause}
use bigmachine.Machine.Retry.{Result, ok, err}
use bigmachine.Machine.Ooms.{decimal}

-- localSystem, with the processes that it has started.
pub record LocalSystem (A : Type 0) : Type 0 where
  pub authority_filename : Text
  pub authority : Option A
  -- muxers: the machines that have one.
  pub muxers : List ℕ
  pub processes : List (List Text)
  pub fresh : ℕ

-- Machine as Start makes it.
pub record Started : Type 0 where
  pub id : ℕ
  pub addr : Text
  pub maxprocs : ℕ

-- What one round of Start meets: getFreeTCPPort, and cmd.Start.
pub record Launch (Err : Type 0) : Type 0 where
  pub port : Result Err ℕ
  pub started : Option Err

abbrev pub host_of : ℕ → Text
host_of port = codes "localhost:" ++ decimal port

abbrev pub url_of : ℕ → Text
url_of port = codes "https://" ++ host_of port ++ codes "/"

-- cmd.Env, from os.Environ().
unfoldable pub process_env : List Text → Text → ℕ → List Text
process_env environ filename port =
    environ
    ++ codes "BIGMACHINE_MODE=machine"
      ∷ codes "BIGMACHINE_SYSTEM=local"
      ∷ (codes "BIGMACHINE_ADDR=" ++ host_of port)
      ∷ (codes "BIGMACHINE_AUTHORITY=" ++ filename)
      ∷ []

-- time.Second in nanoseconds.
abbrev second : ℕ
second = 10 ^ 9

-- KeepaliveConfig: the period, the timeout and the RPC timeout.
abbrev pub keepalive_config : ℕ × ℕ × ℕ
keepalive_config = (60 * second, 120 * second, 10 * second)

-- The state once a machine is in muxers, and once its process runs.
abbrev pub with_muxer : {A : Type 0} → LocalSystem A → LocalSystem A
with_muxer s = record s { muxers = s.fresh ∷ s.muxers; fresh = suc s.fresh }

abbrev pub with_process : {A : Type 0} → List Text → LocalSystem A → LocalSystem A
with_process env s = record s { processes = env ∷ s.processes }

module _ {Err A : Type 0} where
  -- Init: ioutil.TempFile's name, os.Remove, and authority.New.
  unfoldable pub init :
      Result Err Text
      → Option Err
      → (Text → Result Err A)
      → LocalSystem A
      → Option Err × LocalSystem A
  init (err e) removed new s = (some e, s)
  init (ok name) (some e) new s = (some e, record s { authority_filename = name })
  init (ok name) none new s =
      let s' : LocalSystem A = record s { authority_filename = name; muxers = [] } in
      elim (new name) [
        | err e ↦ (some e, record s' { authority = none })
        | ok a ↦ (none, record s' { authority = some a })
      ]

  abbrev pub and_rest :
      Started
      → Result Err (List Started) × LocalSystem A
      → Result Err (List Started) × LocalSystem A
  and_rest m (ok ms, s) = (ok (m ∷ ms), s)
  and_rest m (err e, s) = (err e, s)

  -- Start, a round for each machine that is asked for.
  unfoldable pub start :
      List Text → List (Launch Err) → LocalSystem A → Result Err (List Started) × LocalSystem A
  unfolding process_env
  start environ [] s = (ok [], s)
  start environ (l ∷ ls) s = elim l.port [
    | err e ↦ (err e, s)
    | ok port ↦ elim l.started [
      | some e ↦ (err e, with_muxer s)
      | none ↦
          and_rest (record { id = s.fresh; addr = url_of port; maxprocs = 1 })
            (start environ ls
              (with_process (process_env environ s.authority_filename port) (with_muxer s)))
    ]
  ]

-- os.Getenv: the entries of a process are those that come last for their names.
unfoldable pub value_of : Text → Text → Option Text
value_of [] [] = none
value_of [] (c ∷ entry) = if text_eq (c ∷ []) (codes "=") then some entry else none
value_of (n ∷ name) [] = none
value_of (n ∷ name) (c ∷ entry) =
    let rest = value_of name entry in if text_eq (n ∷ []) (c ∷ []) then rest else none

unfoldable pub lookup_env : Text → List Text → Option Text
unfolding value_of
lookup_env name [] = none
lookup_env name (e ∷ env) = elim (lookup_env name env) [ some v ↦ some v | none ↦ value_of name e ]

unfoldable pub get_env : Text → List Text → Text
unfolding lookup_env
get_env name env = elim (lookup_env name env) [ some v ↦ v | none ↦ [] ]

-- What ListenAndServe comes to: an error, or a server at an address that requires and verifies
-- the certificates of its clients.
pub data Listening (Err Config : Type 0) : Type 0 where
  refused : Err → Listening Err Config
  panics : Listening Err Config
  serving : (addr : Text) (config : Config) (max_streams : ℕ) → Listening Err Config

-- maxConcurrentStreams.
abbrev pub max_concurrent_streams : ℕ
max_concurrent_streams = 20000

module _ (E : Errors) where
  open E use {Err, format}

  abbrev pub no_address : Err
  no_address = format (message (codes "no address defined") ∷ [])

module _ (E : Errors) {A : Type 0} where
  open E use {Err, format}

  -- The authority that ListenAndServe uses: that of the file that the environment names, or its own.
  unfoldable pub serving_authority :
      Text → (Text → Result Err A) → LocalSystem A → Result Err (Option A) × LocalSystem A
  serving_authority [] new s = (ok s.authority, s)
  serving_authority (c ∷ filename) new s =
      let s' : LocalSystem A = record s { authority_filename = c ∷ filename } in
      elim (new (c ∷ filename)) [
        | err e ↦ (err e, record s' { authority = none })
        | ok a ↦ (ok (some a), record s' { authority = some a })
      ]

  -- Tail, by the machine; the pipe that it gives is that of the machine's muxer.
  unfoldable pub tail : ℕ → LocalSystem A → Result Err ℕ
  tail id s =
      if contains s.muxers id
      then ok id
      else err (format (message (codes "machine not under management") ∷ []))

module _ (E : Errors) {A Config : Type 0} where
  open E use {Err, make, format}

  -- After the authority: HTTPSConfig's part for servers, and http2.ConfigureServer.
  unfoldable pub serve_with :
      Text → (A → Result Err Config) → Option Err → Result Err (Option A) → Listening Err Config
  serve_with addr https configured (err e) = refused e
  serve_with addr https configured (ok none) = panics
  serve_with addr https configured (ok (some a)) = elim (https a) [
    | err e ↦ refused e
    | ok config ↦ elim configured [
      | some e ↦ refused (format (message (codes "error configuring server: ") ∷ cause e ∷ []))
      | none ↦ serving addr config max_concurrent_streams
    ]
  ]

  -- ListenAndServe in a process with the environment.
  unfoldable pub listen_and_serve :
      Text
      → List Text
      → (Text → Result Err A)
      → (A → Result Err Config)
      → Option Err
      → LocalSystem A
      → Listening Err Config × LocalSystem A
  unfolding get_env serving_authority serve_with
  listen_and_serve addr env new https configured s =
      let listen = if text_eq addr [] then get_env (codes "BIGMACHINE_ADDR") env else addr in
      let (a, s') = serving_authority E (get_env (codes "BIGMACHINE_AUTHORITY") env) new s in
      if text_eq listen []
      then (refused (no_address E), s)
      else (serve_with listen https configured a, s')
