-- ===== src/Local/Environment.antt =====
-- local.go with system.go and bigmachine.go: a process that Start makes becomes a machine at the
-- address that Start gives of it.
use bigmachine.Prelude.{
  ℕ, ◌≡◌, refl, ap, ◌∙◌, true, none, some, List, [], ◌∷◌, ◌++◌, Text, codes, lookup, arith,
}
use bigmachine.Errors.{Errors}
use bigmachine.Machine.Retry.{Result, ok}
use bigmachine.Cluster.{B, serves, run}
use bigmachine.Cluster.Registry.{Initialized, not_found, starts}
use bigmachine.Cluster.Registry
use bigmachine.Rpc.Services.{MethodInfo, new_server, register}
use bigmachine.Local.{
  LocalSystem, process_env, lookup_env, value_of, get_env, host_of, serving, listen_and_serve,
  serving_authority, serve_with, max_concurrent_streams,
}

lookup_env-append :
    (name v : Text) (xs ys : List Text)
    → lookup_env name ys ≡ some v
    → lookup_env name (xs ++ ys) ≡ some v
unfolding lookup_env
lookup_env-append name v [] ys h = h
lookup_env-append name v (x ∷ xs) ys h = ground (arith, lookup_env-append name v xs ys h)

-- What a process of Start reads of its environment, whatever that of the driver has.
process_env-get_env :
    (name v : Text) (environ : List Text) (filename : Text) (port : ℕ)
    → lookup_env name (process_env [] filename port) ≡ some v
    → get_env name (process_env environ filename port) ≡ v
unfolding get_env process_env
process_env-get_env name v environ filename port h =
    ap (λ o. elim o [ some w ↦ w | none ↦ [] ])
      (lookup_env-append name v environ (process_env [] filename port) h)

mode_lem :
    (environ : List Text) (filename : Text) (port : ℕ)
    → get_env (codes "BIGMACHINE_MODE") (process_env environ filename port) ≡ codes "machine"
unfolding lookup_env value_of process_env
mode_lem environ filename port = process_env-get_env _ _ environ filename port refl

system_lem :
    (environ : List Text) (filename : Text) (port : ℕ)
    → get_env (codes "BIGMACHINE_SYSTEM") (process_env environ filename port) ≡ codes "local"
unfolding lookup_env value_of process_env
system_lem environ filename port = process_env-get_env _ _ environ filename port refl

addr_lem :
    (environ : List Text) (filename : Text) (port : ℕ)
    → get_env (codes "BIGMACHINE_ADDR") (process_env environ filename port) ≡ host_of port
unfolding lookup_env value_of process_env
addr_lem environ filename port = process_env-get_env _ _ environ filename port refl

authority_lem :
    (environ : List Text) (filename : Text) (port : ℕ)
    → get_env (codes "BIGMACHINE_AUTHORITY") (process_env environ filename port) ≡ filename
unfolding lookup_env value_of process_env
authority_lem environ filename port = process_env-get_env _ _ environ filename port refl

module _ (E : Errors) {A Config : Type 0} where
  open E use {Err}

  serving_lem :
      (env : List Text) (x : ℕ) (host : Text) (c : ℕ) (filename : Text) (s : LocalSystem A)
      (new : Text → Result Err A) (a : A) (https : A → Result Err Config) (config : Config)
      → get_env (codes "BIGMACHINE_ADDR") env ≡ x ∷ host
      → get_env (codes "BIGMACHINE_AUTHORITY") env ≡ c ∷ filename
      → new (c ∷ filename) ≡ ok a
      → https a ≡ ok config
      → (listen_and_serve E [] env new https none s).0
        ≡ serving (x ∷ host) config max_concurrent_streams
  unfolding listen_and_serve serve_with serving_authority
  serving_lem env x host c filename s new a https config hx hc hn hh =
      rw (hx, hc, serving_authority, hn, serve_with, hh)
        (ap (λ t. serving t config max_concurrent_streams) hx)

  -- A process that Start makes, whatever the environment of the driver, becomes a machine: Init finds the
  -- local system, Start runs it as a machine, and it serves with the authority of the driver's file at
  -- the host and the port that Start chose. The file's name is taken not to be empty, the local system to
  -- be registered, and New, HTTPSConfig and the other parts of the set-up to succeed.
  pub listen_and_serve-process_env :
      (environ : List Text) (c : ℕ) (filename : Text) (port : ℕ) (system : LocalSystem A)
      (registry : List (Text × LocalSystem A)) (b : B Err) (supervisor : ℕ)
      (methods : List MethodInfo) (new : Text → Result Err A) (a : A)
      (https : A → Result Err Config) (config : Config)
      → lookup (codes "local") registry ≡ some system
      → new (c ∷ filename) ≡ ok a
      → https a ≡ ok config
      → (Registry.init
            (get_env (codes "BIGMACHINE_SYSTEM") (process_env environ (c ∷ filename) port))
            registry
          ≡ starts system)
        × (run
              (get_env (codes "BIGMACHINE_MODE") (process_env environ (c ∷ filename) port))
              none
              none
              supervisor
              methods
              b
            ≡ serves
                (record b { running = true })
                (register (codes "Supervisor") supervisor methods new_server))
        × ((listen_and_serve E [] (process_env environ (c ∷ filename) port) new https none system).0
            ≡ serving (host_of port) config max_concurrent_streams)
  unfolding listen_and_serve run serve_with serving_authority Registry.init
  listen_and_serve-process_env environ c filename port system registry b supervisor methods new a
        https config hr hn hh =
      let addr = addr_lem environ (c ∷ filename) port in
      let file = authority_lem environ (c ∷ filename) port in
      (
        ap (λ t. Registry.init t registry) (system_lem environ (c ∷ filename) port)
            ∙ ap
                (λ o. elim o as (λ x. Initialized (LocalSystem A)) [
                  | none ↦ not_found (codes "local")
                  | some s ↦ starts s
                ])
                hr,
        ap (λ t. run t none none supervisor methods b) (mode_lem environ (c ∷ filename) port),
        serving_lem (process_env environ (c ∷ filename) port) _ _ c filename system new a https
            config addr file hn hh,
      )
