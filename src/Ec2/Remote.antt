-- ===== src/Ec2/Remote.antt =====
-- ec2system/ec2machine.go: the commands that run on an instance by SSH, for Tail and Read, with their
-- retries; the server of an instance; the times of the keepalive.
--
-- What SSH, AWS and http2 return is an argument.
use bigmachine.Prelude.{
  ℕ, ◌*◌, ◌^◌, ◌≡◌, refl, ap, sym, Bool, ◌||◌, Option, none, some, List, [], ◌∷◌, ◌++◌, Text, codes,
  if◌then◌else◌, text_eq, All,
}
use mathlib.Core.List.{append_assoc}
use bigmachine.Errors.{Errors, kind, message, invalid}
use bigmachine.Machine.Retry.{Result, ok, err}

-- KeepaliveConfig: the period, the timeout and the RPC timeout, in nanoseconds.
abbrev pub keepalive_config : ℕ × ℕ × ℕ
keepalive_config = (60 * 10 ^ 9, 600 * 10 ^ 9, 120 * 10 ^ 9)

-- A round of the loop of run: what runSSH writes before it returns, its error with whether it is one of
-- authentication or of the exit of the command, and retry.Wait.
pub record Try (Err : Type 0) : Type 0 where
  pub out : Text
  pub failure : Option Err
  pub is_auth : Bool
  pub is_exit : Bool
  pub waited : Option Err

module _ {Err : Type 0} where
  -- How a round ends the loop, with the error that closes the pipe; `none` where it goes on.
  unfoldable pub ends : Try Err → Option (Option Err)
  ends t = elim t.failure [
    | none ↦ some none
    | some e ↦
        if t.is_auth || t.is_exit
        then some (some e)
        else elim t.waited [ some w ↦ some (some w) | none ↦ none ]
  ]

  -- run: what its reader gives, and the error with which it ends; `none` when the rounds run out.
  unfoldable pub run : List (Try Err) → Option (Text × Option Err)
  unfolding ends
  run [] = none
  run (t ∷ ts) =
      let rest = run ts in
      elim (ends t) [
        | some closed ↦ some (t.out, closed)
        | none ↦ elim rest [ none ↦ none | some r ↦ some (t.out ++ r.0, r.1) ]
      ]

  abbrev pub outputs : List (Try Err) → Text
  outputs [] = []
  outputs (t ∷ ts) = t.out ++ outputs ts

  -- The reader of a command gives the output of all its tries, one after the other, up to the first that
  -- succeeds, that is refused or exits with an error, or after which the retry policy gives up; and it
  -- ends with the error of that try, or of the policy.
  pub run-ends :
      (before : List (Try Err)) (t : Try Err) (after : List (Try Err)) (closed : Option Err)
      → All (λ b. ends b ≡ none) before
      → ends t ≡ some closed
      → run (before ++ t ∷ after) ≡ some (outputs before ++ t.out, closed)
  unfolding run
  run-ends [] t after closed hb ht = rw (run, ht) refl
  run-ends (b ∷ before) t after closed hb ht =
      rw (run, hb.0, run-ends before t after closed hb.1 ht)
        (ap (λ x. some (x, closed)) (sym (append_assoc b.out (outputs before) t.out)))

-- What ListenAndServe comes to: an error, or a server at an address for the paths under a prefix.
pub data Listening (Err Config : Type 0) : Type 0 where
  refused : Err → Listening Err Config
  serving : (addr : Text) (config : Config) (prefix : Text) → Listening Err Config

module _ (E : Errors) {Config : Type 0} where
  open E use {Err, make}

  -- The end of ListenAndServe, by http2.ConfigureServer.
  unfoldable pub configure : Option Err → Text → Config → Text → Listening Err Config
  configure (some e) addr config prefix = refused e
  configure none addr config prefix = serving addr config prefix

  -- ListenAndServe, by $BIGMACHINE_ADDR, HTTPSConfig's part for servers, the session with the
  -- instance's identifier, and http2.ConfigureServer. The identifier is asked for if addresses have one.
  unfoldable pub listen_and_serve :
      Text → Text → Result Err Config → Bool → Result Err Text → Option Err → Listening Err Config
  unfolding configure
  listen_and_serve addr env https suffixed id configured =
      let listen = if text_eq addr [] then env else addr in
      if text_eq listen []
      then refused (make (kind invalid ∷ message (codes "no address defined") ∷ []))
      else elim https [
        | err e ↦ refused e
        | ok config ↦
            if suffixed
            then elim id [
              | err e ↦ refused e
              | ok i ↦ configure configured listen config (codes "/" ++ i)
            ]
            else configure configured listen config []
      ]
