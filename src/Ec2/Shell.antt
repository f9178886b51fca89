-- ===== src/Ec2/Shell.antt =====
-- ec2system/ec2machine.go: one run of a command by SSH, the monitor of spot actions, and the protocols
-- of the HTTP client.
--
-- What SSH and HTTP return is an argument.
use bigmachine.Prelude.{
  ℕ, suc, ◌≡◌, Bool, false, Option, none, some, List, [], ◌∷◌, ◌++◌, Text, codes, if◌then◌else◌,
  ◌==◌, take, arith,
}
use bigmachine.Machine.Retry.{Result, ok, err}
use bigmachine.Ec2.{Flavor, flatcar, ubuntu}
use bigmachine.Ec2.Remote.{Try}

-- The user that dialSSH logs in as; a System has one of the two flavors.
unfoldable pub ssh_user : Flavor → Text
ssh_user flatcar = codes "core"
ssh_user ubuntu = codes "ubuntu"

-- The server that dialSSH dials.
unfoldable pub ssh_addr : Text → Text
ssh_addr addr = addr ++ codes ":22"

-- What the steps of runSSH return: ssh.NewSignerFromKey, ssh.Dial, NewSession, and Run with what it
-- writes.
pub record Steps (Err : Type 0) : Type 0 where
  pub signer : Option Err
  pub dialed : Option Err
  pub session : Option Err
  pub out : Text
  pub run : Option Err

pub data Handle : Type 0 where
  conn sess : Handle

-- What runSSH comes to: the output, the error, and the handles opened and closed.
pub record Ran (Err : Type 0) : Type 0 where
  pub out : Text
  pub failure : Option Err
  pub opened : List Handle
  pub closed : List Handle

-- A reply of the instance's metadata: its status, its body, and the error of io.Copy.
pub record Action (Err : Type 0) : Type 0 where
  pub status : ℕ
  pub body : Text
  pub copy : Option Err

module _ {Err : Type 0} where
  -- From NewSession on.
  unfoldable pub run_session : Steps Err → Ran Err
  run_session s = elim s.session [
    | some e ↦ record { out = []; failure = some e; opened = conn ∷ []; closed = conn ∷ [] }
    | none ↦ record {
      out = s.out;
      failure = s.run;
      opened = conn ∷ sess ∷ [];
      closed = sess ∷ conn ∷ [];
    }
  ]

  unfoldable pub run_ssh : Steps Err → Ran Err
  unfolding run_session
  run_ssh s = elim s.signer [
    | some e ↦ record { out = []; failure = some e; opened = []; closed = [] }
    | none ↦ elim s.dialed [
      | some e ↦ record { out = []; failure = some e; opened = []; closed = [] }
      | none ↦ run_session s
    ]
  ]

  -- The round of run that a runSSH makes, with what the code reads from its error.
  unfoldable pub try_of : (is_auth is_exit : Err → Bool) → Option Err → Steps Err → Try Err
  unfolding run_ssh
  try_of is_auth is_exit waited s =
      let r = run_ssh s in
      record {
        out = r.out;
        failure = r.failure;
        is_auth = elim r.failure [ some e ↦ is_auth e | none ↦ false ];
        is_exit = elim r.failure [ some e ↦ is_exit e | none ↦ false ];
        waited = waited;
      }

  -- The action that a round of monitorSpotActions logs, if any; `limited` is what limitbuf keeps.
  unfoldable pub spot_action : (ℕ → Text → Text) → Result Err (Action Err) → Option Text
  spot_action limited (err e) = none
  spot_action limited (ok r) =
      if r.status == 200
      then elim r.copy [ some e ↦ none | none ↦ some (limited 512 (take 513 r.body)) ]
      else none

-- clientConfig.NextProtos, from HTTPSConfig's.
unfoldable pub next_protos : List Text → List Text
next_protos protos = (codes "h2" ∷ protos) ++ codes "http/1.1" ∷ []

unfoldable pub count : (Handle → Bool) → List Handle → ℕ
count p [] = 0
count p (h ∷ hs) = let rest = count p hs in if p h then suc rest else rest

-- Whatever fails, runSSH closes what it opened; and it writes nothing unless it has run the command.
pub run_ssh-closed :
    {Err : Type 0} (s : Steps Err) (p : Handle → Bool)
    → count p (run_ssh s).closed ≡ count p (run_ssh s).opened
unfolding run_ssh count
run_ssh-closed s p = ground arith
