-- ===== src/Supervisor/Info.antt =====
-- supervisor.go: LocalInfo, Expvars, Getpid and the start of a supervisor.
--
-- What the runtime, expvar and the digester give is an argument.
use bigmachine.Prelude.{
  ℕ, ◌+◌, ◌≡◌, refl, sym, ◌∙◌, Bool, true, false, Option, none, List, [], ◌∷◌, ◌++◌, Text,
  if◌then◌else◌, arith,
}
use mathlib.Core.List.{append_assoc, append-nil}
use bigmachine.Machine.Retry.{Result, ok, err}

pub record Info : Type 0 where
  pub goos : Text
  pub goarch : Text
  pub digest : Text

-- digestOnce and binaryDigest; an empty digest is the zero one.
pub record DigestOnce : Type 0 where
  pub is_done : Bool
  pub binary_digest : Text
  -- How often the binary was opened, and closed.
  pub opens : ℕ
  pub closes : ℕ

abbrev pub never_done : DigestOnce
never_done = record { is_done = false; binary_digest = []; opens = 0; closes = 0 }

-- The function of digestOnce: binary(), and io.Copy to the digester with the digest that it gives.
unfoldable pub digest_binary :
    {Err : Type 0} → Result Err (Result Err Text) → DigestOnce → DigestOnce
digest_binary (err e) s = record s { is_done = true }
digest_binary (ok (err e)) s = record s {
  is_done = true;
  opens = s.opens + 1;
  closes = s.closes + 1;
}
digest_binary (ok (ok d)) s = record s {
  is_done = true;
  binary_digest = d;
  opens = s.opens + 1;
  closes = s.closes + 1;
}

unfoldable pub local_info :
    {Err : Type 0} → Text → Text → Result Err (Result Err Text) → DigestOnce → Info × DigestOnce
unfolding digest_binary
local_info goos goarch binary s =
    let s' = if s.is_done then s else digest_binary binary s in
    (record { goos = goos; goarch = goarch; digest = s'.binary_digest }, s')

digest_binary-done :
    {Err : Type 0} (binary : Result Err (Result Err Text)) (s : DigestOnce)
    → (digest_binary binary s).is_done ≡ true
unfolding digest_binary
digest_binary-done (err e) s = refl
digest_binary-done (ok (err e)) s = refl
digest_binary-done (ok (ok d)) s = refl

-- The binary is read for the first call only: each later one gives the same information, whatever
-- the binary would give then, even where the first could not read it.
pub local_info-again :
    {Err : Type 0} (goos goarch : Text) (binary binary' : Result Err (Result Err Text))
    (s : DigestOnce)
    → let first = local_info goos goarch binary s in local_info goos goarch binary' first.1 ≡ first
unfolding local_info
local_info-again goos goarch binary binary' s = ground (arith, digest_binary-done binary s)

-- Expvars: the variables, by what expvar.Do goes through, are appended to the reply.
unfoldable pub expvars : List (Text × Text) → List (Text × Text) → List (Text × Text)
expvars [] vars = vars
expvars (kv ∷ kvs) vars = expvars kvs (vars ++ kv ∷ [])

pub expvars_all : (kvs vars : List (Text × Text)) → expvars kvs vars ≡ vars ++ kvs
unfolding expvars
expvars_all [] vars = sym (append-nil vars)
expvars_all (kv ∷ kvs) vars = expvars_all kvs (vars ++ kv ∷ []) ∙ append_assoc vars (kv ∷ []) kvs

-- Getpid, by os.Getpid.
unfoldable pub getpid : {Err : Type 0} → ℕ → Option Err × ℕ
getpid pid = (none, pid)
