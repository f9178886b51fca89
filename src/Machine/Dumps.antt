-- ===== src/Machine/Dumps.antt =====
-- machine.go: saveProfile and saveExpvars, and the branch of Machine.loop that takes them from a
-- machine which is likely to die.
--
-- What the calls, os.Create, io.Copy and the JSON encoder do is an argument.
use bigmachine.Prelude.{
  ℕ, suc, ◌+◌, ◌≡◌, Bool, true, false, Option, none, some, List, [], ◌∷◌, ◌++◌, Text, codes,
  if◌then◌else◌, arith,
}

-- A stream of a reply, or a local file.
pub data Handle : Type 0 where
  stream : Handle
  file : (path : Text) → Handle

-- The handles that were opened and closed, the latest first, and what the files came to hold.
pub record Locals : Type 0 where
  pub opened : List Handle
  pub closed : List Handle
  pub files : List (Text × Text)

abbrev open_handle : Handle → Locals → Locals
open_handle h s = record s { opened = h ∷ s.opened }

abbrev close_handle : Handle → Locals → Locals
close_handle h s = record s { closed = h ∷ s.closed }

-- What os.Create of the path returns, and what is written to the file with the error of that.
pub record Saving (Err : Type 0) : Type 0 where
  pub create : Option Err
  pub written : Text
  pub copy : Option Err

module _ {Err : Type 0} where
  -- From os.Create to the return; `defer f.Close()`.
  unfoldable pub save_file : Text → Saving Err → Locals → Option Err × Locals
  save_file path d s = elim d.create [
    | some e ↦ (some e, s)
    | none ↦
        let s' = open_handle (file path) s in
        (d.copy, close_handle (file path) (record s' { files = (path, d.written) ∷ s'.files }))
  ]

  -- saveProfile, by what Supervisor.Profile returns; `defer rc.Close()`.
  unfoldable pub save_profile : Option Err → Text → Saving Err → Locals → Option Err × Locals
  unfolding save_file
  save_profile (some e) path d s = (some e, s)
  save_profile none path d s =
      let done = save_file path d (open_handle stream s) in (done.0, close_handle stream done.1)

  -- saveExpvars, by what retryCall of Supervisor.Expvars returns.
  unfoldable pub save_expvars : Option Err → Text → Saving Err → Locals → Option Err × Locals
  unfolding save_file
  save_expvars (some e) path d s = (some e, s)
  save_expvars none path d s = save_file path d s

  -- `if !reply.Healthy`: both are tried, and their errors are logged.
  unfoldable pub take_dumps :
      (healthy : Bool) (host time : Text) (profile_err vars_err : Option Err)
      (heap vars : Saving Err)
      → Locals
      → Locals
  unfolding save_profile save_expvars
  take_dumps healthy host time profile_err vars_err heap vars s =
      let suffix = codes "." ++ host ++ codes "-" ++ time in
      let s1 = (save_profile profile_err (codes "heap" ++ suffix) heap s).1 in
      let s2 = (save_expvars vars_err (codes "vars" ++ suffix) vars s1).1 in
      if healthy then s else s2

-- Hostname: what url.Parse gives of the address, if it parses, and net.SplitHostPort of its host.
unfoldable pub hostname : Option Text → (Text → Option Text) → Text
hostname none split = codes "unknown"
hostname (some host) split = elim (split host) [ none ↦ host | some name ↦ name ]

unfoldable pub count : (Handle → Bool) → List Handle → ℕ
count p [] = 0
count p (h ∷ hs) = let rest = count p hs in if p h then suc rest else rest

-- Between two states, every handle is closed as often as it is opened.
abbrev pub AllClosed : Locals → Locals → Type 0
AllClosed s s' =
    (p : Handle → Bool)
    → count p s'.closed + count p s.opened ≡ count p s'.opened + count p s.closed

AllClosed-trans : (r s t : Locals) → AllClosed r s → AllClosed s t → AllClosed r t
AllClosed-trans r s t h k p = omega (arith, h p, k p)

module _ {Err : Type 0} where
  save_file-AllClosed :
      (path : Text) (d : Saving Err) (s : Locals) → AllClosed s (save_file path d s).1
  unfolding save_file count
  save_file-AllClosed path d s p = ground arith

  save_profile-AllClosed :
      (e : Option Err) (path : Text) (d : Saving Err) (s : Locals)
      → AllClosed s (save_profile e path d s).1
  unfolding save_profile count
  save_profile-AllClosed (some e) path d s p = omega arith
  save_profile-AllClosed none path d s p =
      let rest = save_file-AllClosed path d (open_handle stream s) p in ground (arith, rest)

  save_expvars-AllClosed :
      (e : Option Err) (path : Text) (d : Saving Err) (s : Locals)
      → AllClosed s (save_expvars e path d s).1
  unfolding save_expvars
  save_expvars-AllClosed (some e) path d s p = omega arith
  save_expvars-AllClosed none path d s p = save_file-AllClosed path d s p

  -- Whatever fails while the dumps of an unhealthy machine are taken, each stream and each file
  -- that is opened for them is closed, as often as it is opened.
  pub take_dumps-AllClosed :
      (healthy : Bool) (host time : Text) (profile_err vars_err : Option Err)
      (heap vars : Saving Err) (s : Locals)
      → AllClosed s (take_dumps healthy host time profile_err vars_err heap vars s)
  unfolding take_dumps
  take_dumps-AllClosed true host time profile_err vars_err heap vars s p = omega arith
  take_dumps-AllClosed false host time profile_err vars_err heap vars s p =
      let suffix = codes "." ++ host ++ codes "-" ++ time in
      let s1 = (save_profile profile_err (codes "heap" ++ suffix) heap s).1 in
      AllClosed-trans s s1 (save_expvars vars_err (codes "vars" ++ suffix) vars s1).1
        (save_profile-AllClosed profile_err (codes "heap" ++ suffix) heap s)
        (save_expvars-AllClosed vars_err (codes "vars" ++ suffix) vars s1) p

  -- What is saved is what the machine sent: without an error, the file holds all that was written.
  pub save_profile-files :
      (e : Option Err) (path : Text) (d : Saving Err) (s : Locals)
      → (save_profile e path d s).0 ≡ none
      → ((save_profile e path d s).1.files ≡ (path, d.written) ∷ s.files) × (d.copy ≡ none)
  unfolding save_profile save_file
  save_profile-files (some e) path d s h = absurd (ground (arith, h))
  save_profile-files none path d s h = (ground (arith, h), ground (arith, h))
