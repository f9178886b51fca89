-- ===== src/Ec2/Config.antt =====
-- ec2system/config.go: the construction of a System from the settings of a configuration.
--
-- The configuration library reads the settings; an instance's own values are the given System.
use bigmachine.Prelude.{
  ℕ, ◌≡◌, refl, ap, ◌∙◌, false, Option, List, [], ◌∷◌, ◌++◌, Text, codes, if◌then◌else◌, ◌==◌,
  text_eq, contains, All, arith,
}
use bigmachine.Errors.{Errors, kind, message, invalid}
use bigmachine.Machine.Retry.{Result, ok, err}
use bigmachine.Ec2.{Flavor, flatcar, ubuntu}
use bigmachine.Ec2.Devices.{System}

abbrev comma : ℕ
comma = 44

abbrev add_to_first : ℕ → List Text → List Text
add_to_first c [] = (c ∷ []) ∷ []
add_to_first c (p ∷ ps) = (c ∷ p) ∷ ps

-- strings.Split at a comma: the empty text has one part, which is empty.
unfoldable pub split : Text → List Text
split [] = [] ∷ []
split (c ∷ t) = let parts = split t in if c == comma then [] ∷ parts else add_to_first c parts

-- The settings that constr.New reads; the sizes are not negative.
pub record Settings : Type 0 where
  pub flavor : Text
  pub diskspace : ℕ
  pub dataspace : ℕ
  pub sshkey : Text
  -- sess.Config.Region.
  pub region : Option Text

-- constr.New after its switch; `system` has what the constructor's variables have set.
unfoldable pub with_settings : Flavor → Settings → System → System
unfolding split
with_settings f c system = record system {
  flavor = f;
  diskspace = c.diskspace;
  dataspace = c.dataspace;
  ssh_keys = split c.sshkey;
  region = c.region;
}

module _ (E : Errors) where
  open E use {Err, make}

  unfoldable pub construct : Settings → System → Result Err System
  unfolding with_settings
  construct c system =
      if text_eq c.flavor (codes "flatcar")
      then ok (with_settings flatcar c system)
      else if text_eq c.flavor (codes "ubuntu")
      then ok (with_settings ubuntu c system)
      else err (
          make (
            kind invalid
            ∷ message (codes "flavor must be one of {flatcar, ubuntu}: ")
            ∷ message c.flavor
            ∷ []))

-- A list of keys as the setting has it.
abbrev pub comma_separated : List Text → Text
comma_separated [] = []
comma_separated (k ∷ []) = k
comma_separated (k ∷ l ∷ ks) = k ++ (comma ∷ comma_separated (l ∷ ks))

split_plain : (k : Text) → contains k comma ≡ false → split k ≡ k ∷ []
unfolding split contains
split_plain [] h = refl
split_plain (c ∷ k) h =
    let rest : contains k comma ≡ false = ground (arith, h) in ground (arith, h, split_plain k rest)

split-append : (k t : Text) → contains k comma ≡ false → split (k ++ (comma ∷ t)) ≡ k ∷ split t
unfolding split contains
split-append [] t h = ground arith
split-append (c ∷ k) t h =
    let rest : contains k comma ≡ false = ground (arith, h) in
    ground (arith, h, split-append k t rest)

split-comma_separated :
    (k : Text) (ks : List Text)
    → All (λ l. contains l comma ≡ false) (k ∷ ks)
    → split (comma_separated (k ∷ ks)) ≡ k ∷ ks
split-comma_separated k [] h = split_plain k h.0
split-comma_separated k (l ∷ ks) h =
    split-append k (comma_separated (l ∷ ks)) h.0
    ∙ ap (λ parts. k ∷ parts) (split-comma_separated l ks h.1)

-- A System has the keys that its setting lists with commas between them, if the setting lists a key
-- and no key has a comma, for a flavor that is known, and the sizes of its setting.
pub construct-ssh_keys :
    (E : Errors) (c : Settings) (system : System) (k : Text) (ks : List Text) (s : System)
    → c.sshkey ≡ comma_separated (k ∷ ks)
    → All (λ l. contains l comma ≡ false) (k ∷ ks)
    → construct E c system ≡ ok s
    → (s.ssh_keys ≡ k ∷ ks) × (s.diskspace ≡ c.diskspace) × (s.dataspace ≡ c.dataspace)
unfolding construct with_settings
construct-ssh_keys E c system k ks s hk hc h =
    let keys : split c.sshkey ≡ k ∷ ks = ap split hk ∙ split-comma_separated k ks hc in
    (ground (arith, h, keys), ground (arith, h), ground (arith, h))
