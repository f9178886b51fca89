-- ===== src/Ec2/Init.antt =====
-- ec2system/ec2machine.go: Init of a System, with config.go's defaults for the boot binary.
--
-- What the host, the key generation, the AWS session and the authority give is an argument.
use bigmachine.Prelude.{
  ℕ, ◌≡◌, refl, Bool, true, false, not, ◌&&◌, Option, none, some, List, [], ◌∷◌, ◌++◌, Text, codes,
  if◌then◌else◌, ◌==◌, text_eq, has_prefix, lookup, arith,
}
use bigmachine.Errors.{Errors, message}
use bigmachine.Machine.Retry.{Result, ok, err}
use bigmachine.Ec2.Devices.{System, InstanceType}

abbrev pub binary_prefix : Text
binary_prefix = codes "https://grail-public-bin.s3-us-west-2.amazonaws.com/linux/amd64/ec2boot"

abbrev pub default_binary : Text
default_binary = binary_prefix ++ codes "0.5"

-- What Init meets, in its order.
pub record Host (Err : Type 0) : Type 0 where
  -- Whether the process runs on linux/amd64, and the error of the search for such an image in the
  -- binary: `none` if there is one.
  pub is_linux : Bool
  pub image : Option Err
  -- instanceTypes.
  pub types : List (Text × InstanceType)
  -- The new SSH key's public part; then $HOME/.ssh/id_rsa.pub and the agent's keys.
  pub public_key : Result Err Text
  pub user_key : Option Text
  pub agent_keys : List Text
  pub session : Option Err
  -- authority.New, by the contents.
  pub authority : Result Err Text

abbrev pub is_empty : Text → Bool
is_empty [] = true
is_empty (c ∷ t) = false

abbrev pub or_default : Text → Text → Text
or_default [] d = d
or_default (c ∷ t) d = c ∷ t

-- An empty binary, and any one with the prefix, is the current one.
unfoldable pub binary_of : Text → Text
unfolding has_prefix
binary_of b =
    if is_empty b
    then default_binary
    else if not (text_eq b default_binary) && has_prefix b binary_prefix
    then default_binary
    else b

unfoldable pub region_of : System → Text
region_of s = elim s.region [ some r ↦ r | none ↦ or_default s.default_region (codes "us-west-2") ]

abbrev pub or_200 : ℕ → ℕ
or_200 n = if n == 0 then 200 else n

-- The defaults that Init provides.
unfoldable pub with_defaults : System → System
unfolding binary_of region_of
with_defaults s = record s {
  instance_type = or_default s.instance_type (codes "m3.medium");
  ami = or_default s.ami (codes "ami-0bb54692374ac10a7");
  region = some (region_of s);
  diskspace = or_200 s.diskspace;
  binary = binary_of s.binary;
}

-- s.config.Price[region]; 0 for a region that is missing.
abbrev pub price_of : Text → InstanceType → ℕ
price_of region t = elim (lookup region t.price) [ some p ↦ p | none ↦ 0 ]

abbrev pub user_keys : Option Text → List Text
user_keys none = []
user_keys (some k) = k ∷ []

module _ (E : Errors) where
  open E use {Err, format}

  -- From the session on.
  unfoldable pub init_session : Host Err → System → Option Err × System
  init_session h s = elim h.session [
    | some e ↦ (some e, s)
    | none ↦ elim h.authority [
      | err e ↦ (some e, s)
      | ok contents ↦ (none, record s { authority = contents })
    ]
  ]

  -- From the SSH key on.
  unfoldable pub init_keys : Host Err → System → Option Err × System
  unfolding init_session
  init_keys h s = elim h.public_key [
    | err e ↦ (some e, s)
    | ok key ↦
        init_session h
          (record s { ssh_keys = s.ssh_keys ++ (key ∷ (user_keys h.user_key ++ h.agent_keys)) })
  ]

  -- From the look-up of the instance type on.
  unfoldable pub init_type : Host Err → System → Option Err × System
  unfolding init_keys
  init_type h s = elim (lookup s.instance_type h.types) [
    | none ↦
        (some (format (message (codes "invalid instance type ") ∷ message s.instance_type ∷ [])), s)
    | some t ↦
        let s' = record s { config = t } in
        if price_of (region_of s) t == 0
        then (
          some (
              format (
                message (codes "instance type ")
                ∷ message s.instance_type
                ∷ message (codes " not available in region ")
                ∷ message (region_of s)
                ∷ [])),
          s',
        )
        else init_keys h s'
  ]

  unfoldable pub init : Host Err → System → Option Err × System
  unfolding init_type with_defaults
  init h s =
      let rest = init_type h (with_defaults s) in
      if h.is_linux then rest else elim h.image [ some e ↦ (some e, s) | none ↦ rest ]

  -- The defaults are settled by one call: a System that has them keeps them.
  or_default_twice :
      (t : Text) (c : ℕ) (d : Text)
      → or_default (or_default t (c ∷ d)) (c ∷ d) ≡ or_default t (c ∷ d)
  or_default_twice [] c d = refl
  or_default_twice (e ∷ t) c d = refl

  -- What a System must be for Init to succeed on a host, with the type that it finds.
  abbrev pub Ready : Host Err → System → InstanceType → Text → Text → Type 0
  Ready h s t key contents =
      (((h.is_linux ≡ false) → h.image ≡ none)
        × (lookup (with_defaults s).instance_type h.types ≡ some t)
        × ((price_of (region_of s) t == 0) ≡ false)
        × (h.public_key ≡ ok key)
        × (h.session ≡ none)
        × (h.authority ≡ ok contents))

  -- Init succeeds if the binary has an image for the instances, the instance type is known and has
  -- a price in the region, and the key, the session and the authority can be made. The System then
  -- has its defaults, the type, the authority, and the keys of the session and of the user after
  -- its own.
  pub init-Ready :
      (h : Host Err) (s : System) (t : InstanceType) (key contents : Text)
      → Ready h s t key contents
      → init h s ≡ (
        none,
        record (with_defaults s) {
          config = t;
          ssh_keys = s.ssh_keys ++ (key ∷ (user_keys h.user_key ++ h.agent_keys));
          authority = contents;
        },
      )
  unfolding init init_type init_keys init_session with_defaults region_of
  init-Ready h s t key contents r = ground (arith, r.0, r.1, r.2, r.3, r.4, r.5)

  -- If Init succeeds, the type that it leaves is the one under the System's name of it, and has a
  -- price in its region; the boot binary is not an outdated one.
  pub init-none :
      (h : Host Err) (s : System)
      → (init h s).0 ≡ none
      → (lookup (init h s).1.instance_type h.types ≡ some (init h s).1.config)
        × ((price_of (region_of (init h s).1) (init h s).1.config == 0) ≡ false)
        × ((init h s).1.binary ≡ binary_of s.binary)
  unfolding init init_type init_keys init_session with_defaults region_of
  init-none h s e = (ground arith, ground arith, ground arith)
