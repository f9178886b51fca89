-- ===== src/Ec2.antt =====
-- ec2system/cloudconfig.go: the cloud-init configuration of an EC2 instance.
--
-- `yaml.Marshal` is a parameter; of the structure that it is given, the model has all fields.
pub mod Rendering
pub mod Slices
pub mod Devices
pub mod Boot
pub mod Launch
pub mod Init
pub mod Addresses
pub mod Remote
pub mod Trust
pub mod Templates
pub mod Config
pub mod Requests
pub mod Tagging
pub mod Shell
use bigmachine.Prelude.{
  ℕ, Bool, true, false, Option, none, some, List, [], ◌∷◌, ◌++◌, Text, codes, if◌then◌else◌,
  text_eq,
}
use bigmachine.Machine.Retry.{Result, ok, err}

pub record CloudFile : Type 0 where
  pub path : Text
  pub permissions : Text
  pub owner : Text
  pub content : Text

pub record CloudUnit : Type 0 where
  pub name : Text
  pub command : Text
  pub enable : Bool
  pub content : Text
  pub sync : Bool

pub data Flavor : Type 0 where
  flatcar ubuntu : Flavor

-- `units` is the private field, `core_units` is CoreOS.Units.
pub record CloudConfig : Type 0 where
  pub flavor : Flavor
  pub write_files : List CloudFile
  pub reboot_strategy : Text
  pub core_units : List CloudUnit
  pub ssh_authorized_keys : List Text
  pub run_cmd : List Text
  pub mounts : List (List Text)
  pub units : List CloudUnit

abbrev pub is_blank : Text → Bool
is_blank [] = true
is_blank (a ∷ t) = false

unfoldable pub merge : CloudConfig → CloudConfig → CloudConfig
merge c d = record c {
  write_files = c.write_files ++ d.write_files;
  reboot_strategy = if is_blank d.reboot_strategy then c.reboot_strategy else d.reboot_strategy;
  units = c.units ++ d.units;
  ssh_authorized_keys = c.ssh_authorized_keys ++ d.ssh_authorized_keys;
}

unfoldable pub append_file : CloudFile → CloudConfig → CloudConfig
append_file f c = record c { write_files = c.write_files ++ f ∷ [] }

unfoldable pub append_unit : CloudUnit → CloudConfig → CloudConfig
append_unit u c = record c { units = c.units ++ u ∷ [] }

unfoldable pub append_run_cmd : Text → CloudConfig → CloudConfig
append_run_cmd cmd c = record c { run_cmd = c.run_cmd ++ cmd ∷ [] }

unfoldable pub append_mount : List Text → CloudConfig → CloudConfig
append_mount mount c = record c { mounts = c.mounts ++ mount ∷ [] }

-- path.Join is a parameter.
unfoldable pub unit_file : (Text → Text → Text) → CloudUnit → CloudFile
unit_file join u = record {
  path = join (codes "/etc/systemd/system") u.name;
  permissions = codes "0644";
  owner = [];
  content = u.content;
}

unfoldable pub unit_cmd : CloudUnit → Text
unit_cmd u =
    let words = u.command ++ codes " " ++ u.name in
    if u.sync then codes "systemctl " ++ words else codes "systemctl --no-block " ++ words

-- A round of the loop of Marshal, on the copy.
unfoldable pub render_unit : (Text → Text → Text) → CloudUnit → CloudConfig → CloudConfig
unfolding append_file unit_file append_run_cmd unit_cmd
render_unit join u c =
    let c' = if is_blank u.content then c else append_file (unit_file join u) c in
    append_run_cmd (unit_cmd u) c'

unfoldable pub render_units : (Text → Text → Text) → List CloudUnit → CloudConfig → CloudConfig
unfolding render_unit
render_units join [] c = c
render_units join (u ∷ us) c = render_units join us (render_unit join u c)

abbrev pub has_none : List CloudUnit → Bool
has_none [] = true
has_none (u ∷ us) = false

-- The copy that Marshal gives to yaml.Marshal.
unfoldable pub rendered : (Text → Text → Text) → CloudConfig → CloudConfig
unfolding append_run_cmd render_units
rendered join c = elim c.flavor [
  | flatcar ↦ record c { core_units = c.units }
  | ubuntu ↦
      render_units join c.units
        (if has_none c.units then c else append_run_cmd (codes "systemctl daemon-reload") c)
]

unfoldable pub marshal :
    {Err : Type 0}
    → (Text → Text → Text)
    → (CloudConfig → Result Err Text)
    → CloudConfig
    → Result Err Text
unfolding rendered
marshal join yaml c = elim (yaml (rendered join c)) [
  | ok b ↦ ok (codes "#cloud-config" ++ 10 ∷ b)
  | err e ↦ err e
]
