-- ===== src/Ec2/Boot.antt =====
-- ec2system/ec2machine.go: cloudConfig, what an instance is told to do when it boots.
--
-- A template is the text of the source, line by line; the execution of text/template on the lines
-- that `tmpl` leaves is a parameter. `none` stands for a panic of `tmpl`: on a line with a prefix, and
-- where template.Must or Execute fails.
pub mod Scripts
use bigmachine.Prelude.{
  ℕ, zero, suc, ◌+◌, ◌*◌, Bool, true, false, not, Option, none, some, List, [], ◌∷◌, ◌++◌, Text,
  codes, map, if◌then◌else◌,
}
use bigmachine.Ec2.{
  CloudFile, CloudUnit, Flavor, flatcar, ubuntu, CloudConfig, append_file, append_unit,
  append_mount,
}
use bigmachine.Ec2.Templates.{strip}
use bigmachine.Ec2.Boot.Scripts.{
  format_one_lines, format_many_lines, mount_lines, sysctl_lines, script_lines, update_sysctl_lines,
  bootmachine_lines,
}
use bigmachine.Ec2.Devices.{System, data_devices}

-- A value among the arguments of a template.
pub data Value : Type 0 where
  text : Text → Value
  number : ℕ → Value
  flag : Bool → Value
  texts : List Text → Value

abbrev pub Args : Type 0
Args = List (Text × Value)

-- The parsing and the execution of a template: `none` where it fails.
abbrev pub Execute : Type 0
Execute = List Text → Args → Option Text

abbrev pub tabs : ℕ → Text
tabs zero = []
tabs (suc n) = 9 ∷ tabs n

-- The lines of a raw string that starts and ends on lines of their own, under some tabs.
abbrev pub raw : ℕ → List Text → List Text
raw n lines = [] ∷ (map (λ l. tabs (suc n) ++ l) lines ++ tabs n ∷ [])

unfoldable pub tmpl : Execute → List Text → Args → Option Text
unfolding strip
tmpl execute lines args = elim (strip lines) [ some ls ↦ execute ls args | none ↦ none ]

infixl 5 ◌>>=◌
abbrev pub ◌>>=◌ {ℓ κ} : {A : Type ℓ} {B : Type κ} → Option A → (A → Option B) → Option B
none >>= f = none
some a >>= f = f a

-- A unit to start, by its name and its contents.
abbrev pub started_unit : Text → Bool → Text → CloudUnit
started_unit name enable content = record {
  name = name;
  command = codes "start";
  enable = enable;
  content = content;
  sync = false;
}

abbrev pub stopped_unit : Text → CloudUnit
stopped_unit name = record {
  name = name;
  command = codes "stop";
  enable = false;
  content = [];
  sync = false;
}

abbrev pub is_flatcar : Flavor → Bool
is_flatcar flatcar = true
is_flatcar ubuntu = false

-- The start of cloudConfig.
unfoldable pub base_config : System → CloudConfig
unfolding append_unit
base_config s =
    let c : CloudConfig = record {
      flavor = s.flavor;
      write_files = [];
      reboot_strategy = [];
      core_units = [];
      ssh_authorized_keys = s.ssh_keys;
      run_cmd = [];
      mounts = [];
      units = [];
    } in
    if is_flatcar s.flavor
    then append_unit (stopped_unit (codes "locksmithd.service")) (
        append_unit (stopped_unit (codes "update-engine.service"))
          (record c { reboot_strategy = codes "off" }))
    else c

-- dataDeviceName, by the devices: empty, the only one, or the array.
abbrev pub data_device_of : List Text → Text
data_device_of [] = []
data_device_of (d ∷ []) = d
data_device_of (d ∷ e ∷ ds) = codes "md0"

-- The unit that formats the device.
unfoldable pub format_unit : Execute → List Text → Option CloudUnit
unfolding tmpl
format_unit execute [] = none
format_unit execute (d ∷ []) = do
  content ← tmpl execute (raw 3 format_one_lines) ((codes "name", text d) ∷ [])
  some (started_unit (codes "format-" ++ (d ++ codes ".service")) false content)
format_unit execute (d ∷ e ∷ ds) = do
  content ←
      tmpl execute (raw 3 format_many_lines)
        ((codes "devices", texts (d ∷ e ∷ ds)) ∷ (codes "md", text (codes "md0")) ∷ [])
  some (started_unit (codes "format-md0.service") false content)

-- `for _, dev := range devices`, the devices of an array.
unfoldable pub append_mounts : List Text → CloudConfig → CloudConfig
unfolding append_mount
append_mounts [] c = c
append_mounts (d ∷ ds) c = append_mounts ds (append_mount (d ∷ []) c)

abbrev pub array_of : List Text → List Text
array_of [] = []
array_of (d ∷ []) = []
array_of (d ∷ e ∷ ds) = d ∷ e ∷ ds

unfoldable pub disable_mounts : List Text → CloudConfig → CloudConfig
unfolding append_mounts append_mount
disable_mounts devices c =
    if is_flatcar c.flavor
    then c
    else append_mounts (array_of devices) (append_mount (data_device_of devices ∷ []) c)

-- The units of the data devices: their format, and their mount by its text.
unfoldable pub data_config : CloudUnit → Text → List Text → CloudConfig → CloudConfig
unfolding append_unit disable_mounts
data_config format content devices c =
    disable_mounts devices
      (append_unit (started_unit (codes "mnt-data.mount") false content) (append_unit format c))

unfoldable pub with_data : Execute → List Text → CloudConfig → Option CloudConfig
unfolding format_unit data_config tmpl
with_data execute [] c = some c
with_data execute (d ∷ ds) c = do
  format ← format_unit execute (d ∷ ds)
  content ← tmpl execute (raw 3 mount_lines) ((codes "name", text (data_device_of (d ∷ ds))) ∷ [])
  some (data_config format content (d ∷ ds) c)

unfoldable pub append_files : List CloudFile → CloudConfig → CloudConfig
unfolding append_file
append_files [] c = c
append_files (f ∷ fs) c = append_files fs (append_file f c)

unfoldable pub append_units : List CloudUnit → CloudConfig → CloudConfig
unfolding append_unit
append_units [] c = c
append_units (u ∷ us) c = append_units us (append_unit u c)

abbrev pub file_at : Text → Text → Text → Text → CloudFile
file_at path permissions owner content = record {
  path = path;
  permissions = permissions;
  owner = owner;
  content = content;
}

abbrev pub is_nil : List Text → Bool
is_nil [] = true
is_nil (t ∷ ts) = false

-- nropen; filemax is four times that.
abbrev pub nropen : ℕ
nropen = 33554432

-- The files and the units of every instance, with the texts of their templates.
unfoldable pub boot_config : (sysctl script update boot : Text) → System → CloudConfig → CloudConfig
unfolding append_file append_files append_unit append_units
boot_config sysctl script update boot s c =
    append_unit (started_unit (codes "bootmachine.service") true boot) (
      append_unit (started_unit (codes "update-sysctl.service") true update) (
        append_file (file_at (codes "/tmp/bigmachine.pem") (codes "0644") [] s.authority) (
          append_file (file_at (codes "/opt/bin/bootmachine") (codes "0755") (codes "root") script)
            (append_units s.additional_units (
              append_files s.additional_files (
                append_file
                  (file_at (codes "/etc/sysctl.d/90-bigmachine") (codes "0644") (codes "root")
                    sysctl)
                  c))))))

-- The texts of its templates, in the order in which they are executed.
unfoldable pub boot_texts : Execute → Bool → System → Option (Text × Text × Text × Text)
unfolding tmpl data_devices
boot_texts execute immortal s = do
  sysctl ←
      tmpl execute (raw 2 sysctl_lines)
        ((codes "filemax", number (nropen * 4)) ∷ (codes "nropen", number nropen) ∷ [])
  script ← tmpl execute (raw 2 script_lines) ((codes "binary", text s.binary) ∷ [])
  update ← tmpl execute (raw 2 update_sysctl_lines) (
      (
        codes "sysctlPath",
        text (
            if is_flatcar s.flavor
            then codes "/usr/lib/systemd/systemd-sysctl"
            else codes "/lib/systemd/systemd-sysctl"),
      )
      ∷ [])
  boot ← tmpl execute (raw 2 bootmachine_lines) (
      (codes "mortal", flag (not immortal))
      ∷ (
        codes "environ",
        text (if is_nil (data_devices s) then [] else codes "Environment=TMPDIR=/mnt/data"),
      )
      ∷ (codes "nropen", number nropen)
      ∷ (codes "data", flag (not (is_nil (data_devices s))))
      ∷ [])
  some (sysctl, script, update, boot)

unfoldable pub with_boot : Execute → Bool → System → CloudConfig → Option CloudConfig
unfolding boot_texts
with_boot execute immortal s c = do
  (sysctl, script, update, boot) ← boot_texts execute immortal s
  some (boot_config sysctl script update boot s c)

-- cloudConfig, with the flag ec2machineimmortal.
unfoldable pub cloud_config : Execute → Bool → System → Option CloudConfig
unfolding base_config with_data with_boot data_devices
cloud_config execute immortal s =
    with_data execute (data_devices s) (base_config s) >>= λ c. with_boot execute immortal s c
