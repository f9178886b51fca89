-- ===== src/Ec2/Devices.antt =====
-- ec2system/ec2machine.go: the configuration of a System, and the devices of its instances.
use bigmachine.Prelude.{
  ℕ, zero, suc, ◌+◌, ◌/◌, ◌%◌, ◌≤◌, ◌≡◌, refl, ap, ◌∙◌, Bool, false, Option, none, some, List, [],
  ◌∷◌, ◌++◌, Text, codes, map, if◌then◌else◌, ltb, All, arith,
}
use bigmachine.Ec2.{CloudFile, CloudUnit, Flavor}
use bigmachine.Ec2.Slices.{slice_config, slice_config-bounds}

-- instances.Type, the fields that the system reads; a price is in thousandths of a dollar.
pub record InstanceType : Type 0 where
  pub name : Text
  pub ebs_optimized : Bool
  pub vcpu : ℕ
  pub price : List (Text × ℕ)
  pub nvme : Bool

pub record System : Type 0 where
  pub on_demand : Bool
  pub instance_type : Text
  pub ami : Text
  pub flavor : Flavor
  -- AWSConfig.Region.
  pub region : Option Text
  pub default_region : Text
  pub diskspace : ℕ
  pub dataspace : ℕ
  pub binary : Text
  pub ssh_keys : List Text
  pub additional_files : List CloudFile
  pub additional_units : List CloudUnit
  pub config : InstanceType
  -- authority.Contents().
  pub authority : Text

-- ec2.BlockDeviceMapping.
pub record BlockDevice : Type 0 where
  pub device_name : Text
  pub volume_size : ℕ

-- fmt.Sprintf("xvd%c", 'b'+i).
abbrev pub xvd : ℕ → Text
xvd i = codes "xvd" ++ (98 + i) ∷ []

-- `for i := 0; i < nslice; i++`, with the rounds left and the index.
unfoldable pub data_volumes : ℕ → ℕ → ℕ → List BlockDevice
data_volumes zero i size = []
data_volumes (suc n) i size =
    (record { device_name = codes "/dev/" ++ xvd i; volume_size = size })
    ∷ data_volumes n (suc i) size

-- blockDevices of Start, with the image's RootDeviceName.
unfoldable pub block_devices : Option Text → System → List BlockDevice
unfolding data_volumes slice_config
block_devices root s =
    let (nslice, slice_size) = slice_config s.dataspace in
    (record {
      device_name = elim root [ some name ↦ name | none ↦ codes "/dev/xvda" ];
      volume_size = 50 + s.diskspace;
    })
    ∷ data_volumes nslice 0 slice_size

-- The decimal digits of a number below 100, as %d prints it.
abbrev pub digits : ℕ → Text
digits n = if ltb n 10 then (48 + n) ∷ [] else (48 + n / 10) ∷ (48 + n % 10) ∷ []

-- The name of a device of several, in cloudConfig.
abbrev pub device_name_at : Bool → ℕ → Text
device_name_at nvme i = if nvme then codes "nvme" ++ (digits (i + 1) ++ codes "n1") else xvd i

-- `for idx := range devices`.
unfoldable pub striped : Bool → ℕ → ℕ → List Text
striped nvme zero i = []
striped nvme (suc n) i = device_name_at nvme i ∷ striped nvme n (suc i)

-- The devices that cloudConfig formats, by the number of slices.
unfoldable pub data_devices_at : Bool → ℕ → List Text
unfolding striped
data_devices_at nvme zero = []
data_devices_at nvme (suc zero) = (if nvme then codes "nvme1n1" else codes "xvdb") ∷ []
data_devices_at nvme (suc (suc n)) = striped nvme (suc (suc n)) 0

unfoldable pub data_devices : System → List Text
unfolding data_devices_at slice_config
data_devices s = data_devices_at s.config.nvme (slice_config s.dataspace).0

abbrev slash_dev : Text → Text
slash_dev name = codes "/dev/" ++ name

striped-data_volumes :
    (n i size : ℕ)
    → map slash_dev (striped false n i)
      ≡ map (λ (d : BlockDevice). d.device_name) (data_volumes n i size)
unfolding striped data_volumes
striped-data_volumes zero i size = refl
striped-data_volumes (suc n) i size =
    ap (λ ds. slash_dev (xvd i) ∷ ds) (striped-data_volumes n (suc i) size)

data_devices-data_volumes :
    (n size : ℕ)
    → map slash_dev (data_devices_at false n)
      ≡ map (λ (d : BlockDevice). d.device_name) (data_volumes n 0 size)
unfolding data_devices_at data_volumes striped
data_devices-data_volumes zero size = refl
data_devices-data_volumes (suc zero) size = refl
data_devices-data_volumes (suc (suc n)) size = striped-data_volumes (suc (suc n)) 0 size

-- Names past the root device, `xvdb` to `xvdz`.
abbrev pub Lettered : BlockDevice → Type 0
Lettered d = (c : ℕ) × (d.device_name ≡ codes "/dev/xvd" ++ c ∷ []) × (98 ≤ c) × (c ≤ 122)

data_volumes-Lettered : (n i size : ℕ) → n + i ≤ 25 → All Lettered (data_volumes n i size)
unfolding data_volumes
data_volumes-Lettered zero i size h = tt
data_volumes-Lettered (suc n) i size h =
    ((98 + i, refl, omega arith, omega arith), data_volumes-Lettered n (suc i) size (omega arith))

abbrev pub rest_of : List BlockDevice → List BlockDevice
rest_of [] = []
rest_of (d ∷ ds) = ds

-- Start and cloudConfig agree: without NVMe, the devices that an instance formats are those that it
-- is started with past its root device, in the same order, and their names end in b to z.
pub block_devices-data_devices :
    (root : Option Text) (s : System)
    → s.config.nvme ≡ false
    → (map (λ name. codes "/dev/" ++ name) (data_devices s)
        ≡ map (λ (d : BlockDevice). d.device_name) (rest_of (block_devices root s)))
      × All Lettered (rest_of (block_devices root s))
unfolding block_devices data_devices
block_devices-data_devices root s h =
    let n = (slice_config s.dataspace).0 in
    let size = (slice_config s.dataspace).1 in
    let bound = (slice_config-bounds s.dataspace).0 in
    (
      ap (λ nvme. map slash_dev (data_devices_at nvme n)) h ∙ data_devices-data_volumes n size,
      data_volumes-Lettered n 0 size (omega (arith, bound)),
    )
