-- ===== src/Ec2/Slices.antt =====
-- ec2system/ec2machine.go: the slices of the data volume, and the address of an instance.
use bigmachine.Prelude.{ℕ, ◌+◌, ◌-◌, ◌*◌, ◌/◌, ◌≤◌, if◌then◌else◌, leb, arith}

-- minDataVolumeSliceSize, in GiB, and maxInstanceDataVolumes.
abbrev pub min_data_volume_slice_size : ℕ
min_data_volume_slice_size = 335

abbrev pub max_instance_data_volumes : ℕ
max_instance_data_volumes = 25

-- sliceConfig: the number of slices and their size.
unfoldable pub slice_config : ℕ → ℕ × ℕ
slice_config dataspace =
    let nslice = (dataspace + min_data_volume_slice_size - 1) / min_data_volume_slice_size in
    if leb nslice max_instance_data_volumes
    then (nslice, min_data_volume_slice_size)
    else (max_instance_data_volumes, dataspace / max_instance_data_volumes)

pub slice_config-bounds :
    (dataspace : ℕ)
    → ((slice_config dataspace).0 ≤ max_instance_data_volumes)
      × (min_data_volume_slice_size ≤ (slice_config dataspace).1)
      × (dataspace ≤ (slice_config dataspace).0 * (slice_config dataspace).1 + 24)
unfolding slice_config
slice_config-bounds dataspace = (ground arith, ground arith, ground arith)
