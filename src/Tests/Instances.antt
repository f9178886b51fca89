-- ===== src/Tests/Instances.antt =====
-- The theorems on the systems EC2 and local at concrete inputs.
use bigmachine.Prelude.{
  ℕ, ◌+◌, ◌≡◌, refl, true, false, none, some, List, [], ◌∷◌, ◌++◌, Text, codes, map, if◌then◌else◌,
  All, lookup, contains, ◌==◌, drop, arith,
}
use bigmachine.Machine.Retry.{ok}
use bigmachine.Ec2.{ubuntu}
use bigmachine.Ec2.Devices.{
  System, InstanceType, BlockDevice, block_devices, data_devices, rest_of, Lettered,
  block_devices-data_devices,
}
use bigmachine.Ec2.Boot.{Execute}
use bigmachine.Ec2.Launch.{Instance, machine_of, get_address}
use bigmachine.Ec2.Addresses.{rpc_prefix, strip_prefix, url-machine_of}
use bigmachine.Rpc.Paths.{url, slash, ReadsPaths}
use bigmachine.Rpc.Services.{new_server, register}
use bigmachine.Cluster.{B, run, serves}
use bigmachine.Cluster.Registry.{starts}
use bigmachine.Cluster.Registry
use bigmachine.Local.{
  LocalSystem, Launch, process_env, get_env, host_of, serving, listen_and_serve,
  max_concurrent_streams,
}
use bigmachine.Local.Environment.{listen_and_serve-process_env}
use bigmachine.Tests.Samples.{SampleErr, sentinel, sample_errors}

abbrev instance_type : InstanceType
instance_type = record {
  name = codes "m3.medium";
  ebs_optimized = false;
  vcpu = 1;
  price = (codes "us-west-2", 67) ∷ [];
  nvme = false;
}

abbrev pub system : System
system = record {
  on_demand = true;
  instance_type = codes "m3.medium";
  ami = codes "ami-1";
  flavor = ubuntu;
  region = none;
  default_region = [];
  diskspace = 200;
  dataspace = 700;
  binary = [];
  ssh_keys = [];
  additional_files = [];
  additional_units = [];
  config = instance_type;
  authority = codes "ca";
}

block_devices-data_devices_example :
    (map (λ name. codes "/dev/" ++ name) (data_devices system)
      ≡ map (λ (d : BlockDevice). d.device_name) (rest_of (block_devices none system)))
    × All Lettered (rest_of (block_devices none system))
block_devices-data_devices_example = block_devices-data_devices none system refl

abbrev pub concatenated : Execute
concatenated lines args = some []

abbrev instance_1 : Instance
instance_1 = record {
  id = codes "i-1";
  public_dns = codes "ec2.host";
  public_ip = [];
  private_ip = [];
}

-- The path of a URL of an https origin.
abbrev from_slash : Text → Text
from_slash [] = []
from_slash (c ∷ s) = if c == slash then c ∷ s else from_slash s

abbrev path_of : Text → Text
path_of u = from_slash (drop 8 u)

path_of-ReadsPaths : ReadsPaths path_of (codes "https://" ++ get_address instance_1)
unfolding get_address
path_of-ReadsPaths [] h = absurd (ground (arith, h))
path_of-ReadsPaths (c ∷ p) h = ground (arith, h)

url-machine_of_example :
    strip_prefix
      (slash ∷ codes "i-1")
      (path_of (url (machine_of true 1 instance_1).addr rpc_prefix (codes "S.M")))
    ≡ some (rpc_prefix ++ codes "S.M")
unfolding contains
url-machine_of_example =
    url-machine_of path_of 1 105 (codes "-1") instance_1 (codes "S.M") path_of-ReadsPaths refl refl
      refl

abbrev local_system : LocalSystem ℕ
local_system = record {
  authority_filename = codes "/tmp/ca";
  authority = some 1;
  muxers = [];
  processes = [];
  fresh = 0;
}

abbrev new_b : B SampleErr
new_b = record { name = []; machines = []; driver = false; running = false }

abbrev given_env : List Text
given_env = process_env (codes "BIGMACHINE_ADDR=x" ∷ []) (codes "/tmp/ca") 8080

listen_and_serve-process_env_example :
    (Registry.init
        (get_env (codes "BIGMACHINE_SYSTEM") given_env)
        ((codes "local", local_system) ∷ [])
      ≡ starts local_system)
    × (run (get_env (codes "BIGMACHINE_MODE") given_env) none none 3 [] new_b
        ≡ serves (record new_b { running = true }) (register (codes "Supervisor") 3 [] new_server))
    × ((listen_and_serve sample_errors [] given_env
          (λ f. ok 2)
          (λ a. ok (a + 1))
          none
          local_system).0
        ≡ serving (host_of 8080) 3 max_concurrent_streams)
unfolding lookup
listen_and_serve-process_env_example =
    listen_and_serve-process_env sample_errors (codes "BIGMACHINE_ADDR=x" ∷ []) 47 (codes "tmp/ca")
      8080 local_system ((codes "local", local_system) ∷ []) new_b 3 [] (λ f. ok 2) 2
      (λ a. ok (a + 1)) 3 refl refl refl

abbrev launches : List (Launch SampleErr)
launches =
    record { port = ok 8080; started = none }
    ∷ record { port = ok 8081; started = some (sentinel 3) }
    ∷ []
