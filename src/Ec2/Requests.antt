-- ===== src/Ec2/Requests.antt =====
-- ec2system/ec2machine.go: what Start asks EC2 for, on demand and on the spot market, and the keys of
-- the SSH agent.
--
-- Base64, the clock and the device name of the image are arguments.
use bigmachine.Prelude.{
  ℕ, ◌+◌, ◌*◌, ◌/◌, ◌%◌, ◌^◌, ◌≡◌, refl, Bool, true, false, Option, none, some, List, [], ◌++◌,
  Text, codes, if◌then◌else◌, text_eq,
}
use bigmachine.Machine.Ooms.{decimal}
use bigmachine.Ec2.Devices.{System, BlockDevice, block_devices}
use bigmachine.Ec2.Init.{price_of, region_of}
use bigmachine.Ec2.Tagging.{security_groups, key_name}

-- The fields of a System that only its launches read.
pub record Placement : Type 0 where
  pub subnet : Text
  pub instance_profile : Text
  pub security_group : Text
  pub security_groups : List Text
  pub ec2_key_name : Text

-- What both kinds of requests tell about an instance.
pub record Launching : Type 0 where
  pub subnet : Text
  pub image : Text
  pub devices : List BlockDevice
  pub ebs_optimized : Bool
  pub instance_profile : Text
  pub instance_type : Text
  pub user_data : Text
  pub security_groups : List Text
  pub key_name : Option Text

-- ec2.RunInstancesInput.
pub record RunInput : Type 0 where
  pub max_count : ℕ
  pub min_count : ℕ
  pub shutdown_behavior : Text
  pub disable_api_termination : Bool
  pub dry_run : Bool
  pub monitoring : Bool
  pub launching : Launching

-- ec2.RequestSpotInstancesInput.
pub record SpotInput : Type 0 where
  pub valid_until : ℕ
  pub spot_price : Text
  pub instance_count : ℕ
  pub launching : Launching

-- `%.3f` of thousandths.
unfoldable pub thousandths : ℕ → Text
thousandths p =
    decimal (p / 1000)
    ++ codes "."
    ++ decimal (p / 100 % 10)
    ++ decimal (p / 10 % 10)
    ++ decimal (p % 10)

module _ (encode : Text → Text) (root : Option Text) (s : System) (p : Placement) (count : ℕ)
    (user_data : Text) where
  unfoldable pub run_input : RunInput
  run_input = record {
    max_count = count;
    min_count = 1;
    shutdown_behavior = codes "terminate";
    disable_api_termination = false;
    dry_run = false;
    monitoring = true;
    launching = record {
      subnet = p.subnet;
      image = s.ami;
      devices = block_devices root s;
      ebs_optimized = s.config.ebs_optimized;
      instance_profile = p.instance_profile;
      instance_type = s.config.name;
      user_data = encode user_data;
      security_groups = security_groups p.security_group p.security_groups;
      key_name = key_name p.ec2_key_name;
    };
  }

  -- At a time in nanoseconds.
  unfoldable pub spot_input : ℕ → SpotInput
  unfolding thousandths
  spot_input now = record {
    valid_until = now + 60 * 10 ^ 9;
    spot_price = thousandths (price_of (region_of s) s.config);
    instance_count = count;
    launching = record {
      subnet = p.subnet;
      image = s.ami;
      devices = block_devices root s;
      ebs_optimized = s.config.ebs_optimized;
      instance_profile = p.instance_profile;
      instance_type = s.config.name;
      user_data = encode user_data;
      security_groups = security_groups p.security_group p.security_groups;
      key_name = key_name p.ec2_key_name;
    };
  }

  -- The instances of both markets are launched alike.
  pub run_input-spot_input : (now : ℕ) → run_input.launching ≡ (spot_input now).launching
  unfolding run_input spot_input
  run_input-spot_input now = refl

-- readSshAgentKeys, by $SSH_AUTH_SOCK, the dial, and the keys that the agent lists with its error,
-- which is logged.
unfoldable pub agent_keys : {Err : Type 0} → Text → Option Err → List Text × Option Err → List Text
agent_keys sock dialed (keys, failure) =
    if text_eq sock [] then [] else elim dialed [ some e ↦ [] | none ↦ keys ]
