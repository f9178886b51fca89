-- ===== src/Commands.antt =====
-- driver/driver.go: the start of a driver by its flags; Commands/Pi is cmd/bigpi/bigpi.go.
pub mod Pi
use bigmachine.Prelude.{Bool, Option, none, some, Text, codes, if◌then◌else◌, text_eq}

-- The flags, and the systems that they choose between.
pub record Flags : Type 0 where
  pub system : Text
  pub instance_type : Text
  pub ondemand : Bool

pub data Chosen : Type 0 where
  local : Chosen
  ec2 : (instance_type : Text) (on_demand : Bool) → Chosen

-- The switch of driver.Start; `none` is log.Fatalf, which ends the process.
unfoldable pub choose_system : Flags → Option Chosen
choose_system f =
    if text_eq f.system (codes "ec2")
    then some (ec2 f.instance_type f.ondemand)
    else if text_eq f.system (codes "local")
    then some local
    else none
