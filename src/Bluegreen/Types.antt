-- ===== src/Bluegreen/Types.antt =====
-- The data of the strategy. A `fly.Machine` and a `fly.LaunchMachineInput` have the fields that
-- strategy_bluegreen.go reads.
use flyctl.Base.{ℕ, String, Bool, true, false, ◌&&◌, ◌||◌, List, [], ◌∷◌, Dict, ltb, str_eq}

-- `HostStatus`; the last one stands for any other text, the empty one included.
pub data HostStatus : Type 0 where
  host_ok unreachable unknown unset : HostStatus

pub record Machine : Type 0 where
  pub id : String
  pub host_status : HostStatus
  pub repository : String
  pub tag : String
  pub image : String  -- what ImageRefWithVersion returns
  pub metadata : Dict String
  pub has_config : Bool

-- `checks` and `service_checks` count the checks of the configuration and of each service.
pub record MachineConfig : Type 0 where
  pub process_group : String
  pub checks : ℕ
  pub service_checks : List ℕ
  pub metadata : Dict String

pub record LaunchInput : Type 0 where
  pub id : String
  pub config : MachineConfig
  pub skip_launch : Bool
  pub skip_service_registration : Bool

pub record Entry : Type 0 where
  pub machine : Machine
  pub input : LaunchInput

unfoldable pub host_is_ok : Machine → Bool
host_is_ok m = elim m.host_status [ host_ok ↦ true | _ ↦ false ]

abbrev pub any_positive : List ℕ → Bool
any_positive [] = false
any_positive (n ∷ ns) = ltb 0 n || any_positive ns

unfoldable pub machine_has_configured_checks : MachineConfig → Bool
machine_has_configured_checks cfg = ltb 0 cfg.checks || any_positive cfg.service_checks

unfoldable pub image_ref_is_empty : Machine → Bool
image_ref_is_empty m = str_eq m.repository "" && str_eq m.tag ""

pub record HealthStatus : Type 0 where
  pub total : ℕ
  pub passing : ℕ
