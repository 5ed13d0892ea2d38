-- ===== src/Machines/Api.antt =====
-- What the package calls of the Machines API, over a world of any type, and the errors of its own.
use flyctl.Base.{String, Bool, Option, Dict}
use flyctl.Base.Bytes.{Bytes}
use flyctl.Bluegreen.Types.{HostStatus}
use flyctl.Bluegreen.Errors.{Error}

-- The fields of a `fly.Machine` that the package reads.
pub record Machine : Type 0 where
  pub id : String
  pub instance_id : String
  pub lease_nonce : String
  pub host_status : HostStatus

-- The errors that the package makes; the others are the API's.
pub data Failure : Type 0 where
  already_destroyed no_lease has_lease missing_data new_nonce : Failure
  not_acquired : Bytes → Failure  -- the status, code and message of the response
  wait_timeout : String → Failure
  crashing lease_errors state_errors invalid_action restart_refused checks_timeout : Failure
  api : Error → Failure

pub data Answer (A : Type 0) : Type 0 where
  done : A → Answer A
  failed : Failure → Answer A

-- A lease response: whether its status is "success", its texts, and its data, a nonce and the version
-- of the machine.
pub record Lease : Type 0 where
  pub success : Bool
  pub texts : Bytes
  pub data_of : Option (String × String)

-- The answer of a call: an error, or a value.
pub data Reply (A : Type 0) : Type 0 where
  value : A → Reply A
  refused : Error → Reply A

-- `I` is the type of launch inputs.
pub record Flaps (W I : Type 0) : Type 0 where
  pub update : String → I → String → W → Reply Machine × W
  pub start : String → W → Reply (Unit {0}) × W
  pub stop : String → String → String → W → Reply (Unit {0}) × W
  pub destroy : String → Bool → String → W → Reply (Unit {0}) × W
  pub cordon : String → String → W → Reply (Unit {0}) × W
  pub acquire_lease : String → W → Reply Lease × W
  pub refresh_lease : String → String → W → Reply Lease × W
  pub release_lease : String → String → W → Reply (Unit {0}) × W
  pub get : String → W → Reply Machine × W
  pub get_metadata : String → W → Reply (Dict Bytes) × W
  pub set_metadata : String → String → Bytes → W → Reply (Unit {0}) × W
