-- ===== src/Inventory.antt =====
-- core/src/inventory.rs: the hosts that lychgate may touch, as the inventory file declares them. The types of the
-- fields are those of the source, a number of any width being a natural number.
pub mod Channels
pub mod Validation
pub mod Access
pub mod Distinct
mod Tests
use Prim.Native.String.{String}
use lychgate.Prelude.{ℕ, Bool, List, Option}
use lychgate.Prelude.Text.{Text}
use lychgate.Prelude.TextMap.{TextMap}
use lychgate.Channel.{Channel}
use lychgate.Ssh.{Posture}
use lychgate.Authority.Spec.{ApprovalSpec, AuthorityBody, AuthorityError}
use lychgate.Authority.Spec.Build.{LoadError}
use lychgate.Daemon.{HostAccess}

pub data BmcMethod : Type 0 where
  redfish racadm ipmitool : BmcMethod

pub data BmcTls : Type 0 where
  ca_file : (path : Text) → BmcTls
  insecure : BmcTls

pub record BmcConfig : Type 0 where
  pub endpoint : Text
  pub method : BmcMethod
  pub account_user : Text
  pub account_id : Text
  pub auth_user : Text
  pub auth_password_file : Text
  pub tls : BmcTls

-- `None` holds any text, of which one is allowed.
pub data VerifyMode (A : Type 0) : Type 0 where
  unverified : Text → VerifyMode A
  probe : A → VerifyMode A

pub record HttpRequestSpec : Type 0 where
  pub method : Text
  pub path : Text
  pub body : Option Text
  pub expect_status : ℕ

pub record HttpVerifySpec : Type 0 where
  pub method : Text
  pub path : Text
  pub expect_status : ℕ
  pub open_marker : Text
  pub closed_marker : Text

pub record HttpConfig : Type 0 where
  pub endpoint : Text
  pub tls : BmcTls
  pub auth_user : Option Text
  pub auth_password_file : Option Text
  pub on_open : HttpRequestSpec
  pub on_revert : HttpRequestSpec
  pub verify : VerifyMode HttpVerifySpec

pub data MqttAuth : Type 0 where
  tls_client_cert : (certfile keyfile cafile : Text) → MqttAuth
  password : (username : Text) → MqttAuth

pub record MqttMessageSpec : Type 0 where
  pub topic : Text
  pub payload : Text

pub record MqttVerifySpec : Type 0 where
  pub topic : Text
  pub open_marker : Text
  pub closed_marker : Text
  pub timeout_secs : ℕ

pub record MqttConfig : Type 0 where
  pub broker : Text
  pub client_id : Option Text
  pub auth : Option MqttAuth
  pub on_open : MqttMessageSpec
  pub on_revert : MqttMessageSpec
  pub verify : VerifyMode MqttVerifySpec

pub record SerialCmdSpec : Type 0 where
  pub send : Text
  pub expect : Text

pub record SerialVerifySpec : Type 0 where
  pub send : Text
  pub open_marker : Text
  pub closed_marker : Text

pub record SerialConfig : Type 0 where
  pub device : Text
  pub baud : Option ℕ
  pub timeout_secs : ℕ
  pub on_open : SerialCmdSpec
  pub on_revert : SerialCmdSpec
  pub verify : VerifyMode SerialVerifySpec

pub record SigningSpec : Type 0 where
  pub key_file : Option Text
  pub p256_key_file : Option Text

pub data DeviceAlg : Type 0 where
  ed25519 p256 : DeviceAlg

pub data DeviceTransportKind : Type 0 where
  http mqtt serial : DeviceTransportKind

pub record DeviceSerial : Type 0 where
  pub device : Text
  pub baud : Option ℕ
  pub timeout_secs : ℕ

pub record DeviceHttp : Type 0 where
  pub endpoint : Text
  pub tls : BmcTls
  pub auth_user : Option Text
  pub auth_password_file : Option Text

pub record DeviceMqtt : Type 0 where
  pub broker : Text
  pub client_id : Option Text
  pub auth : Option MqttAuth
  pub cmd_topic : Text
  pub reply_topic : Text
  pub timeout_secs : ℕ

pub data FailStatePolicy : Type 0 where
  energized de_energized : FailStatePolicy

pub record ActuatorSpec : Type 0 where
  pub fail_state : FailStatePolicy
  pub current_sense : Bool

pub record DeviceConfig : Type 0 where
  pub device_id : Text
  pub alg : DeviceAlg
  pub capability : ℕ
  pub transport : DeviceTransportKind
  pub http : Option DeviceHttp
  pub mqtt : Option DeviceMqtt
  pub serial : Option DeviceSerial
  pub actuator : Option ActuatorSpec

pub record SshConfig : Type 0 where
  pub agent_user : Text
  pub port : ℕ
  pub root_posture_default : Posture
  pub root_posture_emergency : Posture
  pub authorized_keys_path : Text
  pub emergency_keys : List Text
  pub identity_file : Option Text
  pub become_cmd : Option Text
  pub reload_cmd : Option Text
  pub dropin_path : Option Text

pub record VncConfig : Type 0 where
  pub agent_user : Text
  pub port : ℕ
  pub identity_file : Option Text
  pub become_cmd : Option Text
  pub rfb_host : Text
  pub rfb_port : ℕ
  pub local_port : ℕ
  pub target : Text
  pub set_password_cmd : Text
  pub clear_password_cmd : Text
  pub password_len : ℕ
  pub password_file : Option Text

pub data Os : Type 0 where
  freebsd linux embedded : Os

pub record Host : Type 0 where
  pub name : Text
  pub address : Text
  pub os : Os
  pub channels : List Channel
  pub ssh : Option SshConfig
  pub bmc : Option BmcConfig
  pub vnc : Option VncConfig
  pub http : Option HttpConfig
  pub mqtt : Option MqttConfig
  pub serial : Option SerialConfig
  pub device : Option DeviceConfig
  pub access : Option HostAccess
  pub drill : Bool

pub record Inventory : Type 0 where
  pub hosts : List Host
  pub signing : Option SigningSpec
  pub approval : Option ApprovalSpec

-- An error names its host first, and then a channel or a field where the source does. `approval` and `bad_override` are
-- the one `Approval` of the source, from a policy that does not load and from an override that cannot be built.
pub data InventoryError : Type 0 where
  toml empty_host_name signing_unused : InventoryError
  duplicate_host_name empty_address no_channels duplicate_channel : Text → InventoryError
  ssh_config_missing ssh_config_unused no_emergency_keys posture_unchanged bad_emergency_key :
      Text → InventoryError
  bmc_config_missing bmc_config_unused : Text → InventoryError
  bmc_method_unimplemented : Text → BmcMethod → InventoryError
  vnc_config_missing vnc_config_unused : Text → InventoryError
  vnc_command_quoted : Text → (which : String) → InventoryError
  vnc_missing_password_file vnc_clear_has_password_file : Text → InventoryError
  vnc_unknown_placeholder : Text → (which : String) → (placeholder : Text) → InventoryError
  vnc_bad_port : Text → (field : String) → InventoryError
  vnc_bad_password_len : Text → InventoryError
  vnc_local_port_conflict : Text → (other : Text) → (port : ℕ) → InventoryError
  generic_config_missing generic_config_unused : Text → (channel : String) → InventoryError
  generic_verify_not_none : Text → (channel : String) → (got : Text) → InventoryError
  generic_placeholder : Text → (channel field : String) → (placeholder : Text) → InventoryError
  generic_bad_status : Text → (which : String) → InventoryError
  generic_zero_timeout : Text → (channel : String) → InventoryError
  mqtt_password_auth device_bad_id device_transport_mismatch : Text → InventoryError
  signing_key_missing : Text → (which : String) → InventoryError
  device_mqtt_unimplemented : Text → InventoryError
  embedded_channel_unsupported : Text → Channel → InventoryError
  approval : LoadError → InventoryError
  bad_override : AuthorityError → InventoryError
  access_without_approval access_no_profiles : Text → InventoryError
  unknown_profile override_for_unpermitted_profile : Text → (profile : Text) → InventoryError
