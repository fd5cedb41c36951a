-- ===== src/Inventory/Channels.antt =====
-- `validate_generic` and `validate_device` of core/src/inventory.rs: the channels that need no shell on the host.
use Prim.Native.String.{String}
use lychgate.Prelude.{
  ℕ, Bool, true, false, not, ◌&&◌, List, [], ◌∷◌, Option, none, some, Result, ok, err, ◌>>◌,
  map_err, refuse_if, leb, ◌==◌, if◌then◌else◌, length,
}
use lychgate.Prelude.Text.{Text, bytes, text_eq}
use lychgate.Channel.{Channel, member}
use lychgate.Approval.HmacFactor.{hex_pair, starts_char}
use lychgate.Templates.{forbid_placeholders}
use lychgate.Inventory.{
  Host, VerifyMode, unverified, probe, HttpRequestSpec, HttpVerifySpec, HttpConfig, MqttAuth,
  MqttMessageSpec, MqttVerifySpec, MqttConfig, SerialVerifySpec, SerialConfig, SigningSpec,
  DeviceAlg, DeviceTransportKind, DeviceSerial, DeviceMqtt, DeviceConfig, InventoryError,
  generic_config_missing, generic_config_unused, generic_verify_not_none, generic_placeholder,
  generic_bad_status, generic_zero_timeout, mqtt_password_auth, device_bad_id,
  device_transport_mismatch, signing_key_missing, device_mqtt_unimplemented,
}

abbrev pub Check : Type 0
Check = Result InventoryError (Unit {0})

abbrev pub present : {A : Type 0} → Option A → Bool
present none = false
present (some _) = true

-- A configuration stands where the channel is declared, and only there.
abbrev pub configured :
    {A : Type 0}
    → Option A
    → (declared : Bool) → (missing unused : InventoryError) → (A → Check)
    → Check
configured none true missing unused check = err missing
configured none false missing unused check = ok tt
configured (some _) false missing unused check = err unused
configured (some a) true missing unused check = check a

module _ (name : Text) where
  check_verify_none : String → Text → Check
  check_verify_none channel s =
      refuse_if (not (text_eq s (bytes "none"))) (generic_verify_not_none name channel s)

  check_template : (channel field : String) → Text → Check
  check_template channel field template =
      map_err (generic_placeholder name channel field) (forbid_placeholders template)

  check_status : String → ℕ → Check
  check_status which status =
      refuse_if (not (leb 100 status && leb status 599)) (generic_bad_status name which)

  check_verify : {A : Type 0} → String → (A → Check) → VerifyMode A → Check
  check_verify channel check (unverified s) = check_verify_none channel s
  check_verify channel check (probe v) = check v

  check_body : Option Text → Check
  check_body none = ok tt
  check_body (some body) = check_template "http" "body" body

  check_http_request : String → HttpRequestSpec → Check
  check_http_request which req = do
    check_status which req.expect_status
    check_template "http" "path" req.path
    check_body req.body

  check_http : HttpConfig → Check
  check_http http = do
    check_http_request "open" http.on_open
    check_http_request "revert" http.on_revert
    check_verify "http"
        (λ (v : HttpVerifySpec).
          check_status "verify" v.expect_status >> check_template "http" "path" v.path)
        http.verify

  -- A password would be handed over on a command line.
  refuse_password : Option MqttAuth → Check
  refuse_password none = ok tt
  refuse_password (some (MqttAuth.tls_client_cert certfile keyfile cafile)) = ok tt
  refuse_password (some (MqttAuth.password username)) = err (mqtt_password_auth name)

  check_message : MqttMessageSpec → Check
  check_message spec =
      check_template "mqtt" "topic" spec.topic >> check_template "mqtt" "payload" spec.payload

  check_mqtt : MqttConfig → Check
  check_mqtt mqtt = do
    refuse_password mqtt.auth
    check_message mqtt.on_open
    check_message mqtt.on_revert
    check_verify "mqtt"
        (λ (v : MqttVerifySpec).
          check_template "mqtt" "topic" v.topic
          >> refuse_if (v.timeout_secs == 0) (generic_zero_timeout name "mqtt"))
        mqtt.verify

  check_serial : SerialConfig → Check
  check_serial serial = do
    refuse_if (serial.timeout_secs == 0) (generic_zero_timeout name "serial")
    check_template "serial" "send" serial.on_open.send
    check_template "serial" "send" serial.on_revert.send
    check_verify "serial" (λ (v : SerialVerifySpec). check_template "serial" "send" v.send)
        serial.verify

unfoldable pub validate_generic : Host → Check
unfolding check_http check_mqtt check_serial check_http_request check_verify check_status
    check_template refuse_password check_message check_body check_verify_none
validate_generic host = do
  configured host.http (member Channel.http host.channels) (generic_config_missing host.name "http")
      (generic_config_unused host.name "http") (check_http host.name)
  configured host.mqtt (member Channel.mqtt host.channels) (generic_config_missing host.name "mqtt")
      (generic_config_unused host.name "mqtt") (check_mqtt host.name)
  configured host.serial (member Channel.serial host.channels)
      (generic_config_missing host.name "serial") (generic_config_unused host.name "serial")
      (check_serial host.name)

-- The bytes of pairs of digits; `str::get` refuses a cut inside a character.
id_pairs : Text → Option (List ℕ)
id_pairs (a ∷ b ∷ rest) =
    let more = id_pairs rest in
    if not (starts_char (a ∷ []) && starts_char rest) then none else elim (hex_pair a b) [
      | none ↦ none
      | some x ↦ elim more [ none ↦ none | some xs ↦ some (x ∷ xs) ]
    ]
id_pairs _ = some []

unfoldable pub device_id_bytes : DeviceConfig → Option (List ℕ)
unfolding id_pairs
device_id_bytes device = if length device.device_id == 32 then id_pairs device.device_id else none

-- The one sub-table of the transport is there and no other.
transport_matches : DeviceTransportKind → (http mqtt serial : Bool) → Bool
transport_matches DeviceTransportKind.http http mqtt serial = http && not mqtt && not serial
transport_matches DeviceTransportKind.mqtt http mqtt serial = not http && mqtt && not serial
transport_matches DeviceTransportKind.serial http mqtt serial = not http && not mqtt && serial

is_mqtt : DeviceTransportKind → Bool
is_mqtt DeviceTransportKind.mqtt = true
is_mqtt _ = false

mqtt_auth : Option DeviceMqtt → Option MqttAuth
mqtt_auth none = none
mqtt_auth (some mqtt) = mqtt.auth

has_zero_timeout : Option DeviceSerial → Bool
has_zero_timeout none = false
has_zero_timeout (some serial) = serial.timeout_secs == 0

-- The signing key that an algorithm needs.
signing_key : DeviceAlg → Option SigningSpec → Option Text
signing_key alg none = none
signing_key DeviceAlg.ed25519 (some signing) = signing.key_file
signing_key DeviceAlg.p256 (some signing) = signing.p256_key_file

key_name : DeviceAlg → String
key_name DeviceAlg.ed25519 = "key_file"
key_name DeviceAlg.p256 = "p256_key_file"

unfoldable pub check_device : Text → Option SigningSpec → DeviceConfig → Check
unfolding refuse_password transport_matches is_mqtt mqtt_auth has_zero_timeout signing_key key_name
check_device name signing device = do
  refuse_if (not (present (device_id_bytes device))) (device_bad_id name)
  refuse_if
      (not (
        transport_matches device.transport (present device.http) (present device.mqtt)
          (present device.serial)))
      (device_transport_mismatch name)
  refuse_password name (mqtt_auth device.mqtt)
  refuse_if (is_mqtt device.transport) (device_mqtt_unimplemented name)
  refuse_if (has_zero_timeout device.serial) (generic_zero_timeout name "device")
  refuse_if (not (present (signing_key device.alg signing)))
      (signing_key_missing name (key_name device.alg))

unfoldable pub validate_device : Option SigningSpec → Host → Check
validate_device signing host =
    configured host.device (member Channel.device host.channels)
      (generic_config_missing host.name "device") (generic_config_unused host.name "device")
      (check_device host.name signing)
