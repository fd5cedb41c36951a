-- ===== src/Inventory/Validation.antt =====
-- `validate` of core/src/inventory.rs, and `parse` over the TOML library.
use Prim.Native.String.{String}
use lychgate.Prelude.{
  ℕ, Bool, true, false, not, ◌&&◌, ◌||◌, List, [], ◌∷◌, Option, none, some, Result, ok, err, ◌>>=◌,
  ◌>>◌, map_err, refuse_if, ok_or, ◌==◌, if◌then◌else◌, length, is_empty, any,
}
use lychgate.Prelude.Text.{Text, text_eq}
use lychgate.Prelude.TextMap.{TextMap}
use lychgate.Channel.{Channel, member}
use lychgate.Approval.{Codec}
use lychgate.Approval.Fido2.{Webauthn}
use lychgate.Ssh.{Posture, no_login, prohibit_password, login, validate_key_line}
use lychgate.Templates.{
  VncTemplateError, quoted, missing_password_file, clear_has_password_file, unknown_placeholder,
  check_set_command, check_clear_command,
}
use lychgate.Authority.Spec.{ApprovalSpec, AuthorityBody}
use lychgate.Authority.Spec.Build.{AuthorityModel, Keys, from_spec, resolve_override, profile}
use lychgate.Daemon.{HostAccess}
use lychgate.Inventory.{
  Host, Inventory, BmcMethod, BmcConfig, SshConfig, VncConfig, SigningSpec, Os, embedded, redfish,
  InventoryError, toml, empty_host_name, signing_unused, duplicate_host_name, empty_address,
  no_channels, duplicate_channel, ssh_config_missing, ssh_config_unused, no_emergency_keys,
  posture_unchanged, bad_emergency_key, bmc_config_missing, bmc_config_unused,
  bmc_method_unimplemented, vnc_config_missing, vnc_config_unused, vnc_command_quoted,
  vnc_missing_password_file, vnc_clear_has_password_file, vnc_unknown_placeholder, vnc_bad_port,
  vnc_bad_password_len, vnc_local_port_conflict, embedded_channel_unsupported, approval,
  bad_override, access_without_approval, access_no_profiles, unknown_profile,
  override_for_unpermitted_profile,
}
use lychgate.Inventory.Channels.{Check, present, configured, validate_generic, validate_device}

-- The set of the channels, as a list.
abbrev pub unique_channels : List Channel → List Channel
unique_channels [] = []
unique_channels (c ∷ cs) = let rest = unique_channels cs in if member c rest then rest else c ∷ rest

same_posture : Posture → Posture → Bool
same_posture no_login no_login = true
same_posture prohibit_password prohibit_password = true
same_posture login login = true
same_posture _ _ = false

is_redfish : BmcMethod → Bool
is_redfish redfish = true
is_redfish _ = false

abbrev pub wants_ssh : Host → Bool
wants_ssh host = member Channel.ssh host.channels || member Channel.authorized_keys host.channels

check_keys : (Text → Text) → Text → List Text → Check
check_keys trim name [] = ok tt
check_keys trim name (key ∷ keys) =
    map_err (λ _. bad_emergency_key name) (validate_key_line trim key) >> check_keys trim name keys

pub check_ssh : (Text → Text) → Host → SshConfig → Check
check_ssh trim host ssh = do
  refuse_if
      (member Channel.ssh host.channels
        && same_posture ssh.root_posture_default ssh.root_posture_emergency)
      (posture_unchanged host.name)
  refuse_if (member Channel.authorized_keys host.channels && is_empty ssh.emergency_keys)
      (no_emergency_keys host.name)
  check_keys trim host.name ssh.emergency_keys

pub check_bmc : Host → BmcConfig → Check
check_bmc host bmc =
    refuse_if (not (is_redfish bmc.method)) (bmc_method_unimplemented host.name bmc.method)

pub vnc_template_error : Text → String → VncTemplateError → InventoryError
vnc_template_error name which quoted = vnc_command_quoted name which
vnc_template_error name which missing_password_file = vnc_missing_password_file name
vnc_template_error name which clear_has_password_file = vnc_clear_has_password_file name
vnc_template_error name which (unknown_placeholder p) = vnc_unknown_placeholder name which p

-- The ports that the hosts before this one forward.
abbrev pub Ports : Type 0
Ports = List (ℕ × Text)

abbrev pub port_owner : ℕ → Ports → Option Text
port_owner port [] = none
port_owner port ((p, name) ∷ ports) = if p == port then some name else port_owner port ports

unfoldable pub free_port : Text → ℕ → Option Text → Check
free_port name port none = ok tt
free_port name port (some other) = err (vnc_local_port_conflict name other port)

unfoldable pub check_vnc : Ports → Host → VncConfig → Check
unfolding vnc_template_error
check_vnc ports host vnc = do
  refuse_if (vnc.rfb_port == 0) (vnc_bad_port host.name "rfb_port")
  refuse_if (vnc.local_port == 0) (vnc_bad_port host.name "local_port")
  refuse_if (vnc.password_len == 0) (vnc_bad_password_len host.name)
  map_err (vnc_template_error host.name "set_password_cmd") (check_set_command vnc.set_password_cmd)
  map_err (vnc_template_error host.name "clear_password_cmd")
      (check_clear_command vnc.clear_password_cmd)
  free_port host.name vnc.local_port (port_owner vnc.local_port ports)

abbrev pub forwarded : Option VncConfig → Ports → Text → Ports
forwarded none ports name = ports
forwarded (some vnc) ports name = (vnc.local_port, name) ∷ ports

abbrev pub needs_shell : Channel → Bool
needs_shell Channel.ssh = true
needs_shell Channel.authorized_keys = true
needs_shell Channel.vnc = true
needs_shell _ = false

abbrev pub is_embedded : Os → Bool
is_embedded embedded = true
is_embedded _ = false

check_embedded : Text → List Channel → Check
check_embedded name [] = ok tt
check_embedded name (c ∷ cs) =
    refuse_if (needs_shell c) (embedded_channel_unsupported name c) >> check_embedded name cs

-- The body of the loop over the hosts, with the names and the ports of those before.
unfoldable pub validate_host : (Text → Text) → Option SigningSpec → List Text → Ports → Host → Check
unfolding check_ssh check_keys check_bmc check_vnc vnc_template_error free_port check_embedded
    same_posture is_redfish
validate_host trim signing names ports host = do
  refuse_if (is_empty host.name) empty_host_name
  refuse_if (any (λ n. text_eq n host.name) names) (duplicate_host_name host.name)
  refuse_if (is_empty host.address) (empty_address host.name)
  refuse_if (is_empty host.channels) (no_channels host.name)
  refuse_if (not (length (unique_channels host.channels) == length host.channels))
      (duplicate_channel host.name)
  configured host.ssh (wants_ssh host) (ssh_config_missing host.name) (ssh_config_unused host.name)
      (check_ssh trim host)
  configured host.bmc (member Channel.bmc host.channels) (bmc_config_missing host.name)
      (bmc_config_unused host.name) (check_bmc host)
  configured host.vnc (member Channel.vnc host.channels) (vnc_config_missing host.name)
      (vnc_config_unused host.name) (check_vnc ports host)
  validate_generic host
  validate_device signing host
  if is_embedded host.os then check_embedded host.name host.channels else ok tt

unfoldable pub validate_hosts :
    (Text → Text) → Option SigningSpec → List Text → Ports → List Host → Check
validate_hosts trim signing names ports [] = ok tt
validate_hosts trim signing names ports (host ∷ hosts) =
    validate_host trim signing names ports host
    >> validate_hosts trim signing (host.name ∷ names) (forwarded host.vnc ports host.name) hosts

unfoldable pub check_profiles : AuthorityModel → Text → List Text → Check
check_profiles model name [] = ok tt
check_profiles model name (p ∷ ps) =
    refuse_if (not (present (profile model p))) (unknown_profile name p)
    >> check_profiles model name ps

unfoldable pub check_overrides :
    AuthorityModel → Text → (permitted : List Text) → TextMap AuthorityBody → Check
check_overrides model name permitted [] = ok tt
check_overrides model name permitted ((p, body) ∷ overrides) = do
  refuse_if (not (any (λ q. text_eq q p) permitted)) (override_for_unpermitted_profile name p)
  map_err bad_override (resolve_override model p body >>= λ _. ok tt)
  check_overrides model name permitted overrides

unfoldable pub check_access : Option AuthorityModel → Text → Option HostAccess → Check
check_access model name none = ok tt
check_access none name (some access) = err (access_without_approval name)
check_access (some model) name (some access) = do
  refuse_if (is_empty access.profiles) (access_no_profiles name)
  check_profiles model name access.profiles
  check_overrides model name access.profiles access.overrides

unfoldable pub check_all_access : Option AuthorityModel → List Host → Check
check_all_access model [] = ok tt
check_all_access model (host ∷ hosts) =
    check_access model host.name host.access >> check_all_access model hosts

module _ (keys : Keys) (codec : Codec) (lib : Webauthn) (fuel : ℕ) where
  unfoldable pub approval_model :
      Option ApprovalSpec → Result InventoryError (Option AuthorityModel)
  approval_model none = ok none
  approval_model (some spec) =
      map_err approval (from_spec keys codec lib fuel spec >>= λ model. ok (some model))

  unfoldable pub validate : Inventory → Check
  validate inventory = do
    validate_hosts codec.trim inventory.signing [] [] inventory.hosts
    refuse_if
        (present inventory.signing
          && not (any (λ (h : Host). member Channel.device h.channels) inventory.hosts))
        signing_unused
    model ← approval_model inventory.approval
    check_all_access model inventory.hosts

  -- `from_str` is that of the TOML library.
  unfoldable pub parse :
      (from_str : Text → Option Inventory) → Text → Result InventoryError Inventory
  parse from_str text = do inventory ← ok_or (from_str text) toml; validate inventory; ok inventory
