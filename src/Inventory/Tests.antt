-- ===== src/Inventory/Tests.antt =====
-- An inventory of core/src/inventory.rs with one host, whose override asks for the one key of the policy.
use lychgate.Prelude.{ℕ, ◌≢◌, ◌≡◌, refl, true, false, [], ◌∷◌, none, some, ok}
use lychgate.Prelude.Text.{Text, bytes, text_compare}
use lychgate.Prelude.TextMap.{get, insert, contains_key}
use lychgate.Prelude.TextSet
use lychgate.Channel.{Channel, channel_eq}
use lychgate.Approval.{Codec}
use lychgate.Approval.Fido2.{Scheme, Webauthn}
use lychgate.Authority.{Authority, Factor}
use lychgate.Authority.Graph.{
  all_white, check_group_acyclic, descend, push_child, push_children, search,
}
use lychgate.Authority.Spec.{
  ApprovalSpec, AuthKind, AuthorityBody, FactorSpec, build_authority, build_factors, factor_of,
  check_all_refs, check_refs, check_factor_refs,
}
use lychgate.Authority.Spec.Build.{
  Keys, AuthorityModel, Authenticator, from_spec, load_authenticators, load_groups, load_profiles,
  build_authenticator, profile, resolve_override,
}
use lychgate.Daemon.Policy.{resolve_authority, permitted_profiles}
use lychgate.Inventory.{Host, Inventory, Os, BmcMethod, BmcTls}
use lychgate.Inventory.Channels.{validate_generic, validate_device}
use lychgate.Inventory.Validation.{
  check_vnc, validate, approval_model, validate_hosts, validate_host, check_all_access,
  check_access, check_profiles, check_overrides,
}
use lychgate.Inventory.Distinct.{shares_port, validate_distinct}
use lychgate.Templates.{
  check_set_command, placeholders, scan_names, name_run, check_clear_command, clear_placeholders,
}
use lychgate.Inventory.Access.{served, validate_resolves}

abbrev keys : Keys
keys = record { from_openssh = λ line. some 7 }

abbrev plain : Codec
plain = record { trim = λ t. t; encode = λ bs. bs; decode = λ t. some t }

abbrev no_scheme : Scheme
no_scheme = record {
  key = λ k. false;
  signature = λ s. false;
  verify = λ k m s. false;
  public = λ k. none;
  sign = λ k m. none;
}

abbrev no_fido : Webauthn
no_fido = record {
  token_to_vec = λ t. [];
  token_from_slice = λ bs. none;
  client_to_vec = λ c. [];
  client_from_slice = λ bs. none;
  sha256 = λ bs. [];
  p256 = no_scheme;
  ed25519 = no_scheme;
}

abbrev factor_spec : FactorSpec
factor_spec = record { weight = 1; authenticator = some (bytes "k"); group = none; wait = none }

abbrev body : AuthorityBody
body = record { threshold = 1; factor = factor_spec ∷ [] }

abbrev policy : ApprovalSpec
policy = record {
  authenticator =
      record {
        id = bytes "k";
        kind = AuthKind.ed25519;
        public_key = some (bytes "ssh-ed25519 AAAA");
        secret_file = none;
        hash_file = none;
        alg = none;
        credential_id = none;
      }
      ∷ [];
  group = [];
  profile = record { id = bytes "p"; body = body; mcp = true } ∷ [];
}

abbrev by_key : Authority
by_key = record {
  threshold = 1;
  factors = record { weight = 1; factor = Factor.authenticator (bytes "k") } ∷ [];
}

abbrev model : AuthorityModel
model = record {
  authenticators = (bytes "k", Authenticator.ed25519 7) ∷ [];
  groups = [];
  profiles = (bytes "p", by_key) ∷ [];
  mcp_profiles = bytes "p" ∷ [];
}

abbrev host : Host
host = record {
  name = bytes "a";
  address = bytes "10.0.0.1";
  os = Os.linux;
  channels = Channel.bmc ∷ [];
  ssh = none;
  bmc = some (record {
    endpoint = bytes "https://b";
    method = BmcMethod.redfish;
    account_user = bytes "u";
    account_id = bytes "2";
    auth_user = bytes "v";
    auth_password_file = bytes "/f";
    tls = BmcTls.insecure;
  });
  vnc = none;
  http = none;
  mqtt = none;
  serial = none;
  device = none;
  access = some (record { profiles = bytes "p" ∷ []; overrides = (bytes "p", body) ∷ [] });
  drill = false;
}

abbrev inventory : Inventory
inventory = record { hosts = host ∷ []; signing = none; approval = some policy }

validate_resolves_example :
    (a : Authority) × (resolve_authority model (served host) (bytes "p") ≡ ok a)
unfolding validate approval_model validate_hosts validate_host validate_generic validate_device
    channel_eq from_spec load_authenticators build_authenticator load_groups load_profiles
    build_authority build_factors factor_of check_all_refs check_refs check_factor_refs
    check_group_acyclic search descend push_children push_child all_white get insert contains_key
    text_compare TextSet.insert check_all_access check_access check_profiles check_overrides profile
    resolve_override permitted_profiles
validate_resolves_example =
    validate_resolves keys plain no_fido 9 inventory model [] [] host (bytes "p") refl refl refl
      refl

-- A host whose screen is forwarded on a port.
abbrev screen : Text → ℕ → Host
screen name port = record {
  name = name;
  address = bytes "10.0.0.1";
  os = Os.linux;
  channels = Channel.vnc ∷ [];
  ssh = none;
  bmc = none;
  vnc = some (record {
    agent_user = bytes "u";
    port = 22;
    identity_file = none;
    become_cmd = none;
    rfb_host = bytes "127.0.0.1";
    rfb_port = 5900;
    local_port = port;
    target = bytes "vm";
    set_password_cmd = bytes "s {password_file}";
    clear_password_cmd = bytes "c {target}";
    password_len = 8;
    password_file = none;
  });
  http = none;
  mqtt = none;
  serial = none;
  device = none;
  access = none;
  drill = false;
}

validate_distinct_example :
    ((screen (bytes "a") 1).name ≢ (screen (bytes "b") 2).name)
    × (shares_port (screen (bytes "a") 1).vnc (screen (bytes "b") 2).vnc ≡ false)
unfolding validate validate_hosts validate_host check_vnc validate_generic validate_device
    channel_eq check_set_command placeholders scan_names name_run check_clear_command
    clear_placeholders approval_model check_all_access check_access text_compare
validate_distinct_example =
    validate_distinct keys plain no_fido 9
      (record {
        hosts = screen (bytes "a") 1 ∷ screen (bytes "b") 2 ∷ [];
        signing = none;
        approval = none;
      })
      [] [] [] (screen (bytes "a") 1) (screen (bytes "b") 2) refl refl
