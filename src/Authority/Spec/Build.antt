-- ===== src/Authority/Spec/Build.antt =====
-- `AuthorityModel::from_spec` of core/src/authority.rs. `Keys` is what it calls of the `ssh_key` crate; a key that
-- parses is known by its number.
pub mod Checked
pub mod Opening
use Prim.Native.String.{String}
use lychgate.Prelude.{
  ℕ, zero, suc, ◌+◌, Bool, true, false, not, List, [], ◌∷◌, Option, none, some, Result, ok, err,
  ◌>>=◌, ◌>>◌, if◌then◌else◌, is_empty, refuse_if, ok_or, ltb, map_err,
}
use lychgate.Prelude.Text.{Text, bytes, text_eq}
use lychgate.Prelude.TextSet.{TextSet, contains}
use lychgate.Prelude.TextSet
use lychgate.Prelude.TextMap.{TextMap, get, insert, contains_key}
use lychgate.Clock.{Duration}
use lychgate.Approval.{Codec}
use lychgate.Approval.Fido2.{Alg, es256, ed_dsa, Fido2Credential, Webauthn}
use lychgate.Approval.Fido2
use lychgate.Approval.Tpm
use lychgate.Authority.{
  Authority, WeightedFactor, Factor, authenticator, group, wait, Outcome, evaluate,
}
use lychgate.Authority.Graph.{Groups, Stop, cycle, missing_key, out_of_fuel, check_group_acyclic}
use lychgate.Authority.Spec.{
  AuthorityBody, AuthKind, AuthenticatorSpec, AuthoritySpec, ProfileSpec, ApprovalSpec, Kind,
  AuthorityError, no_profiles, empty_id, duplicate_authenticator, duplicate_group,
  duplicate_profile, missing_material, bad_public_key, fido2_bad_key, fido2_unknown_alg,
  group_cycle, authenticators, groups, profiles, override, build_authority, check_refs,
  check_all_refs,
}

pub data Authenticator : Type 0 where
  ed25519 : (key : ℕ) → Authenticator
  totp password hmac : (file : Text) → Authenticator
  fido2 : Fido2Credential → Authenticator
  tpm : (public_key : List ℕ) → Authenticator

pub record AuthorityModel : Type 0 where
  pub authenticators : TextMap Authenticator
  pub groups : Groups
  pub profiles : TextMap Authority
  pub mcp_profiles : TextSet

-- `PublicKey::from_openssh` of a line without the white space at its ends.
pub record Keys : Type 0 where
  pub from_openssh : Text → Option ℕ

-- How loading fails: an error of the policy, or a stop of the search that is not one.
pub data LoadError : Type 0 where
  refused : AuthorityError → LoadError
  stopped : Stop → LoadError

module _ (keys : Keys) (codec : Codec) (lib : Webauthn) where
  material : AuthenticatorSpec → Option Text → String → Result AuthorityError Text
  material a field name = ok_or field (missing_material a.id a.kind name)

  fido2_alg : AuthenticatorSpec → Result AuthorityError Alg
  fido2_alg a = elim a.alg [
    | none ↦ err (missing_material a.id AuthKind.fido2 "alg")
    | some name ↦
        if text_eq name (bytes "es256")
        then ok es256
        else if text_eq name (bytes "eddsa")
        then ok ed_dsa
        else err (fido2_unknown_alg a.id name)
  ]

  key_bytes : AuthorityError → Text → Result AuthorityError (List ℕ)
  key_bytes e s = ok_or (codec.decode (codec.trim s)) e

  unfoldable pub build_authenticator :
      AuthenticatorSpec → AuthKind → Result AuthorityError Authenticator
  unfolding material fido2_alg key_bytes
  build_authenticator a AuthKind.ed25519 = do
    line ← material a a.public_key "public-key"
    key ← ok_or (keys.from_openssh (codec.trim line)) (bad_public_key a.id)
    ok (ed25519 key)
  build_authenticator a AuthKind.totp = do
    file ← material a a.secret_file "secret-file"
    ok (totp file)
  build_authenticator a AuthKind.password = do
    file ← material a a.hash_file "hash-file"
    ok (password file)
  build_authenticator a AuthKind.hmac = do
    file ← material a a.secret_file "secret-file"
    ok (hmac file)
  build_authenticator a AuthKind.fido2 = do
    alg ← fido2_alg a
    id_text ← material a a.credential_id "credential-id"
    key_text ← material a a.public_key "public-key"
    id ← key_bytes (fido2_bad_key a.id) id_text
    key ← key_bytes (fido2_bad_key a.id) key_text
    map_err (λ _. fido2_bad_key a.id) (Fido2.check_public_key codec lib alg key)
    ok (fido2 (record { alg = alg; credential_id = id; public_key = key }))
  build_authenticator a AuthKind.tpm = do
    key_text ← material a a.public_key "public-key"
    key ← key_bytes (bad_public_key a.id) key_text
    map_err (λ _. bad_public_key a.id) (Tpm.check_public_key codec lib.p256 key)
    ok (tpm key)

  unfoldable pub load_authenticators :
      List AuthenticatorSpec → TextMap Authenticator → Result AuthorityError (TextMap Authenticator)
  load_authenticators [] auths = ok auths
  load_authenticators (a ∷ specs) auths = do
    refuse_if (is_empty a.id) (empty_id authenticators)
    auth ← build_authenticator a a.kind
    refuse_if (contains_key a.id auths) (duplicate_authenticator a.id)
    load_authenticators specs (insert a.id auth auths)

  unfoldable pub load_groups : List AuthoritySpec → Groups → Result AuthorityError Groups
  load_groups [] grps = ok grps
  load_groups (g ∷ specs) grps = do
    authority ← build_authority groups g.id g.body.threshold g.body.factor
    refuse_if (contains_key g.id grps) (duplicate_group g.id)
    load_groups specs (insert g.id authority grps)

  unfoldable pub load_profiles :
      List ProfileSpec
      → TextMap Authority
      → TextSet
      → Result AuthorityError (TextMap Authority × TextSet)
  load_profiles [] profs mcp = ok (profs, mcp)
  load_profiles (p ∷ specs) profs mcp = do
    authority ← build_authority profiles p.id p.body.threshold p.body.factor
    refuse_if (contains_key p.id profs) (duplicate_profile p.id)
    load_profiles specs (insert p.id authority profs)
        (if p.mcp then TextSet.insert p.id mcp else mcp)

  unfoldable pub search_error : Stop → LoadError
  search_error (cycle id) = refused (group_cycle id)
  search_error missing_key = stopped missing_key
  search_error out_of_fuel = stopped out_of_fuel

  unfoldable pub from_spec : (fuel : ℕ) → ApprovalSpec → Result LoadError AuthorityModel
  unfolding search_error
  from_spec fuel spec = do
    auths ← map_err refused (load_authenticators spec.authenticator [])
    grps ← map_err refused (load_groups spec.group [])
    (profs, mcp) ← map_err refused (load_profiles spec.profile [] [])
    refuse_if (is_empty profs) (refused no_profiles)
    map_err refused (check_all_refs auths grps groups grps)
    map_err refused (check_all_refs auths grps profiles profs)
    map_err search_error (check_group_acyclic fuel grps)
    ok (record { authenticators = auths; groups = grps; profiles = profs; mcp_profiles = mcp })

unfoldable pub resolve_override :
    AuthorityModel → Text → AuthorityBody → Result AuthorityError Authority
resolve_override model profile_id body = do
  authority ← build_authority override profile_id body.threshold body.factor
  check_refs model.authenticators model.groups override profile_id authority.factors
  ok authority

unfoldable pub profile : AuthorityModel → Text → Option Authority
profile model id = get id model.profiles

unfoldable pub mcp_allowed : AuthorityModel → Text → Bool
mcp_allowed model id = contains id model.mcp_profiles

-- `max_wait_inner` with the groups that were seen; the depth of the recursion is bounded.
unfoldable pub max_wait_factors :
    (TextSet → Authority → Option (Duration × TextSet))
    → Groups
    → List WeightedFactor
    → Duration
    → TextSet
    → Option (Duration × TextSet)
max_wait_factors deeper grps [] max seen = some (max, seen)
max_wait_factors deeper grps (wf ∷ factors) max seen =
    let w : Option (Duration × TextSet) = elim wf.factor [
      | wait dur ↦ some (dur, seen)
      | authenticator _ ↦ some (0, seen)
      | group id ↦ if contains id seen then some (0, seen) else elim (get id grps) [
        | none ↦ some (0, TextSet.insert id seen)
        | some g ↦ deeper (TextSet.insert id seen) g
      ]
    ] in
    elim w [
      | none ↦ none
      | some (w, seen') ↦ max_wait_factors deeper grps factors (if ltb max w then w else max) seen'
    ]

unfoldable pub max_wait_inner : ℕ → Groups → TextSet → Authority → Option (Duration × TextSet)
max_wait_inner zero grps seen authority = none
max_wait_inner (suc depth) grps seen authority =
    max_wait_factors (max_wait_inner depth grps) grps authority.factors 0 seen
