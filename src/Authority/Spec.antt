-- ===== src/Authority/Spec.antt =====
-- core/src/authority.rs: the policy as written, and the checks that turn it into a model. An error keeps the
-- ids and the numbers of its source; a fixed message is left out, and a wait's error is kept as it is.
pub mod Build
use Prim.Native.String.{String}
use lychgate.Prelude.{
  ℕ, ◌+◌, Bool, true, false, not, ◌||◌, List, [], ◌∷◌, Option, none, some, Result, ok, err, ◌>>=◌,
  ◌>>◌, ltb, ◌==◌, if◌then◌else◌, is_empty, refuse_if, ok_or, map_err,
}
use lychgate.Prelude.Text.{Text, bytes, text_eq}
use lychgate.Prelude.TextSet
use lychgate.Prelude.TextMap.{TextMap, get, insert, contains_key, keys}
use lychgate.Ttl.{TtlError, parse}
use lychgate.Authority.{Authority, WeightedFactor, Factor, authenticator, group, wait}
use lychgate.Authority.Graph

pub record FactorSpec : Type 0 where
  pub weight : ℕ
  pub authenticator : Option Text
  pub group : Option Text
  pub wait : Option Text

pub record AuthorityBody : Type 0 where
  pub threshold : ℕ
  pub factor : List FactorSpec

pub data AuthKind : Type 0 where
  ed25519 totp password fido2 tpm hmac : AuthKind

pub record AuthenticatorSpec : Type 0 where
  pub id : Text
  pub kind : AuthKind
  pub public_key : Option Text
  pub secret_file : Option Text
  pub hash_file : Option Text
  pub alg : Option Text
  pub credential_id : Option Text

pub record AuthoritySpec : Type 0 where
  pub id : Text
  pub body : AuthorityBody

pub record ProfileSpec : Type 0 where
  pub id : Text
  pub body : AuthorityBody
  pub mcp : Bool

pub record ApprovalSpec : Type 0 where
  pub authenticator : List AuthenticatorSpec
  pub group : List AuthoritySpec
  pub profile : List ProfileSpec

-- What an error names: the kind of an item of the policy.
pub data Kind : Type 0 where
  authenticators groups profiles override : Kind

pub data AuthorityError : Type 0 where
  no_profiles : AuthorityError
  empty_id : Kind → AuthorityError
  duplicate_authenticator duplicate_group duplicate_profile : Text → AuthorityError
  missing_material : (id : Text) (kind : AuthKind) (field : String) → AuthorityError
  bad_public_key fido2_bad_key : (id : Text) → AuthorityError
  fido2_unknown_alg : (id alg : Text) → AuthorityError
  zero_threshold zero_weight no_factors bad_factor : Kind → Text → AuthorityError
  bad_wait : Kind → Text → TtlError → AuthorityError
  unsatisfiable : Kind → Text → (threshold available : ℕ) → AuthorityError
  dangling_authenticator dangling_group : Kind → (referrer id : Text) → AuthorityError
  group_cycle : (id : Text) → AuthorityError

-- The factor that a spec names, when it names exactly one.
unfoldable pub factor_of : Kind → Text → FactorSpec → Result AuthorityError Factor
factor_of kind id fs = elim fs.authenticator [
  | some a ↦ elim fs.group [
    | some _ ↦ err (bad_factor kind id)
    | none ↦ elim fs.wait [ some _ ↦ err (bad_factor kind id) | none ↦ ok (authenticator a) ]
  ]
  | none ↦ elim fs.group [
    | some g ↦ elim fs.wait [ some _ ↦ err (bad_factor kind id) | none ↦ ok (group g) ]
    | none ↦ elim fs.wait [
      | none ↦ err (bad_factor kind id)
      | some w ↦ elim (parse w) [ ok t ↦ ok (wait t.duration) | err e ↦ err (bad_wait kind id e) ]
    ]
  ]
]

-- The loop over the factors, with the weight that is available so far.
unfoldable pub build_factors :
    Kind → Text → List FactorSpec → Result AuthorityError (List WeightedFactor × ℕ)
unfolding factor_of
build_factors kind id [] = ok ([], 0)
build_factors kind id (fs ∷ specs) = do
  refuse_if (fs.weight == 0) (zero_weight kind id)
  factor ← factor_of kind id fs
  (factors, available) ← build_factors kind id specs
  ok (record { weight = fs.weight; factor = factor } ∷ factors, fs.weight + available)

unfoldable pub build_authority : Kind → Text → ℕ → List FactorSpec → Result AuthorityError Authority
build_authority kind id threshold specs = do
  refuse_if (is_empty id) (empty_id kind)
  refuse_if (threshold == 0) (zero_threshold kind id)
  refuse_if (is_empty specs) (no_factors kind id)
  (factors, available) ← build_factors kind id specs
  refuse_if (ltb available threshold) (unsatisfiable kind id threshold available)
  ok (record { threshold = threshold; factors = factors })

unfoldable pub check_factor_refs :
    {A : Type 0}
    → TextMap A
    → TextMap Authority
    → Kind
    → Text
    → Factor
    → Result AuthorityError (Unit {0})
check_factor_refs auths grps kind referrer (authenticator id) =
    refuse_if (not (contains_key id auths)) (dangling_authenticator kind referrer id)
check_factor_refs auths grps kind referrer (group id) =
    refuse_if (not (contains_key id grps)) (dangling_group kind referrer id)
check_factor_refs auths grps kind referrer (wait dur) = ok tt

unfoldable pub check_refs :
    {A : Type 0}
    → TextMap A
    → TextMap Authority
    → Kind
    → Text
    → List WeightedFactor
    → Result AuthorityError (Unit {0})
check_refs auths grps kind referrer [] = ok tt
check_refs auths grps kind referrer (wf ∷ factors) =
    check_factor_refs auths grps kind referrer wf.factor
    >> check_refs auths grps kind referrer factors

-- The loops that check the references of all groups, or of all profiles.
unfoldable pub check_all_refs :
    {A : Type 0}
    → TextMap A
    → TextMap Authority
    → Kind
    → TextMap Authority
    → Result AuthorityError (Unit {0})
check_all_refs auths grps kind [] = ok tt
check_all_refs auths grps kind ((id, authority) ∷ rest) =
    check_refs auths grps kind id authority.factors >> check_all_refs auths grps kind rest
