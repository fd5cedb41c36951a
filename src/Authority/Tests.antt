-- ===== src/Authority/Tests.antt =====
-- Policies of core/src/authority.rs at concrete values.
use lychgate.Prelude.{
  ◌≡◌, refl, ℕ, ◌+◌, Bool, true, false, [], ◌∷◌, none, some, ok, err, ◌≢◌, arith,
}
use lychgate.Prelude.Text.{Text, bytes, text_compare}
use lychgate.Prelude.TextSet
use lychgate.Prelude.TextSet.{contains}
use lychgate.Prelude.TextMap.{get, insert, contains_key}
use lychgate.Clock.{from_secs}
use lychgate.Ttl.{max_ttl_secs}
use lychgate.Approval.{Codec}
use lychgate.Approval.Fido2.{Scheme, Webauthn}
use lychgate.Authority.{
  Authority, Factor, authenticator, group, Outcome, Missing, evaluate, tally, factor_ok, outcome,
}
use lychgate.Authority.Graph.{
  Groups, cycle, out_of_fuel, check_group_acyclic, search, descend, push_children, push_child,
  all_white,
}
use lychgate.Authority.Graph.Ending.{check_group_acyclic_ends}
use lychgate.Authority.Evaluation.{evaluate-check_group_acyclic}
use lychgate.Authority.Spec.{
  FactorSpec, AuthorityBody, AuthKind, ApprovalSpec, build_authority, build_factors, factor_of,
  check_all_refs, check_refs, check_factor_refs,
}
use lychgate.Authority.Spec.Build.{
  Keys, AuthorityModel, from_spec, load_authenticators, load_groups, load_profiles,
  build_authenticator, profile, ed25519,
}
use lychgate.Authority.Spec.Build.Opening.{from_spec_closed, from_spec_opens}

abbrev one : Factor → Authority
one f = record { threshold = 1; factors = record { weight = 1; factor = f } ∷ [] }

abbrev chain : Groups
chain = (bytes "a", one (group (bytes "b"))) ∷ (bytes "b", one (authenticator (bytes "k"))) ∷ []

evaluate-check_group_acyclic_example :
    (depth : ℕ) × (o : Outcome) × ((more : ℕ)
      → evaluate (depth + more) chain (one (group (bytes "a"))) [] 0 ≡ some o)
unfolding check_group_acyclic search descend push_children push_child all_white get insert
    text_compare
evaluate-check_group_acyclic_example =
    evaluate-check_group_acyclic 9 chain (one (group (bytes "a"))) [] 0 refl

-- A group that asks for itself and for a key twice.
abbrev looped : Groups
looped =
    (
      bytes "a",
      record {
        threshold = 1;
        factors =
            record { weight = 1; factor = authenticator (bytes "k") }
            ∷ record { weight = 1; factor = group (bytes "b") }
            ∷ record { weight = 1; factor = group (bytes "a") }
            ∷ [];
      },
    )
    ∷ (bytes "b", one (authenticator (bytes "k")))
    ∷ []

check_group_acyclic_test : check_group_acyclic 10 looped ≡ err (cycle (bytes "a"))
unfolding check_group_acyclic search descend push_children push_child all_white get insert
    text_compare
check_group_acyclic_test = refl

check_group_acyclic_ends_example : check_group_acyclic 10 looped ≢ err out_of_fuel
check_group_acyclic_ends_example = check_group_acyclic_ends 10 looped (ground arith)

abbrev any_key : Keys
any_key = record { from_openssh = λ line. some 7 }

abbrev plain : Codec
plain = record { trim = λ t. t; encode = λ bs. bs; decode = λ t. some t }

abbrev no_scheme : Scheme
no_scheme = record {
  key = λ k. false;
  signature = λ s. false;
  verify = λ k m s. false;
  public = λ k. none;
  sign = λ k m. none;
}

abbrev no_fido : Webauthn
no_fido = record {
  token_to_vec = λ t. [];
  token_from_slice = λ bs. none;
  client_to_vec = λ c. [];
  client_from_slice = λ bs. none;
  sha256 = λ bs. [];
  p256 = no_scheme;
  ed25519 = no_scheme;
}

abbrev factor_spec : Text → Bool → FactorSpec
factor_spec id true = record { weight = 1; authenticator = none; group = some id; wait = none }
factor_spec id false = record { weight = 1; authenticator = some id; group = none; wait = none }

abbrev body_of : FactorSpec → AuthorityBody
body_of f = record { threshold = 1; factor = f ∷ [] }

-- A profile that asks for a group that asks for a key.
abbrev policy : ApprovalSpec
policy = record {
  authenticator =
      record {
        id = bytes "k";
        kind = AuthKind.ed25519;
        public_key = some (bytes "ssh-ed25519 AAAA");
        secret_file = none;
        hash_file = none;
        alg = none;
        credential_id = none;
      }
      ∷ [];
  group = record { id = bytes "g"; body = body_of (factor_spec (bytes "k") false) } ∷ [];
  profile =
      record { id = bytes "p"; body = body_of (factor_spec (bytes "g") true); mcp = true } ∷ [];
}

abbrev loaded : AuthorityModel
loaded = record {
  authenticators = (bytes "k", ed25519 7) ∷ [];
  groups = (bytes "g", one (authenticator (bytes "k"))) ∷ [];
  profiles = (bytes "p", one (group (bytes "g"))) ∷ [];
  mcp_profiles = bytes "p" ∷ [];
}

from_spec_test : from_spec any_key plain no_fido 9 policy ≡ ok loaded
unfolding from_spec load_authenticators load_groups load_profiles build_authenticator
    build_authority build_factors factor_of check_all_refs check_refs check_factor_refs
    check_group_acyclic search descend push_children push_child all_white get insert contains_key
    text_compare TextSet.insert
from_spec_test = refl

abbrev unproved : Outcome
unproved = record {
  weight = 0;
  threshold = 1;
  met = false;
  missing = Missing.group (bytes "g") ∷ [];
}

from_spec_closed_example : unproved.met ≡ false
unfolding profile get evaluate tally factor_ok outcome contains text_compare
from_spec_closed_example =
    from_spec_closed any_key plain no_fido 9 2 policy loaded (bytes "p") (one (group (bytes "g")))
      unproved from_spec_test refl refl

all_held :
    (j : Text) → contains_key j loaded.authenticators ≡ true → contains j (bytes "k" ∷ []) ≡ true
unfolding contains_key contains
all_held j h = h

from_spec_opens_example :
    (depth : ℕ) × (o : Outcome) × (evaluate depth loaded.groups
        (one (group (bytes "g")))
        (bytes "k" ∷ [])
        (from_secs max_ttl_secs)
      ≡ some o)
    × (o.met ≡ true)
unfolding profile get text_compare
from_spec_opens_example =
    from_spec_opens any_key plain no_fido 9 policy loaded (bytes "p") (one (group (bytes "g")))
      (bytes "k" ∷ []) (from_secs max_ttl_secs) from_spec_test refl all_held (ground arith)
