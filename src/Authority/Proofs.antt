-- ===== src/Authority/Proofs.antt =====
-- The lists of authenticators by kind, and `verify_ed25519`, of core/src/authority.rs. `Ssh` is what the file calls
-- of the `ssh_key` crate; a key is known by the number of its key data.
use lychgate.Prelude.{
  ℕ, ◌≡◌, inl, inr, Bool, not, List, [], ◌∷◌, Option, none, some, Result, ok, ◌>>=◌, ◌>>◌, ok_or,
  refuse_if, ◌==◌, ==_iff, if◌then◌else◌, sym, arith, Bool-cases, subst,
}
use lychgate.Prelude.Text.{Text, bytes, text_eq}
use lychgate.Prelude.TextMap.{TextMap, keys}
use lychgate.Approval.{
  Codec, ApprovalError, malformed, wrong_namespace, unknown_approver, bad_signature,
  challenge_string,
}
use lychgate.Approval.Fido2.{Fido2Credential}
use lychgate.Grant.{ApprovalRequest}
use lychgate.Authority.Spec.Build.{
  AuthorityModel, Authenticator, ed25519, totp, password, hmac, fido2, tpm,
}

abbrev pub approval_namespace : Text
approval_namespace = bytes "lychgate-approval"

pub record SshSig : Type 0 where
  pub namespace : Text
  pub public_key : ℕ
  pub signature : List ℕ

pub record Ssh : Type 0 where
  pub parse : Text → Option SshSig
  pub verify : (key : ℕ) (namespace message : Text) → SshSig → Bool

-- The entries that a selection keeps, with what it makes of them.
abbrev pub filter_map : {A B : Type 0} → (A → Option B) → TextMap A → TextMap B
filter_map f [] = []
filter_map f ((id, a) ∷ m) =
    let rest = filter_map f m in elim (f a) [ none ↦ rest | some b ↦ (id, b) ∷ rest ]

abbrev pub totp_file : Authenticator → Option Text
totp_file (totp file) = some file
totp_file _ = none

abbrev pub password_file : Authenticator → Option Text
password_file (password file) = some file
password_file _ = none

abbrev pub hmac_file : Authenticator → Option Text
hmac_file (hmac file) = some file
hmac_file _ = none

abbrev pub credential : Authenticator → Option Fido2Credential
credential (fido2 cred) = some cred
credential _ = none

abbrev pub tpm_key : Authenticator → Option (List ℕ)
tpm_key (tpm key) = some key
tpm_key _ = none

abbrev pub ssh_key : Authenticator → Option ℕ
ssh_key (ed25519 key) = some key
ssh_key _ = none

pub totp_authenticators : AuthorityModel → TextMap Text
totp_authenticators model = filter_map totp_file model.authenticators

pub password_authenticators : AuthorityModel → TextMap Text
password_authenticators model = filter_map password_file model.authenticators

pub hmac_authenticators : AuthorityModel → TextMap Text
hmac_authenticators model = filter_map hmac_file model.authenticators

unfoldable pub fido2_credentials : AuthorityModel → TextMap Fido2Credential
fido2_credentials model = filter_map credential model.authenticators

unfoldable pub tpm_credentials : AuthorityModel → TextMap (List ℕ)
tpm_credentials model = filter_map tpm_key model.authenticators

unfoldable pub profile_ids : AuthorityModel → List Text
profile_ids model = keys model.profiles

-- `find_map` over the ed25519 authenticators whose key is the signer's.
unfoldable pub find_signer : ℕ → TextMap Authenticator → Option (Text × ℕ)
find_signer signer [] = none
find_signer signer ((id, a) ∷ m) =
    let rest = find_signer signer m in
    elim (ssh_key a) [ none ↦ rest | some key ↦ if key == signer then some (id, key) else rest ]

unfoldable pub verify_ed25519 :
    Codec → Ssh → AuthorityModel → ApprovalRequest → (token : Text) → Result ApprovalError Text
verify_ed25519 codec ssh model request token = do
  sig ← ok_or (ssh.parse (codec.trim token)) malformed
  refuse_if (not (text_eq sig.namespace approval_namespace)) wrong_namespace
  (id, key) ← ok_or (find_signer sig.public_key model.authenticators) unknown_approver
  refuse_if (not (ssh.verify key approval_namespace (challenge_string codec request) sig))
      bad_signature
  ok id

-- An entry of a map.
pub data Entry {A : Type 0} (id : Text) (a : A) : TextMap A → Type 0 where
  first : {m : TextMap A} → Entry id a ((id, a) ∷ m)
  later : {m : TextMap A} {e : Text × A} → Entry id a m → Entry id a (e ∷ m)

pub find_signer-Entry :
    (signer : ℕ) (m : TextMap Authenticator) (id : Text) (key : ℕ)
    → find_signer signer m ≡ some (id, key)
    → Entry id (ed25519 key) m × (key ≡ signer)
unfolding find_signer
find_signer-Entry signer [] id key h = absurd (ground (arith, h))
find_signer-Entry signer ((j, ed25519 k) ∷ m) id key h = elim (Bool-cases (k == signer)) [
  | inl e ↦
      let at : j ≡ id = ground (arith, h, e) in
      let same : k ≡ key = ground (arith, h, e) in
      (
        subst (λ i. Entry id (ed25519 key) ((i, ed25519 k) ∷ m)) (sym at)
            (subst (λ x. Entry id (ed25519 key) ((id, ed25519 x) ∷ m)) (sym same) first),
        ground (arith, same, e, ==_iff k signer),
      )
  | inr e ↦ let (a, b) = find_signer-Entry signer m id key (ground (arith, h, e)) in (later a, b)
]
find_signer-Entry signer ((j, totp f) ∷ m) id key h =
    let (a, b) = find_signer-Entry signer m id key h in (later a, b)
find_signer-Entry signer ((j, password f) ∷ m) id key h =
    let (a, b) = find_signer-Entry signer m id key h in (later a, b)
find_signer-Entry signer ((j, hmac f) ∷ m) id key h =
    let (a, b) = find_signer-Entry signer m id key h in (later a, b)
find_signer-Entry signer ((j, fido2 f) ∷ m) id key h =
    let (a, b) = find_signer-Entry signer m id key h in (later a, b)
find_signer-Entry signer ((j, tpm f) ∷ m) id key h =
    let (a, b) = find_signer-Entry signer m id key h in (later a, b)
