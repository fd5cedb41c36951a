-- ===== src/Daemon/Proofs/Accepted.antt =====
-- What a proof that daemon/src/lifecycle.rs accepts was checked against.
use lychgate.Prelude.{◌≡◌, ◌⊎◌, inl, inr, Bool, true, false, none, ok, if◌then◌else◌, arith}
use lychgate.Prelude.Text.{Text, bytes}
use lychgate.Clock.{SystemTime}
use lychgate.Grant.{ApprovalRequest}
use lychgate.Approval.{challenge_string}
use lychgate.Approval.Fido2.{Fido2Credential, Fido2Error}
use lychgate.Approval.Fido2
use lychgate.Approval.Tpm
use lychgate.Approval.Tpm.{TpmError}
use lychgate.Approval.HmacFactor.{HmacError}
use lychgate.Approval.HmacFactor
use lychgate.Authority.Spec.Build.{AuthorityModel}
use lychgate.Authority.Proofs.{fido2_credentials, tpm_credentials}
use lychgate.Daemon.Proofs.{Factors, Secrets, Ledgers, starts_with, is_totp_code, verify_proof}
use lychgate.Daemon.Proofs.Checked.{
  Passes, SignsTpm, HasMac, HasPassword, IsFreshCode, IsFreshAssertion, SignsSsh, try_tpm-Passes,
  try_hmac-Passes, try_passwords-Passes, try_totp-Passes, try_fido2-Passes, verify_ed25519-Passes,
}

-- The ways in which a proof satisfies an authenticator of the policy, or one whose secret the daemon read.
pub data Proves (factors : Factors) (model : AuthorityModel) (secrets : Secrets)
    (request : ApprovalRequest) (token : Text) (now : SystemTime) (l : Ledgers) (id : Text)
    : Type 0 where
  by_ssh :
      Passes id
        (SignsSsh factors token (challenge_string factors.codec request))
        model.authenticators
      → Proves factors model secrets request token now l id
  by_fido2 :
      Passes id
        (IsFreshAssertion factors
          (factors.codec.trim token)
          (challenge_string factors.codec request)
          l)
        (fido2_credentials model)
      → Proves factors model secrets request token now l id
  by_tpm :
      Passes id
        (SignsTpm factors (factors.codec.trim token) (challenge_string factors.codec request))
        (tpm_credentials model)
      → Proves factors model secrets request token now l id
  by_hmac :
      Passes id
        (HasMac factors (factors.codec.trim token) (challenge_string factors.codec request))
        secrets.hmac_secrets
      → Proves factors model secrets request token now l id
  by_totp :
      Passes id (IsFreshCode factors id (factors.codec.trim token) now l) secrets.totp_secrets
      → Proves factors model secrets request token now l id
  by_password :
      Passes id (HasPassword factors (factors.codec.trim token)) secrets.password_hashes
      → Proves factors model secrets request token now l id

-- A branch of a test that came out.
branch : {A : Type 0} (b : Bool) (x y : A) {r : A} → (if b then x else y) ≡ r → (x ≡ r) ⊎ (y ≡ r)
branch true x y h = inl h
branch false x y h = inr h

-- A proof that verify_proof accepts for an authenticator passed the check of its kind: an SSH signature in the
-- namespace by the key of that authenticator over the challenge, a fresh assertion of its credential, a TPM
-- signature or a MAC over the challenge, a code that was not spent, or its password.
pub verify_proof-Proves :
    (factors : Factors) (model : AuthorityModel) (secrets : Secrets) (request : ApprovalRequest)
    (token : Text) (now : SystemTime) (l l' : Ledgers) (id : Text)
    → verify_proof factors model secrets request token now l ≡ (l', ok (ok id))
    → Proves factors model secrets request token now l id
unfolding verify_proof
verify_proof-Proves factors model secrets request token now l l' id h =
    let trimmed = factors.codec.trim token in
    let challenge = challenge_string factors.codec request in
    elim (branch (starts_with (bytes "-----BEGIN SSH SIGNATURE-----") trimmed) _ _ h) [
      | inl p ↦
          Proves.by_ssh (verify_ed25519-Passes factors model request token id (ground (arith, p)))
      | inr h ↦ elim (branch (starts_with Fido2.token_prefix trimmed) _ _ h) [
        | inl p ↦
            Proves.by_fido2
              (try_fido2-Passes factors (fido2_credentials model) trimmed challenge none l l' id p)
        | inr h ↦ elim (branch (starts_with Tpm.token_prefix trimmed) _ _ h) [
          | inl p ↦ Proves.by_tpm (
              try_tpm-Passes factors (tpm_credentials model) trimmed challenge false false l l' id
                p)
          | inr h ↦ elim (branch (starts_with HmacFactor.token_prefix trimmed) _ _ h) [
            | inl p ↦ Proves.by_hmac (
                try_hmac-Passes factors secrets.hmac_secrets trimmed challenge false false l l' id
                  p)
            | inr h ↦ elim (branch (is_totp_code trimmed) _ _ h) [
              | inl p ↦
                  Proves.by_totp
                    (try_totp-Passes factors secrets.totp_secrets trimmed now l l' id p)
              | inr p ↦
                  Proves.by_password
                    (try_passwords-Passes factors secrets.password_hashes trimmed l l' id p)
            ]
          ]
        ]
      ]
    ]
