-- ===== src/Daemon/Proofs.antt =====
-- `verify_proof` of daemon/src/lifecycle.rs: a proof is routed by its shape. What it remembers is the two ledgers; a
-- call returns them with its result.
pub mod Checked
pub mod Accepted
use lychgate.Prelude.{
  ℕ, Bool, true, false, not, ◌&&◌, ◌||◌, List, [], ◌∷◌, Option, none, some, Result, ok, err,
  if◌then◌else◌, all, is_empty,
}
use lychgate.Prelude.Text.{Text, bytes}
use lychgate.Prelude.TextMap.{TextMap}
use lychgate.Prelude.Decimal.{is_ascii_digit}
use lychgate.Clock.{SystemTime}
use lychgate.Grant.{ApprovalRequest}
use lychgate.Wire.Token.{strip_prefix}
use lychgate.Approval.{
  Codec, ApprovalError, malformed, unknown_approver, bad_signature, already_used, clone_suspected,
  challenge_string,
}
use lychgate.Approval.Fido2.{Fido2Credential, Fido2Error, Webauthn}
use lychgate.Approval.Fido2
use lychgate.Approval.Tpm.{TpmError}
use lychgate.Approval.Tpm
use lychgate.Approval.HmacFactor.{HmacError, Mac}
use lychgate.Approval.HmacFactor
use lychgate.Approval.Password.{Argon2}
use lychgate.Approval.Password
use lychgate.Approval.Totp.{Hotp}
use lychgate.Approval.Totp
use lychgate.Approval.Ledgers.{File, Entry, CounterVerdict, fresh, regressed, consume, observe}
use lychgate.Authority.Spec.Build.{AuthorityModel}
use lychgate.Authority.Proofs.{Ssh, verify_ed25519, fido2_credentials, tpm_credentials}
use lychgate.Daemon.{Fatal, bad_ledger, uncounted, stored_hash}

-- The libraries that the factors call.
pub record Factors : Type 1 where
  pub codec : Codec
  pub ssh : Ssh
  pub webauthn : Webauthn
  pub mac : Mac
  pub hotp : Hotp
  pub argon2 : Argon2

-- What the daemon read from its files of secrets at its start, by authenticator.
pub record Secrets : Type 0 where
  pub totp_secrets : TextMap (List ℕ)
  pub password_hashes : TextMap Text
  pub hmac_secrets : TextMap (List ℕ)

pub record Ledgers : Type 0 where
  pub totp_ledger : File (List Entry)
  pub fido2_counters : File (TextMap ℕ)

-- The authenticator that a proof satisfies, or why it is refused; outside that, what ends the daemon.
abbrev pub Answer : Type 0
Answer = Ledgers × Result Fatal (Result ApprovalError Text)

-- `str::starts_with`.
abbrev pub starts_with : Text → Text → Bool
starts_with prefix s = elim (strip_prefix prefix s) [ none ↦ false | some _ ↦ true ]

abbrev pub refused_as : Ledgers → ApprovalError → Answer
refused_as l e = (l, ok (err e))

abbrev pub accepted : Ledgers → Text → Answer
accepted l id = (l, ok (ok id))

-- How each of the loops below refuses when no authenticator accepts.
abbrev pub fido2_refusal : Option Fido2Error → ApprovalError
fido2_refusal none = unknown_approver
fido2_refusal (some Fido2Error.malformed) = malformed
fido2_refusal (some e) = bad_signature

abbrev pub keyed_refusal : (any : Bool) (broken : Bool) → ApprovalError
keyed_refusal any true = malformed
keyed_refusal true false = bad_signature
keyed_refusal false false = unknown_approver

-- The error that the loop over credentials keeps: another credential's is none.
abbrev pub noted : Fido2Error → Option Fido2Error → Option Fido2Error
noted Fido2Error.wrong_credential matched_err = matched_err
noted e matched_err = some e

abbrev pub is_malformed_tpm : TpmError → Bool
is_malformed_tpm TpmError.malformed = true
is_malformed_tpm _ = false

abbrev pub is_malformed_mac : HmacError → Bool
is_malformed_mac HmacError.malformed = true
is_malformed_mac _ = false

abbrev pub is_totp_code : Text → Bool
is_totp_code trimmed = not (is_empty trimmed) && all is_ascii_digit trimmed

module _ (factors : Factors) where
  -- The counter of a token that verified, against the marks.
  unfoldable pub count_fido2 : Text → Fido2Credential → (token : Text) → Ledgers → Answer
  count_fido2 id cred token l = elim (Fido2.token_counter factors.codec factors.webauthn token) [
    | err e ↦ (l, err uncounted)
    | ok counter ↦ elim (observe factors.codec cred.credential_id counter l.fido2_counters) [
      | err e ↦ (l, err (bad_ledger e))
      | ok (file, fresh) ↦ accepted (record l { fido2_counters = file }) id
      | ok (file, regressed) ↦ refused_as (record l { fido2_counters = file }) clone_suspected
    ]
  ]

  unfoldable pub try_fido2 :
      TextMap Fido2Credential → (token challenge : Text) → Option Fido2Error → Ledgers → Answer
  try_fido2 [] token challenge matched_err l = refused_as l (fido2_refusal matched_err)
  try_fido2 ((id, cred) ∷ creds) token challenge matched_err l =
      elim (Fido2.verify factors.codec factors.webauthn cred token challenge) [
        | ok _ ↦ count_fido2 id cred token l
        | err e ↦ try_fido2 creds token challenge (noted e matched_err) l
      ]

  unfoldable pub try_tpm :
      TextMap (List ℕ) → (token challenge : Text) → (any broken : Bool) → Ledgers → Answer
  try_tpm [] token challenge any broken l = refused_as l (keyed_refusal any broken)
  try_tpm ((id, key) ∷ keys) token challenge any broken l =
      elim (Tpm.verify factors.codec factors.webauthn.p256 key token challenge) [
        | ok _ ↦ accepted l id
        | err e ↦ try_tpm keys token challenge true (is_malformed_tpm e || broken) l
      ]

  unfoldable pub try_hmac :
      TextMap (List ℕ) → (token challenge : Text) → (any broken : Bool) → Ledgers → Answer
  try_hmac [] token challenge any broken l = refused_as l (keyed_refusal any broken)
  try_hmac ((id, secret) ∷ secrets) token challenge any broken l =
      elim (HmacFactor.verify factors.codec factors.mac secret token challenge) [
        | ok _ ↦ accepted l id
        | err e ↦ try_hmac secrets token challenge true (is_malformed_mac e || broken) l
      ]

  -- The first secret that the code matches decides.
  unfoldable pub try_totp : TextMap (List ℕ) → (code : Text) → SystemTime → Ledgers → Answer
  try_totp [] code now l = refused_as l unknown_approver
  try_totp ((id, secret) ∷ secrets) code now l =
      elim (Totp.matches factors.hotp secret code now 1) [
        | none ↦ try_totp secrets code now l
        | some counter ↦ elim (consume id counter now l.totp_ledger) [
          | err e ↦ (l, err (bad_ledger e))
          | ok (file, true) ↦ accepted (record l { totp_ledger = file }) id
          | ok (file, false) ↦ refused_as (record l { totp_ledger = file }) already_used
        ]
      ]

  unfoldable pub try_passwords : TextMap Text → (password : Text) → Ledgers → Answer
  try_passwords [] password l = refused_as l unknown_approver
  try_passwords ((id, phc) ∷ hashes) password l =
      elim (Password.verify factors.argon2 phc password) [
        | ok true ↦ accepted l id
        | ok false ↦ try_passwords hashes password l
        | err e ↦ (l, err stored_hash)
      ]

  unfoldable pub verify_proof :
      AuthorityModel → Secrets → ApprovalRequest → (token : Text) → SystemTime → Ledgers → Answer
  verify_proof model secrets request token now l =
      let trimmed = factors.codec.trim token in
      let challenge = challenge_string factors.codec request in
      if starts_with (bytes "-----BEGIN SSH SIGNATURE-----") trimmed
      then (l, ok (verify_ed25519 factors.codec factors.ssh model request token))
      else if starts_with Fido2.token_prefix trimmed
      then try_fido2 (fido2_credentials model) trimmed challenge none l
      else if starts_with Tpm.token_prefix trimmed
      then try_tpm (tpm_credentials model) trimmed challenge false false l
      else if starts_with HmacFactor.token_prefix trimmed
      then try_hmac secrets.hmac_secrets trimmed challenge false false l
      else if is_totp_code trimmed
      then try_totp secrets.totp_secrets trimmed now l
      else try_passwords secrets.password_hashes trimmed l
