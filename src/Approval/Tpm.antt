-- ===== src/Approval/Tpm.antt =====
-- core/src/tpm.rs: tokens signed by a key that a TPM holds. An error's message is left out.
use lychgate.Prelude.{
  ◌≡◌, subst, true, not, List, ◌++◌, some, Result, ok, ◌>>=◌, ◌>>◌, ok_or, refuse_if, arith, refl,
  Option-cases, inl, inr, ℕ,
}
use lychgate.Prelude.Text.{Text, bytes}
use lychgate.Wire.Token.{strip_prefix}
use lychgate.Approval.{Codec}
use lychgate.Approval.Fido2.{Scheme}

abbrev pub token_prefix : Text
token_prefix = bytes "lgtpm."

pub data TpmError : Type 0 where
  malformed bad_signature unsupported_key : TpmError

module _ (codec : Codec) (p256 : Scheme) where
  unfoldable pub verify :
      (public_key : List ℕ) (token challenge : Text) → Result TpmError (Unit {0})
  verify public_key token challenge = do
    payload ← ok_or (strip_prefix token_prefix token) malformed
    der ← ok_or (codec.decode (codec.trim payload)) malformed
    refuse_if (not (p256.key public_key)) unsupported_key
    refuse_if (not (p256.signature der)) malformed
    refuse_if (not (p256.verify public_key challenge der)) bad_signature

  unfoldable pub check_public_key : List ℕ → Result TpmError (Unit {0})
  check_public_key public_key = refuse_if (not (p256.key public_key)) unsupported_key

  unfoldable pub public_key : List ℕ → Result TpmError (List ℕ)
  public_key private_key = ok_or (p256.public private_key) unsupported_key

  unfoldable pub assemble_token : List ℕ → Text
  assemble_token signature_der = token_prefix ++ codec.encode signature_der

  unfoldable pub sign : (private_key : List ℕ) (challenge : Text) → Result TpmError Text
  unfolding assemble_token
  sign private_key challenge = do
    sig ← ok_or (p256.sign private_key challenge) unsupported_key
    ok (assemble_token sig)

-- A token that the key signs for a challenge verifies for it, when the codec decodes what it encodes and the
-- signature scheme accepts its own signatures.
pub verify-sign :
    (codec : Codec) (p256 : Scheme) (private pk : List ℕ) (challenge token : Text)
    → ((bs : List ℕ) → codec.decode (codec.trim (codec.encode bs)) ≡ some bs)
    → ((sig : List ℕ)
        → p256.sign private challenge ≡ some sig
        → (p256.key pk ≡ true)
          × (p256.signature sig ≡ true)
          × (p256.verify pk challenge sig ≡ true))
    → sign codec p256 private challenge ≡ ok token
    → verify codec p256 pk token challenge ≡ ok tt
unfolding sign verify assemble_token
verify-sign codec p256 private pk challenge token law signed h =
    elim (Option-cases (p256.sign private challenge)) [
      | inl e ↦ absurd (ground (arith, e))
      | inr (sig, e) ↦
          let (a, b, c) = signed sig e in
          let t : token_prefix ++ codec.encode sig ≡ token = ground (arith, h, e) in
          subst (λ t. verify codec p256 pk t challenge ≡ ok tt) t
            (rw (law sig) (rw a (rw b (rw c refl))))
    ]
