-- ===== src/Approval/Fido2/Challenge.antt =====
-- A token of core/src/fido2.rs answers one challenge.
use lychgate.Prelude.{
  ℕ, ◌≡◌, sym, ap, ◌∙◌, not, List, some, ok, refuse_if, arith, >>=-eq-ok, Option-cases, inl, inr,
}
use lychgate.Prelude.Text.{Text, text_eq, text_eq_iff}
use lychgate.Approval.{Codec}
use lychgate.Approval.Canonical.{encode_injective}
use lychgate.Approval.Fido2.{
  Fido2Credential, Fido2Error, wrong_credential, AssertionToken, ClientDataIn, Webauthn, unb64,
  token_of, check_client_data, verify,
}

-- What a verifier that accepts has read from the token.
record Accepts (codec : Codec) (lib : Webauthn) (cred : Fido2Credential) (token challenge : Text)
    : Type 0 where
  tok : AssertionToken
  client : List ℕ
  parsed : ClientDataIn
  read : token_of codec lib token ≡ ok tok
  id : unb64 codec lib tok.credential_id ≡ ok cred.credential_id
  inner : unb64 codec lib tok.client_data_json ≡ ok client
  said : lib.client_from_slice client ≡ some parsed
  same : parsed.challenge ≡ codec.encode challenge

module _ (codec : Codec) (lib : Webauthn) where
  check_client_data_inv :
      (client : List ℕ) (challenge : Text)
      → check_client_data codec lib client challenge ≡ ok tt
      → (cd : ClientDataIn) × (lib.client_from_slice client ≡ some cd)
        × (cd.challenge ≡ codec.encode challenge)
  unfolding check_client_data
  check_client_data_inv client challenge h = elim (Option-cases (lib.client_from_slice client)) [
    | inl e ↦ absurd (ground (arith, e))
    | inr (cd, e) ↦ (cd, e, ground (arith, e, text_eq_iff cd.challenge (codec.encode challenge)))
  ]

  verify_inv :
      (cred : Fido2Credential) (token challenge : Text)
      → verify codec lib cred token challenge ≡ ok tt
      → Accepts codec lib cred token challenge
  unfolding verify
  verify_inv cred token challenge h =
      let (tok, p, h₁) = >>=-eq-ok (token_of codec lib token) _ h in
      let (id, q, h₂) = >>=-eq-ok (unb64 codec lib tok.credential_id) _ h₁ in
      let (_, g, h₃) =
        >>=-eq-ok
          (refuse_if {E = Fido2Error} (not (text_eq id cred.credential_id)) wrong_credential) _
          h₂ in
      let (auth, _, h₄) = >>=-eq-ok (unb64 codec lib tok.authenticator_data) _ h₃ in
      let (client, r, h₅) = >>=-eq-ok (unb64 codec lib tok.client_data_json) _ h₄ in
      let (sig, _, h₆) = >>=-eq-ok (unb64 codec lib tok.signature) _ h₅ in
      let (_, s, _) = >>=-eq-ok (check_client_data codec lib client challenge) _ h₆ in
      let (cd, t, u) = check_client_data_inv client challenge s in
      let same : id ≡ cred.credential_id =
        (text_eq_iff id cred.credential_id).0 (ground (arith, g)) in
      record {
        tok = tok;
        client = client;
        parsed = cd;
        read = p;
        id = q ∙ ap (λ x. ok x) same;
        inner = r;
        said = t;
        same = u;
      }

-- With a base64 codec that decodes what it encodes, a token that verifies for two challenges verifies for the
-- same challenge, and for credentials with the same id.
pub verify_one_challenge :
    (codec : Codec) (lib : Webauthn) (cred cred' : Fido2Credential)
    (token challenge challenge' : Text)
    → ((bs : List ℕ) → codec.decode (codec.encode bs) ≡ some bs)
    → verify codec lib cred token challenge ≡ ok tt
    → verify codec lib cred' token challenge' ≡ ok tt
    → (challenge ≡ challenge') × (cred.credential_id ≡ cred'.credential_id)
verify_one_challenge codec lib cred cred' token challenge challenge' law h h' =
    let a = verify_inv codec lib cred token challenge h in
    let b = verify_inv codec lib cred' token challenge' h' in
    let t : a.tok ≡ b.tok = ground (arith, a.read, b.read) in
    let id : cred.credential_id ≡ cred'.credential_id = ground (arith, a.id, b.id, t) in
    let client : a.client ≡ b.client = ground (arith, a.inner, b.inner, t) in
    let parsed : a.parsed ≡ b.parsed = ground (arith, a.said, b.said, client) in
    (
      encode_injective codec law challenge challenge'
          (sym a.same ∙ ap (λ c. c.challenge) parsed ∙ b.same),
      id,
    )
