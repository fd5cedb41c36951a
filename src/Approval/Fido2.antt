-- ===== src/Approval/Fido2.antt =====
-- core/src/fido2.rs: the credential, the assertion token, its verifier and the software authenticator.
-- `Webauthn` is what the file calls of `serde_json`, `sha2`, `p256` and `ed25519_dalek`; an error's message is
-- left out.
pub mod Assertions
pub mod Challenge
use Prim.Native.Nat.{bit_and}
use lychgate.Prelude.{
  ℕ, ◌+◌, ◌*◌, Bool, true, false, not, List, [], ◌∷◌, ◌++◌, Option, none, some, Result, ok, err,
  ◌>>=◌, ◌>>◌, ok_or, refuse_if, ltb, ◌==◌, if◌then◌else◌, length, take, drop,
}
use lychgate.Prelude.Text.{Text, bytes, text_eq}
use lychgate.Wire.Token.{strip_prefix}
use lychgate.Wire.Cbor.{be_bytes}
use lychgate.Approval.{Codec}

abbrev pub rp_id : Text
rp_id = bytes "lychgate"

abbrev pub token_prefix : Text
token_prefix = bytes "lgfido2."

abbrev pub flag_up : ℕ
flag_up = 0x01

pub data Alg : Type 0 where
  es256 ed_dsa : Alg

pub record Fido2Credential : Type 0 where
  pub alg : Alg
  pub credential_id : List ℕ
  pub public_key : List ℕ

pub data Fido2Error : Type 0 where
  malformed wrong_credential challenge_mismatch wrong_relying_party : Fido2Error
  user_not_present bad_signature unsupported_key : Fido2Error

pub record AssertionToken : Type 0 where
  pub credential_id : Text
  pub authenticator_data : Text
  pub client_data_json : Text
  pub signature : Text

pub record ClientDataIn : Type 0 where
  pub ty : Text
  pub challenge : Text

pub record ClientDataOut : Type 0 where
  pub ty : Text
  pub challenge : Text
  pub origin : Text

-- A signature scheme: which bytes are a key and a signature, and the operations on them.
pub record Scheme : Type 0 where
  pub key : List ℕ → Bool
  pub signature : List ℕ → Bool
  pub verify : (key message signature : List ℕ) → Bool
  pub public : List ℕ → Option (List ℕ)
  pub sign : (private message : List ℕ) → Option (List ℕ)

pub record Webauthn : Type 0 where
  pub token_to_vec : AssertionToken → List ℕ
  pub token_from_slice : List ℕ → Option AssertionToken
  pub client_to_vec : ClientDataOut → List ℕ
  pub client_from_slice : List ℕ → Option ClientDataIn
  pub sha256 : List ℕ → List ℕ
  pub p256 : Scheme
  pub ed25519 : Scheme

module _ (codec : Codec) (lib : Webauthn) where
  unfoldable pub client_data_json : Text → List ℕ
  client_data_json challenge =
      lib.client_to_vec
        (record { ty = bytes "webauthn.get"; challenge = codec.encode challenge; origin = rp_id })

  unfoldable pub assemble_token : (id auth_data client_data signature : List ℕ) → Text
  assemble_token id auth_data client_data signature =
      token_prefix
      ++ codec.encode (
          lib.token_to_vec (record {
            credential_id = codec.encode id;
            authenticator_data = codec.encode auth_data;
            client_data_json = codec.encode client_data;
            signature = codec.encode signature;
          }))

  unfoldable pub unb64 : Text → Result Fido2Error (List ℕ)
  unb64 s = ok_or (codec.decode (codec.trim s)) malformed

  -- The first lines of `verify` and of `token_counter`.
  unfoldable pub token_of : Text → Result Fido2Error AssertionToken
  token_of token = do
    payload ← ok_or (strip_prefix token_prefix token) malformed
    raw ← unb64 payload
    ok_or (lib.token_from_slice raw) malformed

  -- The scheme of an algorithm, with the length that the code checks first.
  unfoldable pub scheme : Alg → Scheme
  scheme es256 = lib.p256
  scheme ed_dsa = lib.ed25519

  unfoldable pub key_length : Alg → List ℕ → Bool
  key_length es256 key = true
  key_length ed_dsa key = length key == 32

  unfoldable pub verify_signature : Fido2Credential → List ℕ → List ℕ → Result Fido2Error (Unit {0})
  unfolding scheme key_length
  verify_signature cred signed signature = do
    refuse_if (not (key_length cred.alg cred.public_key)) unsupported_key
    refuse_if (not ((scheme cred.alg).key cred.public_key)) unsupported_key
    refuse_if (not ((scheme cred.alg).signature signature)) malformed
    refuse_if (not ((scheme cred.alg).verify cred.public_key signed signature)) bad_signature

  -- What `verify` asks of the client data and of the authenticator data.
  unfoldable pub check_client_data : List ℕ → Text → Result Fido2Error (Unit {0})
  check_client_data client_data challenge = do
    cd ← ok_or (lib.client_from_slice client_data) malformed
    refuse_if (not (text_eq cd.ty (bytes "webauthn.get"))) malformed
    refuse_if (not (text_eq cd.challenge (codec.encode challenge))) challenge_mismatch

  unfoldable pub check_auth_data : List ℕ → Result Fido2Error (Unit {0})
  check_auth_data auth_data = do
    refuse_if (ltb (length auth_data) 37) malformed
    refuse_if (not (text_eq (take 32 auth_data) (lib.sha256 rp_id))) wrong_relying_party
    elim (drop 32 auth_data) [
      | [] ↦ err malformed
      | flags ∷ _ ↦ refuse_if (bit_and flags flag_up == 0) user_not_present
    ]

  unfoldable pub verify : Fido2Credential → (token challenge : Text) → Result Fido2Error (Unit {0})
  verify cred token challenge = do
    tok ← token_of token
    id ← unb64 tok.credential_id
    refuse_if (not (text_eq id cred.credential_id)) wrong_credential
    auth_data ← unb64 tok.authenticator_data
    client_data ← unb64 tok.client_data_json
    signature ← unb64 tok.signature
    check_client_data client_data challenge
    check_auth_data auth_data
    verify_signature cred (auth_data ++ lib.sha256 client_data) signature

  unfoldable pub check_public_key : Alg → List ℕ → Result Fido2Error (Unit {0})
  unfolding scheme key_length
  check_public_key alg public_key =
      refuse_if (not (key_length alg public_key)) unsupported_key
      >> refuse_if (not ((scheme alg).key public_key)) unsupported_key

  -- `u32::from_be_bytes` of the four bytes after the flags.
  unfoldable pub counter_of : List ℕ → Result Fido2Error ℕ
  counter_of (a ∷ b ∷ c ∷ d ∷ _) = ok (((a * 256 + b) * 256 + c) * 256 + d)
  counter_of _ = err malformed

  unfoldable pub token_counter : Text → Result Fido2Error ℕ
  unfolding counter_of
  token_counter token = do
    tok ← token_of token
    auth_data ← unb64 tok.authenticator_data
    refuse_if (ltb (length auth_data) 37) malformed
    counter_of (drop 33 auth_data)

  unfoldable pub public_key : Alg → List ℕ → Result Fido2Error (List ℕ)
  unfolding scheme key_length
  public_key alg private_key =
      refuse_if (not (key_length alg private_key)) unsupported_key
      >> ok_or ((scheme alg).public private_key) unsupported_key

  unfoldable pub sign : Alg → List ℕ → List ℕ → Result Fido2Error (List ℕ)
  unfolding scheme key_length
  sign alg private_key msg =
      refuse_if (not (key_length alg private_key)) unsupported_key
      >> ok_or ((scheme alg).sign private_key msg) unsupported_key

  abbrev pub auth_data_of : ℕ → List ℕ
  auth_data_of counter = lib.sha256 rp_id ++ (flag_up ∷ be_bytes 4 counter)

  unfoldable pub build_assertion_with_counter :
      Alg
      → (private_key credential_id : List ℕ) (challenge : Text) (counter : ℕ)
      → Result Fido2Error Text
  build_assertion_with_counter alg private_key credential_id challenge counter = do
    let client_data = client_data_json challenge
    signature ← sign alg private_key (auth_data_of counter ++ lib.sha256 client_data)
    ok (assemble_token credential_id (auth_data_of counter) client_data signature)
