-- ===== src/Wire/Token.antt =====
-- The token layer of wire/src/token.rs. The base64 codec and the two signature schemes are other crates:
-- `Crypto` is what the file calls of them.
use lychgate.Prelude.{
  ℕ, Bool, List, [], ◌∷◌, ◌++◌, Option, none, some, Result, ok, ◌>>=◌, ◌>>◌, ok_or, refuse_if, ltb,
  ◌==◌, if◌then◌else◌, not, length,
}
use lychgate.Prelude.Text.{Text, bytes}
use lychgate.Wire.{WireError, bad_prefix, bad_base64, bad_key, bad_signature, version_key_mismatch}
use lychgate.Wire.Payload.{
  Capability, Revocation, decode_capability, decode_revocation, ver_ed25519, ver_p256, sig_len,
  max_payload_len,
}

abbrev pub cap_prefix : Text
cap_prefix = bytes "lgcap."

abbrev pub rvk_prefix : Text
rvk_prefix = bytes "lgrvk."

-- `data_encoding::BASE64URL_NOPAD`, `ed25519_dalek`, `p256` and `sha2`.
pub record Crypto : Type 0 where
  pub decode_len : ℕ → Option ℕ
  pub decode_mut : List ℕ → Option (List ℕ)
  pub ed25519_key : List ℕ → Bool
  pub ed25519_verify : List ℕ → List ℕ → List ℕ → Bool
  pub p256_key : List ℕ → Bool
  pub p256_signature : List ℕ → Bool
  pub sha256 : List ℕ → List ℕ
  pub p256_verify_prehash : List ℕ → List ℕ → List ℕ → Bool

pub data PublicKey : Type 0 where
  ed25519 p256_sec1 : List ℕ → PublicKey

abbrev pub key_ver : PublicKey → ℕ
key_ver (ed25519 pk) = ver_ed25519
key_ver (p256_sec1 sec1) = ver_p256

-- `str::strip_prefix`.
abbrev pub strip_prefix : Text → Text → Option Text
strip_prefix [] s = some s
strip_prefix (p ∷ ps) [] = none
strip_prefix (p ∷ ps) (x ∷ xs) = if p == x then strip_prefix ps xs else none

-- The text before and after the first `c`.
abbrev pub split_once : ℕ → Text → Option (Text × Text)
split_once c [] = none
split_once c (x ∷ xs) =
    let rest = split_once c xs in
    if x == c then some ([], xs) else elim rest [ none ↦ none | some (a, b) ↦ some (x ∷ a, b) ]

module _ (crypto : Crypto) where
  -- The bytes that are decoded into a buffer of `room` bytes.
  unfoldable pub b64_decode : List ℕ → ℕ → Result WireError (List ℕ)
  b64_decode seg room = do
    len ← ok_or (crypto.decode_len (length seg)) bad_base64
    refuse_if (ltb room len) bad_base64
    ok_or (crypto.decode_mut seg) bad_base64

  unfoldable pub verify_sig : PublicKey → List ℕ → List ℕ → Result WireError (Unit {0})
  verify_sig (ed25519 pk) message sig = do
    refuse_if (not (crypto.ed25519_key pk)) bad_key
    refuse_if (not (crypto.ed25519_verify pk message sig)) bad_signature
  verify_sig (p256_sec1 sec1) message sig = do
    refuse_if (not (crypto.p256_key sec1)) bad_key
    refuse_if (not (crypto.p256_signature sig)) bad_signature
    refuse_if (not (crypto.p256_verify_prehash sec1 (crypto.sha256 message) sig)) bad_signature

  -- The payload of a token that opens.
  unfoldable pub open_token : Text → PublicKey → Text → Result WireError (List ℕ)
  open_token prefix key token = do
    rest ← ok_or (strip_prefix prefix token) bad_prefix
    (payload_b64, sig_b64) ← ok_or (split_once 46 rest) bad_base64
    payload ← b64_decode payload_b64 max_payload_len
    sig ← b64_decode sig_b64 sig_len
    refuse_if (not (length sig == sig_len)) bad_signature
    verify_sig key (prefix ++ payload) sig
    ok payload

  unfoldable pub verify_capability : PublicKey → Text → Result WireError Capability
  verify_capability key token = do
    payload ← open_token cap_prefix key token
    cap ← decode_capability payload
    refuse_if (not (cap.ver == key_ver key)) version_key_mismatch
    ok cap

  unfoldable pub verify_revocation : PublicKey → Text → Result WireError Revocation
  verify_revocation key token = do
    payload ← open_token rvk_prefix key token
    rvk ← decode_revocation payload
    refuse_if (not (rvk.ver == key_ver key)) version_key_mismatch
    ok rvk
