-- ===== src/Approval/Tests.antt =====
-- Factors and ledgers of core/src and daemon/src at concrete values.
use lychgate.Prelude.{◌≡◌, refl, ℕ, ◌+◌, true, false, List, [], ◌∷◌, ◌++◌, some, ok, arith}
use lychgate.Prelude.Text.{bytes, text_compare}
use lychgate.Prelude.TextMap.{get, insert}
use lychgate.Clock.{SystemTime, unix_epoch, duration_since}
use lychgate.Grant.{ApprovalRequest}
use lychgate.Wire.Cbor.{be_bytes}
use lychgate.Approval.{Codec, epoch_secs, canonical_bytes, challenge_string}
use lychgate.Approval.Canonical.{IsRequest, SameRequest, challenge_string_injective}
use lychgate.Approval.Fido2.{
  es256, Fido2Credential, Scheme, Webauthn, verify, token_of, unb64, check_client_data,
  check_auth_data, verify_signature, scheme, key_length,
}
use lychgate.Approval.Fido2.Challenge.{verify_one_challenge}
use lychgate.Approval.Totp.{
  Hotp, matches, scan, code_at, truncated, zero_padded, counter_at, saturating_add,
}
use lychgate.Approval.Ledgers.{
  File, not_found, written, Entry, consume, consume_entry, read, observe, observe_mark, regressed,
}
use lychgate.Approval.Ledgers.Replay.{consume_all, consume-matches}
use lychgate.Approval.Ledgers.Counters.{observe_all, observe_regressed}

-- A codec that keeps the bytes.
abbrev plain : Codec
plain = record { trim = λ t. t; encode = λ bs. bs; decode = λ t. some t }

abbrev zeros : List ℕ
zeros =
    0 ∷ 0 ∷ 0 ∷ 0 ∷ 0 ∷ 0 ∷ 0 ∷ 0 ∷ 0 ∷ 0 ∷ 0 ∷ 0 ∷ 0 ∷ 0 ∷ 0 ∷ 0 ∷ 0 ∷ 0 ∷ 0 ∷ 0 ∷ 0 ∷ 0 ∷ 0 ∷ 0
    ∷ 0 ∷ 0 ∷ 0 ∷ 0 ∷ 0 ∷ 0 ∷ 0 ∷ 0 ∷ []

abbrev asked_at : SystemTime → ApprovalRequest
asked_at t = record { nonce = zeros; host = bytes "a"; ttl_secs = 60; requested_at = t }

asked_at-IsRequest : (t : SystemTime) → epoch_secs t ≡ 0 → IsRequest (asked_at t)
asked_at-IsRequest t e = record {
  host_fits = ground arith;
  ttl_fits = ground arith;
  time_fits = ground (arith, e);
  nonce_length = refl;
}

challenge_string_injective_example : SameRequest (asked_at unix_epoch) (asked_at (unix_epoch + 1))
unfolding epoch_secs duration_since challenge_string canonical_bytes be_bytes
challenge_string_injective_example =
    challenge_string_injective plain (asked_at unix_epoch) (asked_at (unix_epoch + 1)) (λ bs. refl)
      (asked_at-IsRequest unix_epoch refl) (asked_at-IsRequest (unix_epoch + 1) refl) refl

abbrev trusting : Scheme
trusting = record {
  key = λ k. true;
  signature = λ s. true;
  verify = λ k m s. true;
  public = λ k. some k;
  sign = λ k m. some [];
}

abbrev reading : Webauthn
reading = record {
  token_to_vec = λ t. [];
  token_from_slice = λ bs. some (record {
    credential_id = bytes "id";
    authenticator_data = zeros ++ (1 ∷ 0 ∷ 0 ∷ 0 ∷ 0 ∷ []);
    client_data_json = [];
    signature = [];
  });
  client_to_vec = λ c. [];
  client_from_slice = λ bs. some (record { ty = bytes "webauthn.get"; challenge = bytes "c" });
  sha256 = λ bs. zeros;
  p256 = trusting;
  ed25519 = trusting;
}

abbrev credential : Fido2Credential
credential = record { alg = es256; credential_id = bytes "id"; public_key = [] }

verify_one_challenge_example :
    (bytes "c" ≡ bytes "c") × (credential.credential_id ≡ credential.credential_id)
unfolding verify token_of unb64 check_client_data check_auth_data verify_signature scheme key_length
    text_compare
verify_one_challenge_example =
    verify_one_challenge plain reading credential credential (bytes "lgfido2.x") (bytes "c")
      (bytes "c") (λ bs. refl) refl refl

-- A hash of zeros: every code is 000000.
abbrev zero_hotp : Hotp
zero_hotp = record {
  drop_whitespace = λ t. t;
  trim = λ t. t;
  base32 = λ t. some t;
  hmac_sha1 = λ k m i. 0;
}

abbrev spent : File (List Entry)
spent = written 1 (record { authenticator = bytes "t"; counter = 1; at = 0 } ∷ [])

consume-matches_example :
    (left : File (List Entry)) × (consume (bytes "t") 1 unix_epoch spent ≡ ok (left, false))
unfolding matches scan code_at truncated zero_padded counter_at saturating_add epoch_secs
    duration_since text_compare consume consume_entry read consume_all
consume-matches_example =
    consume-matches zero_hotp [] (bytes "000000") (bytes "000000") (bytes "t") unix_epoch unix_epoch
      1 1 not_found spent spent [] (ground arith) refl refl tt refl refl

observe_regressed_example :
    observe plain (bytes "id") 4 (written 1 ((bytes "id", 5) ∷ []))
    ≡ ok (written 1 ((bytes "id", 5) ∷ []), regressed)
unfolding observe observe_mark read observe_all get insert
observe_regressed_example =
    observe_regressed plain (bytes "id") 5 4 not_found (written 1 ((bytes "id", 5) ∷ []))
      (written 1 ((bytes "id", 5) ∷ [])) [] (ground arith) refl refl (ground arith)
