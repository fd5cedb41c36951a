-- ===== src/Approval/Fido2/Assertions.antt =====
-- Assertions of core/src/fido2.rs: what the software authenticator builds is accepted.
use lychgate.Prelude.{
  ℕ, suc, ◌^◌, ◌<◌, ◌≡◌, refl, ap, subst, ◌∙◌, true, not, List, [], ◌∷◌, ◌++◌, Option, some, ok,
  ok_or, refuse_if, ◌==◌, length, take, drop, arith, >>=-eq-ok, length-append,
}
use lychgate.Prelude.Text.{Text, bytes, text_eq_refl}
use lychgate.Wire.Token.{strip_prefix}
use lychgate.Wire.Cbor.{be_bytes}
use lychgate.Approval.{Codec}
use lychgate.Approval.Fido2.{
  scheme, key_length, Alg, es256, ed_dsa, Fido2Error, unsupported_key, counter_of, AssertionToken,
  ClientDataOut, Scheme, Webauthn, rp_id, client_data_json, assemble_token, unb64, token_of,
  verify_signature, check_client_data, check_auth_data, verify, token_counter, public_key, sign,
  auth_data_of, build_assertion_with_counter, flag_up,
}

-- Base64 has no white space at its ends, and decodes to what was encoded.
pub record IsCodec (codec : Codec) : Type 0 where
  pub trimmed : (bs : List ℕ) → codec.trim (codec.encode bs) ≡ codec.encode bs
  pub decoded : (bs : List ℕ) → codec.decode (codec.encode bs) ≡ some bs

-- A signature verifies under the public half of the key that made it.
pub record IsScheme (scheme : Scheme) : Type 0 where
  pub key : (private pk : List ℕ) → scheme.public private ≡ some pk → scheme.key pk ≡ true
  pub signature :
      (private message sig : List ℕ)
      → scheme.sign private message ≡ some sig
      → scheme.signature sig ≡ true
  pub verified :
      (private pk message sig : List ℕ)
      → scheme.public private ≡ some pk
      → scheme.sign private message ≡ some sig
      → scheme.verify pk message sig ≡ true

pub record IsWebauthn (lib : Webauthn) : Type 0 where
  pub token : (t : AssertionToken) → lib.token_from_slice (lib.token_to_vec t) ≡ some t
  pub client :
      (c : ClientDataOut)
      → lib.client_from_slice (lib.client_to_vec c)
        ≡ some (record { ty = c.ty; challenge = c.challenge })
  pub sha256_length : (bs : List ℕ) → length (lib.sha256 bs) ≡ 32
  pub p256 : IsScheme lib.p256
  pub ed25519 : IsScheme lib.ed25519
  pub ed25519_length : (private pk : List ℕ) → lib.ed25519.public private ≡ some pk → length pk ≡ 32

strip_prefix-append : (p s : Text) → strip_prefix p (p ++ s) ≡ some s
strip_prefix-append [] s = refl
strip_prefix-append (c ∷ p) s = ground (arith, strip_prefix-append p s)

take-append {ℓ} : {A : Type ℓ} (xs ys : List A) (n : ℕ) → length xs ≡ n → take n (xs ++ ys) ≡ xs
take-append {A = A} xs ys n h = subst (λ n. take n (xs ++ ys) ≡ xs) h (whole xs)
  where
    whole : (xs : List A) → take (length xs) (xs ++ ys) ≡ xs
    whole [] = refl
    whole (x ∷ xs) = ap (λ t. x ∷ t) (whole xs)

drop-append {ℓ} : {A : Type ℓ} (xs ys : List A) (n : ℕ) → length xs ≡ n → drop n (xs ++ ys) ≡ ys
drop-append {A = A} xs ys n h = subst (λ n. drop n (xs ++ ys) ≡ ys) h (whole xs)
  where
    whole : (xs : List A) → drop (length xs) (xs ++ ys) ≡ ys
    whole [] = refl
    whole (x ∷ xs) = whole xs

drop-next {ℓ} :
    {A : Type ℓ} (xs : List A) (y : A) (ys : List A) (n : ℕ)
    → length xs ≡ n
    → drop (suc n) (xs ++ (y ∷ ys)) ≡ ys
drop-next {A = A} xs y ys n h = subst (λ n. drop (suc n) (xs ++ (y ∷ ys)) ≡ ys) h (whole xs)
  where
    whole : (xs : List A) → drop (suc (length xs)) (xs ++ (y ∷ ys)) ≡ ys
    whole [] = refl
    whole (x ∷ xs) = whole xs

module _ (codec : Codec) (lib : Webauthn) (c : IsCodec codec) (w : IsWebauthn lib) where
  unb64-encode : (bs : List ℕ) → unb64 codec lib (codec.encode bs) ≡ ok bs
  unfolding unb64
  unb64-encode bs = ground (arith, c.trimmed bs, c.decoded bs)

  -- The token that is assembled is read back field by field.
  token_of-assemble_token :
      (id auth_data client_data signature : List ℕ)
      → token_of codec lib (assemble_token codec lib id auth_data client_data signature)
        ≡ ok (record {
          credential_id = codec.encode id;
          authenticator_data = codec.encode auth_data;
          client_data_json = codec.encode client_data;
          signature = codec.encode signature;
        })
  unfolding token_of assemble_token
  token_of-assemble_token id auth_data client_data signature =
      let t : AssertionToken = record {
        credential_id = codec.encode id;
        authenticator_data = codec.encode auth_data;
        client_data_json = codec.encode client_data;
        signature = codec.encode signature;
      } in
      rw (unb64-encode (lib.token_to_vec t)) (ground (arith, w.token t))

  check_client_data-client_data_json :
      (challenge : Text)
      → check_client_data codec lib (client_data_json codec lib challenge) challenge ≡ ok tt
  unfolding check_client_data client_data_json
  check_client_data-client_data_json challenge =
      rw
        (w.client (record {
          ty = bytes "webauthn.get";
          challenge = codec.encode challenge;
          origin = rp_id;
        }))
        (ground (arith, text_eq_refl (codec.encode challenge), text_eq_refl (bytes "webauthn.get")))

  auth_data_length : (counter : ℕ) → length (auth_data_of codec lib counter) ≡ 37
  unfolding be_bytes
  auth_data_length counter =
      length-append (lib.sha256 rp_id) (flag_up ∷ be_bytes 4 counter)
      ∙ omega (arith, w.sha256_length rp_id)

  check_auth_data-auth_data_of :
      (counter : ℕ) → check_auth_data codec lib (auth_data_of codec lib counter) ≡ ok tt
  unfolding check_auth_data
  check_auth_data-auth_data_of counter = rw (auth_data_length counter) (
      rw (take-append (lib.sha256 rp_id) (flag_up ∷ be_bytes 4 counter) 32 (w.sha256_length rp_id))
        (rw
          (drop-append (lib.sha256 rp_id) (flag_up ∷ be_bytes 4 counter) 32 (w.sha256_length rp_id))
          (rw (text_eq_refl (lib.sha256 rp_id)) refl)))

  -- The checks of a signature, by the scheme.
  checked :
      (s : Scheme) (private pk signed sig : List ℕ)
      → IsScheme s
      → ok_or {E = Fido2Error} (s.public private) unsupported_key ≡ ok pk
      → ok_or {E = Fido2Error} (s.sign private signed) unsupported_key ≡ ok sig
      → (s.key pk ≡ true) × (s.signature sig ≡ true) × (s.verify pk signed sig ≡ true)
  checked s private pk signed sig l h k =
      let p = some_of (s.public private) pk h in
      let q = some_of (s.sign private signed) sig k in
      (l.key private pk p, l.signature private signed sig q, l.verified private pk signed sig p q)
    where
      some_of :
          (o : Option (List ℕ)) (x : List ℕ)
          → ok_or {E = Fido2Error} o unsupported_key ≡ ok x
          → o ≡ some x
      some_of o x h = ground arith

  verify_signature-sign :
      (alg : Alg) (private pk id signed sig : List ℕ)
      → public_key codec lib alg private ≡ ok pk
      → sign codec lib alg private signed ≡ ok sig
      → verify_signature codec lib
          (record { alg = alg; credential_id = id; public_key = pk })
          signed
          sig
        ≡ ok tt
  unfolding public_key sign verify_signature scheme key_length
  verify_signature-sign es256 private pk id signed sig h k =
      let (a, b, c) = checked lib.p256 private pk signed sig w.p256 h k in rw a (rw b (rw c refl))
  verify_signature-sign ed_dsa private pk id signed sig h k =
      let (_, _, h') =
        >>=-eq-ok (refuse_if {E = Fido2Error} (not (length private == 32)) unsupported_key)
          (λ _. ok_or (lib.ed25519.public private) unsupported_key) h in
      let (_, _, k') =
        >>=-eq-ok (refuse_if {E = Fido2Error} (not (length private == 32)) unsupported_key)
          (λ _. ok_or (lib.ed25519.sign private signed) unsupported_key) k in
      let (a, b, c) = checked lib.ed25519 private pk signed sig w.ed25519 h' k' in
      let l : length pk ≡ 32 = w.ed25519_length private pk (ground (arith, h')) in
      rw l (rw a (rw b (rw c refl)))

  -- An assertion that the key builds for a challenge verifies for it, whatever its counter.
  pub verify-build_assertion_with_counter :
      (alg : Alg) (private pk id : List ℕ) (challenge token : Text) (counter : ℕ)
      → public_key codec lib alg private ≡ ok pk
      → build_assertion_with_counter codec lib alg private id challenge counter ≡ ok token
      → verify codec lib (record { alg = alg; credential_id = id; public_key = pk }) token challenge
        ≡ ok tt
  unfolding build_assertion_with_counter
  verify-build_assertion_with_counter alg private pk id challenge token counter h k =
      let client = client_data_json codec lib challenge in
      let auth = auth_data_of codec lib counter in
      let (sig, p, q) =
        >>=-eq-ok (sign codec lib alg private (auth ++ lib.sha256 client))
          (λ s. ok (assemble_token codec lib id auth client s)) k in
      let e : assemble_token codec lib id auth client sig ≡ token = ground (arith, q) in
      subst
        (λ t.
          verify codec lib (record { alg = alg; credential_id = id; public_key = pk }) t challenge
          ≡ ok tt)
        e
        (accepted alg pk id challenge auth client sig (check_auth_data-auth_data_of counter)
          (check_client_data-client_data_json challenge)
          (verify_signature-sign alg private pk id (auth ++ lib.sha256 client) sig h p))
    where
      accepted :
          (alg : Alg) (pk id : List ℕ) (challenge : Text) (auth client sig : List ℕ)
          → check_auth_data codec lib auth ≡ ok tt
          → check_client_data codec lib client challenge ≡ ok tt
          → verify_signature codec lib
              (record { alg = alg; credential_id = id; public_key = pk })
              (auth ++ lib.sha256 client)
              sig
            ≡ ok tt
          → verify codec lib
              (record { alg = alg; credential_id = id; public_key = pk })
              (assemble_token codec lib id auth client sig)
              challenge
            ≡ ok tt
      accepted alg pk id challenge auth client sig a b c =
          unfold verify in
          rw (token_of-assemble_token id auth client sig) (
            rw (unb64-encode id) (
              rw (text_eq_refl id) (
                rw (unb64-encode auth)
                  (rw (unb64-encode client) (rw (unb64-encode sig) (rw b (rw a c)))))))

  counter_of-be_bytes : (v : ℕ) → v < 2 ^ 32 → counter_of codec lib (be_bytes 4 v) ≡ ok v
  unfolding counter_of be_bytes
  counter_of-be_bytes v l = ap (λ x. ok x) (omega (arith, l))

  -- The counter read from an assertion is the one it was built with, when that fits 32 bits.
  pub token_counter-build_assertion_with_counter :
      (alg : Alg) (private id : List ℕ) (challenge token : Text) (counter : ℕ)
      → counter < 2 ^ 32
      → build_assertion_with_counter codec lib alg private id challenge counter ≡ ok token
      → token_counter codec lib token ≡ ok counter
  unfolding build_assertion_with_counter
  token_counter-build_assertion_with_counter alg private id challenge token counter l k =
      let client = client_data_json codec lib challenge in
      let auth = auth_data_of codec lib counter in
      let (sig, p, q) =
        >>=-eq-ok (sign codec lib alg private (auth ++ lib.sha256 client))
          (λ s. ok (assemble_token codec lib id auth client s)) k in
      let e : assemble_token codec lib id auth client sig ≡ token = ground (arith, q) in
      subst (λ t. token_counter codec lib t ≡ ok counter) e (counted id client sig counter l)
    where
      counted :
          (id client sig : List ℕ) (counter : ℕ)
          → counter < 2 ^ 32
          → token_counter codec lib
              (assemble_token codec lib id (auth_data_of codec lib counter) client sig)
            ≡ ok counter
      counted id client sig counter l =
          unfold token_counter in
          rw (token_of-assemble_token id (auth_data_of codec lib counter) client sig) (
            rw (unb64-encode (auth_data_of codec lib counter)) (
              rw (auth_data_length counter) (
                rw
                  (drop-next (lib.sha256 rp_id) flag_up (be_bytes 4 counter) 32
                    (w.sha256_length rp_id))
                  (counter_of-be_bytes counter l))))
