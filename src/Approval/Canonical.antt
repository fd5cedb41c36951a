-- ===== src/Approval/Canonical.antt =====
-- The bytes that core/src/approval.rs has signed name one request.
use lychgate.Prelude.{
  ℕ, ◌%◌, ◌^◌, ◌<◌, ◌≡◌, refl, ap, ◌∙◌, sym, List, [], ◌∷◌, ◌++◌, some, length, arith,
}
use lychgate.Prelude.Text.{bytes}
use lychgate.Grant.{ApprovalRequest}
use lychgate.Wire.Cbor.{be_bytes, read_be}
use lychgate.Wire.Cbor.Bytes.{read_be-be_bytes}
use lychgate.Approval.{Codec, canonical_bytes, challenge_string, epoch_secs, domain}

-- What the types of the fields bound, and for the host, whose type bounds nothing, what the field of its length
-- holds.
pub record IsRequest (r : ApprovalRequest) : Type 0 where
  pub host_fits : length r.host < 2 ^ 32
  pub ttl_fits : r.ttl_secs < 2 ^ 64
  pub time_fits : epoch_secs r.requested_at < 2 ^ 64
  pub nonce_length : length r.nonce ≡ 32

pub encode_injective :
    (codec : Codec)
    → ((bs : List ℕ) → codec.decode (codec.encode bs) ≡ some bs)
    → (xs ys : List ℕ) → codec.encode xs ≡ codec.encode ys
    → xs ≡ ys
encode_injective codec law xs ys h =
    let e : some xs ≡ some ys = sym (law xs) ∙ ap codec.decode h ∙ law ys in ground (arith, e)

-- Two requests that agree on all that is signed: the instant counts in seconds.
pub record SameRequest (a b : ApprovalRequest) : Type 0 where
  pub host : a.host ≡ b.host
  pub ttl_secs : a.ttl_secs ≡ b.ttl_secs
  pub requested_at : epoch_secs a.requested_at ≡ epoch_secs b.requested_at
  pub nonce : a.nonce ≡ b.nonce

append_cancel {ℓ} : {A : Type ℓ} (p : List A) (xs ys : List A) → p ++ xs ≡ p ++ ys → xs ≡ ys
append_cancel [] xs ys h = h
append_cancel (x ∷ p) xs ys h = append_cancel p xs ys (ground arith)

append_split {ℓ} :
    {A : Type ℓ} (p q xs ys : List A)
    → length p ≡ length q
    → p ++ xs ≡ q ++ ys
    → (p ≡ q) × (xs ≡ ys)
append_split [] [] xs ys l h = (refl, h)
append_split [] (y ∷ q) xs ys l h = absurd (omega (arith, l))
append_split (x ∷ p) [] xs ys l h = absurd (omega (arith, l))
append_split (x ∷ p) (y ∷ q) xs ys l h =
    let (e, r) = append_split p q xs ys (omega (arith, l)) (let e : p ++ xs ≡ q ++ ys = cc in e) in
    (let e' : x ≡ y = cc in cc, r)

-- A number and what follows it are read back.
be_bytes_split :
    (n v w : ℕ) (xs ys : List ℕ)
    → v < 256 ^ n
    → w < 256 ^ n
    → be_bytes n v ++ xs ≡ be_bytes n w ++ ys
    → (v ≡ w) × (xs ≡ ys)
be_bytes_split n v w xs ys h k e =
    let p = read_be-be_bytes n 0 v xs h in
    let q = read_be-be_bytes n 0 w ys k in
    let r : read_be n 0 (be_bytes n v ++ xs) ≡ read_be n 0 (be_bytes n w ++ ys) =
      ap (read_be n 0) e in
    (ground (arith, p, q, r), ground (arith, p, q, r))

-- Two requests within their bounds that have the same canonical bytes are the same request.
pub canonical_bytes_injective :
    (a b : ApprovalRequest)
    → IsRequest a
    → IsRequest b
    → canonical_bytes a ≡ canonical_bytes b
    → SameRequest a b
unfolding canonical_bytes
canonical_bytes_injective a b va vb h =
    let (host_length, h₁) =
      be_bytes_split 4 (length a.host % 2 ^ 32) (length b.host % 2 ^ 32) _ _ (ground arith)
        (ground arith) (append_cancel domain _ _ h) in
    let (host, h₂) =
      append_split a.host b.host _ _ (omega (arith, host_length, va.host_fits, vb.host_fits)) h₁ in
    let (ttl, h₃) =
      be_bytes_split 8 a.ttl_secs b.ttl_secs _ _ (omega (arith, va.ttl_fits))
        (omega (arith, vb.ttl_fits)) h₂ in
    let (time, h₄) =
      be_bytes_split 8 (epoch_secs a.requested_at) (epoch_secs b.requested_at) _ _
        (omega (arith, va.time_fits)) (omega (arith, vb.time_fits)) h₃ in
    let (_, nonce) =
      be_bytes_split 4 (length a.nonce % 2 ^ 32) (length b.nonce % 2 ^ 32) _ _ (ground arith)
        (ground arith) h₄ in
    record { host = host; ttl_secs = ttl; requested_at = time; nonce = nonce }

-- With a base64 codec that decodes what it encodes, two requests whose hosts are shorter than 2^32 bytes and
-- whose other fields are within the ranges of their types, and that have the same challenge, agree on the
-- host, the ttl, the nonce and the second of the request.
pub challenge_string_injective :
    (codec : Codec) (a b : ApprovalRequest)
    → ((bs : List ℕ) → codec.decode (codec.encode bs) ≡ some bs)
    → IsRequest a
    → IsRequest b
    → challenge_string codec a ≡ challenge_string codec b
    → SameRequest a b
unfolding challenge_string
challenge_string_injective codec a b law va vb h = canonical_bytes_injective a b va vb (
    encode_injective codec law (canonical_bytes a) (canonical_bytes b)
      (append_cancel (bytes "lg1.req.") _ _ h))
