-- ===== src/Wire/Payload/RoundTrip.antt =====
-- A payload of wire/src/token.rs has exactly one encoding.
use lychgate.Prelude.{ℕ, ◌≡◌, ap, ◌∙◌, sym, List, ok, ◌>>=◌, All}
use lychgate.Wire.Cbor.Bytes.{IsByte}
use lychgate.Wire.Payload.{
  Capability, Revocation, IsCapability, IsRevocation, encode_capability, encode_revocation,
  decode_capability, decode_revocation, max_payload_len,
}
use lychgate.Wire.Payload.Layout.{encode_capability_fits, encode_revocation_fits}
use lychgate.Wire.Payload.Decode.{
  decode_capability-payload, decode_revocation-payload, decode_capability_inv,
  decode_revocation_inv,
}
use lychgate.Wire.Payload.Size.{capability_payload-length, revocation_payload-length}

-- A capability whose fields are in their ranges encodes into the buffer of MAX_PAYLOAD_LEN bytes, and its
-- payload decodes to it.
pub encode_capability-decode :
    (c : Capability)
    → IsCapability c
    → (encode_capability c max_payload_len >>= decode_capability) ≡ ok c
encode_capability-decode c i =
    rw (encode_capability_fits c max_payload_len (capability_payload-length c i))
      (decode_capability-payload c i)

-- A revocation whose fields are in their ranges encodes into the buffer of MAX_PAYLOAD_LEN bytes, and its
-- payload decodes to it.
pub encode_revocation-decode :
    (r : Revocation)
    → IsRevocation r
    → (encode_revocation r max_payload_len >>= decode_revocation) ≡ ok r
encode_revocation-decode r i =
    rw (encode_revocation_fits r max_payload_len (revocation_payload-length r i))
      (decode_revocation-payload r i)

-- The encoding is canonical: bytes that decode to a capability are the bytes that encoding it gives, and its
-- fields are in their ranges.
pub decode_capability-encode :
    (bs : List ℕ) (c : Capability)
    → All IsByte bs
    → decode_capability bs ≡ ok c
    → IsCapability c × (encode_capability c max_payload_len ≡ ok bs)
decode_capability-encode bs c a h =
    let (i, e) = decode_capability_inv bs c h a in
    (
      i,
      encode_capability_fits c max_payload_len (capability_payload-length c i)
          ∙ ap (λ t. ok t) (sym e),
    )

-- The encoding of a revocation is canonical: bytes that decode to a revocation are the bytes that encoding it
-- gives, and its fields are in their ranges.
pub decode_revocation-encode :
    (bs : List ℕ) (r : Revocation)
    → All IsByte bs
    → decode_revocation bs ≡ ok r
    → IsRevocation r × (encode_revocation r max_payload_len ≡ ok bs)
decode_revocation-encode bs r a h =
    let (i, e) = decode_revocation_inv bs r h a in
    (
      i,
      encode_revocation_fits r max_payload_len (revocation_payload-length r i)
          ∙ ap (λ t. ok t) (sym e),
    )
