-- ===== src/Wire/Payload/Size.antt =====
-- A payload of wire/src/token.rs fits the buffer that the crate reserves.
use lychgate.Prelude.{ℕ, suc, ◌<◌, ◌≤◌, ◌^◌, ◌≡◌, List, ◌++◌, arith, length, length-append, ◌⊎◌}
use lychgate.Wire.Cbor.{be_bytes}
use lychgate.Wire.Cbor.Head.{head_bytes}
use lychgate.Wire.Cbor.Entries.{uint_item, bstr_item}
use lychgate.Wire.Payload.{
  Capability, Revocation, IsCapability, IsRevocation, max_payload_len, ver_ed25519, ver_p256,
}
use lychgate.Wire.Payload.Layout.{capability_payload, revocation_payload}

-- The sizes of the items, and so of the payloads.
head_bytes-length_small : (m v : ℕ) → v < 24 → length (head_bytes m v) ≡ 1
unfolding head_bytes
head_bytes-length_small m v h = ground arith

head_bytes-length_u32 : (m v : ℕ) → v < 2 ^ 32 → length (head_bytes m v) ≤ 5
unfolding head_bytes be_bytes
head_bytes-length_u32 m v h = ground arith

head_bytes-length : (m v : ℕ) → length (head_bytes m v) ≤ 9
unfolding head_bytes be_bytes
head_bytes-length m v = ground arith

uint_item-length :
    (key v n : ℕ) → key < 24 → length (head_bytes 0 v) ≤ n → length (uint_item key v) ≤ suc n
unfolding uint_item
uint_item-length key v n k h =
    omega
      (arith, length-append (head_bytes 0 key) (head_bytes 0 v), head_bytes-length_small 0 key k)

bstr_item-length :
    (key : ℕ) (bs : List ℕ) → key < 24 → length bs ≡ 16 → length (bstr_item key bs) ≡ 18
unfolding bstr_item
bstr_item-length key bs k l = omega (
  arith,
  length-append (head_bytes 0 key) (head_bytes 2 (length bs) ++ bs),
  length-append (head_bytes 2 (length bs)) bs,
  head_bytes-length_small 0 key k,
  head_bytes-length_small 2 (length bs) (omega arith),
)

ver_small : (v : ℕ) → (v ≡ ver_ed25519) ⊎ (v ≡ ver_p256) → v < 24
ver_small v h = ground arith

pub capability_payload-length :
    (c : Capability) → IsCapability c → length (capability_payload c) ≤ max_payload_len
unfolding capability_payload
capability_payload-length c i =
    let n₅ = uint_item-length 5 c.issued_seq 9 (omega arith) (head_bytes-length 0 c.issued_seq) in
    let n₄ =
      uint_item-length 4 c.ttl_secs 5 (omega arith)
        (head_bytes-length_u32 0 c.ttl_secs i.ttl_fits) in
    let n₃ =
      uint_item-length 3 c.capability 5 (omega arith)
        (head_bytes-length_u32 0 c.capability i.capability_fits) in
    let n₂ = bstr_item-length 2 c.grant_nonce (omega arith) i.nonce_len in
    let n₁ = bstr_item-length 1 c.device_id (omega arith) i.id_len in
    let small = head_bytes-length_small 0 c.ver (ver_small c.ver i.known) in
    let n₀ = uint_item-length 0 c.ver 1 (omega arith) (omega (arith, small)) in
    let t₅ = uint_item 5 c.issued_seq in
    let t₄ = uint_item 4 c.ttl_secs ++ t₅ in
    let t₃ = uint_item 3 c.capability ++ t₄ in
    let t₂ = bstr_item 2 c.grant_nonce ++ t₃ in
    let t₁ = bstr_item 1 c.device_id ++ t₂ in
    let t₀ = uint_item 0 c.ver ++ t₁ in
    omega (
      arith,
      length-append (uint_item 4 c.ttl_secs) t₅,
      length-append (uint_item 3 c.capability) t₄,
      length-append (bstr_item 2 c.grant_nonce) t₃,
      length-append (bstr_item 1 c.device_id) t₂,
      length-append (uint_item 0 c.ver) t₁,
      length-append (head_bytes 5 6) t₀,
      head_bytes-length_small 5 6 (omega arith),
    )

pub revocation_payload-length :
    (r : Revocation) → IsRevocation r → length (revocation_payload r) ≤ max_payload_len
unfolding revocation_payload
revocation_payload-length r i =
    let n₃ = uint_item-length 3 r.issued_seq 9 (omega arith) (head_bytes-length 0 r.issued_seq) in
    let n₂ = bstr_item-length 2 r.grant_nonce (omega arith) i.nonce_len in
    let n₁ = bstr_item-length 1 r.device_id (omega arith) i.id_len in
    let small = head_bytes-length_small 0 r.ver (ver_small r.ver i.known) in
    let n₀ = uint_item-length 0 r.ver 1 (omega arith) (omega (arith, small)) in
    let t₃ = uint_item 3 r.issued_seq in
    let t₂ = bstr_item 2 r.grant_nonce ++ t₃ in
    let t₁ = bstr_item 1 r.device_id ++ t₂ in
    let t₀ = uint_item 0 r.ver ++ t₁ in
    omega (
      arith,
      length-append (bstr_item 2 r.grant_nonce) t₃,
      length-append (bstr_item 1 r.device_id) t₂,
      length-append (uint_item 0 r.ver) t₁,
      length-append (head_bytes 5 4) t₀,
      head_bytes-length_small 5 4 (omega arith),
    )
