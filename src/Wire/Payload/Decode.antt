-- ===== src/Wire/Payload/Decode.antt =====
-- The decoders of wire/src/token.rs on the items of a payload, and on any bytes.
use mathlib.Core.List.{append-nil}
use lychgate.Prelude.{
  ℕ, ◌<◌, ◌^◌, ◌≡◌, ap, ◌∙◌, subst, List, [], ◌++◌, Result, ok, All, arith, >>=-eq-ok, ◌⊎◌,
}
use lychgate.Wire.{WireError}
use lychgate.Wire.Cbor.{
  Reader, read_map, read_head, read_uint_entry, read_bstr16_entry, read_uint_entry_u32, read_end,
}
use lychgate.Wire.Cbor.Bytes.{IsByte}
use lychgate.Wire.Cbor.Head.{head_bytes, read_head-head_bytes, read_head_inv}
use lychgate.Wire.Cbor.Entries.{
  uint_item, bstr_item, read_uint_entry_item, read_uint_entry_inv, read_uint_entry_u32_item,
  read_uint_entry_u32_inv, read_bstr16_entry_item, read_bstr16_entry_inv,
}
use lychgate.Wire.Payload.{
  Capability, Revocation, IsCapability, IsRevocation, read_ver, decode_capability,
  decode_revocation, ver_ed25519, ver_p256,
}
use lychgate.Wire.Payload.Layout.{capability_payload, revocation_payload}

read_map_head : (n : ℕ) (rest : Reader) → n < 2 ^ 64 → read_map n (head_bytes 5 n ++ rest) ≡ ok rest
unfolding read_map
read_map_head n rest h =
    rw (read_head-head_bytes 5 "not a map" (omega arith) n rest h) (ground arith)

read_ver_item :
    (v : ℕ) (rest : Reader)
    → (v ≡ ver_ed25519) ⊎ (v ≡ ver_p256)
    → read_ver (uint_item 0 v ++ rest) ≡ ok (v, rest)
unfolding read_ver
read_ver_item v rest h =
    rw (read_uint_entry_item 0 v "expected an unsigned integer" rest (omega arith) (omega arith))
      (ground arith)

read_last :
    (key v : ℕ)
    → key < 2 ^ 64
    → v < 2 ^ 64
    → read_uint_entry key "expected an unsigned integer" (uint_item key v) ≡ ok (v, [])
read_last key v k h =
    subst (λ r. read_uint_entry key "expected an unsigned integer" r ≡ ok (v, []))
      (append-nil (uint_item key v))
      (read_uint_entry_item key v "expected an unsigned integer" [] k h)

pub decode_capability-payload :
    (c : Capability) → IsCapability c → decode_capability (capability_payload c) ≡ ok c
unfolding decode_capability capability_payload read_end
decode_capability-payload c i = rw (read_map_head 6 _ (omega arith)) (
    rw (read_ver_item c.ver _ i.known) (
      rw (read_bstr16_entry_item 1 c.device_id _ (omega arith) i.id_len) (
        rw (read_bstr16_entry_item 2 c.grant_nonce _ (omega arith) i.nonce_len) (
          rw (read_uint_entry_u32_item 3 c.capability _ (omega arith) i.capability_fits) (
            rw (read_uint_entry_u32_item 4 c.ttl_secs _ (omega arith) i.ttl_fits)
              (rw (read_last 5 c.issued_seq (omega arith) i.seq_fits)))))))

pub decode_revocation-payload :
    (r : Revocation) → IsRevocation r → decode_revocation (revocation_payload r) ≡ ok r
unfolding decode_revocation revocation_payload read_end
decode_revocation-payload r i = rw (read_map_head 4 _ (omega arith)) (
    rw (read_ver_item r.ver _ i.known) (
      rw (read_bstr16_entry_item 1 r.device_id _ (omega arith) i.id_len) (
        rw (read_bstr16_entry_item 2 r.grant_nonce _ (omega arith) i.nonce_len)
          (rw (read_last 3 r.issued_seq (omega arith) i.seq_fits)))))

-- A payload that decodes is the encoding of what it decodes to.
read_map_inv :
    (n : ℕ) (bs rest : Reader)
    → read_map n bs ≡ ok rest
    → All IsByte bs
    → (bs ≡ head_bytes 5 n ++ rest) × All IsByte rest
unfolding read_map
read_map_inv n bs rest h a =
    let (k, p, q) = >>=-eq-ok (read_head 5 "not a map" bs) _ h in
    let e₁ : k.0 ≡ n = ground arith in
    let e₂ : k.1 ≡ rest = ground arith in
    let i = read_head_inv 5 "not a map" (omega arith) k.0 bs k.1 p a in
    (
      subst (λ t. bs ≡ head_bytes 5 t ++ rest) e₁
          (subst (λ r. bs ≡ head_bytes 5 k.0 ++ r) e₂ i.source),
      subst (All IsByte) e₂ i.rest_bytes,
    )

read_ver_inv :
    (ver : ℕ) (bs rest : Reader)
    → read_ver bs ≡ ok (ver, rest)
    → All IsByte bs
    → (bs ≡ uint_item 0 ver ++ rest) × ((ver ≡ ver_ed25519) ⊎ (ver ≡ ver_p256)) × All IsByte rest
unfolding read_ver
read_ver_inv ver bs rest h a =
    let (k, p, q) = >>=-eq-ok (read_uint_entry 0 "expected an unsigned integer" bs) _ h in
    let e : k ≡ (ver, rest) = ground arith in
    let known : (ver ≡ ver_ed25519) ⊎ (ver ≡ ver_p256) = ground arith in
    let i =
      read_uint_entry_inv 0 ver "expected an unsigned integer" bs rest (p ∙ ap (λ t. ok t) e) a in
    (i.0, known, i.2)

read_end_inv : (bs : Reader) (u : Unit {0}) → read_end bs ≡ ok u → bs ≡ []
unfolding read_end
read_end_inv bs u h = ground arith

ok-inj : {A : Type 0} {x y : A} → (let r : Result WireError A = ok x in r) ≡ ok y → x ≡ y
ok-inj h = cc

abbrev capability_of : ℕ → ℕ → ℕ → ℕ → List ℕ → List ℕ → Capability
capability_of ver cap ttl seq id nonce = record {
  ver = ver;
  device_id = id;
  grant_nonce = nonce;
  capability = cap;
  ttl_secs = ttl;
  issued_seq = seq;
}

onto : (xs : List ℕ) {r s : List ℕ} → r ≡ s → xs ++ r ≡ xs ++ s
onto xs e = ap (λ t. xs ++ t) e

ends : (xs : List ℕ) {r s : List ℕ} → r ≡ xs ++ s → s ≡ [] → r ≡ xs
ends xs e z = e ∙ onto xs z ∙ append-nil xs

decoded_capability :
    (bs : List ℕ) (c : Capability) (ver cap ttl seq : ℕ) (id nonce : List ℕ)
    → capability_of ver cap ttl seq id nonce ≡ c
    → IsCapability (capability_of ver cap ttl seq id nonce)
    → bs
      ≡ head_bytes 5 6
        ++ (uint_item 0 ver
            ++ (bstr_item 1 id
                ++ (bstr_item 2 nonce
                    ++ (uint_item 3 cap ++ (uint_item 4 ttl ++ uint_item 5 seq)))))
    → IsCapability c × (bs ≡ capability_payload c)
unfolding capability_payload
decoded_capability bs c ver cap ttl seq id nonce e i p =
    subst (λ c. IsCapability c × (bs ≡ capability_payload c)) e (i, p)

pub decode_capability_inv :
    (bs : List ℕ) (c : Capability)
    → decode_capability bs ≡ ok c
    → All IsByte bs
    → IsCapability c × (bs ≡ capability_payload c)
unfolding decode_capability capability_payload
decode_capability_inv bs c h a =
    let (r₁, p₁, q₁) = >>=-eq-ok (read_map 6 bs) _ h in
    let (e₁, a₁) = read_map_inv 6 bs r₁ p₁ a in
    let ((ver, r₂), p₂, q₂) = >>=-eq-ok (read_ver r₁) _ q₁ in
    let (e₂, known, a₂) = read_ver_inv ver r₁ r₂ p₂ a₁ in
    let ((id, r₃), p₃, q₃) = >>=-eq-ok (read_bstr16_entry 1 r₂) _ q₂ in
    let (e₃, l₃, b₃, a₃) = read_bstr16_entry_inv 1 r₂ id r₃ p₃ a₂ in
    let ((nonce, r₄), p₄, q₄) = >>=-eq-ok (read_bstr16_entry 2 r₃) _ q₃ in
    let (e₄, l₄, b₄, a₄) = read_bstr16_entry_inv 2 r₃ nonce r₄ p₄ a₃ in
    let ((cap, r₅), p₅, q₅) = >>=-eq-ok (read_uint_entry_u32 3 r₄) _ q₄ in
    let (e₅, l₅, a₅) = read_uint_entry_u32_inv 3 cap r₄ r₅ p₅ a₄ in
    let ((ttl, r₆), p₆, q₆) = >>=-eq-ok (read_uint_entry_u32 4 r₅) _ q₅ in
    let (e₆, l₆, a₆) = read_uint_entry_u32_inv 4 ttl r₅ r₆ p₆ a₅ in
    let ((seq, r₇), p₇, q₇) =
      >>=-eq-ok (read_uint_entry 5 "expected an unsigned integer" r₆) _ q₆ in
    let (e₇, l₇, a₇) = read_uint_entry_inv 5 seq "expected an unsigned integer" r₆ r₇ p₇ a₆ in
    let (u, p₈, q₈) = >>=-eq-ok (read_end r₇) _ q₇ in
    decoded_capability bs c ver cap ttl seq id nonce (ok-inj q₈)
      (record {
        known = known;
        id_len = l₃;
        id_bytes = b₃;
        nonce_len = l₄;
        nonce_bytes = b₄;
        capability_fits = l₅;
        ttl_fits = l₆;
        seq_fits = l₇;
      })
      (e₁
        ∙ onto (head_bytes 5 6) (
            e₂
            ∙ onto (uint_item 0 ver) (
                e₃
                ∙ onto (bstr_item 1 id) (
                    e₄
                    ∙ onto (bstr_item 2 nonce) (
                        e₅
                        ∙ onto (uint_item 3 cap) (
                            e₆
                            ∙ onto (uint_item 4 ttl)
                                (ends (uint_item 5 seq) e₇ (read_end_inv r₇ u p₈))))))))

pub decode_revocation_inv :
    (bs : List ℕ) (c : Revocation)
    → decode_revocation bs ≡ ok c
    → All IsByte bs
    → IsRevocation c × (bs ≡ revocation_payload c)
unfolding decode_revocation revocation_payload
decode_revocation_inv bs c h a =
    let (r₁, p₁, q₁) = >>=-eq-ok (read_map 4 bs) _ h in
    let (e₁, a₁) = read_map_inv 4 bs r₁ p₁ a in
    let ((ver, r₂), p₂, q₂) = >>=-eq-ok (read_ver r₁) _ q₁ in
    let (e₂, known, a₂) = read_ver_inv ver r₁ r₂ p₂ a₁ in
    let ((id, r₃), p₃, q₃) = >>=-eq-ok (read_bstr16_entry 1 r₂) _ q₂ in
    let (e₃, l₃, b₃, a₃) = read_bstr16_entry_inv 1 r₂ id r₃ p₃ a₂ in
    let ((nonce, r₄), p₄, q₄) = >>=-eq-ok (read_bstr16_entry 2 r₃) _ q₃ in
    let (e₄, l₄, b₄, a₄) = read_bstr16_entry_inv 2 r₃ nonce r₄ p₄ a₃ in
    let ((seq, r₅), p₅, q₅) =
      >>=-eq-ok (read_uint_entry 3 "expected an unsigned integer" r₄) _ q₄ in
    let (e₅, l₅, a₅) = read_uint_entry_inv 3 seq "expected an unsigned integer" r₄ r₅ p₅ a₄ in
    let (u, p₆, q₆) = >>=-eq-ok (read_end r₅) _ q₅ in
    subst (λ c. IsRevocation c × (bs ≡ revocation_payload c)) (ok-inj q₆)
      (
        record {
          known = known;
          id_len = l₃;
          id_bytes = b₃;
          nonce_len = l₄;
          nonce_bytes = b₄;
          seq_fits = l₅;
        },
        e₁
            ∙ onto (head_bytes 5 4) (
                e₂
                ∙ onto (uint_item 0 ver) (
                    e₃
                    ∙ onto (bstr_item 1 id) (
                        e₄
                        ∙ onto (bstr_item 2 nonce)
                            (ends (uint_item 3 seq) e₅ (read_end_inv r₅ u p₆))))),
      )
