-- ===== src/Wire/Payload/Layout.antt =====
-- The items of a payload of wire/src/token.rs, and that the encoders write them.
use lychgate.Prelude.{
  ℕ, ◌≤◌, ◌≡◌, refl, List, ◌++◌, Result, ok, ◌>>=◌, arith, length, inl, inr, Result-cases,
}
use lychgate.Wire.{WireError}
use lychgate.Wire.Cbor.{Writer, push_all, write_map}
use lychgate.Wire.Cbor.Head.{head_bytes, write_head-head_bytes}
use lychgate.Wire.Cbor.Entries.{
  uint_item, bstr_item, push_all-append, push_all_fits, write_uint_entry_lem, write_bstr_entry_lem,
}
use lychgate.Wire.Payload.{Capability, Revocation, encode_capability, encode_revocation, new_writer}

-- The payload of a capability, item by item.
unfoldable pub capability_payload : Capability → List ℕ
capability_payload c =
    head_bytes 5 6
    ++ (uint_item 0 c.ver
        ++ (bstr_item 1 c.device_id
            ++ (bstr_item 2 c.grant_nonce
                ++ (uint_item 3 c.capability
                    ++ (uint_item 4 c.ttl_secs ++ uint_item 5 c.issued_seq)))))

unfoldable pub revocation_payload : Revocation → List ℕ
revocation_payload r =
    head_bytes 5 4
    ++ (uint_item 0 r.ver
        ++ (bstr_item 1 r.device_id ++ (bstr_item 2 r.grant_nonce ++ uint_item 3 r.issued_seq)))

-- Two writes in a row are the write of both.
write_next :
    {A : Type 0} (xs ys : List ℕ) (w : Writer) (f k : Writer → Result WireError A)
    → ((w' : Writer) → f w' ≡ (push_all ys w' >>= k))
    → (push_all xs w >>= f) ≡ (push_all (xs ++ ys) w >>= k)
write_next xs ys w f k h =
    rw (push_all-append xs ys w)
      (elim (Result-cases (push_all xs w)) [ inl (w', p) ↦ rw p (h w') | inr (e, p) ↦ rw p ])

abbrev finish : Writer → Result WireError (List ℕ)
finish w = ok w.written

encode_capability_push :
    (c : Capability) (capacity : ℕ)
    → encode_capability c capacity
      ≡ (push_all (capability_payload c) (new_writer capacity) >>= finish)
unfolding encode_capability capability_payload write_map
encode_capability_push c capacity =
    rw (write_head-head_bytes 5 6 (new_writer capacity) (inr (inr refl))) (
      write_next (head_bytes 5 6) _ (new_writer capacity) _ finish (λ w₁.
        rw (write_uint_entry_lem 0 c.ver w₁) (
          write_next (uint_item 0 c.ver) _ w₁ _ finish (λ w₂.
            rw (write_bstr_entry_lem 1 c.device_id w₂) (
              write_next (bstr_item 1 c.device_id) _ w₂ _ finish (λ w₃.
                rw (write_bstr_entry_lem 2 c.grant_nonce w₃) (
                  write_next (bstr_item 2 c.grant_nonce) _ w₃ _ finish (λ w₄.
                    rw (write_uint_entry_lem 3 c.capability w₄) (
                      write_next (uint_item 3 c.capability) _ w₄ _ finish (λ w₅.
                        rw (write_uint_entry_lem 4 c.ttl_secs w₅) (
                          write_next (uint_item 4 c.ttl_secs) _ w₅ _ finish
                            (λ w₆. rw (write_uint_entry_lem 5 c.issued_seq w₆)))))))))))))

encode_revocation_push :
    (r : Revocation) (capacity : ℕ)
    → encode_revocation r capacity
      ≡ (push_all (revocation_payload r) (new_writer capacity) >>= finish)
unfolding encode_revocation revocation_payload write_map
encode_revocation_push r capacity =
    rw (write_head-head_bytes 5 4 (new_writer capacity) (inr (inr refl))) (
      write_next (head_bytes 5 4) _ (new_writer capacity) _ finish (λ w₁.
        rw (write_uint_entry_lem 0 r.ver w₁) (
          write_next (uint_item 0 r.ver) _ w₁ _ finish (λ w₂.
            rw (write_bstr_entry_lem 1 r.device_id w₂) (
              write_next (bstr_item 1 r.device_id) _ w₂ _ finish (λ w₃.
                rw (write_bstr_entry_lem 2 r.grant_nonce w₃) (
                  write_next (bstr_item 2 r.grant_nonce) _ w₃ _ finish
                    (λ w₄. rw (write_uint_entry_lem 3 r.issued_seq w₄)))))))))

pub encode_capability_fits :
    (c : Capability) (capacity : ℕ)
    → length (capability_payload c) ≤ capacity
    → encode_capability c capacity ≡ ok (capability_payload c)
encode_capability_fits c capacity h = rw (
  encode_capability_push c capacity,
  push_all_fits (capability_payload c) (new_writer capacity) (omega arith),
)

pub encode_revocation_fits :
    (r : Revocation) (capacity : ℕ)
    → length (revocation_payload r) ≤ capacity
    → encode_revocation r capacity ≡ ok (revocation_payload r)
encode_revocation_fits r capacity h = rw (
  encode_revocation_push r capacity,
  push_all_fits (revocation_payload r) (new_writer capacity) (omega arith),
)
