-- ===== src/Wire/Payload.antt =====
-- The payload codec of wire/src/token.rs. `encode_*` returns the bytes that it wrote to a buffer of the given
-- length.
pub mod Layout
pub mod Decode
pub mod Size
pub mod RoundTrip
use Prim.Native.String.{String}
use lychgate.Prelude.{
  ℕ, ◌+◌, Bool, true, false, ◌||◌, List, [], ◌∷◌, ◌++◌, Result, ok, err, ◌>>=◌, ◌>>◌, ◌==◌,
  if◌then◌else◌, ◌≡◌, ◌<◌, ◌^◌, ◌⊎◌, length, All,
}
use lychgate.Wire.{WireError, unknown_version}
use lychgate.Wire.Cbor.Bytes.{IsByte}
use lychgate.Wire.Cbor.{
  Writer, Reader, write_map, write_uint_entry, write_bstr_entry, read_map, read_uint_entry,
  read_uint_entry_u32, read_bstr16_entry, read_end,
}

abbrev pub ver_ed25519 : ℕ
ver_ed25519 = 1

abbrev pub ver_p256 : ℕ
ver_p256 = 2

abbrev pub sig_len : ℕ
sig_len = 64

abbrev pub max_payload_len : ℕ
max_payload_len = 61

abbrev pub max_token_len : ℕ
max_token_len = 6 + 82 + 1 + 86

pub record Capability : Type 0 where
  pub ver : ℕ
  pub device_id : List ℕ
  pub grant_nonce : List ℕ
  pub capability : ℕ
  pub ttl_secs : ℕ
  pub issued_seq : ℕ

pub record Revocation : Type 0 where
  pub ver : ℕ
  pub device_id : List ℕ
  pub grant_nonce : List ℕ
  pub issued_seq : ℕ

abbrev pub new_writer : ℕ → Writer
new_writer capacity = record { capacity = capacity; written = [] }

unfoldable pub encode_capability : Capability → ℕ → Result WireError (List ℕ)
encode_capability cap capacity = do
  w₁ ← write_map 6 (new_writer capacity)
  w₂ ← write_uint_entry 0 cap.ver w₁
  w₃ ← write_bstr_entry 1 cap.device_id w₂
  w₄ ← write_bstr_entry 2 cap.grant_nonce w₃
  w₅ ← write_uint_entry 3 cap.capability w₄
  w₆ ← write_uint_entry 4 cap.ttl_secs w₅
  w₇ ← write_uint_entry 5 cap.issued_seq w₆
  ok w₇.written

unfoldable pub encode_revocation : Revocation → ℕ → Result WireError (List ℕ)
encode_revocation rvk capacity = do
  w₁ ← write_map 4 (new_writer capacity)
  w₂ ← write_uint_entry 0 rvk.ver w₁
  w₃ ← write_bstr_entry 1 rvk.device_id w₂
  w₄ ← write_bstr_entry 2 rvk.grant_nonce w₃
  w₅ ← write_uint_entry 3 rvk.issued_seq w₄
  ok w₅.written

unfoldable pub read_ver : Reader → Result WireError (ℕ × Reader)
read_ver r = do
  (ver, r₁) ← read_uint_entry 0 "expected an unsigned integer" r
  if ver == ver_ed25519 || ver == ver_p256 then ok (ver, r₁) else err unknown_version

unfoldable pub decode_capability : List ℕ → Result WireError Capability
decode_capability payload = do
  r₁ ← read_map 6 payload
  (ver, r₂) ← read_ver r₁
  (device_id, r₃) ← read_bstr16_entry 1 r₂
  (grant_nonce, r₄) ← read_bstr16_entry 2 r₃
  (capability, r₅) ← read_uint_entry_u32 3 r₄
  (ttl_secs, r₆) ← read_uint_entry_u32 4 r₅
  (issued_seq, r₇) ← read_uint_entry 5 "expected an unsigned integer" r₆
  read_end r₇
  ok (record {
    ver = ver;
    device_id = device_id;
    grant_nonce = grant_nonce;
    capability = capability;
    ttl_secs = ttl_secs;
    issued_seq = issued_seq;
  })

unfoldable pub decode_revocation : List ℕ → Result WireError Revocation
decode_revocation payload = do
  r₁ ← read_map 4 payload
  (ver, r₂) ← read_ver r₁
  (device_id, r₃) ← read_bstr16_entry 1 r₂
  (grant_nonce, r₄) ← read_bstr16_entry 2 r₃
  (issued_seq, r₅) ← read_uint_entry 3 "expected an unsigned integer" r₄
  read_end r₅
  ok (record {
    ver = ver;
    device_id = device_id;
    grant_nonce = grant_nonce;
    issued_seq = issued_seq;
  })

-- The values that the fields of the structs can hold, with a version that the crate knows.
pub record IsCapability (c : Capability) : Type 0 where
  pub known : (c.ver ≡ ver_ed25519) ⊎ (c.ver ≡ ver_p256)
  pub id_len : length c.device_id ≡ 16
  pub id_bytes : All IsByte c.device_id
  pub nonce_len : length c.grant_nonce ≡ 16
  pub nonce_bytes : All IsByte c.grant_nonce
  pub capability_fits : c.capability < 2 ^ 32
  pub ttl_fits : c.ttl_secs < 2 ^ 32
  pub seq_fits : c.issued_seq < 2 ^ 64

pub record IsRevocation (r : Revocation) : Type 0 where
  pub known : (r.ver ≡ ver_ed25519) ⊎ (r.ver ≡ ver_p256)
  pub id_len : length r.device_id ≡ 16
  pub id_bytes : All IsByte r.device_id
  pub nonce_len : length r.grant_nonce ≡ 16
  pub nonce_bytes : All IsByte r.grant_nonce
  pub seq_fits : r.issued_seq < 2 ^ 64
