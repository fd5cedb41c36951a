-- ===== src/Wire/Cbor.antt =====
-- wire/src/cbor.rs: the deterministic CBOR subset of the token payloads. A `Writer` is the length of its
-- buffer and the bytes written so far; a `Reader` is the part of its buffer that is not read yet.
pub mod Bytes
pub mod Head
pub mod Entries
use Prim.Native.Nat.{bit_and, bit_or}
use Prim.Native.String.{String}
use lychgate.Prelude.{
  ℕ, zero, suc, ◌+◌, ◌*◌, ◌/◌, ◌%◌, ◌^◌, Bool, true, false, not, List, [], ◌∷◌, ◌++◌, Result, ok,
  err, ◌>>=◌, ◌>>◌, refuse_if, ltb, leb, ◌==◌, if◌then◌else◌, length, is_empty,
}
use lychgate.Wire.{WireError, malformed, buffer_too_small}

abbrev pub major_uint : ℕ
major_uint = 0

abbrev pub major_bstr : ℕ
major_bstr = 2

abbrev pub major_map : ℕ
major_map = 5

-- `to_be_bytes` of a value below 256 ^ n, and its inverse.
unfoldable pub be_bytes : ℕ → ℕ → List ℕ
be_bytes zero v = []
be_bytes (suc n) v = (v / 256 ^ n) ∷ be_bytes n (v % 256 ^ n)

pub record Writer : Type 0 where
  pub capacity : ℕ
  pub written : List ℕ

unfoldable pub push : ℕ → Writer → Result WireError Writer
push byte w =
    if leb w.capacity (length w.written)
    then err buffer_too_small
    else ok (record w { written = w.written ++ (byte ∷ []) })

-- `for b in bytes { self.push(b)?; }`
unfoldable pub push_all : List ℕ → Writer → Result WireError Writer
push_all [] w = ok w
push_all (b ∷ bs) w = push b w >>= push_all bs

unfoldable pub write_head : ℕ → ℕ → Writer → Result WireError Writer
write_head major value w =
    let m = major * 2 ^ 5 in
    if ltb value 24
    then push (bit_or m value) w
    else if leb value 0xff
    then (push (bit_or m 24) w >>= push value)
    else if leb value 0xffff
    then (push (bit_or m 25) w >>= push_all (be_bytes 2 value))
    else if leb value 0xffff_ffff
    then (push (bit_or m 26) w >>= push_all (be_bytes 4 value))
    else push (bit_or m 27) w >>= push_all (be_bytes 8 value)

unfoldable pub write_map : ℕ → Writer → Result WireError Writer
write_map entries w = write_head major_map entries w

unfoldable pub write_uint_entry : ℕ → ℕ → Writer → Result WireError Writer
write_uint_entry key value w = write_head major_uint key w >>= write_head major_uint value

unfoldable pub write_bstr_entry : ℕ → List ℕ → Writer → Result WireError Writer
write_bstr_entry key value w = do
  w₁ ← write_head major_uint key w
  w₂ ← write_head major_bstr (length value) w₁
  push_all value w₂

abbrev pub Reader : Type 0
Reader = List ℕ

unfoldable pub read_byte : Reader → Result WireError (ℕ × Reader)
read_byte [] = err (malformed "truncated")
read_byte (b ∷ r) = ok (b, r)

-- `from_be_bytes` of the next n bytes, over what was read of the number so far.
unfoldable pub read_be : ℕ → ℕ → Reader → Result WireError (ℕ × Reader)
unfolding read_byte
read_be zero acc r = ok (acc, r)
read_be (suc n) acc r = do (b, r₁) ← read_byte r; read_be n (acc * 256 + b) r₁

-- A wide argument, refused if a narrower form holds it.
unfoldable pub read_wide : ℕ → ℕ → Reader → Result WireError (ℕ × Reader)
read_wide width least r = do
  (v, r₁) ← read_be width 0 r
  refuse_if (ltb v least) (malformed "non-minimal integer")
  ok (v, r₁)

unfoldable pub read_head : ℕ → String → Reader → Result WireError (ℕ × Reader)
read_head expect_major what r = do
  (initial, r₁) ← read_byte r
  refuse_if (not (initial / 2 ^ 5 == expect_major)) (malformed what)
  let info = bit_and initial 0x1f
  if ltb info 24
      then ok (info, r₁)
      else if info == 24
      then read_wide 1 24 r₁
      else if info == 25
      then read_wide 2 0x100 r₁
      else if info == 26
      then read_wide 4 0x1_0000 r₁
      else if info == 27
      then read_wide 8 0x1_0000_0000 r₁
      else err (malformed "indefinite or reserved length")

unfoldable pub read_map : ℕ → Reader → Result WireError Reader
read_map expect_entries r = do
  (n, r₁) ← read_head major_map "not a map" r
  refuse_if (not (n == expect_entries)) (malformed "wrong map size")
  ok r₁

unfoldable pub read_key : ℕ → Reader → Result WireError Reader
read_key expect r = do
  (k, r₁) ← read_head major_uint "map key is not an unsigned integer" r
  refuse_if (not (k == expect)) (malformed "unexpected map key")
  ok r₁

unfoldable pub read_uint_entry : ℕ → String → Reader → Result WireError (ℕ × Reader)
read_uint_entry key what r = read_key key r >>= read_head major_uint what

unfoldable pub read_uint_entry_u32 : ℕ → Reader → Result WireError (ℕ × Reader)
read_uint_entry_u32 key r = do
  (v, r₁) ← read_uint_entry key "expected an unsigned integer" r
  refuse_if (leb (2 ^ 32) v) (malformed "integer too large for field")
  ok (v, r₁)

-- `for slot in &mut out { *slot = self.byte()?; }`
unfoldable pub read_bytes : ℕ → Reader → Result WireError (List ℕ × Reader)
unfolding read_byte
read_bytes zero r = ok ([], r)
read_bytes (suc n) r = do (b, r₁) ← read_byte r; (bs, r₂) ← read_bytes n r₁; ok (b ∷ bs, r₂)

unfoldable pub read_bstr16_entry : ℕ → Reader → Result WireError (List ℕ × Reader)
read_bstr16_entry key r = do
  r₁ ← read_key key r
  (len, r₂) ← read_head major_bstr "expected a byte string" r₁
  refuse_if (not (len == 16)) (malformed "wrong byte-string length")
  read_bytes 16 r₂

unfoldable pub read_end : Reader → Result WireError (Unit {0})
read_end r = refuse_if (not (is_empty r)) (malformed "trailing bytes")
