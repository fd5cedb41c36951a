-- ===== src/Approval/Totp.antt =====
-- core/src/totp.rs: time-based codes. `Hotp` is what the file calls of the `hmac` and `data_encoding` crates and
-- of the standard `char::is_whitespace`; a hash is the function from an index below 20 to its byte.
pub mod Window
use Prim.Native.Nat.{bit_and}
use lychgate.Prelude.{
  ℕ, zero, suc, ◌+◌, ◌-◌, ◌*◌, ◌/◌, ◌%◌, ◌^◌, Bool, true, false, not, ◌&&◌, ◌||◌, List, [], ◌∷◌,
  ◌++◌, Option, none, some, Result, ok, err, ◌>>=◌, ◌>>◌, ok_or, refuse_if, ltb, leb, ◌==◌,
  if◌then◌else◌, length, all, is_empty, map,
}
use lychgate.Prelude.Text.{Text, bytes, text_eq}
use lychgate.Prelude.Decimal.{is_ascii_digit, u64_limit}
use lychgate.Clock.{SystemTime}
use lychgate.Wire.Cbor.{be_bytes}
use lychgate.Approval.{epoch_secs}

abbrev pub step_secs : ℕ
step_secs = 30

abbrev pub digits : ℕ
digits = 6

pub record Hotp : Type 0 where
  pub drop_whitespace : Text → Text
  pub trim : Text → Text
  pub base32 : Text → Option (List ℕ)
  pub hmac_sha1 : (key message : List ℕ) → ℕ → ℕ

pub data TotpError : Type 0 where
  bad_base32 no_secret : TotpError

upper : ℕ → ℕ
upper c = if leb b'a' c && leb c b'z' then c - 32 else c

trim_padding : Text → Text
trim_padding [] = []
trim_padding (x ∷ xs) =
    let rest = trim_padding xs in if x == b'=' && is_empty rest then [] else x ∷ rest

-- `TotpSecret::from_base32`: the secret's bytes.
pub from_base32 : Hotp → Text → Result TotpError (List ℕ)
from_base32 lib s = do
  secret ← ok_or (lib.base32 (trim_padding (map upper (lib.drop_whitespace s)))) bad_base32
  refuse_if (is_empty secret) no_secret
  ok secret

unfoldable pub counter_at : SystemTime → ℕ
counter_at now = epoch_secs now / step_secs

-- The format `{:0width$}` of a number below 10 ^ width.
unfoldable pub zero_padded : ℕ → ℕ → Text
zero_padded zero n = []
zero_padded (suc width) n = (48 + n / 10 ^ width % 10) ∷ zero_padded width n

-- The four bytes at the offset, whose bits do not overlap, without the sign.
unfoldable pub truncated : (ℕ → ℕ) → ℕ
truncated hs =
    let offset = bit_and (hs 19) 0x0f in
    bit_and (hs offset) 0x7f * 2 ^ 24
    + hs (offset + 1) * 2 ^ 16
    + hs (offset + 2) * 2 ^ 8
    + hs (offset + 3)

unfoldable pub code_at : Hotp → List ℕ → ℕ → Text
code_at lib secret counter =
    zero_padded digits (truncated (lib.hmac_sha1 secret (be_bytes 8 counter)) % 10 ^ digits)

-- The loop over `count` counters: the last one that matches.
unfoldable pub scan : Hotp → List ℕ → Text → ℕ → ℕ → Option ℕ → Option ℕ
scan lib secret code zero counter found = found
scan lib secret code (suc count) counter found =
    scan lib secret code count (counter + 1)
      (if text_eq (code_at lib secret counter) code then some counter else found)

unfoldable pub saturating_add : ℕ → ℕ → ℕ
saturating_add a b = if ltb (a + b) u64_limit then a + b else u64_limit - 1

abbrev pub is_code : Text → Bool
is_code code = length code == digits && all is_ascii_digit code

unfoldable pub matches : Hotp → List ℕ → Text → SystemTime → ℕ → Option ℕ
matches lib secret code now skew_steps =
    let center = counter_at now in
    let lo = center - skew_steps in
    let hi = saturating_add center skew_steps in
    if is_code (lib.trim code) then scan lib secret (lib.trim code) (suc hi - lo) lo none else none
