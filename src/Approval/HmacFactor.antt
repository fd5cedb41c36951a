-- ===== src/Approval/HmacFactor.antt =====
-- core/src/hmac_factor.rs: tokens that carry a MAC of the challenge. `Mac` is what the file calls of the `hmac`
-- and `sha2` crates. Checking a secret can panic, since the source slices the text in the middle of a character:
-- `none` stands for that.
use lychgate.Prelude.{
  ℕ, zero, suc, ◌+◌, ◌-◌, ◌*◌, ◌≡◌, refl, ap, Bool, true, false, not, ◌&&◌, ◌||◌, List, [], ◌∷◌,
  ◌++◌, Option, none, some, Result, ok, err, ◌>>=◌, ◌>>◌, ok_or, refuse_if, ltb, leb, ◌==◌,
  if◌then◌else◌, length, arith, ==_iff,
}
use lychgate.Prelude.Text.{Text, bytes, text_eq, text_eq_iff}
use lychgate.Wire.Token.{strip_prefix}
use lychgate.Approval.{Codec}

abbrev pub token_prefix : Text
token_prefix = bytes "lghmac."

abbrev pub secret_len : ℕ
secret_len = 32

pub data HmacError : Type 0 where
  malformed mismatch bad_secret : HmacError

-- HMAC-SHA256 of a message under a key of any length.
abbrev pub Mac : Type 0
Mac = (key message : List ℕ) → List ℕ

-- Whether a text can be cut before its first byte: that byte continues no character.
abbrev pub starts_char : Text → Bool
starts_char [] = true
starts_char (c ∷ _) = ltb c 0x80 || leb 0xc0 c

hex_digit : ℕ → Option ℕ
hex_digit c =
    if leb b'0' c && leb c b'9'
    then some (c - b'0')
    else if leb b'a' c && leb c b'f'
    then some (c - b'a' + 10)
    else if leb b'A' c && leb c b'F'
    then some (c - b'A' + 10)
    else none

-- `u8::from_str_radix(s, 16)` of a text of two bytes: the first may be a plus sign.
unfoldable pub hex_pair : ℕ → ℕ → Option ℕ
unfolding hex_digit
hex_pair a b = elim (hex_digit b) [
  | none ↦ none
  | some y ↦
      if a == b'+' then some y else elim (hex_digit a) [ none ↦ none | some x ↦ some (x * 16 + y) ]
]

-- What a pair adds to the result of the pairs after it.
abbrev add_byte : Option ℕ → Option (Result HmacError (List ℕ)) → Option (Result HmacError (List ℕ))
add_byte none more = some (err bad_secret)
add_byte (some x) none = none
add_byte (some x) (some (err e)) = some (err e)
add_byte (some x) (some (ok xs)) = some (ok (x ∷ xs))

-- The pairs in their order, up to the first that fails; a cut inside a character panics.
hex_pairs : Text → Option (Result HmacError (List ℕ))
unfolding hex_pair
hex_pairs (a ∷ b ∷ rest) =
    let more = hex_pairs rest in
    if not (starts_char (a ∷ []) && starts_char rest) then none else add_byte (hex_pair a b) more
hex_pairs _ = some (ok [])

unfoldable pub check_secret : Codec → Text → Option (Result HmacError (List ℕ))
unfolding hex_pairs
check_secret codec text =
    if not (length (codec.trim text) == secret_len * 2)
    then some (err bad_secret)
    else hex_pairs (codec.trim text)

module _ (codec : Codec) (mac : Mac) where
  unfoldable pub sign : (secret : List ℕ) (challenge : Text) → Text
  sign secret challenge = token_prefix ++ codec.encode (mac secret challenge)

  unfoldable pub verify : (secret : List ℕ) (token challenge : Text) → Result HmacError (Unit {0})
  verify secret token challenge = do
    b64 ← ok_or (strip_prefix token_prefix token) malformed
    presented ← ok_or (codec.decode b64) malformed
    refuse_if (not (length presented == 32)) malformed
    refuse_if (not (text_eq (mac secret challenge) presented)) mismatch

  -- A token verifies exactly when it carries, in some encoding, the MAC of the challenge under the secret.
  pub verify_lem :
      (secret : List ℕ) (b64 challenge : Text) (presented : List ℕ)
      → length (mac secret challenge) ≡ 32
      → codec.decode b64 ≡ some presented
      → ((verify secret (token_prefix ++ b64) challenge ≡ ok tt) → presented ≡ mac secret challenge)
        × ((presented ≡ mac secret challenge)
            → verify secret (token_prefix ++ b64) challenge ≡ ok tt)
  unfolding verify
  verify_lem secret b64 challenge presented l d = (
    λ h. ground (arith, h, d, text_eq_iff (mac secret challenge) presented),
    λ h. ground (arith, h, d, l, ap length h, text_eq_iff (mac secret challenge) presented),
  )

cut_inv :
    (b : Bool) (r : Option (Result HmacError (List ℕ))) (s : List ℕ)
    → (if not b then none else r) ≡ some (ok s)
    → r ≡ some (ok s)
cut_inv true r s h = h
cut_inv false r s h = absurd (ground (arith, h))

add_byte_inv :
    (x : Option ℕ) (more : Option (Result HmacError (List ℕ))) (s : List ℕ)
    → add_byte x more ≡ some (ok s)
    → (xs : List ℕ) × (more ≡ some (ok xs)) × (length s ≡ suc (length xs))
add_byte_inv none more s h = absurd (ground (arith, h))
add_byte_inv (some x) none s h = absurd (ground (arith, h))
add_byte_inv (some x) (some (err z)) s h = absurd (ground (arith, h))
add_byte_inv (some x) (some (ok xs)) s h = (xs, refl, ground (arith, h))

hex_pairs-length :
    (n : ℕ) (t : Text) (s : List ℕ) → length t ≡ n * 2 → hex_pairs t ≡ some (ok s) → length s ≡ n
unfolding hex_pairs
hex_pairs-length zero [] s l h = ground (arith, h)
hex_pairs-length zero (a ∷ t) s l h = absurd (omega (arith, l))
hex_pairs-length (suc n) [] s l h = absurd (omega (arith, l))
hex_pairs-length (suc n) (a ∷ []) s l h = absurd (omega (arith, l))
hex_pairs-length (suc n) (a ∷ b ∷ t) s l h =
    let (xs, e, k) =
      add_byte_inv (hex_pair a b) (hex_pairs t) s
        (cut_inv (starts_char (a ∷ []) && starts_char t) _ s h) in
    omega (arith, k, hex_pairs-length n t xs (omega (arith, l)) e)

long_inv :
    (b : Bool) (r : Option (Result HmacError (List ℕ))) (s : List ℕ)
    → (if not b then some (err bad_secret) else r) ≡ some (ok s)
    → (b ≡ true) × (r ≡ some (ok s))
long_inv true r s h = (refl, h)
long_inv false r s h = absurd (ground (arith, h))

-- A secret that is accepted has as many bytes as the constant asks for.
pub check_secret-length :
    (codec : Codec) (text : Text) (secret : List ℕ)
    → check_secret codec text ≡ some (ok secret)
    → length secret ≡ secret_len
unfolding check_secret
check_secret-length codec text secret h =
    let (l, e) = long_inv (length (codec.trim text) == secret_len * 2) _ secret h in
    hex_pairs-length 32 (codec.trim text) secret ((==_iff _ 64).0 l) e
