-- ===== src/Wire/Cbor/Bytes.antt =====
-- Big-endian numbers and the head encoding of wire/src/cbor.rs in plain arithmetic.
use Prim.Native.Nat.{bit_and, bit_or}
use native.Mathlib.Nat.{
  pow-suc, one-le-pow, div-add-mod', mod-lt, mul-add-div_right, mul-add-mod_self_right,
  div-eq_of_lt, mod-eq_of_lt,
}
use lychgate.Prelude.{
  ℕ, zero, suc, ◌+◌, ◌*◌, ◌/◌, ◌%◌, ◌^◌, ◌<◌, ◌≡◌, refl, ap, ◌∙◌, Bool, true, ◌&&◌, List, [], ◌∷◌,
  ◌++◌, ok, All, arith, ◌==◌, ==_iff, subst, ◌⊎◌, inl, inr,
}
use lychgate.Wire.Cbor.{be_bytes, read_be, Reader}

abbrev pub IsByte : ℕ → Type 0
IsByte b = b < 256

pow_pos : (n : ℕ) → 0 < 256 ^ n
pow_pos n = one-le-pow n 256 (omega arith)

-- A number split at a power of 256.
split_at : (n acc v : ℕ) → (acc * 256 + v / 256 ^ n) * 256 ^ n + v % 256 ^ n ≡ acc * 256 ^ suc n + v
split_at n acc v = omega (arith, div-add-mod' v (256 ^ n), ap (λ (t : ℕ). acc * t) (pow-suc 256 n))

pub read_be-be_bytes :
    (n acc v : ℕ) (rest : Reader)
    → v < 256 ^ n
    → read_be n acc (be_bytes n v ++ rest) ≡ ok (acc * 256 ^ n + v, rest)
unfolding read_be be_bytes
read_be-be_bytes zero acc v rest h = ap (λ x. ok (x, rest)) (omega arith)
read_be-be_bytes (suc n) acc v rest h =
    read_be-be_bytes n (acc * 256 + v / 256 ^ n) (v % 256 ^ n) rest (mod-lt v (pow_pos n))
    ∙ ap (λ x. ok (x, rest)) (split_at n acc v)

fit_digit : (b p x : ℕ) {q : ℕ} → b < 256 → x < p → q ≡ p * 256 → b * p + x < q
fit_digit b p x h k e = grind arith

digit_div : (b p x : ℕ) → x < p → (b * p + x) / p ≡ b
digit_div b p x h = omega (arith, mul-add-div_right {m = p} (omega arith) b x, div-eq_of_lt h)

digit_mod : (b p x : ℕ) → x < p → (b * p + x) % p ≡ x
digit_mod b p x h = mul-add-mod_self_right b p x ∙ mod-eq_of_lt h

-- What a successful read of n bytes found.
pub record ReadsBe (n acc v : ℕ) (bs rest : List ℕ) : Type 0 where
  pub value : ℕ
  pub fits : value < 256 ^ n
  pub total : v ≡ acc * 256 ^ n + value
  pub source : bs ≡ be_bytes n value ++ rest
  pub rest_bytes : All IsByte rest

pub read_be_inv :
    (n acc v : ℕ) (bs rest : List ℕ)
    → read_be n acc bs ≡ ok (v, rest)
    → All IsByte bs
    → ReadsBe n acc v bs rest
unfolding read_be be_bytes
read_be_inv zero acc v bs rest h a = record {
  value = 0;
  fits = pow_pos 0;
  total = ground arith;
  source = ground arith;
  rest_bytes = (let e : bs ≡ rest = ground arith in subst (All IsByte) e a);
}
read_be_inv (suc n) acc v [] rest h a = absurd (cc)
read_be_inv (suc n) acc v (b ∷ bs) rest h a =
    let i = read_be_inv n (acc * 256 + b) v bs rest h a.1 in
    record {
      value = b * 256 ^ n + i.value;
      fits = fit_digit b (256 ^ n) i.value a.0 i.fits (pow-suc 256 n);
      total = omega (arith, i.total, ap (λ (t : ℕ). acc * t) (pow-suc 256 n));
      source =
          rw (digit_div b (256 ^ n) i.value i.fits, digit_mod b (256 ^ n) i.value i.fits)
            (ap (λ r. b ∷ r) i.source);
      rest_bytes = i.rest_bytes;
    }

-- Checked byte by byte.
all_below : ℕ → (ℕ → Bool) → Bool
all_below zero p = true
all_below (suc n) p = p n && all_below n p

all_below_lem : (n : ℕ) (p : ℕ → Bool) (x : ℕ) → all_below n p ≡ true → x < n → p x ≡ true
unfolding all_below
all_below_lem zero p x h l = absurd (omega arith)
all_below_lem (suc n) p x h l = ground (arith, all_below_lem n p x)

low_mask_table : all_below 256 (λ b. bit_and b 0x1f == b % 32) ≡ true
unfolding all_below
low_mask_table = refl

pub low_mask : (b : ℕ) → b < 256 → bit_and b 0x1f ≡ b % 32
low_mask b h =
    (==_iff _ (b % 32)).0 (all_below_lem 256 (λ x. bit_and x 0x1f == x % 32) b low_mask_table h)

abbrev pub IsMajor : ℕ → Type 0
IsMajor m = (m ≡ 0) ⊎ (m ≡ 2) ⊎ (m ≡ 5)

abbrev joins : ℕ → ℕ → Bool
joins m x = bit_or (m * 32) x == m * 32 + x

or_table : all_below 32 (λ x. joins 0 x && (joins 2 x && joins 5 x)) ≡ true
unfolding all_below
or_table = refl

joined : (x : ℕ) → x < 32 → (joins 0 x && (joins 2 x && joins 5 x)) ≡ true
joined x h = all_below_lem 32 (λ x. joins 0 x && (joins 2 x && joins 5 x)) x or_table h

pub bit_or_head : (m x : ℕ) → IsMajor m → x < 32 → bit_or (m * 32) x ≡ m * 32 + x
bit_or_head m x (inl e) h = rw e (ground (arith, joined x h))
bit_or_head m x (inr (inl e)) h = rw e (ground (arith, joined x h))
bit_or_head m x (inr (inr e)) h = rw e (ground (arith, joined x h))
