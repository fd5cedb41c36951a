-- ===== src/Prelude/Decimal.antt =====
-- Decimal numerals: the printing loop that `push_u64` of wire/src/line.rs and the standard
-- `Display for u64` run, and the value that the standard `str::parse` reads.
use lychgate.Prelude.{
  ℕ, zero, suc, ◌+◌, ◌-◌, ◌*◌, ◌/◌, ◌%◌, ◌^◌, ◌<◌, ◌≡◌, refl, ap, ◌∙◌, Bool, true, false, ◌&&◌, [],
  ◌∷◌, Option, none, some, arith, ltb, leb, ◌==◌, if◌then◌else◌, Bool-cases, inl, inr, all,
  is_empty,
}
use lychgate.Prelude.Text.{Text}

abbrev pub u64_limit : ℕ
u64_limit = 2 ^ 64

abbrev pub is_ascii_digit : ℕ → Bool
is_ascii_digit c = leb 48 c && leb c 57

-- The loop fills a buffer of `room` bytes from its end: the last digit first.
pub decimal_loop : ℕ → ℕ → Text → Text
decimal_loop zero n acc = acc
decimal_loop (suc room) n acc =
    let rest = decimal_loop room (n / 10) ((48 + n % 10) ∷ acc) in
    if n / 10 == 0 then (48 + n % 10) ∷ acc else rest

-- A u64 has at most 20 digits.
unfoldable pub decimal : ℕ → Text
unfolding decimal_loop
decimal n = decimal_loop 20 n []

unfoldable pub digits_value : ℕ → Text → ℕ
digits_value v [] = v
digits_value v (c ∷ cs) = digits_value (v * 10 + (c - 48)) cs

-- `str::parse::<u64>` on a non-empty text of digits: `none` when the value does not fit.
unfoldable pub parse_digits : Text → Option ℕ
parse_digits cs = if ltb (digits_value 0 cs) u64_limit then some (digits_value 0 cs) else none

decimal_loop-value :
    (room n : ℕ) (acc : Text)
    → n < 10 ^ suc room
    → digits_value 0 (decimal_loop (suc room) n acc) ≡ digits_value n acc
unfolding decimal_loop digits_value
decimal_loop-value zero n acc h =
    let e : n / 10 ≡ 0 = omega arith in rw e (ap (λ v. digits_value v acc) (omega arith))
decimal_loop-value (suc room) n acc h = elim (Bool-cases (n / 10 == 0)) [
  | inl e ↦ rw e (ap (λ v. digits_value v acc) (ground arith))
  | inr e ↦ rw e (
      decimal_loop-value room (n / 10) ((48 + n % 10) ∷ acc) (omega arith)
      ∙ ap (λ v. digits_value v acc) (omega arith))
]

decimal_loop-digits :
    (room n : ℕ) (acc : Text)
    → all is_ascii_digit acc ≡ true
    → all is_ascii_digit (decimal_loop room n acc) ≡ true
unfolding decimal_loop
decimal_loop-digits zero n acc h = h
decimal_loop-digits (suc room) n acc h =
    ground (arith, decimal_loop-digits room (n / 10) ((48 + n % 10) ∷ acc))

decimal_loop-not_empty :
    (room n : ℕ) (c : ℕ) (acc : Text) → is_empty (decimal_loop room n (c ∷ acc)) ≡ false
unfolding decimal_loop
decimal_loop-not_empty zero n c acc = refl
decimal_loop-not_empty (suc room) n c acc =
    ground (arith, decimal_loop-not_empty room (n / 10) (48 + n % 10) (c ∷ acc))

pub digits_value-decimal : (n : ℕ) → n < u64_limit → digits_value 0 (decimal n) ≡ n
unfolding decimal
digits_value-decimal n h = decimal_loop-value 19 n [] (omega arith) ∙ (unfold digits_value in refl)

pub decimal-digits : (n : ℕ) → all is_ascii_digit (decimal n) ≡ true
unfolding decimal
decimal-digits n = decimal_loop-digits 20 n [] refl

pub decimal-not_empty : (n : ℕ) → is_empty (decimal n) ≡ false
unfolding decimal
decimal-not_empty n = ground (arith, decimal_loop-not_empty 19 (n / 10) (48 + n % 10) [])

pub parse_digits-decimal : (n : ℕ) → n < u64_limit → parse_digits (decimal n) ≡ some n
unfolding parse_digits
parse_digits-decimal n h = rw (digits_value-decimal n h) (ground arith)
