-- ===== src/Approval/Totp/Window.antt =====
-- Which codes core/src/totp.rs accepts.
use native.Mathlib.Nat.{mod-lt}
use lychgate.Prelude.{
  ℕ, zero, suc, ◌+◌, ◌-◌, ◌/◌, ◌%◌, ◌^◌, ◌<◌, ◌≤◌, ◌≡◌, refl, ap, subst, ◌∙◌, true, false, List,
  Option, none, some, length, all, arith, inl, inr, ◌⊎◌, Bool-cases,
}
use lychgate.Prelude.Text.{Text, text_eq, text_eq_iff}
use lychgate.Prelude.Decimal.{is_ascii_digit, u64_limit}
use lychgate.Clock.{SystemTime}
use lychgate.Wire.Cbor.{be_bytes}
use lychgate.Approval.Totp.{
  Hotp, digits, zero_padded, truncated, code_at, scan, saturating_add, is_code, matches, counter_at,
}

module _ (lib : Hotp) (secret : List ℕ) (code : Text) where
  -- The answer is the one so far, or a counter in the range whose code it is.
  scan_inv :
      (count counter k : ℕ) (found : Option ℕ)
      → scan lib secret code count counter found ≡ some k
      → (found ≡ some k) ⊎ ((counter ≤ k) × (k < counter + count) × (code_at lib secret k ≡ code))
  unfolding scan
  scan_inv zero counter k found h = inl h
  scan_inv (suc count) counter k found h =
      elim (Bool-cases (text_eq (code_at lib secret counter) code)) [
        | inl e ↦ elim (scan_inv count (counter + 1) k (some counter) (ground (arith, e))) [
          | inl p ↦
              let q : counter ≡ k = ground (arith, p) in
              inr (
                omega (arith, q),
                omega (arith, q),
                subst (λ k. code_at lib secret k ≡ code) q
                    ((text_eq_iff (code_at lib secret counter) code).0 e),
              )
          | inr (a, b, c) ↦ inr (omega (arith, a), omega (arith, b), c)
        ]
        | inr e ↦ elim (scan_inv count (counter + 1) k found (ground (arith, e))) [
          | inl p ↦ inl p
          | inr (a, b, c) ↦ inr (omega (arith, a), omega (arith, b), c)
        ]
      ]

  scan_found :
      (count counter j : ℕ) → (k : ℕ) × (scan lib secret code count counter (some j) ≡ some k)
  unfolding scan
  scan_found zero counter j = (j, refl)
  scan_found (suc count) counter j = elim (Bool-cases (text_eq (code_at lib secret counter) code)) [
    | inl e ↦ rw e (scan_found count (counter + 1) counter)
    | inr e ↦ rw e (scan_found count (counter + 1) j)
  ]

  after :
      (counter k : ℕ)
      → counter ≤ k
      → code_at lib secret k ≡ code
      → text_eq (code_at lib secret counter) code ≡ false
      → counter + 1 ≤ k
  after counter k l h e =
      let f : counter ≡ k → text_eq (code_at lib secret counter) code ≡ true =
        λ q. (text_eq_iff (code_at lib secret counter) code).1 (ap (code_at lib secret) q ∙ h) in
      ground (arith, f)

  -- No counter in the range is missed.
  scan_complete :
      (count counter k : ℕ) (found : Option ℕ)
      → counter ≤ k
      → k < counter + count
      → code_at lib secret k ≡ code
      → (j : ℕ) × (scan lib secret code count counter found ≡ some j)
  unfolding scan
  scan_complete zero counter k found l u h = absurd (omega (arith, l, u))
  scan_complete (suc count) counter k found l u h =
      elim (Bool-cases (text_eq (code_at lib secret counter) code)) [
        | inl e ↦ rw e (scan_found count (counter + 1) counter)
        | inr e ↦
            rw e (
              scan_complete count (counter + 1) k found (after counter k l h e) (omega (arith, u))
                h)
      ]

length-zero_padded : (width n : ℕ) → length (zero_padded width n) ≡ width
unfolding zero_padded
length-zero_padded zero n = refl
length-zero_padded (suc width) n = ap suc (length-zero_padded width n)

all-zero_padded : (width n : ℕ) → all is_ascii_digit (zero_padded width n) ≡ true
unfolding zero_padded
all-zero_padded zero n = refl
all-zero_padded (suc width) n =
    let l : n / 10 ^ width % 10 < 10 = mod-lt (n / 10 ^ width) (omega arith) in
    ground (arith, l, all-zero_padded width n)

zero_padded-is_code : (n : ℕ) → is_code (zero_padded digits n) ≡ true
zero_padded-is_code n = ground (arith, length-zero_padded digits n, all-zero_padded digits n)

code_at-is_code : (lib : Hotp) (secret : List ℕ) (k : ℕ) → is_code (code_at lib secret k) ≡ true
unfolding code_at
code_at-is_code lib secret k =
    zero_padded-is_code (truncated (lib.hmac_sha1 secret (be_bytes 8 k)) % 10 ^ digits)

-- A step that a code matches lies within the skew of the current one, and its code is the trimmed input.
pub matches_within :
    (lib : Hotp) (secret code : List ℕ) (now : SystemTime) (skew k : ℕ)
    → matches lib secret code now skew ≡ some k
    → (counter_at now ≤ k + skew)
      × (k ≤ counter_at now + skew)
      × (code_at lib secret k ≡ lib.trim code)
unfolding matches saturating_add
matches_within lib secret code now skew k h = elim (Bool-cases (is_code (lib.trim code))) [
  | inr e ↦ absurd (ground (arith, e))
  | inl e ↦
      let lo = counter_at now - skew in
      let hi = saturating_add (counter_at now) skew in
      elim (scan_inv lib secret (lib.trim code) (suc hi - lo) lo k none (ground (arith, e))) [
        | inl p ↦ absurd (ground (arith, p))
        | inr (a, b, c) ↦ (omega (arith, a), ground (arith, b), c)
      ]
]

-- With a trim that keeps a text of six digits, the code of a 64-bit counter within the window around the
-- current one matches, and the counter that is reported has that code.
pub matches-code_at :
    (lib : Hotp) (secret : List ℕ) (now : SystemTime) (skew k : ℕ)
    → ((c : Text) → is_code c ≡ true → lib.trim c ≡ c)
    → counter_at now ≤ k + skew
    → k ≤ counter_at now + skew
    → k < u64_limit
    → (j : ℕ) × (matches lib secret (code_at lib secret k) now skew ≡ some j)
      × (code_at lib secret j ≡ code_at lib secret k)
unfolding matches saturating_add
matches-code_at lib secret now skew k law l u b =
    let code = code_at lib secret k in
    let t = law code (code_at-is_code lib secret k) in
    let lo = counter_at now - skew in
    let hi = saturating_add (counter_at now) skew in
    let (j, f) =
      scan_complete lib secret code (suc hi - lo) lo k none (omega (arith, l))
        (ground (arith, u, b, l)) refl in
    let g : matches lib secret code now skew ≡ some j =
      rw t (rw (code_at-is_code lib secret k) f) in
    let (_, _, same) = matches_within lib secret code now skew j g in (j, g, same ∙ t)
