-- ===== src/Wire/Cbor/Head.antt =====
-- The head encoding of wire/src/cbor.rs: what `Writer::head` writes, `Reader::head` reads, and nothing else.
use Prim.Native.Nat.{bit_and}
use Prim.Native.String.{String}
use lychgate.Prelude.{
  ℕ, ◌+◌, ◌*◌, ◌%◌, ◌^◌, ◌<◌, ◌≤◌, ◌≡◌, ap, ◌∙◌, sym, true, List, [], ◌∷◌, ◌++◌, Result, ok, err,
  All, arith, ltb, leb, ◌==◌, if◌then◌else◌, Bool-cases, inl, inr, subst,
}
use lychgate.Wire.{WireError, malformed}
use lychgate.Wire.Cbor.{
  be_bytes, read_be, Reader, Writer, push, push_all, write_head, read_head, read_wide, read_byte,
}
use lychgate.Wire.Cbor.Bytes.{IsByte, IsMajor, bit_or_head, low_mask, read_be-be_bytes, read_be_inv}

-- The one head of a value, in plain arithmetic: the shortest form that holds it.
unfoldable pub head_bytes : ℕ → ℕ → List ℕ
head_bytes m v =
    if ltb v 24
    then (m * 32 + v) ∷ []
    else if leb v 0xff
    then (m * 32 + 24) ∷ v ∷ []
    else if leb v 0xffff
    then (m * 32 + 25) ∷ be_bytes 2 v
    else if leb v 0xffff_ffff
    then (m * 32 + 26) ∷ be_bytes 4 v
    else (m * 32 + 27) ∷ be_bytes 8 v

push_one : (b : ℕ) (w : Writer) → push_all (b ∷ []) w ≡ push b w
unfolding push_all push
push_one b w = ground arith

pub write_head-head_bytes :
    (m v : ℕ) (w : Writer) → IsMajor m → write_head m v w ≡ push_all (head_bytes m v) w
unfolding write_head head_bytes push_all
write_head-head_bytes m v w i = ground (
  arith,
  bit_or_head m v i,
  bit_or_head m 24 i (omega arith),
  bit_or_head m 25 i (omega arith),
  bit_or_head m 26 i (omega arith),
  bit_or_head m 27 i (omega arith),
  push_one (m * 32 + v) w,
)

-- The argument that the low five bits of a first byte announce.
abbrev by_info : ℕ → Reader → Result WireError (ℕ × Reader)
by_info x r =
    if ltb x 24
    then ok (x, r)
    else if x == 24
    then read_wide 1 24 r
    else if x == 25
    then read_wide 2 0x100 r
    else if x == 26
    then read_wide 4 0x1_0000 r
    else if x == 27
    then read_wide 8 0x1_0000_0000 r
    else err (malformed "indefinite or reserved length")

module _ (m : ℕ) (what : String) (small : m < 8) where
  -- A first byte of major type `m`, and its low five bits.
  initial_info : (x : ℕ) → x < 32 → bit_and (m * 32 + x) 0x1f ≡ x
  initial_info x h = low_mask (m * 32 + x) (omega arith) ∙ omega arith

  read_head_info : (x : ℕ) (r : Reader) → x < 32 → read_head m what ((m * 32 + x) ∷ r) ≡ by_info x r
  unfolding read_head read_byte
  read_head_info x r h = ground (arith, initial_info x h)

  read_wide-be_bytes :
      (n least v : ℕ) (rest : Reader)
      → v < 256 ^ n
      → least ≤ v
      → read_wide n least (be_bytes n v ++ rest) ≡ ok (v, rest)
  unfolding read_wide
  read_wide-be_bytes n least v rest h l = rw (read_be-be_bytes n 0 v rest h) (ground arith)

  one_byte : (v : ℕ) (rest : Reader) → v < 256 → be_bytes 1 v ++ rest ≡ v ∷ rest
  unfolding be_bytes
  one_byte v rest h = ap (λ b. b ∷ rest) (omega arith)

  pub read_head-head_bytes :
      (v : ℕ) (rest : Reader)
      → v < 2 ^ 64
      → read_head m what (head_bytes m v ++ rest) ≡ ok (v, rest)
  unfolding head_bytes
  read_head-head_bytes v rest h = elim (Bool-cases (ltb v 24)) [
    | inl t ↦ rw t (rw (read_head_info v rest (ground arith)) (rw t))
    | inr t ↦ rw t (elim (Bool-cases (leb v 0xff)) [
      | inl u ↦ rw u (
          rw (read_head_info 24 (v ∷ rest) (omega arith)) (
            subst (λ r. read_wide 1 24 r ≡ ok (v, rest)) (one_byte v rest (ground arith))
              (read_wide-be_bytes 1 24 v rest (ground arith) (ground arith))))
      | inr u ↦ rw u (elim (Bool-cases (leb v 0xffff)) [
        | inl x ↦ rw x (
            rw (read_head_info 25 (be_bytes 2 v ++ rest) (omega arith))
              (read_wide-be_bytes 2 0x100 v rest (ground arith) (ground arith)))
        | inr x ↦ rw x (elim (Bool-cases (leb v 0xffff_ffff)) [
          | inl y ↦ rw y (
              rw (read_head_info 26 (be_bytes 4 v ++ rest) (omega arith))
                (read_wide-be_bytes 4 0x1_0000 v rest (ground arith) (ground arith)))
          | inr y ↦ rw y (
              rw (read_head_info 27 (be_bytes 8 v ++ rest) (omega arith))
                (read_wide-be_bytes 8 0x1_0000_0000 v rest (ground arith) (ground arith)))
        ])
      ])
    ])
  ]

  -- What a successful read of a head found: the one encoding of its value, and the rest.
  pub record ReadsHead (v : ℕ) (bs rest : List ℕ) : Type 0 where
    pub source : bs ≡ head_bytes m v ++ rest
    pub fits : v < 2 ^ 64
    pub rest_bytes : All IsByte rest

  read_wide_inv :
      (n least v : ℕ) (bs rest : List ℕ)
      → read_wide n least bs ≡ ok (v, rest)
      → (read_be n 0 bs ≡ ok (v, rest)) × (least ≤ v)
  unfolding read_wide
  read_wide_inv n least v bs rest h = ground arith

  wide_inv :
      (n least v : ℕ) (bs rest : List ℕ)
      → read_wide n least bs ≡ ok (v, rest)
      → All IsByte bs
      → (v < 256 ^ n) × (least ≤ v) × (bs ≡ be_bytes n v ++ rest) × All IsByte rest
  wide_inv n least v bs rest h a =
      let (p, l) = read_wide_inv n least v bs rest h in
      let r = read_be_inv n 0 v bs rest p a in
      let e : r.value ≡ v = omega (arith, r.total) in
      (
        subst (λ x. x < 256 ^ n) e r.fits,
        l,
        subst (λ x. bs ≡ be_bytes n x ++ rest) e r.source,
        r.rest_bytes,
      )

  head_of :
      (v b : ℕ) (bs rest : List ℕ) → read_head m what (b ∷ bs) ≡ ok (v, rest) → b ≡ m * 32 + b % 32
  unfolding read_head read_byte
  head_of v b bs rest h = ground arith

  narrow_inv :
      (x v : ℕ) (bs rest : List ℕ)
      → ltb x 24 ≡ true
      → by_info x bs ≡ ok (v, rest)
      → All IsByte bs
      → ReadsHead v ((m * 32 + x) ∷ bs) rest
  unfolding head_bytes
  narrow_inv x v bs rest t h a =
      let p : bs ≡ rest = ground arith in
      record { source = ground arith; fits = ground arith; rest_bytes = subst (All IsByte) p a }

  by_info_inv :
      (x v : ℕ) (bs rest : List ℕ)
      → by_info x bs ≡ ok (v, rest)
      → All IsByte bs
      → ReadsHead v ((m * 32 + x) ∷ bs) rest
  unfolding head_bytes
  by_info_inv x v bs rest h a = elim (Bool-cases (ltb x 24)) [
    | inl t ↦ narrow_inv x v bs rest t h a
    | inr t ↦ elim (Bool-cases (x == 24)) [
      | inl u ↦
          let (f, l, s, r) = wide_inv 1 24 v bs rest (ground arith) a in
          record { source = ground (arith, one_byte v rest); fits = omega arith; rest_bytes = r }
      | inr u ↦ elim (Bool-cases (x == 25)) [
        | inl y ↦
            let (f, l, s, r) = wide_inv 2 0x100 v bs rest (ground arith) a in
            record { source = ground arith; fits = omega arith; rest_bytes = r }
        | inr y ↦ elim (Bool-cases (x == 26)) [
          | inl z ↦
              let (f, l, s, r) = wide_inv 4 0x1_0000 v bs rest (ground arith) a in
              record { source = ground arith; fits = omega arith; rest_bytes = r }
          | inr z ↦
              let (f, l, s, r) = wide_inv 8 0x1_0000_0000 v bs rest (ground arith) a in
              record { source = ground arith; fits = omega arith; rest_bytes = r }
        ]
      ]
    ]
  ]

  pub read_head_inv :
      (v : ℕ) (bs rest : List ℕ)
      → read_head m what bs ≡ ok (v, rest)
      → All IsByte bs
      → ReadsHead v bs rest
  unfolding read_head read_byte head_bytes
  read_head_inv v [] rest h a = absurd (cc)
  read_head_inv v (b ∷ bs) rest h a =
      let e = head_of v b bs rest h in
      let h' = subst (λ c. read_head m what (c ∷ bs) ≡ ok (v, rest)) e h in
      subst (λ c. ReadsHead v (c ∷ bs) rest) (sym e)
        (by_info_inv (b % 32) v bs rest (sym (read_head_info (b % 32) bs (omega arith)) ∙ h') a.1)
