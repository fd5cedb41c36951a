-- ===== src/Wire/Cbor/Entries.antt =====
-- The map entries of wire/src/cbor.rs: what is written is read back, and what is read is what is written.
use Prim.Native.String.{String}
use mathlib.Core.List.{append_assoc, append-nil}
use mathlib.Core.Path.{fun_ext}
use lychgate.Prelude.{
  ℕ, zero, suc, ◌+◌, ◌<◌, ◌≤◌, ◌^◌, ◌≡◌, refl, ap, ◌∙◌, sym, subst, List, [], ◌∷◌, ◌++◌, Result, ok,
  ◌>>=◌, All, All-split, arith, length, length-append, inl, inr, Result-cases, >>=-eq-ok,
}
use lychgate.Wire.{WireError}
use lychgate.Wire.Cbor.{
  Reader, Writer, push, push_all, write_head, write_uint_entry, write_bstr_entry, read_head,
  read_key, read_uint_entry, read_uint_entry_u32, read_bytes, read_bstr16_entry,
}
use lychgate.Wire.Cbor.Bytes.{IsByte}
use lychgate.Wire.Cbor.Head.{head_bytes, write_head-head_bytes, read_head-head_bytes, read_head_inv}

unfoldable pub uint_item : ℕ → ℕ → List ℕ
uint_item key value = head_bytes 0 key ++ head_bytes 0 value

unfoldable pub bstr_item : ℕ → List ℕ → List ℕ
bstr_item key value = head_bytes 0 key ++ (head_bytes 2 (length value) ++ value)

-- Writing is appending, as long as the buffer has room.
pub push_all-append :
    (xs ys : List ℕ) (w : Writer) → push_all (xs ++ ys) w ≡ (push_all xs w >>= push_all ys)
unfolding push_all
push_all-append [] ys w = refl
push_all-append (x ∷ xs) ys w = elim (Result-cases (push x w)) [
  | inl (w', p) ↦ rw p (push_all-append xs ys w')
  | inr (e, p) ↦ rw p
]

pub push_all_fits :
    (bs : List ℕ) (w : Writer)
    → length w.written + length bs ≤ w.capacity
    → push_all bs w ≡ ok (record w { written = w.written ++ bs })
unfolding push_all push
push_all_fits [] w h = rw append-nil
push_all_fits (b ∷ bs) w h =
    let w' : Writer = record w { written = w.written ++ (b ∷ []) } in
    let room : push b w ≡ ok w' = ground arith in
    rw room (
      push_all_fits bs w' (omega (arith, length-append w.written (b ∷ [])))
      ∙ rw (append_assoc w.written (b ∷ []) bs))

>>=-cong :
    {A B : Type 0} (m : Result WireError A) (f g : A → Result WireError B)
    → ((a : A) → f a ≡ g a)
    → (m >>= f) ≡ (m >>= g)
>>=-cong m f g h = rw (fun_ext h)

pub write_uint_entry_lem :
    (key value : ℕ) (w : Writer) → write_uint_entry key value w ≡ push_all (uint_item key value) w
unfolding write_uint_entry uint_item
write_uint_entry_lem key value w = rw (write_head-head_bytes 0 key w (inl refl)) (
    >>=-cong (push_all (head_bytes 0 key) w) (write_head 0 value) (push_all (head_bytes 0 value))
      (λ w'. write_head-head_bytes 0 value w' (inl refl))
    ∙ sym (push_all-append (head_bytes 0 key) (head_bytes 0 value) w))

pub write_bstr_entry_lem :
    (key : ℕ) (value : List ℕ) (w : Writer)
    → write_bstr_entry key value w ≡ push_all (bstr_item key value) w
unfolding write_bstr_entry bstr_item
write_bstr_entry_lem key value w = rw (write_head-head_bytes 0 key w (inl refl)) (
    >>=-cong (push_all (head_bytes 0 key) w) _ (push_all (head_bytes 2 (length value) ++ value))
      (λ w'.
        rw (write_head-head_bytes 2 (length value) w' (inr (inl refl)))
          (sym (push_all-append (head_bytes 2 (length value)) value w')))
    ∙ sym (push_all-append (head_bytes 0 key) (head_bytes 2 (length value) ++ value) w))

pub read_key_item :
    (key : ℕ) (rest : Reader) → key < 2 ^ 64 → read_key key (head_bytes 0 key ++ rest) ≡ ok rest
unfolding read_key
read_key_item key rest k =
    rw (read_head-head_bytes 0 "map key is not an unsigned integer" (omega arith) key rest k)
      (ground arith)

pub read_key_inv :
    (key : ℕ) (bs rest : Reader)
    → read_key key bs ≡ ok rest
    → All IsByte bs
    → (bs ≡ head_bytes 0 key ++ rest) × All IsByte rest
unfolding read_key
read_key_inv key bs rest h a =
    let (k, p, q) = >>=-eq-ok (read_head 0 "map key is not an unsigned integer" bs) _ h in
    let e₁ : k.0 ≡ key = ground arith in
    let e₂ : k.1 ≡ rest = ground arith in
    let i = read_head_inv 0 "map key is not an unsigned integer" (omega arith) k.0 bs k.1 p a in
    (
      subst (λ t. bs ≡ head_bytes 0 t ++ rest) e₁
          (subst (λ r. bs ≡ head_bytes 0 k.0 ++ r) e₂ i.source),
      subst (All IsByte) e₂ i.rest_bytes,
    )

pub read_uint_entry_item :
    (key value : ℕ) (what : String) (rest : Reader)
    → key < 2 ^ 64
    → value < 2 ^ 64
    → read_uint_entry key what (uint_item key value ++ rest) ≡ ok (value, rest)
unfolding read_uint_entry uint_item
read_uint_entry_item key value what rest k v =
    rw
      (
        append_assoc (head_bytes 0 key) (head_bytes 0 value) rest,
        read_key_item key (head_bytes 0 value ++ rest) k,
      )
      (read_head-head_bytes 0 what (omega arith) value rest v)

pub read_uint_entry_inv :
    (key value : ℕ) (what : String) (bs rest : Reader)
    → read_uint_entry key what bs ≡ ok (value, rest)
    → All IsByte bs
    → (bs ≡ uint_item key value ++ rest) × (value < 2 ^ 64) × All IsByte rest
unfolding read_uint_entry uint_item
read_uint_entry_inv key value what bs rest h a =
    let (r, p, q) = >>=-eq-ok (read_key key bs) _ h in
    let (e, b) = read_key_inv key bs r p a in
    let i = read_head_inv 0 what (omega arith) value r rest q b in
    (
      e
          ∙ ap (λ t. head_bytes 0 key ++ t) i.source
          ∙ sym (append_assoc (head_bytes 0 key) (head_bytes 0 value) rest),
      i.fits,
      i.rest_bytes,
    )

pub read_uint_entry_u32_item :
    (key value : ℕ) (rest : Reader)
    → key < 2 ^ 64
    → value < 2 ^ 32
    → read_uint_entry_u32 key (uint_item key value ++ rest) ≡ ok (value, rest)
unfolding read_uint_entry_u32
read_uint_entry_u32_item key value rest k v =
    rw (read_uint_entry_item key value "expected an unsigned integer" rest k (omega arith))
      (ground arith)

pub read_uint_entry_u32_inv :
    (key value : ℕ) (bs rest : Reader)
    → read_uint_entry_u32 key bs ≡ ok (value, rest)
    → All IsByte bs
    → (bs ≡ uint_item key value ++ rest) × (value < 2 ^ 32) × All IsByte rest
unfolding read_uint_entry_u32
read_uint_entry_u32_inv key value bs rest h a =
    let (k, p, q) = >>=-eq-ok (read_uint_entry key "expected an unsigned integer" bs) _ h in
    let e : k ≡ (value, rest) = ground arith in
    let l : value < 2 ^ 32 = ground arith in
    let i =
      read_uint_entry_inv key value "expected an unsigned integer" bs rest (p ∙ ap (λ t. ok t) e)
        a in
    (i.0, l, i.2)

read_bytes_all : (bs rest : List ℕ) → read_bytes (length bs) (bs ++ rest) ≡ ok (bs, rest)
unfolding read_bytes
read_bytes_all [] rest = refl
read_bytes_all (b ∷ bs) rest = rw (read_bytes_all bs rest)

read_bytes_inv :
    (n : ℕ) (bs value rest : List ℕ)
    → read_bytes n bs ≡ ok (value, rest)
    → (bs ≡ value ++ rest) × (length value ≡ n)
unfolding read_bytes
read_bytes_inv zero bs value rest h = ground arith
read_bytes_inv (suc n) [] value rest h = absurd (cc)
read_bytes_inv (suc n) (b ∷ bs) value rest h =
    let (r, p, q) = >>=-eq-ok (read_bytes n bs) _ h in
    let (e, l) = read_bytes_inv n bs r.0 r.1 p in ground arith

pub read_bstr16_entry_item :
    (key : ℕ) (value rest : List ℕ)
    → key < 2 ^ 64
    → length value ≡ 16
    → read_bstr16_entry key (bstr_item key value ++ rest) ≡ ok (value, rest)
unfolding read_bstr16_entry bstr_item
read_bstr16_entry_item key value rest k l =
    rw
      (
        append_assoc (head_bytes 0 key) (head_bytes 2 (length value) ++ value) rest,
        read_key_item key ((head_bytes 2 (length value) ++ value) ++ rest) k,
        append_assoc (head_bytes 2 (length value)) value rest,
        read_head-head_bytes 2 "expected a byte string" (omega arith) (length value) (value ++ rest)
            (omega arith),
      )
      (rw l (rw (← l) (read_bytes_all value rest)))

pub read_bstr16_entry_inv :
    (key : ℕ) (bs value rest : List ℕ)
    → read_bstr16_entry key bs ≡ ok (value, rest)
    → All IsByte bs
    → (bs ≡ bstr_item key value ++ rest) × (length value ≡ 16) × All IsByte value × All IsByte rest
unfolding read_bstr16_entry bstr_item
read_bstr16_entry_inv key bs value rest h a =
    let (r₁, p₁, q₁) = >>=-eq-ok (read_key key bs) _ h in
    let (r₂, p₂, q₂) = >>=-eq-ok (read_head 2 "expected a byte string" r₁) _ q₁ in
    let (e, b) = read_key_inv key bs r₁ p₁ a in
    let i = read_head_inv 2 "expected a byte string" (omega arith) r₂.0 r₁ r₂.1 p₂ b in
    let sixteen : r₂.0 ≡ 16 = ground arith in
    let q₃ : read_bytes 16 r₂.1 ≡ ok (value, rest) = ground arith in
    let (f, l) = read_bytes_inv 16 r₂.1 value rest q₃ in
    let (v, w) = All-split IsByte value rest (subst (All IsByte) f i.rest_bytes) in
    let s : r₁ ≡ head_bytes 2 (length value) ++ (value ++ rest) =
      subst (λ t. r₁ ≡ head_bytes 2 (length value) ++ t) f
        (subst (λ n. r₁ ≡ head_bytes 2 n ++ r₂.1) (sixteen ∙ sym l) i.source) in
    (
      e
          ∙ ap (λ t. head_bytes 0 key ++ t)
              (s ∙ sym (append_assoc (head_bytes 2 (length value)) value rest))
          ∙ sym (append_assoc (head_bytes 0 key) (head_bytes 2 (length value) ++ value) rest),
      l,
      v,
      w,
    )
