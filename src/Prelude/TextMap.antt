-- ===== src/Prelude/TextMap.antt =====
-- `BTreeMap<String, V>` as its entries in ascending order of the keys.
use Prim.Native.Nat.{Ordering}
use lychgate.Prelude.{
  ◌≡◌, refl, Bool, false, ◌||◌, ◌&&◌, List, [], ◌∷◌, Option, none, some, arith, if◌then◌else◌,
}
use lychgate.Prelude.Text.{Text, text_compare, text_eq, text_compare-eq, text_eq_iff}

abbrev pub TextMap {ℓ} : Type ℓ → Type ℓ
TextMap V = List (Text × V)

module _ {ℓ} {V : Type ℓ} where
  unfoldable pub get : Text → TextMap V → Option V
  get k [] = none
  get k ((j, v) ∷ m) = if text_eq j k then some v else get k m

  unfoldable pub contains_key : Text → TextMap V → Bool
  contains_key k [] = false
  contains_key k ((j, v) ∷ m) = text_eq j k || contains_key k m

  unfoldable pub insert : Text → V → TextMap V → TextMap V
  insert k v [] = (k, v) ∷ []
  insert k v ((j, w) ∷ m) = elim (text_compare k j) [
    | Ordering.lt ↦ (k, v) ∷ (j, w) ∷ m
    | Ordering.eq ↦ (k, v) ∷ m
    | Ordering.gt ↦ (j, w) ∷ insert k v m
  ]

  -- A write through `get_mut`: an unknown key changes nothing.
  unfoldable pub put : Text → V → TextMap V → TextMap V
  put k v [] = []
  put k v ((j, w) ∷ m) = if text_eq j k then (j, v) ∷ m else (j, w) ∷ put k v m

  abbrev pub keys : TextMap V → List Text
  keys [] = []
  keys ((k, v) ∷ m) = k ∷ keys m

  pub get-insert :
      (j k : Text) (v : V) (m : TextMap V)
      → get j (insert k v m) ≡ (if text_eq k j then some v else get j m)
  unfolding get insert
  get-insert j k v [] = refl
  get-insert j k v ((i, w) ∷ m) =
      ground (arith, get-insert j k v m, text_compare-eq k i, text_eq_iff i j, text_eq_iff k j)

  pub get-put :
      (j k : Text) (v : V) (m : TextMap V)
      → get j (put k v m) ≡ (if text_eq k j && contains_key k m then some v else get j m)
  unfolding get put contains_key
  get-put j k v [] = ground arith
  get-put j k v ((i, w) ∷ m) =
      ground (arith, get-put j k v m, text_eq_iff i k, text_eq_iff i j, text_eq_iff k j)

  pub keys-put : (k : Text) (v : V) (m : TextMap V) → keys (put k v m) ≡ keys m
  unfolding put
  keys-put k v [] = refl
  keys-put k v ((i, w) ∷ m) = ground (arith, keys-put k v m)
