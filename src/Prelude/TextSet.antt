-- ===== src/Prelude/TextSet.antt =====
-- `BTreeSet<String>` as the list of its members in ascending order.
use Prim.Native.Nat.{Ordering}
use lychgate.Prelude.{◌≡◌, refl, Bool, false, ◌||◌, List, [], ◌∷◌, arith}
use lychgate.Prelude.Text.{Text, text_compare, text_eq, text_compare-eq}

abbrev pub TextSet : Type 0
TextSet = List Text

unfoldable pub contains : Text → TextSet → Bool
contains k [] = false
contains k (x ∷ xs) = text_eq x k || contains k xs

unfoldable pub insert : Text → TextSet → TextSet
insert k [] = k ∷ []
insert k (x ∷ xs) = elim (text_compare k x) [
  | Ordering.lt ↦ k ∷ x ∷ xs
  | Ordering.eq ↦ x ∷ xs
  | Ordering.gt ↦ x ∷ insert k xs
]

-- `collect::<BTreeSet<_>>()`
unfoldable pub collect : List Text → TextSet
unfolding insert
collect [] = []
collect (x ∷ xs) = insert x (collect xs)

pub contains-insert :
    (j k : Text) (s : TextSet) → contains j (insert k s) ≡ (text_eq k j || contains j s)
unfolding contains insert
contains-insert j k [] = refl
contains-insert j k (x ∷ xs) = ground (arith, contains-insert j k xs, text_compare-eq k x)
