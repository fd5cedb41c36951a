-- ===== src/Authority/Graph/Order.antt =====
-- When the search of core/src/authority.rs finishes, the groups have an order in which each comes after the
-- groups that it refers to.
use lychgate.Prelude.{
  ℕ, zero, suc, ◌≡◌, ap, ◌∙◌, sym, subst, true, false, ◌||◌, List, [], ◌∷◌, some, ok, >>=-eq-ok,
  Option-cases, inl, inr, arith,
}
use lychgate.Prelude.Text.{Text, text_eq_iff}
use lychgate.Prelude.TextSet.{contains}
use lychgate.Prelude.TextMap.{TextMap, get, insert, keys, get-insert}
use lychgate.Authority.{Authority}
use lychgate.Authority.Graph.{
  Colour, white, grey, black, Stack, Groups, push_children, descend, search, check_group_acyclic,
  all_white,
}
use lychgate.Authority.Graph.Covering.{
  entered_blacks, entered-Known, left-Known, names, IsOrdered, IsCovered, IsCovered-Within, Known,
  pushes, push_children_inv, kept_entering, kept_leaving, entered-IsCovered,
}

module _ (groups : Groups) where
  -- A run of the loop over the stack keeps what is known, and finishes all that was on the stack.
  record Finished (order : List Text) (stack : Stack) (colour' : TextMap Colour) : Type 0 where
    order' : List Text
    ordered : IsOrdered groups order'
    known : Known groups order' colour' []
    kept :
        (c : Text)
        → (contains c (names stack) || contains c order) ≡ true
        → contains c order' ≡ true

  entering :
      (fuel : ℕ) (colour colour' : TextMap Colour) (node : Text) (g : Authority) (stack : Stack)
      → get node groups ≡ some g
      → descend (suc fuel) groups colour ((node, true) ∷ stack) ≡ ok colour'
      → (mid : Stack) × (push_children (insert node grey colour) g.factors ((node, false) ∷ stack)
          ≡ ok mid)
        × (descend fuel groups (insert node grey colour) mid ≡ ok colour')
  unfolding descend
  entering fuel colour colour' node g stack e h =
      >>=-eq-ok (push_children (insert node grey colour) g.factors ((node, false) ∷ stack))
        (descend fuel groups (insert node grey colour)) (ground (arith, e))

  descend-Finished :
      (fuel : ℕ) (colour colour' : TextMap Colour) (stack : Stack) (order : List Text)
      → Known groups order colour (names stack)
      → IsOrdered groups order
      → IsCovered groups [] order stack
      → descend fuel groups colour stack ≡ ok colour'
      → Finished order stack colour'
  unfolding descend contains
  descend-Finished fuel colour colour' [] order k o v h = record {
    order' = order;
    ordered = o;
    known = subst (λ c. Known groups order c []) (let e : colour ≡ colour' = ground arith in e) k;
    kept = λ c m. m;
  }
  descend-Finished zero colour colour' (_ ∷ _) order k o v h = cc
  descend-Finished (suc fuel) colour colour' ((node, true) ∷ stack) order k o v h =
      elim (Option-cases (get node groups)) [
        | inl e ↦ absurd (ground (arith, e))
        | inr (g, e) ↦
            let (mid, p, q) = entering fuel colour colour' node g stack e h in
            let (ns, es, a) =
              push_children_inv groups (insert node grey colour) order g.factors
                ((node, false) ∷ stack) mid (entered_blacks groups colour order node stack k) p in
            let after = pushes groups ns ((node, false) ∷ stack) in
            let f =
              descend-Finished fuel (insert node grey colour) colour' after order
                (entered-Known groups colour order node stack k ns) o
                (entered-IsCovered groups order node g ns stack e a v)
                (ap (λ s. descend fuel groups (insert node grey colour) s) (sym es) ∙ q) in
            record {
              order' = f.order';
              ordered = f.ordered;
              known = f.known;
              kept = λ c m. f.kept c (kept_entering groups c node ns stack order m);
            }
      ]
  descend-Finished (suc fuel) colour colour' ((node, false) ∷ stack) order k o v h =
      let f =
        descend-Finished fuel (insert node black colour) colour' stack (node ∷ order)
          (left-Known groups colour order node stack k) (v.0, o)
          (IsCovered-Within groups (node ∷ []) order [] (node ∷ order) stack (λ c m. ground arith)
            v.1)
          h in
      record {
        order' = f.order';
        ordered = f.ordered;
        known = f.known;
        kept = λ c m. f.kept c (kept_leaving groups c node stack order m);
      }

  -- A search that finishes leaves every start in the order.
  search-Finished :
      (fuel : ℕ) (starts : List Text) (colour colour' : TextMap Colour) (order : List Text)
      → Known groups order colour []
      → IsOrdered groups order
      → search fuel groups starts colour ≡ ok colour'
      → (order' : List Text) × IsOrdered groups order'
        × ((c : Text) → (contains c starts || contains c order) ≡ true → contains c order' ≡ true)
  unfolding search contains
  search-Finished fuel [] colour colour' order k o h = (order, o, λ c m. m)
  search-Finished fuel (start ∷ starts) colour colour' order k o h =
      elim (Option-cases (get start colour)) [
        | inl e ↦ absurd (ground (arith, e))
        | inr (white, e) ↦
            let (mid, p, q) = searching fuel start starts colour colour' e h in
            let f =
              descend-Finished fuel colour mid ((start, true) ∷ []) order
                (widened order colour start k) o tt p in
            let (order', o', m') =
              search-Finished fuel starts mid colour' f.order' f.known f.ordered q in
            (order', o', λ c m. m' c (carried c start starts order f.order' (f.kept c) m))
        | inr (grey, e) ↦
            let (order', o', m') =
              search-Finished fuel starts colour colour' order k o (ground (arith, e)) in
            (order', o', λ c m. m' c (known_start c start starts order (k.greys start e) m))
        | inr (black, e) ↦
            let (order', o', m') =
              search-Finished fuel starts colour colour' order k o (ground (arith, e)) in
            (order', o', λ c m. m' c (known_start c start starts order (k.blacks start e) m))
      ]
    where
      searching :
          (fuel : ℕ) (start : Text) (starts : List Text) (colour colour' : TextMap Colour)
          → get start colour ≡ some white
          → search fuel groups (start ∷ starts) colour ≡ ok colour'
          → (mid : TextMap Colour) × (descend fuel groups colour ((start, true) ∷ []) ≡ ok mid)
            × (search fuel groups starts mid ≡ ok colour')
      searching fuel start starts colour colour' e h =
          >>=-eq-ok (descend fuel groups colour ((start, true) ∷ [])) (search fuel groups starts)
            (ground (arith, e))

      widened :
          (order : List Text) (colour : TextMap Colour) (start : Text)
          → Known groups order colour []
          → Known groups order colour (start ∷ [])
      widened order colour start k = record {
        blacks = k.blacks;
        greys = λ c h. ground (arith, k.greys c h);
      }

      carried :
          (c start : Text) (starts order order' : List Text)
          → ((contains c (start ∷ []) || contains c order) ≡ true → contains c order' ≡ true)
          → (contains c (start ∷ starts) || contains c order) ≡ true
          → (contains c starts || contains c order') ≡ true
      carried c start starts order order' f m = ground arith

      known_start :
          (c start : Text) (starts order : List Text)
          → contains start order ≡ true
          → (contains c (start ∷ starts) || contains c order) ≡ true
          → (contains c starts || contains c order) ≡ true
      known_start c start starts order e m = ground (arith, text_eq_iff start c)

all_white-get : (ks : List Text) (c : Text) {x : Colour} → get c (all_white ks) ≡ some x → x ≡ white
unfolding all_white get
all_white-get [] c h = cc
all_white-get (k ∷ ks) c {x} h =
    ground (arith, get-insert c k white (all_white ks), all_white-get ks c {x = x})

starts_known : (groups : Groups) (ks : List Text) → Known groups [] (all_white ks) []
starts_known groups ks = record {
  blacks = λ c h. absurd (not_white (all_white-get ks c h));
  greys = λ c h. absurd (grey_not_white (all_white-get ks c h));
}
  where
    not_white : black ≡ white → ⊥
    not_white e = cc

    grey_not_white : grey ≡ white → ⊥
    grey_not_white e = cc

-- A search that finishes has put every group in the order.
pub check_group_acyclic-IsOrdered :
    (fuel : ℕ) (groups : Groups)
    → check_group_acyclic fuel groups ≡ ok tt
    → (order : List Text) × IsOrdered groups order
      × ((c : Text) → contains c (keys groups) ≡ true → contains c order ≡ true)
unfolding check_group_acyclic contains
check_group_acyclic-IsOrdered fuel groups h =
    let (colour, p, q) =
      >>=-eq-ok (search fuel groups (keys groups) (all_white (keys groups))) _ h in
    let (order, o, m) =
      search-Finished groups fuel (keys groups) (all_white (keys groups)) colour []
        (starts_known groups (keys groups)) tt p in
    (order, o, λ c i. m c (ground arith))
