-- ===== src/Authority/Graph/Met.antt =====
-- What the search of core/src/authority.rs has met, through its rounds: the references of a group that was left were
-- met, those of one that is being left are met or above it on the stack.
use lychgate.Prelude.{
  ◌≡◌, ◌≢◌, refl, ap, ◌∙◌, sym, subst, Bool, true, false, not, ◌||◌, ◌&&◌, List, [], ◌∷◌, none,
  some, Bool-cases, inl, inr, arith,
}
use lychgate.Prelude.Text.{Text, text_eq, text_eq_iff, text_eq_refl}
use lychgate.Prelude.TextSet.{contains}
use lychgate.Prelude.TextMap.{TextMap, get, insert, get-insert}
use lychgate.Authority.{Authority}
use lychgate.Authority.Graph.{Colour, white, grey, black, Stack, Groups}
use lychgate.Authority.Graph.Covering.{children}
use lychgate.Authority.Graph.Pushing.{seen, Pushed, entries, AreMet, AreMet-wider}

-- A group that is being left.
abbrev pub leaving : Text → Stack → Bool
leaving n [] = false
leaving n ((m, b) ∷ stack) = (not b && text_eq m n) || leaving n stack

leaving-entries :
    (n : Text) (ns : List Text) (stack : Stack) → leaving n (entries ns stack) ≡ leaving n stack
unfolding entries
leaving-entries n [] stack = refl
leaving-entries n (m ∷ ns) stack = ground (arith, leaving-entries n ns stack)

module _ (groups : Groups) where
  unfoldable pub refers_to : Text → List Text
  refers_to n = elim (get n groups) [ none ↦ [] | some g ↦ children g.factors ]

  -- A group that is being left was met, is not to be entered again above, and has its references met or above.
  abbrev pub IsStacked : TextMap Colour → List Text → Stack → Type 0
  IsStacked colour pre [] = Unit {0}
  IsStacked colour pre ((n, true) ∷ stack) = IsStacked colour (n ∷ pre) stack
  IsStacked colour pre ((n, false) ∷ stack) =
      AreMet colour pre (refers_to n)
      × (contains n pre ≡ false)
      × (seen colour n ≡ true)
      × IsStacked colour pre stack

  -- A group that was met is being left, or has its references met.
  abbrev pub IsSearched : TextMap Colour → Stack → Type 0
  IsSearched colour stack =
      (n : Text) → seen colour n ≡ true → leaving n stack ≡ false → AreMet colour [] (refers_to n)

  IsStacked-change :
      (colour colour' : TextMap Colour) (pre pre' : List Text) (stack : Stack)
      → ((c : Text) → seen colour c ≡ true → seen colour' c ≡ true)
      → ((c : Text) → contains c pre ≡ true → (seen colour' c || contains c pre') ≡ true)
      → ((c : Text) → seen colour' c ≡ true → contains c pre' ≡ true → contains c pre ≡ true)
      → IsStacked colour pre stack
      → IsStacked colour' pre' stack
  unfolding contains
  IsStacked-change colour colour' pre pre' [] f g k h = tt
  IsStacked-change colour colour' pre pre' ((n, true) ∷ stack) f g k h =
      IsStacked-change colour colour' (n ∷ pre) (n ∷ pre') stack f (λ c m. ground (arith, m, g c))
        (λ c s m. ground (arith, m, k c s)) h
  IsStacked-change colour colour' pre pre' ((n, false) ∷ stack) f g k h =
      let (a, b, c, r) = h in
      (
        AreMet-wider colour colour' pre pre' (refers_to n) (λ c m. ground (arith, m, f c, g c)) a,
        ground (arith, b, k n (f n c)),
        f n c,
        IsStacked-change colour colour' pre pre' stack f g k r,
      )

  IsStacked-entries :
      (colour : TextMap Colour) (ns pre : List Text) (stack : Stack)
      → ((ms : List Text)
          → ((c : Text) → contains c ms ≡ (contains c ns || contains c pre))
          → IsStacked colour ms stack)
      → IsStacked colour pre (entries ns stack)
  unfolding entries contains
  IsStacked-entries colour [] pre stack f = f pre (λ c. refl)
  IsStacked-entries colour (n ∷ ns) pre stack f =
      IsStacked-entries colour ns (n ∷ pre) stack (λ ms e. f ms (λ c. ground (arith, e c)))

  pub record IsWell (colour : TextMap Colour) (stack : Stack) : Type 0 where
    pub stacked : IsStacked colour [] stack
    pub searched : IsSearched colour stack

  pub seen-insert :
      (colour : TextMap Colour) (n c : Text) (x : Colour)
      → x ≢ white
      → seen (insert n x colour) c ≡ (text_eq n c || seen colour c)
  seen-insert colour n c x h = ground (arith, h, get-insert c n x colour)

  pub enter-IsWell :
      (colour : TextMap Colour) (node : Text) (g : Authority) (stack : Stack) (ns : List Text)
      → get node groups ≡ some g
      → IsWell colour ((node, true) ∷ stack)
      → Pushed (insert node grey colour) (children g.factors) ns
      → IsWell (insert node grey colour) (entries ns ((node, false) ∷ stack))
  unfolding contains refers_to AreMet
  enter-IsWell colour node g stack ns e w p = record {
    stacked = IsStacked-entries colour' ns [] ((node, false) ∷ stack) (λ ms q. (
      AreMet-wider colour' colour' ns ms (refers_to node) (λ c h. ground (arith, h, q c))
          (subst (AreMet colour' ns)
            (sym
              (ap (λ o. elim o as (λ _. List Text) [ none ↦ [] | some g ↦ children g.factors ]) e))
            p.0),
      not_again ms (q node),
      ground (arith, seen-insert colour node node grey not_white, text_eq_refl node),
      IsStacked-change colour colour' (node ∷ []) ms stack kept
          (λ c m. ground (arith, m, seen-insert colour node c grey not_white))
          (λ c s m. absurd (fresh_only ms c s m (q c))) w.stacked,
    ));
    searched = λ m s l.
        let l' : leaving m ((node, false) ∷ stack) ≡ false =
          sym (leaving-entries m ns ((node, false) ∷ stack)) ∙ l in
        AreMet-wider colour colour' [] [] (refers_to m) (λ c h. ground (arith, h, kept c))
          (w.searched m (ground (arith, s, l', seen-insert colour node m grey not_white))
            (ground (arith, l')));
  }
    where
      colour' : TextMap Colour
      colour' = insert node grey colour

      not_white : grey ≢ white
      not_white h = cc

      kept : (c : Text) → seen colour c ≡ true → seen (insert node grey colour) c ≡ true
      kept c s = ground (arith, s, seen-insert colour node c grey not_white)

      fresh_only :
          (ms : List Text) (c : Text)
          → seen (insert node grey colour) c ≡ true
          → contains c ms ≡ true
          → contains c ms ≡ (contains c ns || false)
          → ⊥
      fresh_only ms c s m q = ground (arith, s, m, q, p.1 c)

      not_again :
          (ms : List Text)
          → contains node ms ≡ (contains node ns || false)
          → contains node ms ≡ false
      not_again ms q =
          ground (arith, q, p.1 node, get-insert node node grey colour, text_eq_refl node)

  pub leave-IsWell :
      (colour : TextMap Colour) (node : Text) (stack : Stack)
      → IsWell colour ((node, false) ∷ stack)
      → IsWell (insert node black colour) stack
  leave-IsWell colour node stack w = record {
    stacked =
        IsStacked-change colour (insert node black colour) [] [] stack kept
          (λ c m. ground (arith, m)) (λ c s m. m) (let (_, _, _, r) = w.stacked in r);
    searched = λ m s l.
        AreMet-wider colour (insert node black colour) [] [] (refers_to m)
          (λ c h. ground (arith, h, kept c))
          (elim (Bool-cases (text_eq node m)) [
            | inl e ↦
                subst (λ m. AreMet colour [] (refers_to m)) ((text_eq_iff node m).0 e)
                  (let (a, _, _, _) = w.stacked in a)
            | inr e ↦
                w.searched m (ground (arith, s, e, seen-insert colour node m black not_white))
                  (ground (arith, e, l))
          ]);
  }
    where
      not_white : black ≢ white
      not_white h = cc

      kept : (c : Text) → seen colour c ≡ true → seen (insert node black colour) c ≡ true
      kept c s = ground (arith, s, seen-insert colour node c black not_white)
