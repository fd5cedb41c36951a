-- ===== src/Authority/Graph/Covering.antt =====
-- The stack of the cycle check of core/src/authority.rs: what it holds for the groups that are not finished.
use lychgate.Prelude.{
  ◌≡◌, refl, ap, ◌∙◌, sym, subst, true, false, ◌||◌, List, [], ◌∷◌, ◌++◌, none, some, ok, >>=-eq-ok,
  Option-cases, inl, inr, arith,
}
use lychgate.Prelude.Text.{Text, text_eq, text_eq_refl}
use lychgate.Prelude.TextSet.{contains}
use lychgate.Prelude.TextMap.{TextMap, get, insert, get-insert}
use lychgate.Authority.{Authority, WeightedFactor, Factor, authenticator, group, wait}
use lychgate.Authority.Graph.{Colour, white, grey, black, Stack, Groups, push_child, push_children}

-- The groups that factors refer to.
abbrev pub child_onto : Factor → List Text → List Text
child_onto (group child) cs = child ∷ cs
child_onto (authenticator id) cs = cs
child_onto (wait dur) cs = cs

abbrev pub children : List WeightedFactor → List Text
children [] = []
children (wf ∷ factors) = child_onto wf.factor (children factors)

abbrev pub names : Stack → List Text
names [] = []
names ((n, b) ∷ stack) = n ∷ names stack

-- Each of `cs` is among the first or the second names.
abbrev pub Among : List Text → List Text → List Text → Type 0
Among pre order [] = Unit {0}
Among pre order (c ∷ cs) = ((contains c pre || contains c order) ≡ true) × Among pre order cs

abbrev pub Within : List Text → List Text → List Text → List Text → Type 0
Within pre order pre' order' =
    (c : Text)
    → (contains c pre || contains c order) ≡ true
    → (contains c pre' || contains c order') ≡ true

pub Among-Within :
    (pre order pre' order' cs : List Text)
    → Within pre order pre' order'
    → Among pre order cs
    → Among pre' order' cs
Among-Within pre order pre' order' [] w a = tt
Among-Within pre order pre' order' (c ∷ cs) w a =
    (w c a.0, Among-Within pre order pre' order' cs w a.1)

module _ (groups : Groups) where
  abbrev pub refers : Text → List Text
  refers n = elim (get n groups) [ none ↦ [] | some g ↦ children g.factors ]

  -- The finished groups, the last one first: each comes after all that it refers to.
  abbrev pub IsOrdered : List Text → Type 0
  IsOrdered [] = Unit {0}
  IsOrdered (n ∷ order) = Among [] order (refers n) × IsOrdered order

  -- A group that is being left has its references finished, or above it on the stack.
  abbrev pub IsCovered : List Text → List Text → Stack → Type 0
  IsCovered pre order [] = Unit {0}
  IsCovered pre order ((n, true) ∷ stack) = IsCovered (n ∷ pre) order stack
  IsCovered pre order ((n, false) ∷ stack) =
      Among pre order (refers n) × IsCovered (n ∷ pre) order stack

  pub Within-cons :
      (pre order pre' order' : List Text) (n : Text)
      → Within pre order pre' order'
      → Within (n ∷ pre) order (n ∷ pre') order'
  unfolding contains
  Within-cons pre order pre' order' n w c h = ground (arith, w c)

  pub IsCovered-Within :
      (pre order pre' order' : List Text) (stack : Stack)
      → Within pre order pre' order'
      → IsCovered pre order stack
      → IsCovered pre' order' stack
  IsCovered-Within pre order pre' order' [] w h = tt
  IsCovered-Within pre order pre' order' ((n, true) ∷ stack) w h =
      IsCovered-Within (n ∷ pre) order (n ∷ pre') order' stack
        (Within-cons pre order pre' order' n w) h
  IsCovered-Within pre order pre' order' ((n, false) ∷ stack) w h = (
    Among-Within pre order pre' order' (refers n) w h.0,
    IsCovered-Within (n ∷ pre) order (n ∷ pre') order' stack (Within-cons pre order pre' order' n w)
        h.1,
  )

  -- A coloured group is finished, or on the stack while it is grey.
  pub record Known (order : List Text) (colour : TextMap Colour) (above : List Text) : Type 0 where
    pub blacks : (c : Text) → get c colour ≡ some black → contains c order ≡ true
    pub greys :
        (c : Text) → get c colour ≡ some grey → (contains c above || contains c order) ≡ true

  pub pushes : List Text → Stack → Stack
  pushes [] stack = stack
  pushes (n ∷ ns) stack = pushes ns ((n, true) ∷ stack)

  pub IsCovered-pushes :
      (order ns : List Text) (stack : Stack)
      → IsCovered ns order stack
      → IsCovered [] order (pushes ns stack)
  unfolding pushes
  IsCovered-pushes order [] stack h = h
  IsCovered-pushes order (n ∷ ns) stack h = IsCovered-pushes order ns ((n, true) ∷ stack) h

  pub contains-pushes :
      (c : Text) (ns : List Text) (stack : Stack)
      → contains c (names stack) ≡ true
      → contains c (names (pushes ns stack)) ≡ true
  unfolding pushes contains
  contains-pushes c [] stack h = h
  contains-pushes c (n ∷ ns) stack h = contains-pushes c ns ((n, true) ∷ stack) (ground arith)

  -- What one factor adds: a group that is pushed, or one that is finished, or none.
  pub push_child_inv :
      (colour : TextMap Colour) (order : List Text) (f : Factor) (stack stack' : Stack)
      (cs : List Text)
      → ((c : Text) → get c colour ≡ some black → contains c order ≡ true)
      → push_child colour f stack ≡ ok stack'
      → (ns : List Text) × (stack' ≡ pushes ns stack)
        × ((ms : List Text) → Among ms order cs → Among (ns ++ ms) order (child_onto f cs))
  unfolding push_child pushes
  push_child_inv colour order (authenticator id) stack stack' cs b h = ([], ground arith, λ ms a. a)
  push_child_inv colour order (wait dur) stack stack' cs b h = ([], ground arith, λ ms a. a)
  push_child_inv colour order (group child) stack stack' cs b h =
      elim (Option-cases (get child colour)) [
        | inl e ↦ absurd (ground (arith, e))
        | inr (white, e) ↦ (
          child ∷ [],
          ground (arith, e),
          λ ms a. (
            unfold contains in ground (arith, text_eq_refl child),
            Among-Within ms order (child ∷ ms) order cs (unfold contains in λ c w. ground arith) a,
          ),
        )
        | inr (grey, e) ↦ absurd (ground (arith, e))
        | inr (black, e) ↦ ([], ground (arith, e), λ ms a. (ground (arith, b child e), a))
      ]

  pub pushes-append :
      (ms ns : List Text) (stack : Stack) → pushes ns (pushes ms stack) ≡ pushes (ms ++ ns) stack
  unfolding pushes
  pushes-append [] ns stack = refl
  pushes-append (m ∷ ms) ns stack = pushes-append ms ns ((m, true) ∷ stack)

  -- The white references of a group that is entered are pushed, and the others are finished.
  pub push_children_inv :
      (colour : TextMap Colour) (order : List Text) (factors : List WeightedFactor)
      (stack stack' : Stack)
      → ((c : Text) → get c colour ≡ some black → contains c order ≡ true)
      → push_children colour factors stack ≡ ok stack'
      → (ns : List Text) × (stack' ≡ pushes ns stack) × Among ns order (children factors)
  unfolding push_children pushes
  push_children_inv colour order [] stack stack' b h = ([], ground arith, tt)
  push_children_inv colour order (wf ∷ factors) stack stack' b h =
      let (mid, p, q) =
        >>=-eq-ok (push_child colour wf.factor stack) (push_children colour factors) h in
      let (ns, e, f) = push_child_inv colour order wf.factor stack mid (children factors) b p in
      let (ms, e', a) = push_children_inv colour order factors mid stack' b q in
      (ns ++ ms, e' ∙ ap (λ s. pushes ms s) e ∙ pushes-append ns ms stack, f ms a)

  pub contains_head :
      (c n : Text) (ns : List Text) → text_eq n c ≡ true → contains c (n ∷ ns) ≡ true
  unfolding contains
  contains_head c n ns h = ground arith

  -- The stack after `node` is entered.
  module _ (colour : TextMap Colour) (order : List Text) (node : Text) (stack : Stack)
      (k : Known order colour (node ∷ names stack)) where
    pub entered_blacks :
        (c : Text) → get c (insert node grey colour) ≡ some black → contains c order ≡ true
    entered_blacks c h = ground (arith, get-insert c node grey colour, k.blacks c)

    pub entered_greys :
        (ns : List Text) (c : Text)
        → get c (insert node grey colour) ≡ some grey
        → (contains c (names (pushes ns ((node, false) ∷ stack))) || contains c order) ≡ true
    unfolding contains
    entered_greys ns c h = ground (
      arith,
      get-insert c node grey colour,
      k.greys c,
      contains-pushes c ns ((node, false) ∷ stack),
    )

    pub entered-Known :
        (ns : List Text)
        → Known order (insert node grey colour) (names (pushes ns ((node, false) ∷ stack)))
    entered-Known ns = record { blacks = entered_blacks; greys = entered_greys ns }

    pub left-Known : Known (node ∷ order) (insert node black colour) (names stack)
    unfolding contains
    left-Known = record { blacks = λ c h. left_blacks c h; greys = λ c h. left_greys c h }
      where
        left_blacks :
            (c : Text)
            → get c (insert node black colour) ≡ some black
            → contains c (node ∷ order) ≡ true
        left_blacks c h = ground (arith, get-insert c node black colour, k.blacks c)

        left_greys :
            (c : Text)
            → get c (insert node black colour) ≡ some grey
            → (contains c (names stack) || contains c (node ∷ order)) ≡ true
        left_greys c h = ground (arith, get-insert c node black colour, k.greys c)

  pub refers_present :
      (node : Text) (g : Authority) → get node groups ≡ some g → refers node ≡ children g.factors
  refers_present node g e = ground (arith, e)

  pub kept_entering :
      (c node : Text) (ns : List Text) (stack : Stack) (order : List Text)
      → (contains c (node ∷ names stack) || contains c order) ≡ true
      → (contains c (names (pushes ns ((node, false) ∷ stack))) || contains c order) ≡ true
  kept_entering c node ns stack order h =
      ground (arith, contains-pushes c ns ((node, false) ∷ stack))

  pub kept_leaving :
      (c node : Text) (stack : Stack) (order : List Text)
      → (contains c (node ∷ names stack) || contains c order) ≡ true
      → (contains c (names stack) || contains c (node ∷ order)) ≡ true
  unfolding contains
  kept_leaving c node stack order h = ground arith

  pub entered-IsCovered :
      (order : List Text) (node : Text) (g : Authority) (ns : List Text) (stack : Stack)
      → get node groups ≡ some g
      → Among ns order (children g.factors)
      → IsCovered (node ∷ []) order stack
      → IsCovered [] order (pushes ns ((node, false) ∷ stack))
  unfolding contains
  entered-IsCovered order node g ns stack e a v =
      IsCovered-pushes order ns ((node, false) ∷ stack) (
        subst (Among ns order) (sym (refers_present node g e)) a,
        IsCovered-Within (node ∷ []) order (node ∷ ns) order stack (λ c h. ground arith) v,
      )
