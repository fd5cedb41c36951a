-- ===== src/Authority/Graph/Load.antt =====
-- The pops that are left to the search of the cycle check of core/src/authority.rs.
use lychgate.Prelude.{
  ℕ, ◌+◌, ◌*◌, ◌≤◌, ◌≡◌, ◌≢◌, ◌∙◌, sym, subst, true, false, List, [], ◌∷◌, some, ok, err, >>=-eq-ok,
  Result-cases, Bool-cases, inl, inr, arith, if◌then◌else◌, length,
}
use lychgate.Prelude.Text.{Text, text_eq, text_eq_iff}
use lychgate.Prelude.TextSet.{contains}
use lychgate.Prelude.TextMap.{TextMap, get}
use lychgate.Authority.{Authority, WeightedFactor, Factor, authenticator, group, wait}
use lychgate.Authority.Graph.{Colour, out_of_fuel, Stack, Groups, push_child, push_children}
use lychgate.Authority.Graph.Covering.{children, child_onto}
use lychgate.Authority.Graph.Pushing.{seen, entries, AreMet}

-- The pops that the groups not yet met can cause.
abbrev pub load : TextMap Colour → Groups → ℕ
load colour [] = 0
load colour ((k, g) ∷ gs) = (if seen colour k then 0 else 2 * length g.factors) + load colour gs

-- The pops that the groups can cause in all.
abbrev pub size : Groups → ℕ
size [] = 0
size ((k, g) ∷ gs) = 2 * length g.factors + size gs

pub load-size : (colour : TextMap Colour) (gs : Groups) → load colour gs ≤ size gs
load-size colour [] = ground arith
load-size colour ((k, g) ∷ gs) = ground (arith, load-size colour gs)

pub load-wider :
    (colour colour' : TextMap Colour) (gs : Groups)
    → ((c : Text) → seen colour c ≡ true → seen colour' c ≡ true)
    → load colour' gs ≤ load colour gs
load-wider colour colour' [] f = ground arith
load-wider colour colour' ((k, g) ∷ gs) f = ground (arith, f k, load-wider colour colour' gs f)

pub load-enter :
    (colour colour' : TextMap Colour) (gs : Groups) (node : Text) (g : Authority)
    → ((c : Text) → seen colour c ≡ true → seen colour' c ≡ true)
    → seen colour' node ≡ true
    → seen colour node ≡ false
    → get node gs ≡ some g
    → load colour' gs + 2 * length g.factors ≤ load colour gs
unfolding get
load-enter colour colour' [] node g f s n h = absurd (ground (arith, h))
load-enter colour colour' ((k, g') ∷ gs) node g f s n h = elim (Bool-cases (text_eq k node)) [
  | inl e ↦
      let at : k ≡ node = (text_eq_iff k node).0 e in
      let same : g' ≡ g = ground (arith, h, e) in
      let s' : seen colour' k ≡ true = subst (λ m. seen colour' m ≡ true) (sym at) s in
      let n' : seen colour k ≡ false = subst (λ m. seen colour m ≡ false) (sym at) n in
      subst (λ g. load colour' ((k, g') ∷ gs) + 2 * length g.factors ≤ load colour ((k, g') ∷ gs))
        same (ground (arith, s', n', load-wider colour colour' gs f))
  | inr e ↦ ground (arith, f k, load-enter colour colour' gs node g f s n (ground (arith, h, e)))
]

-- The pops that the stack itself causes.
abbrev pub height : Stack → ℕ
height [] = 0
height ((n, entering) ∷ stack) = (if entering then 2 else 1) + height stack

pub height-entries :
    (ns : List Text) (stack : Stack) → height (entries ns stack) ≡ 2 * length ns + height stack
unfolding entries
height-entries [] stack = ground arith
height-entries (n ∷ ns) stack = ground (arith, height-entries ns stack)

push_child_none :
    (colour : TextMap Colour) (f : Factor) (cs : List Text) (stack stack' : Stack)
    → AreMet colour [] (child_onto f cs)
    → push_child colour f stack ≡ ok stack'
    → (stack' ≡ stack) × AreMet colour [] cs
unfolding push_child AreMet contains
push_child_none colour (authenticator id) cs stack stack' a h = (ground (arith, h), a)
push_child_none colour (wait dur) cs stack stack' a h = (ground (arith, h), a)
push_child_none colour (group child) cs stack stack' a h = (ground (arith, h, a.0), a.1)

-- A group whose references are met pushes none of them.
pub push_children_none :
    (colour : TextMap Colour) (factors : List WeightedFactor) (stack stack' : Stack)
    → AreMet colour [] (children factors)
    → push_children colour factors stack ≡ ok stack'
    → stack' ≡ stack
unfolding push_children
push_children_none colour [] stack stack' a h = ground (arith, h)
push_children_none colour (wf ∷ factors) stack stack' a h =
    let (mid, p, q) =
      >>=-eq-ok (push_child colour wf.factor stack) (push_children colour factors) h in
    let (e, b) = push_child_none colour wf.factor (children factors) stack mid a p in
    push_children_none colour factors mid stack' b q ∙ e

push_child_ends :
    (colour : TextMap Colour) (f : Factor) (stack : Stack)
    → push_child colour f stack ≢ err out_of_fuel
unfolding push_child
push_child_ends colour (authenticator id) stack h = ground (arith, h)
push_child_ends colour (wait dur) stack h = ground (arith, h)
push_child_ends colour (group child) stack h = ground (arith, h)

pub push_children_ends :
    (colour : TextMap Colour) (factors : List WeightedFactor) (stack : Stack)
    → push_children colour factors stack ≢ err out_of_fuel
unfolding push_children
push_children_ends colour [] stack h = ground (arith, h)
push_children_ends colour (wf ∷ factors) stack h =
    elim (Result-cases (push_child colour wf.factor stack)) [
      | inl (mid, e) ↦ push_children_ends colour factors mid (ground (arith, h, e))
      | inr (x, e) ↦ push_child_ends colour wf.factor stack (ground (arith, h, e))
    ]
