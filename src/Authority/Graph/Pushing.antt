-- ===== src/Authority/Graph/Pushing.antt =====
-- What entering a group pushes in the search of core/src/authority.rs: references that were not met, and the others were.
use lychgate.Prelude.{
  ◌≤◌, ◌≡◌, refl, ap, ◌∙◌, subst, Bool, true, false, ◌||◌, List, [], ◌∷◌, ◌++◌, some, ok, >>=-eq-ok,
  Option-cases, Bool-cases, inl, inr, arith, All, length, length-append,
}
use lychgate.Prelude.Text.{Text, text_eq_iff, text_eq_refl}
use lychgate.Prelude.TextSet.{contains}
use lychgate.Prelude.TextMap.{TextMap, get}
use lychgate.Authority.{WeightedFactor, Factor, authenticator, group, wait}
use lychgate.Authority.Graph.{Colour, white, grey, black, Stack, push_child, push_children}
use lychgate.Authority.Graph.Covering.{children, child_onto}

-- Whether the search has met a group.
abbrev pub seen : TextMap Colour → Text → Bool
seen colour c = elim (get c colour) [ some grey ↦ true | some black ↦ true | _ ↦ false ]

-- What one factor may push.
abbrev pub Pushed : TextMap Colour → List Text → List Text → Type 0
Pushed colour cs ns =
    All (λ c. (seen colour c || contains c ns) ≡ true) cs
    × ((c : Text) → contains c ns ≡ true → get c colour ≡ some white)

unfoldable pub entries : List Text → Stack → Stack
entries [] stack = stack
entries (n ∷ ns) stack = (n, true) ∷ entries ns stack

push_child_step :
    (colour : TextMap Colour) (f : Factor) (stack stack' : Stack)
    → push_child colour f stack ≡ ok stack'
    → (ns : List Text) × (stack' ≡ entries ns stack)
      × (length ns ≤ 1)
      × Pushed colour (child_onto f []) ns
unfolding push_child entries contains
push_child_step colour (authenticator id) stack stack' h =
    ([], ground arith, ground arith, (tt, λ c m. absurd (ground (arith, m))))
push_child_step colour (wait dur) stack stack' h =
    ([], ground arith, ground arith, (tt, λ c m. absurd (ground (arith, m))))
push_child_step colour (group child) stack stack' h = elim (Option-cases (get child colour)) [
  | inl e ↦ absurd (ground (arith, e))
  | inr (white, e) ↦ (
    child ∷ [],
    ground (arith, e),
    ground arith,
    (
      (ground (arith, e, text_eq_refl child), tt),
      λ c m. subst (λ c. get c colour ≡ some white) ((text_eq_iff child c).0 (ground (arith, m))) e,
    ),
  )
  | inr (grey, e) ↦ absurd (ground (arith, e))
  | inr (black, e) ↦ (
    [],
    ground (arith, e),
    ground arith,
    ((ground (arith, e), tt), λ c m. absurd (ground (arith, m))),
  )
]

entries-append :
    (ms ns : List Text) (stack : Stack) → entries ms (entries ns stack) ≡ entries (ms ++ ns) stack
unfolding entries
entries-append [] ns stack = refl
entries-append (m ∷ ms) ns stack = ap (λ s. (m, true) ∷ s) (entries-append ms ns stack)

contains-append :
    (c : Text) (ms ns : List Text) → contains c (ms ++ ns) ≡ (contains c ms || contains c ns)
unfolding contains
contains-append c [] ns = refl
contains-append c (m ∷ ms) ns = ground (arith, contains-append c ms ns)

unfoldable pub AreMet : TextMap Colour → List Text → List Text → Type 0
AreMet colour ns cs = All (λ c. (seen colour c || contains c ns) ≡ true) cs

-- More is seen, or on the stack.
pub AreMet-wider :
    (colour colour' : TextMap Colour) (ns ns' cs : List Text)
    → ((c : Text)
        → (seen colour c || contains c ns) ≡ true
        → (seen colour' c || contains c ns') ≡ true)
    → AreMet colour ns cs
    → AreMet colour' ns' cs
unfolding AreMet
AreMet-wider colour colour' ns ns' [] f a = tt
AreMet-wider colour colour' ns ns' (c ∷ cs) f a =
    (f c a.0, AreMet-wider colour colour' ns ns' cs f a.1)

AreMet-child_onto :
    (colour : TextMap Colour) (ns cs : List Text) (f : Factor)
    → AreMet colour ns (child_onto f [])
    → AreMet colour ns cs
    → AreMet colour ns (child_onto f cs)
unfolding AreMet
AreMet-child_onto colour ns cs (authenticator id) a b = b
AreMet-child_onto colour ns cs (wait dur) a b = b
AreMet-child_onto colour ns cs (group child) a b = (a.0, b)

Pushed-append :
    (colour : TextMap Colour) (f : Factor) (cs ns ms : List Text)
    → Pushed colour (child_onto f []) ns
    → Pushed colour cs ms
    → Pushed colour (child_onto f cs) (ms ++ ns)
unfolding AreMet
Pushed-append colour f cs ns ms p q = (
  AreMet-child_onto colour (ms ++ ns) cs f
      (AreMet-wider colour colour ns (ms ++ ns) (child_onto f [])
        (λ c h. ground (arith, h, contains-append c ms ns)) p.0)
      (AreMet-wider colour colour ms (ms ++ ns) cs
        (λ c h. ground (arith, h, contains-append c ms ns)) q.0),
  λ c h. elim (Bool-cases (contains c ms)) [
    | inl e ↦ q.1 c e
    | inr e ↦ p.1 c (ground (arith, h, e, contains-append c ms ns))
  ],
)

pub push_children_step :
    (colour : TextMap Colour) (factors : List WeightedFactor) (stack stack' : Stack)
    → push_children colour factors stack ≡ ok stack'
    → (ns : List Text) × (stack' ≡ entries ns stack)
      × (length ns ≤ length factors)
      × Pushed colour (children factors) ns
unfolding push_children entries contains
push_children_step colour [] stack stack' h =
    ([], ground arith, ground arith, (tt, λ c m. absurd (ground (arith, m))))
push_children_step colour (wf ∷ factors) stack stack' h =
    let (mid, p, q) =
      >>=-eq-ok (push_child colour wf.factor stack) (push_children colour factors) h in
    let (ns, e, l, a) = push_child_step colour wf.factor stack mid p in
    let (ms, e', l', b) = push_children_step colour factors mid stack' q in
    (
      ms ++ ns,
      e' ∙ ap (entries ms) e ∙ entries-append ms ns stack,
      omega (arith, l, l', length-append ms ns),
      Pushed-append colour wf.factor (children factors) ns ms a b,
    )
