-- ===== src/Authority/Graph/Ending.antt =====
-- The bound on the rounds of the cycle check of core/src/authority.rs.
use lychgate.Prelude.{
  ap, ℕ, zero, suc, ◌+◌, ◌≤◌, ◌≡◌, ◌≢◌, refl, sym, subst, true, false, List, [], ◌∷◌, Option, none,
  some, Result, ok, err, ◌>>=◌, Result-cases, Option-cases, Bool-cases, inl, inr, arith,
}
use lychgate.Prelude.Text.{Text, text_eq, text_eq_iff, text_eq_refl}
use lychgate.Prelude.TextSet.{contains}
use lychgate.Prelude.TextMap.{TextMap, get, insert, keys, get-insert}
use lychgate.Authority.{Authority}
use lychgate.Authority.Graph.{
  Colour, white, grey, black, Stop, missing_key, out_of_fuel, Stack, Groups, push_children, descend,
  search, check_group_acyclic, all_white,
}
use lychgate.Authority.Graph.Covering.{children}
use lychgate.Authority.Graph.Pushing.{seen, entries, AreMet, AreMet-wider, push_children_step}
use lychgate.Authority.Graph.Met.{
  leaving, refers_to, IsStacked, IsWell, seen-insert, enter-IsWell, leave-IsWell,
}
use lychgate.Authority.Graph.Load.{
  load, size, load-size, load-wider, load-enter, height, height-entries, push_children_none,
  push_children_ends,
}

module _ (groups : Groups) where
  kept :
      (colour : TextMap Colour) (node c : Text)
      → seen colour c ≡ true
      → seen (insert node grey colour) c ≡ true
  kept colour node c s = ground (arith, s, seen-insert groups colour node c grey (λ h. cc))

  -- A group that is entered again has its references met.
  met_again :
      (colour : TextMap Colour) (node : Text) (g : Authority) (stack : Stack)
      → get node groups ≡ some g
      → IsWell groups colour ((node, true) ∷ stack)
      → seen colour node ≡ true
      → AreMet colour [] (children g.factors)
  unfolding refers_to contains
  met_again colour node g stack e w s =
      subst (AreMet colour [])
        (ap (λ o. elim o as (λ _. List Text) [ none ↦ [] | some g ↦ children g.factors ]) e)
        (w.searched node s
          (not_leaving colour (node ∷ []) stack (ground (arith, text_eq_refl node)) s w.stacked))
    where
      not_leaving :
          (colour : TextMap Colour) (pre : List Text) (stack : Stack)
          → contains node pre ≡ true
          → seen colour node ≡ true
          → IsStacked groups colour pre stack
          → leaving node stack ≡ false
      not_leaving colour pre [] m s h = refl
      not_leaving colour pre ((n, true) ∷ stack) m s h =
          ground (arith, not_leaving colour (n ∷ pre) stack (ground (arith, m)) s h)
      not_leaving colour pre ((n, false) ∷ stack) m s h = elim (Bool-cases (text_eq n node)) [
        | inl e ↦ absurd (
            ground (
              arith,
              m,
              subst (λ n. contains n pre ≡ false) ((text_eq_iff n node).0 e)
                  (let (_, b, _, _) = h in b),
            ))
        | inr e ↦ ground (arith, e, not_leaving colour pre stack m s (let (_, _, _, r) = h in r))
      ]

  -- Entering a group takes one pop at least off what is left.
  enter_round :
      (colour : TextMap Colour) (node : Text) (g : Authority) (stack stack' : Stack)
      → get node groups ≡ some g
      → IsWell groups colour ((node, true) ∷ stack)
      → push_children (insert node grey colour) g.factors ((node, false) ∷ stack) ≡ ok stack'
      → IsWell groups (insert node grey colour) stack'
        × (suc (load (insert node grey colour) groups + height stack')
            ≤ load colour groups + height ((node, true) ∷ stack))
  unfolding entries contains AreMet
  enter_round colour node g stack stack' e w h = elim (Bool-cases (seen colour node)) [
    | inl s ↦
        let colour' = insert node grey colour in
        let met =
          AreMet-wider colour colour' [] [] (children g.factors)
            (λ c m. ground (arith, m, kept colour node c)) (met_again colour node g stack e w s) in
        let same = push_children_none colour' g.factors ((node, false) ∷ stack) stack' met h in
        (
          subst (IsWell groups colour') (sym same) (
              enter-IsWell groups colour node g stack [] e w
                (met, λ c m. absurd (ground (arith, m)))),
          ground (arith, ap height same, load-wider colour colour' groups (kept colour node)),
        )
    | inr s ↦
        let colour' = insert node grey colour in
        let (ns, same, l, p) =
          push_children_step colour' g.factors ((node, false) ∷ stack) stack' h in
        (
          subst (IsWell groups colour') (sym same)
              (enter-IsWell groups colour node g stack ns e w p),
          ground (
            arith,
            ap height same,
            height-entries ns ((node, false) ∷ stack),
            l,
            load-enter colour colour' groups node g (kept colour node)
                (ground
                  (arith, seen-insert groups colour node node grey (λ h. cc), text_eq_refl node))
                s e,
          ),
        )
  ]

  leave_round :
      (colour : TextMap Colour) (node : Text) (stack : Stack)
      → suc (load (insert node black colour) groups + height stack)
        ≤ load colour groups + height ((node, false) ∷ stack)
  leave_round colour node stack = ground (
    arith,
    load-wider colour (insert node black colour) groups
        (λ c s. ground (arith, s, seen-insert groups colour node c black (λ h. cc))),
  )

  -- A search that ends leaves every group that it met with its references met.
  Ends : Result Stop (TextMap Colour) → Type 0
  Ends r =
      (r ≢ err out_of_fuel) × ((colour : TextMap Colour) → r ≡ ok colour → IsWell groups colour [])

  pushed-Ends :
      (colour : TextMap Colour) (g : Authority) (stack : Stack) (r : Result Stop Stack)
      (rest : Stack → Result Stop (TextMap Colour))
      → push_children colour g.factors stack ≡ r
      → ((stack' : Stack) → push_children colour g.factors stack ≡ ok stack' → Ends (rest stack'))
      → Ends (r >>= rest)
  unfolding Ends
  pushed-Ends colour g stack (err x) rest q f = (
    λ h. push_children_ends colour g.factors stack (ground (arith, q, h)),
    λ c h. absurd (ground (arith, h)),
  )
  pushed-Ends colour g stack (ok stack') rest q f = f stack' q

  entered-Ends :
      (o : Option Authority) (r : Authority → Result Stop (TextMap Colour))
      → ((g : Authority) → o ≡ some g → Ends (r g))
      → Ends (elim o [ none ↦ err missing_key | some g ↦ r g ])
  unfolding Ends
  entered-Ends none r f = (λ h. ground (arith, h), λ c h. absurd (ground (arith, h)))
  entered-Ends (some g) r f = f g refl

  -- Enough fuel is the pops that the groups not yet met and the stack can cause.
  descend-Ends :
      (fuel : ℕ) (colour : TextMap Colour) (stack : Stack)
      → IsWell groups colour stack
      → load colour groups + height stack ≤ fuel
      → Ends (descend fuel groups colour stack)
  unfolding descend Ends
  descend-Ends fuel colour [] w l =
      (λ h. ground (arith, h), λ c h. subst (λ c. IsWell groups c []) (ground (arith, h)) w)
  descend-Ends zero colour ((n, true) ∷ stack) w l = absurd (ground (arith, l))
  descend-Ends zero colour ((n, false) ∷ stack) w l = absurd (ground (arith, l))
  descend-Ends (suc fuel) colour ((node, false) ∷ stack) w l =
      descend-Ends fuel (insert node black colour) stack (leave-IsWell groups colour node stack w)
        (omega (arith, l, leave_round colour node stack))
  descend-Ends (suc fuel) colour ((node, true) ∷ stack) w l =
      entered-Ends (get node groups) _ (λ g e.
        pushed-Ends (insert node grey colour) g ((node, false) ∷ stack) _
          (descend fuel groups (insert node grey colour)) refl
          (λ stack' q.
            let (w', l') = enter_round colour node g stack stack' e w q in
            descend-Ends fuel (insert node grey colour) stack' w' (omega (arith, l, l'))))

  search_ends :
      (fuel : ℕ) (starts : List Text) (colour : TextMap Colour)
      → IsWell groups colour []
      → size groups + 2 ≤ fuel
      → search fuel groups starts colour ≢ err out_of_fuel
  unfolding search Ends
  search_ends fuel [] colour w l h = ground (arith, h)
  search_ends fuel (start ∷ starts) colour w l h = elim (Option-cases (get start colour)) [
    | inl e ↦ ground (arith, h, e)
    | inr (grey, e) ↦ search_ends fuel starts colour w l (ground (arith, h, e))
    | inr (black, e) ↦ search_ends fuel starts colour w l (ground (arith, h, e))
    | inr (white, e) ↦
        let entering : IsWell groups colour ((start, true) ∷ []) = record {
          stacked = tt;
          searched = λ n s o. w.searched n s refl;
        } in
        let (ends, well) =
          descend-Ends fuel colour ((start, true) ∷ []) entering
            (omega (arith, l, load-size colour groups)) in
        elim (Result-cases (descend fuel groups colour ((start, true) ∷ []))) [
          | inl (colour', p) ↦
              search_ends fuel starts colour' (well colour' p) l (ground (arith, h, e, p))
          | inr (x, p) ↦ ends (ground (arith, h, e, p))
        ]
  ]

nothing_seen : (ks : List Text) (c : Text) → seen (all_white ks) c ≡ false
unfolding all_white get
nothing_seen [] c = refl
nothing_seen (k ∷ ks) c = ground (arith, nothing_seen ks c, get-insert c k white (all_white ks))

-- The search for a cycle ends, on groups with cycles or missing references too: with a bound of two rounds for
-- each factor and two more, the bound is never what stops it.
pub check_group_acyclic_ends :
    (fuel : ℕ) (groups : Groups)
    → size groups + 2 ≤ fuel
    → check_group_acyclic fuel groups ≢ err out_of_fuel
unfolding check_group_acyclic
check_group_acyclic_ends fuel groups l h =
    let none_met : IsWell groups (all_white (keys groups)) [] = record {
      stacked = tt;
      searched = λ n s o. absurd (ground (arith, s, nothing_seen (keys groups) n));
    } in
    let ends = search_ends groups fuel (keys groups) (all_white (keys groups)) none_met l in
    elim (Result-cases (search fuel groups (keys groups) (all_white (keys groups)))) [
      | inl (c, e) ↦ ground (arith, h, e)
      | inr (x, e) ↦ ends (ground (arith, h, e))
    ]
