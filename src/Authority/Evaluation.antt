-- ===== src/Authority/Evaluation.antt =====
-- `evaluate` of core/src/authority.rs: it ends on groups that have an order, and more proofs and more time only
-- help.
use native.Mathlib.Numerals.{unary_clauses}
use lychgate.Prelude.{
  ℕ, zero, suc, ◌+◌, ◌≤◌, ◌≡◌, refl, subst, Bool, true, false, List, [], ◌∷◌, Option, none, some,
  Option-cases, Bool-cases, inl, inr, arith, All, length, ok,
}
use lychgate.Prelude.Text.{Text, text_eq, text_eq_iff}
use lychgate.Prelude.TextSet.{TextSet, contains}
use lychgate.Prelude.TextMap.{TextMap, get, keys}
use lychgate.Clock.{Duration}
use lychgate.Authority.{
  Authority, WeightedFactor, Factor, authenticator, group, wait, Outcome, Missing, factor_ok, tally,
  outcome, met_of, evaluate,
}
use lychgate.Authority.Graph.{Groups, check_group_acyclic}
use lychgate.Authority.Graph.Covering.{IsOrdered, Among, refers_present, children, child_onto}
use lychgate.Authority.Graph.Order.{check_group_acyclic-IsOrdered}

abbrev pub returns {ℓ} : {A : Type ℓ} → Option A → Bool
returns none = false
returns (some a) = true

-- Two answers for groups, of which the second is that of the first wherever the first has one.
abbrev Extends : (Text → Option Bool) → (Text → Option Bool) → Type 0
Extends met met' = (c : Text) (b : Bool) → met c ≡ some b → met' c ≡ some b

module _ (satisfied : TextSet) (elapsed : Duration) where
  factor_ok-returns :
      (met : Text → Option Bool) (f : Factor) (cs : List Text)
      → All (λ c. returns (met c) ≡ true) (child_onto f cs)
      → (returns (factor_ok met satisfied elapsed f) ≡ true) × All (λ c. returns (met c) ≡ true) cs
  unfolding factor_ok
  factor_ok-returns met (authenticator id) cs a = (refl, a)
  factor_ok-returns met (group id) cs a = a
  factor_ok-returns met (wait dur) cs a = (refl, a)

  tally-returns :
      (met : Text → Option Bool) (factors : List WeightedFactor)
      → All (λ c. returns (met c) ≡ true) (children factors)
      → returns (tally met satisfied elapsed factors) ≡ true
  unfolding tally
  tally-returns met [] a = refl
  tally-returns met (wf ∷ factors) a =
      let (one, rest) = factor_ok-returns met wf.factor (children factors) a in
      ground (arith, tally-returns met factors rest)

  factor_ok-Extends :
      (met met' : Text → Option Bool) (f : Factor) (b : Bool)
      → Extends met met'
      → factor_ok met satisfied elapsed f ≡ some b
      → factor_ok met' satisfied elapsed f ≡ some b
  unfolding factor_ok
  factor_ok-Extends met met' (authenticator id) b x h = h
  factor_ok-Extends met met' (group id) b x h = x id b h
  factor_ok-Extends met met' (wait dur) b x h = h

  tally-Extends :
      (met met' : Text → Option Bool) (factors : List WeightedFactor) (r : ℕ × List Missing)
      → Extends met met'
      → tally met satisfied elapsed factors ≡ some r
      → tally met' satisfied elapsed factors ≡ some r
  unfolding tally
  tally-Extends met met' [] r x h = h
  tally-Extends met met' (wf ∷ factors) r x h =
      elim (Option-cases (factor_ok met satisfied elapsed wf.factor)) [
        | inl e ↦ absurd (ground (arith, e))
        | inr (b, e) ↦ elim (Option-cases (tally met satisfied elapsed factors)) [
          | inl e' ↦ absurd (ground (arith, e, e'))
          | inr (q, e') ↦ ground (
            arith,
            e,
            e',
            factor_ok-Extends met met' wf.factor b x e,
            tally-Extends met met' factors q x e',
          )
        ]
      ]

module _ (groups : Groups) (satisfied : TextSet) (elapsed : Duration) where
  abbrev pub ends : ℕ → Text → Option Bool
  ends depth id = elim (get id groups) [
    | none ↦ some false
    | some g ↦ met_of (evaluate depth groups g satisfied elapsed)
  ]

  evaluate-Extends :
      (depth depth' : ℕ) (a : Authority) (o : Outcome)
      → Extends (ends depth) (ends depth')
      → evaluate (suc depth) groups a satisfied elapsed ≡ some o
      → evaluate (suc depth') groups a satisfied elapsed ≡ some o
  unfolding evaluate outcome
  evaluate-Extends depth depth' a o x h =
      elim (Option-cases (tally (ends depth) satisfied elapsed a.factors)) [
        | inl e ↦ absurd (ground (arith, e))
        | inr (r, e) ↦
            ground
              (arith, e, tally-Extends satisfied elapsed (ends depth) (ends depth') a.factors r x e)
      ]

  ends-step :
      (depth : ℕ)
      → ((a : Authority) (o : Outcome)
          → evaluate depth groups a satisfied elapsed ≡ some o
          → evaluate (suc depth) groups a satisfied elapsed ≡ some o)
      → Extends (ends depth) (ends (suc depth))
  ends-step depth f c b h = elim (Option-cases (get c groups)) [
    | inl e ↦ ground (arith, e)
    | inr (g, e) ↦ elim (Option-cases (evaluate depth groups g satisfied elapsed)) [
      | inl e' ↦ absurd (ground (arith, e, e'))
      | inr (o, e') ↦ ground (arith, e, e', f g o e')
    ]
  ]

  -- A deeper recursion answers what a shallower one does.
  evaluate_deeper :
      (depth : ℕ) (a : Authority) (o : Outcome)
      → evaluate depth groups a satisfied elapsed ≡ some o
      → evaluate (suc depth) groups a satisfied elapsed ≡ some o
  unfolding evaluate
  evaluate_deeper zero a o h = cc
  evaluate_deeper (suc depth) a o h =
      evaluate-Extends depth (suc depth) a o (ends-step depth (evaluate_deeper depth)) h

  evaluate_deep :
      (more depth : ℕ) (a : Authority) (o : Outcome)
      → evaluate depth groups a satisfied elapsed ≡ some o
      → evaluate (depth + more) groups a satisfied elapsed ≡ some o
  evaluate_deep zero depth a o h = simp unary_clauses h
  evaluate_deep (suc more) depth a o h =
      simp unary_clauses (evaluate_deeper (depth + more) a o (evaluate_deep more depth a o h))

  evaluate-returns :
      (depth : ℕ) (a : Authority)
      → All (λ c. returns (ends depth c) ≡ true) (children a.factors)
      → returns (evaluate (suc depth) groups a satisfied elapsed) ≡ true
  unfolding evaluate outcome
  evaluate-returns depth a h =
      ground (arith, tally-returns satisfied elapsed (ends depth) a.factors h)

  Among-All :
      (P : Text → Type 0) (order cs : List Text)
      → ((c : Text) → contains c order ≡ true → P c)
      → Among [] order cs
      → All P cs
  unfolding contains
  Among-All P order [] f h = tt
  Among-All P order (c ∷ cs) f h = (f c h.0, Among-All P order cs f h.1)

  -- A group in an order ends within the length of the order.
  ends-returns :
      (order : List Text) (depth : ℕ) (c : Text)
      → IsOrdered groups order
      → length order ≤ depth
      → contains c order ≡ true
      → returns (ends depth c) ≡ true
  unfolding contains
  ends-returns [] depth c o l h = cc
  ends-returns (n ∷ order) zero c o l h = absurd (omega (arith, l))
  ends-returns (n ∷ order) (suc depth) c o l h = elim (Bool-cases (text_eq n c)) [
    | inr e ↦ ends-returns order (suc depth) c o.1 (omega (arith, l)) (ground (arith, e))
    | inl e ↦
        subst (λ c. returns (ends (suc depth) c) ≡ true) ((text_eq_iff n c).0 e)
          (elim (Option-cases (get n groups)) [
            | inl e' ↦ ground (arith, e')
            | inr (g, e') ↦ ground (
              arith,
              e',
              evaluate-returns depth g (
                  Among-All (λ c. returns (ends depth c) ≡ true) order (children g.factors)
                    (λ c i. ends-returns order depth c o.1 (omega (arith, l)) i)
                    (subst (Among [] order) (refers_present groups n g e') o.0)),
            )
          ])
  ]

  unknown-returns : (depth : ℕ) (c : Text) → get c groups ≡ none → returns (ends depth c) ≡ true
  unknown-returns depth c e = ground (arith, e)

get-keys :
    {V : Type 0} (c : Text) (v : V) (m : TextMap V) → get c m ≡ some v → contains c (keys m) ≡ true
unfolding get contains
get-keys c v [] h = cc
get-keys c v ((k, w) ∷ m) h = ground (arith, get-keys c v m)

-- One depth serves all authorities.
pub evaluation_depth :
    (fuel : ℕ) (groups : Groups)
    → check_group_acyclic fuel groups ≡ ok tt
    → (depth : ℕ) × ((a : Authority) (satisfied : TextSet) (elapsed : Duration)
        → (o : Outcome) × ((more : ℕ)
            → evaluate (depth + more) groups a satisfied elapsed ≡ some o))
evaluation_depth fuel groups h =
    let (order, o, m) = check_group_acyclic-IsOrdered fuel groups h in
    (
      suc (length order),
      λ a satisfied elapsed. settled (length order) a satisfied elapsed (
          evaluate-returns groups satisfied elapsed (length order) a
            (children-return order o m satisfied elapsed (children a.factors))),
    )
  where
    settled :
        (depth : ℕ) (a : Authority) (satisfied : TextSet) (elapsed : Duration)
        → returns (evaluate (suc depth) groups a satisfied elapsed) ≡ true
        → (o : Outcome) × ((more : ℕ)
            → evaluate (suc depth + more) groups a satisfied elapsed ≡ some o)
    settled depth a satisfied elapsed r =
        elim (Option-cases (evaluate (suc depth) groups a satisfied elapsed)) [
          | inl e ↦ absurd (ground (arith, e))
          | inr (o, e) ↦ (o, λ more. evaluate_deep groups satisfied elapsed more (suc depth) a o e)
        ]

    children-return :
        (order : List Text)
        → IsOrdered groups order
        → ((c : Text) → contains c (keys groups) ≡ true → contains c order ≡ true)
        → (satisfied : TextSet) (elapsed : Duration) (cs : List Text)
        → All (λ c. returns (ends groups satisfied elapsed (length order) c) ≡ true) cs
    children-return order o m satisfied elapsed [] = tt
    children-return order o m satisfied elapsed (c ∷ cs) = (
      elim (Option-cases (get c groups)) [
        | inl e ↦ unknown-returns groups satisfied elapsed (length order) c e
        | inr (g, e) ↦
            ends-returns groups satisfied elapsed order (length order) c o (omega arith)
              (m c (get-keys c g groups e))
      ],
      children-return order o m satisfied elapsed cs,
    )

-- Over groups for which the cycle check finishes without an error, the evaluation of any authority ends: from
-- some depth on, every depth gives the same outcome.
pub evaluate-check_group_acyclic :
    (fuel : ℕ) (groups : Groups) (a : Authority) (satisfied : TextSet) (elapsed : Duration)
    → check_group_acyclic fuel groups ≡ ok tt
    → (depth : ℕ) × (o : Outcome) × ((more : ℕ)
        → evaluate (depth + more) groups a satisfied elapsed ≡ some o)
evaluate-check_group_acyclic fuel groups a satisfied elapsed h =
    let (depth, f) = evaluation_depth fuel groups h in
    let (o, g) = f a satisfied elapsed in (depth, o, g)
