-- ===== src/Authority/Spec/Build/Opening.antt =====
-- When the gates of a loaded policy open: `evaluate` and `from_spec` of core/src/authority.rs.
use lychgate.Prelude.{
  ℕ, zero, suc, ◌+◌, ◌≤◌, ◌≡◌, ◌≢◌, refl, sym, ap, Bool, true, false, List, [], ◌∷◌, Option, none,
  some, ok, leb, all, arith, Option-cases, inl, inr,
}
use lychgate.Prelude.Text.{Text}
use lychgate.Prelude.TextSet.{TextSet, contains}
use lychgate.Prelude.TextMap.{TextMap, get, contains_key}
use lychgate.Clock.{Duration, from_secs}
use lychgate.Ttl.{max_ttl_secs}
use lychgate.Approval.{Codec}
use lychgate.Approval.Fido2.{Webauthn}
use lychgate.Authority.{
  Authority, WeightedFactor, Factor, authenticator, group, wait, Outcome, Missing, factor_ok, tally,
  outcome, evaluate,
}
use lychgate.Authority.Graph.{Groups}
use lychgate.Authority.Evaluation.{evaluation_depth, ends}
use lychgate.Authority.Spec.{ApprovalSpec}
use lychgate.Authority.Spec.Build.{Keys, Authenticator, AuthorityModel, from_spec, profile}
use lychgate.Authority.Spec.Build.Checked.{
  IsBuilt, AreBuilt, timed, timed_factor, total_weight, resolved, AreResolved, from_spec-IsLoaded,
}

-- A tally of which no factor holds, and one of which all do.
module _ (met : Text → Option Bool) (satisfied : TextSet) (elapsed : Duration) where
  factor_ok_none :
      (f : Factor)
      → ((id : Text) → met id ≢ some true)
      → satisfied ≡ []
      → elapsed ≡ 0
      → timed f ≡ true
      → factor_ok met satisfied elapsed f ≢ some true
  unfolding factor_ok contains
  factor_ok_none (authenticator id) f s l t h =
      let e : contains id satisfied ≡ false = ap (contains id) s in ground (arith, h, e)
  factor_ok_none (group id) f s l t h = f id h
  factor_ok_none (wait dur) f s l t h = ground (arith, l, t, h)

  tally_none :
      (factors : List WeightedFactor) (weight : ℕ) (missing : List Missing)
      → ((id : Text) → met id ≢ some true)
      → satisfied ≡ []
      → elapsed ≡ 0
      → all timed_factor factors ≡ true
      → tally met satisfied elapsed factors ≡ some (weight, missing)
      → weight ≡ 0
  unfolding tally
  tally_none [] weight missing f s l t h = ground (arith, h)
  tally_none (wf ∷ factors) weight missing f s l t h =
      elim (Option-cases (tally met satisfied elapsed factors)) [
        | inl e ↦ absurd (ground (arith, h, e))
        | inr ((w, m), e) ↦
            let z = tally_none factors w m f s l (ground (arith, t)) e in
            let n = factor_ok_none wf.factor f s l (ground (arith, t)) in ground (arith, h, e, z, n)
      ]

  module _ (auths : TextMap Authenticator) (grps : Groups) where
    factor_ok_all :
        (wf : WeightedFactor)
        → ((id : Text) → contains_key id grps ≡ true → met id ≢ some false)
        → ((id : Text) → contains_key id auths ≡ true → contains id satisfied ≡ true)
        → from_secs max_ttl_secs ≤ elapsed
        → timed wf.factor ≡ true
        → resolved auths grps wf ≡ true
        → factor_ok met satisfied elapsed wf.factor ≢ some false
    unfolding factor_ok
    factor_ok_all wf f s l t r h = all_of wf.factor r t h
      where
        all_of :
            (x : Factor)
            → resolved auths grps (record { weight = wf.weight; factor = x }) ≡ true
            → timed x ≡ true
            → factor_ok met satisfied elapsed x ≢ some false
        all_of (authenticator id) r t h = ground (arith, s id r, h)
        all_of (group id) r t h = f id r h
        all_of (wait dur) r t h = ground (arith, l, t, h)

    tally_full :
        (factors : List WeightedFactor) (weight : ℕ) (missing : List Missing)
        → ((id : Text) → contains_key id grps ≡ true → met id ≢ some false)
        → ((id : Text) → contains_key id auths ≡ true → contains id satisfied ≡ true)
        → from_secs max_ttl_secs ≤ elapsed
        → all timed_factor factors ≡ true
        → all (resolved auths grps) factors ≡ true
        → tally met satisfied elapsed factors ≡ some (weight, missing)
        → weight ≡ total_weight factors
    unfolding tally
    tally_full [] weight missing f s l t r h = ground (arith, h)
    tally_full (wf ∷ factors) weight missing f s l t r h =
        elim (Option-cases (tally met satisfied elapsed factors)) [
          | inl e ↦ absurd (ground (arith, h, e))
          | inr ((w, m), e) ↦
              let z = tally_full factors w m f s l (ground (arith, t)) (ground (arith, r)) e in
              let n = factor_ok_all wf f s l (ground (arith, t)) (ground (arith, r)) in
              ground (arith, h, e, z, n)
        ]

-- What `met` says of the weight.
outcome-tally :
    (a : Authority) (r : Option (ℕ × List Missing)) (o : Outcome)
    → outcome a r ≡ some o
    → (w : ℕ) × (m : List Missing) × (r ≡ some (w, m)) × (o.met ≡ leb a.threshold w)
unfolding outcome
outcome-tally a none o h = cc
outcome-tally a (some (w, m)) o h =
    let met_is : Option Outcome → Bool = λ x. elim x [ none ↦ false | some o ↦ o.met ] in
    (w, m, refl, sym (ap met_is h))

get-contains_key :
    (m : Groups) (id : Text) (g : Authority) → get id m ≡ some g → contains_key id m ≡ true
unfolding contains_key get
get-contains_key [] id g h = cc
get-contains_key ((k, v) ∷ m) id g h = ground (arith, get-contains_key m id g)

get_known : (m : Groups) (id : Text) → contains_key id m ≡ true → get id m ≢ none
unfolding contains_key get
get_known [] id c h = cc
get_known ((k, v) ∷ m) id c h = ground (arith, get_known m id)

ends_known :
    (m : Groups) (satisfied : TextSet) (elapsed : Duration) (depth : ℕ) (id : Text)
    → ends m satisfied elapsed depth id ≡ some true
    → contains_key id m ≡ true
ends_known m satisfied elapsed depth id h = elim (Option-cases (get id m)) [
  | inl e ↦ absurd (ground (arith, h, e))
  | inr (g, e) ↦ get-contains_key m id g e
]

-- A group answers what its own evaluation does.
ends_inv :
    (grps : Groups) (satisfied : TextSet) (elapsed : Duration) (depth : ℕ) (id : Text) (b : Bool)
    → contains_key id grps ≡ true
    → ends grps satisfied elapsed depth id ≡ some b
    → (g : Authority) × (o : Outcome) × (get id grps ≡ some g)
      × (evaluate depth grps g satisfied elapsed ≡ some o)
      × (o.met ≡ b)
ends_inv grps satisfied elapsed depth id b c h = elim (Option-cases (get id grps)) [
  | inl e ↦ absurd (get_known grps id c e)
  | inr (g, e) ↦ elim (Option-cases (evaluate depth grps g satisfied elapsed)) [
    | inl e' ↦ absurd (ground (arith, h, e, e'))
    | inr (o, e') ↦ (g, o, e, e', ground (arith, h, e, e'))
  ]
]

module _ (grps : Groups) (built : AreBuilt grps) where
  evaluate_none :
      (depth : ℕ) (a : Authority) (o : Outcome)
      → IsBuilt a
      → evaluate depth grps a [] 0 ≡ some o
      → o.met ≡ false
  unfolding evaluate
  evaluate_none zero a o b h = cc
  evaluate_none (suc depth) a o b h =
      let (w, m, p, q) = outcome-tally a (tally (ends grps [] 0 depth) [] 0 a.factors) o h in
      let z =
        tally_none (ends grps [] 0 depth) [] 0 a.factors w m
          (λ id k. closed depth id (λ g e o h. evaluate_none depth g o (built id g e) h) k) refl
          refl b.all_timed p in
      ground (arith, q, z, b.needs_proof)
    where
      closed :
          (depth : ℕ) (id : Text)
          → ((g : Authority)
              → get id grps ≡ some g
              → (o : Outcome) → evaluate depth grps g [] 0 ≡ some o
              → o.met ≡ false)
          → ends grps [] 0 depth id ≢ some true
      closed depth id f k =
          let (g, o, e, h, t) =
            ends_inv grps [] 0 depth id true (ends_known grps [] 0 depth id k) k in
          ground (arith, f g e o h, t)

  module _ (auths : TextMap Authenticator) (linked : AreResolved auths grps grps)
      (satisfied : TextSet) (elapsed : Duration)
      (held : (id : Text) → contains_key id auths ≡ true → contains id satisfied ≡ true)
      (waited : from_secs max_ttl_secs ≤ elapsed) where
    evaluate_full :
        (depth : ℕ) (a : Authority) (o : Outcome)
        → IsBuilt a
        → all (resolved auths grps) a.factors ≡ true
        → evaluate depth grps a satisfied elapsed ≡ some o
        → o.met ≡ true
    unfolding evaluate
    evaluate_full zero a o b r h = cc
    evaluate_full (suc depth) a o b r h =
        let met = ends grps satisfied elapsed depth in
        let (w, m, p, q) = outcome-tally a (tally met satisfied elapsed a.factors) o h in
        let z =
          tally_full met satisfied elapsed auths grps a.factors w m
            (λ id c k.
              opened depth id c
                (λ g e o h. evaluate_full depth g o (built id g e) (linked id g e) h) k)
            held waited b.all_timed r p in
        ground (arith, q, z, b.satisfiable)
      where
        opened :
            (depth : ℕ) (id : Text)
            → contains_key id grps ≡ true
            → ((g : Authority)
                → get id grps ≡ some g
                → (o : Outcome) → evaluate depth grps g satisfied elapsed ≡ some o
                → o.met ≡ true)
            → ends grps satisfied elapsed depth id ≢ some false
        opened depth id c f k =
            let (g, o, e, h, t) = ends_inv grps satisfied elapsed depth id false c k in
            ground (arith, f g e o h, t)

module _ (keys : Keys) (codec : Codec) (lib : Webauthn) where
  -- No profile of a policy that loads is met with no authenticator at the instant of the request.
  pub from_spec_closed :
      (fuel depth : ℕ) (spec : ApprovalSpec) (model : AuthorityModel) (id : Text) (a : Authority)
      (o : Outcome)
      → from_spec keys codec lib fuel spec ≡ ok model
      → profile model id ≡ some a
      → evaluate depth model.groups a [] 0 ≡ some o
      → o.met ≡ false
  unfolding profile
  from_spec_closed fuel depth spec model id a o h p e =
      let l = from_spec-IsLoaded keys codec lib fuel spec model h in
      evaluate_none model.groups l.groups_built depth a o (l.profiles_built id a p) e

  -- In a policy that loads, with all its authenticators held and a time elapsed that is at least the cap on a
  -- ttl, the evaluation of each profile ends and the profile is met.
  pub from_spec_opens :
      (fuel : ℕ) (spec : ApprovalSpec) (model : AuthorityModel) (id : Text) (a : Authority)
      (satisfied : TextSet) (elapsed : Duration)
      → from_spec keys codec lib fuel spec ≡ ok model
      → profile model id ≡ some a
      → ((j : Text) → contains_key j model.authenticators ≡ true → contains j satisfied ≡ true)
      → from_secs max_ttl_secs ≤ elapsed
      → (depth : ℕ) × (o : Outcome) × (evaluate depth model.groups a satisfied elapsed ≡ some o)
        × (o.met ≡ true)
  unfolding profile
  from_spec_opens fuel spec model id a satisfied elapsed h p held waited =
      let l = from_spec-IsLoaded keys codec lib fuel spec model h in
      let (depth, f) = evaluation_depth fuel model.groups l.acyclic in
      let (o, g) = f a satisfied elapsed in
      let e = g 0 in
      (
        depth + 0,
        o,
        e,
        evaluate_full model.groups l.groups_built model.authenticators l.groups_resolved satisfied
            elapsed held waited (depth + 0) a o (l.profiles_built id a p)
            (l.profiles_resolved id a p) e,
      )
