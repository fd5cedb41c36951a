-- ===== src/Authority/Spec/Build/Checked.antt =====
-- What loading a policy checks: core/src/authority.rs.
use lychgate.Prelude.{
  ℕ, ◌+◌, ◌≤◌, ◌<◌, ◌≡◌, refl, subst, Bool, true, false, List, [], ◌∷◌, some, Result, ok, err,
  >>=-eq-ok, is_empty, refuse_if, map_err, ltb, ◌==◌, all, leb, ◌&&◌, arith, Option-cases,
  Bool-cases, Result-cases, inl, inr,
}
use lychgate.Prelude.Text.{Text, text_eq}
use lychgate.Prelude.TextSet.{TextSet}
use lychgate.Prelude.TextMap.{TextMap, get, insert, contains_key, get-insert}
use lychgate.Clock.{from_secs}
use lychgate.Ttl.{Ttl, parse, max_ttl_secs}
use lychgate.Ttl.Laws.{parse-IsValid}
use lychgate.Approval.{Codec}
use lychgate.Approval.Fido2.{Webauthn}
use lychgate.Authority.{Authority, WeightedFactor, Factor, authenticator, group, wait}
use lychgate.Authority.Graph.{Groups, check_group_acyclic}
use lychgate.Authority.Spec.{
  FactorSpec, AuthoritySpec, ProfileSpec, ApprovalSpec, Kind, factor_of, build_factors,
  build_authority, check_factor_refs, check_refs, check_all_refs, zero_weight, no_profiles,
  empty_id, zero_threshold, no_factors, unsatisfiable, duplicate_group, duplicate_profile, groups,
  profiles,
}
use lychgate.Authority.Spec.Build.{
  Keys, Authenticator, AuthorityModel, refused, search_error, from_spec, load_authenticators,
  load_groups, load_profiles,
}

-- A wait is a time-to-live.
abbrev pub timed : Factor → Bool
timed (wait dur) = ltb 0 dur && leb dur (from_secs max_ttl_secs)
timed (authenticator id) = true
timed (group id) = true

abbrev pub timed_factor : WeightedFactor → Bool
timed_factor wf = timed wf.factor

abbrev pub total_weight : List WeightedFactor → ℕ
total_weight [] = 0
total_weight (wf ∷ factors) = wf.weight + total_weight factors

-- An authority that needs a proof, and that all its factors together open.
pub record IsBuilt (a : Authority) : Type 0 where
  pub needs_proof : 0 < a.threshold
  pub satisfiable : a.threshold ≤ total_weight a.factors
  pub all_timed : all timed_factor a.factors ≡ true

parse-timed : (w : Text) (t : Ttl) → parse w ≡ ok t → timed (wait t.duration) ≡ true
parse-timed w t h = let v = parse-IsValid w h in ground (arith, v.positive, v.capped, v.whole)

factor_of-timed :
    (kind : Kind) (id : Text) (fs : FactorSpec) (f : Factor)
    → factor_of kind id fs ≡ ok f
    → timed f ≡ true
unfolding factor_of
factor_of-timed kind id fs f h = elim (Option-cases fs.wait) [
  | inl e ↦ ground (arith, e)
  | inr (w, e) ↦ elim (Result-cases (parse w)) [
    | inl (t, e') ↦ ground (arith, e, e', parse-timed w t e')
    | inr (_, e') ↦ ground (arith, e, e')
  ]
]

build_factors_inv :
    (kind : Kind) (id : Text) (specs : List FactorSpec) (factors : List WeightedFactor)
    (available : ℕ)
    → build_factors kind id specs ≡ ok (factors, available)
    → (available ≡ total_weight factors) × (all timed_factor factors ≡ true)
unfolding build_factors
build_factors_inv kind id [] factors available h =
    let e : factors ≡ [] = ground (arith, h) in rw e (ground (arith, h), refl)
build_factors_inv kind id (fs ∷ specs) factors available h =
    let (_, _, h₁) = >>=-eq-ok (refuse_if (fs.weight == 0) (zero_weight kind id)) _ h in
    let (f, p, h₂) = >>=-eq-ok (factor_of kind id fs) _ h₁ in
    let (r, q, h₃) = >>=-eq-ok (build_factors kind id specs) _ h₂ in
    let (a, b) = build_factors_inv kind id specs r.0 r.1 q in
    let t = factor_of-timed kind id fs f p in
    let e : factors ≡ (record { weight = fs.weight; factor = f } ∷ r.0) = ground (arith, h₃) in
    rw e (ground (arith, h₃, a), ground (arith, t, b))

build_authority-IsBuilt :
    (kind : Kind) (id : Text) (threshold : ℕ) (specs : List FactorSpec) (a : Authority)
    → build_authority kind id threshold specs ≡ ok a
    → IsBuilt a
unfolding build_authority
build_authority-IsBuilt kind id threshold specs a h =
    let (_, _, h₁) = >>=-eq-ok (refuse_if (is_empty id) (empty_id kind)) _ h in
    let (_, p, h₂) = >>=-eq-ok (refuse_if (threshold == 0) (zero_threshold kind id)) _ h₁ in
    let (_, _, h₃) = >>=-eq-ok (refuse_if (is_empty specs) (no_factors kind id)) _ h₂ in
    let (r, q, h₄) = >>=-eq-ok (build_factors kind id specs) _ h₃ in
    let (_, s, h₅) =
      >>=-eq-ok (refuse_if (ltb r.1 threshold) (unsatisfiable kind id threshold r.1)) _ h₄ in
    let (w, t) = build_factors_inv kind id specs r.0 r.1 q in
    let e : record { threshold = threshold; factors = r.0 } ≡ a = ground (arith, h₅) in
    subst IsBuilt e (record {
      needs_proof = ground (arith, p);
      satisfiable = ground (arith, s, w);
      all_timed = t;
    })

-- Every authority of the map is built so.
abbrev pub AreBuilt : TextMap Authority → Type 0
AreBuilt m = (id : Text) (a : Authority) → get id m ≡ some a → IsBuilt a

insert-AreBuilt :
    (id : Text) (a : Authority) (m : TextMap Authority)
    → AreBuilt m
    → IsBuilt a
    → AreBuilt (insert id a m)
insert-AreBuilt id a m f b j c h = elim (Bool-cases (text_eq id j)) [
  | inl e ↦ let q : a ≡ c = ground (arith, h, e, get-insert j id a m) in subst IsBuilt q b
  | inr e ↦ f j c (ground (arith, h, e, get-insert j id a m))
]

module _ (keys : Keys) (codec : Codec) (lib : Webauthn) where
  load_groups-AreBuilt :
      (specs : List AuthoritySpec) (grps grps' : Groups)
      → AreBuilt grps
      → load_groups keys codec lib specs grps ≡ ok grps'
      → AreBuilt grps'
  unfolding load_groups
  load_groups-AreBuilt [] grps grps' f h =
      subst AreBuilt (let e : grps ≡ grps' = ground (arith, h) in e) f
  load_groups-AreBuilt (g ∷ specs) grps grps' f h =
      let (a, p, h₁) = >>=-eq-ok (build_authority groups g.id g.body.threshold g.body.factor) _ h in
      let (_, _, h₂) = >>=-eq-ok (refuse_if (contains_key g.id grps) (duplicate_group g.id)) _ h₁ in
      load_groups-AreBuilt specs (insert g.id a grps) grps'
        (insert-AreBuilt g.id a grps f
          (build_authority-IsBuilt groups g.id g.body.threshold g.body.factor a p))
        h₂

  load_profiles-AreBuilt :
      (specs : List ProfileSpec) (profs profs' : TextMap Authority) (mcp mcp' : TextSet)
      → AreBuilt profs
      → load_profiles keys codec lib specs profs mcp ≡ ok (profs', mcp')
      → AreBuilt profs'
  unfolding load_profiles
  load_profiles-AreBuilt [] profs profs' mcp mcp' f h =
      subst AreBuilt (let e : profs ≡ profs' = ground (arith, h) in e) f
  load_profiles-AreBuilt (x ∷ specs) profs profs' mcp mcp' f h =
      let (a, p, h₁) =
        >>=-eq-ok (build_authority profiles x.id x.body.threshold x.body.factor) _ h in
      let (_, _, h₂) =
        >>=-eq-ok (refuse_if (contains_key x.id profs) (duplicate_profile x.id)) _ h₁ in
      load_profiles-AreBuilt specs (insert x.id a profs) profs' _ mcp'
        (insert-AreBuilt x.id a profs f
          (build_authority-IsBuilt profiles x.id x.body.threshold x.body.factor a p))
        h₂

module _ (auths : TextMap Authenticator) (grps : Groups) where
  -- What a factor names is there.
  abbrev pub resolved : WeightedFactor → Bool
  resolved wf = elim wf.factor [
    | authenticator id ↦ contains_key id auths
    | group id ↦ contains_key id grps
    | wait dur ↦ true
  ]

  abbrev pub AreResolved : TextMap Authority → Type 0
  AreResolved m = (id : Text) (a : Authority) → get id m ≡ some a → all resolved a.factors ≡ true

  check_refs-resolved :
      (kind : Kind) (referrer : Text) (factors : List WeightedFactor)
      → check_refs auths grps kind referrer factors ≡ ok tt
      → all resolved factors ≡ true
  unfolding check_refs check_factor_refs
  check_refs-resolved kind referrer [] h = refl
  check_refs-resolved kind referrer (wf ∷ factors) h =
      let (_, p, q) = >>=-eq-ok (check_factor_refs auths grps kind referrer wf.factor) _ h in
      ground (arith, p, check_refs-resolved kind referrer factors q)

  check_all_refs-AreResolved :
      (kind : Kind) (m : TextMap Authority)
      → check_all_refs auths grps kind m ≡ ok tt
      → AreResolved m
  unfolding check_all_refs get
  check_all_refs-AreResolved kind [] h id a g = cc
  check_all_refs-AreResolved kind ((j, b) ∷ m) h id a g =
      let (_, p, q) = >>=-eq-ok (check_refs auths grps kind j b.factors) _ h in
      elim (Bool-cases (text_eq j id)) [
        | inl e ↦
            let s : b ≡ a = ground (arith, g, e) in
            subst (λ (a : Authority). all resolved a.factors ≡ true) s
              (check_refs-resolved kind j b.factors p)
        | inr e ↦ check_all_refs-AreResolved kind m q id a (ground (arith, g, e))
      ]

-- A model that its loading has checked.
pub record IsLoaded (fuel : ℕ) (model : AuthorityModel) : Type 0 where
  pub groups_built : AreBuilt model.groups
  pub profiles_built : AreBuilt model.profiles
  pub groups_resolved : AreResolved model.authenticators model.groups model.groups
  pub profiles_resolved : AreResolved model.authenticators model.groups model.profiles
  pub acyclic : check_group_acyclic fuel model.groups ≡ ok tt
  pub some_profile : is_empty model.profiles ≡ false

map_err-ok {ℓ} :
    {E F A : Type ℓ} (f : E → F) (r : Result E A) (a : A) → map_err f r ≡ ok a → r ≡ ok a
map_err-ok f (ok x) a h = ground (arith, h)
map_err-ok f (err e) a h = cc

empty-AreBuilt : AreBuilt []
unfolding get
empty-AreBuilt id a h = cc

module _ (keys : Keys) (codec : Codec) (lib : Webauthn) where
  -- A model that loads satisfies what the loader checks of a model.
  pub from_spec-IsLoaded :
      (fuel : ℕ) (spec : ApprovalSpec) (model : AuthorityModel)
      → from_spec keys codec lib fuel spec ≡ ok model
      → IsLoaded fuel model
  unfolding from_spec
  from_spec-IsLoaded fuel spec model h =
      let (auths, _, h₁) =
        >>=-eq-ok (map_err refused (load_authenticators keys codec lib spec.authenticator [])) _
          h in
      let (grps, p, h₂) =
        >>=-eq-ok (map_err refused (load_groups keys codec lib spec.group [])) _ h₁ in
      let (r, q, h₃) =
        >>=-eq-ok (map_err refused (load_profiles keys codec lib spec.profile [] [])) _ h₂ in
      let (_, s, h₄) = >>=-eq-ok (refuse_if (is_empty r.0) (refused no_profiles)) _ h₃ in
      let (_, t, h₅) = >>=-eq-ok (map_err refused (check_all_refs auths grps groups grps)) _ h₄ in
      let (_, u, h₆) = >>=-eq-ok (map_err refused (check_all_refs auths grps profiles r.0)) _ h₅ in
      let (_, v, h₇) =
        >>=-eq-ok (map_err (search_error keys codec lib) (check_group_acyclic fuel grps)) _ h₆ in
      let e : record { authenticators = auths; groups = grps; profiles = r.0; mcp_profiles = r.1 }
          ≡ model =
        ground (arith, h₇) in
      subst (IsLoaded fuel) e (record {
        groups_built =
            load_groups-AreBuilt keys codec lib spec.group [] grps empty-AreBuilt
              (map_err-ok refused _ grps p);
        profiles_built =
            load_profiles-AreBuilt keys codec lib spec.profile [] r.0 [] r.1 empty-AreBuilt
              (map_err-ok refused _ r q);
        groups_resolved =
            check_all_refs-AreResolved auths grps groups grps (map_err-ok refused _ tt t);
        profiles_resolved =
            check_all_refs-AreResolved auths grps profiles r.0 (map_err-ok refused _ tt u);
        acyclic = map_err-ok (search_error keys codec lib) _ tt v;
        some_profile = ground (arith, s);
      })
