-- ===== src/Daemon/Maturing/Ready.antt =====
-- What it takes for a pass of daemon/src/lifecycle.rs to open a request.
use lychgate.Prelude.{
  ◌≡◌, refl, ap, subst, ◌⊎◌, inl, inr, Bool, true, false, Option, none, some, Result, ok, err,
  arith, Option-cases,
}
use lychgate.Prelude.Text.{Text}
use lychgate.Clock.{SystemTime}
use lychgate.Grant.{PendingView}
use lychgate.Registry.{GrantRegistry, RegistryError}
use lychgate.Registry
use lychgate.Authority.{Authority, Outcome, evaluate}
use lychgate.Authority.Spec.Build.{AuthorityModel}
use lychgate.Daemon.{
  Host, Refusal, Outside, Daemon, find_host, known_host, registry_of, with_read_registry, ◌>>=◌,
}
use lychgate.Daemon.Frame.{
  KeepsOr, KeepsOr-bind, drivers_of, known_host_same, known_host_inv, with_read_registry_same,
  with_read_registry_inv,
}
use lychgate.Daemon.Policy.{Policy, resolve_authority}
use lychgate.Daemon.Proofs.{Factors}
use lychgate.Daemon.Maturing.{matures, mature_met, mature_resolved, mature_view, mature_one}

module _ {Secret World : Type 0} (outside : Outside Secret World) (factors : Factors)
    (policy : Policy) where
  -- The request that the state file holds is met now, and would not be without the time that has passed.
  pub record IsReady (model : AuthorityModel) (host : Text) (now : SystemTime) (d : Daemon World)
      : Type 0 where
    pub cfg : Host
    pub stored : GrantRegistry
    pub view : PendingView
    pub authority : Authority
    pub outcome : Outcome
    pub at_once : Outcome
    pub known_as : find_host host d.inventory ≡ some cfg
    pub read : registry_of outside d ≡ ok stored
    pub viewed : Registry.pending_view stored host now ≡ ok view
    pub resolved : resolve_authority model cfg view.profile ≡ ok authority
    pub evaluated :
        evaluate policy.depth model.groups authority view.satisfied view.elapsed ≡ some outcome
    pub met : outcome.met ≡ true
    pub evaluated_at_once :
        evaluate policy.depth model.groups authority view.satisfied 0 ≡ some at_once
    pub not_met_at_once : at_once.met ≡ false

  matures_inv :
      (model : AuthorityModel) (authority : Authority) (view : PendingView)
      → matures outside factors policy model authority view ≡ some true
      → (outcome : Outcome) × (at_once : Outcome) × (evaluate policy.depth model.groups authority
            view.satisfied view.elapsed
          ≡ some outcome)
        × (outcome.met ≡ true)
        × (evaluate policy.depth model.groups authority view.satisfied 0 ≡ some at_once)
        × (at_once.met ≡ false)
  unfolding matures
  matures_inv model authority view h =
      elim (Option-cases
        (evaluate policy.depth model.groups authority view.satisfied view.elapsed)) [
          | inl e ↦ absurd (ground (arith, h, e))
          | inr (o, e) ↦
              elim (Option-cases (evaluate policy.depth model.groups authority view.satisfied 0)) [
                | inl f ↦ absurd (ground (arith, h, e, f))
                | inr (p, f) ↦ (o, p, e, ground (arith, h, e, f), f, ground (arith, h, e, f))
              ]
        ]

  mature_resolved-drivers :
      (model : AuthorityModel) (host : Text) (cfg : Host) (now : SystemTime) (view : PendingView)
      (a : Result Refusal Authority) (r : GrantRegistry) (d₀ d : Daemon World)
      → find_host host d₀.inventory ≡ some cfg
      → registry_of outside d₀ ≡ ok r
      → Registry.pending_view r host now ≡ ok view
      → resolve_authority model cfg view.profile ≡ a
      → KeepsOr drivers_of
          (IsReady model host now d₀)
          (mature_resolved outside factors policy model host cfg now view a)
          d
  unfolding mature_resolved mature_met
  mature_resolved-drivers model host cfg now view (err e) r d₀ d k p q z = inl refl
  mature_resolved-drivers model host cfg now view (ok authority) r d₀ d k p q z =
      ready (matures outside factors policy model authority view) refl
    where
      ready :
          (o : Option Bool)
          → matures outside factors policy model authority view ≡ o
          → KeepsOr drivers_of
              (IsReady model host now d₀)
              (mature_met outside factors policy host cfg now view o)
              d
      ready none e = inl refl
      ready (some false) e = inl refl
      ready (some true) e =
          let (outcome, at_once, x, y, v, w) = matures_inv model authority view e in
          inr (record {
            cfg = cfg;
            stored = r;
            view = view;
            authority = authority;
            outcome = outcome;
            at_once = at_once;
            known_as = k;
            read = p;
            viewed = q;
            resolved = z;
            evaluated = x;
            met = y;
            evaluated_at_once = v;
            not_met_at_once = w;
          })

  mature_view-drivers :
      (model : AuthorityModel) (host : Text) (cfg : Host) (now : SystemTime)
      (found : Result RegistryError PendingView) (r : GrantRegistry) (d₀ d : Daemon World)
      → find_host host d₀.inventory ≡ some cfg
      → registry_of outside d₀ ≡ ok r
      → Registry.pending_view r host now ≡ found
      → KeepsOr drivers_of
          (IsReady model host now d₀)
          (mature_view outside factors policy model now host cfg found)
          d
  unfolding mature_view
  mature_view-drivers model host cfg now (err e) r d₀ d k p q = inl refl
  mature_view-drivers model host cfg now (ok view) r d₀ d k p q =
      mature_resolved-drivers model host cfg now view (resolve_authority model cfg view.profile) r
        d₀ d k p q refl

  -- A pass over one host that awaits approval leaves the drivers and their targets as they are, unless the
  -- profile of its request is met at that instant and would not be met with no time elapsed.
  pub mature_one_needs_time :
      (model : AuthorityModel) (host : Text) (now : SystemTime) (d : Daemon World)
      → ((mature_one outside factors policy model now host d).0.drivers ≡ d.drivers)
        ⊎ IsReady model host now d
  unfolding mature_one
  mature_one_needs_time model host now d =
      let asked = λ (r : GrantRegistry). Registry.pending_view r host now in
      KeepsOr-bind drivers_of (IsReady model host now d) (known_host host)
        (λ cfg.
          with_read_registry outside asked
          >>= mature_view outside factors policy model now host cfg)
        d (ap drivers_of (known_host_same host d))
        (λ cfg k.
          KeepsOr-bind drivers_of (IsReady model host now d) (with_read_registry outside asked)
            (mature_view outside factors policy model now host cfg) (known_host host d).0
            (ap drivers_of (with_read_registry_same outside asked (known_host host d).0))
            (λ found f.
              let (r, p, q) = with_read_registry_inv outside asked (known_host host d).0 found f in
              mature_view-drivers model host cfg now found r d
                (with_read_registry outside asked (known_host host d).0).0
                (known_host_inv host d cfg k)
                (subst (λ d'. registry_of outside d' ≡ ok r) (known_host_same host d) p) q))
