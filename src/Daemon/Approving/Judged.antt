-- ===== src/Daemon/Approving/Judged.antt =====
-- What follows a proof that `approve` of daemon/src/lifecycle.rs accepted drives a host only when its request is met.
use lychgate.Prelude.{
  ◌≡◌, refl, ◌∙◌, sym, ap, inl, inr, Bool, true, false, Option, none, some, Result, ok, err,
  if◌then◌else◌, Bool-cases,
}
use lychgate.Prelude.Text.{Text}
use lychgate.Clock.{SystemTime}
use lychgate.Grant.{PendingView}
use lychgate.Registry.{GrantRegistry, RegistryError}
use lychgate.Registry
use lychgate.Authority.{Authority, Outcome, evaluate}
use lychgate.Authority.Spec.Build.{AuthorityModel}
use lychgate.Daemon.{
  Host, Event, Refusal, Outside, Daemon, Act, journal, registry_of, with_read_registry, pure, ◌>>=◌,
}
use lychgate.Daemon.Frame.{
  KeepsOr, KeepsOr-bind, drivers_of, journal-drivers, with_read_registry_same,
  with_read_registry_inv, journal-registry_of,
}
use lychgate.Daemon.Policy.{Policy, resolve_authority, answer_pending}
use lychgate.Daemon.Proofs.{Factors}
use lychgate.Daemon.Approving.{judged, judge, judge_view, re_evaluate}

module _ {Secret World : Type 0} (outside : Outside Secret World) (factors : Factors)
    (policy : Policy) where
  -- The authority that the host has for the profile of a request is met.
  pub record IsMet (model : AuthorityModel) (cfg : Host) (view : PendingView) : Type 0 where
    pub authority : Authority
    pub outcome : Outcome
    pub resolved : resolve_authority model cfg view.profile ≡ ok authority
    pub evaluated :
        evaluate policy.depth model.groups authority view.satisfied view.elapsed ≡ some outcome
    pub met : outcome.met ≡ true

  -- The request that the state file holds is met.
  pub record HasMet (model : AuthorityModel) (host : Text) (cfg : Host) (now : SystemTime)
      (d : Daemon World) : Type 0 where
    pub stored : GrantRegistry
    pub view : PendingView
    pub read : registry_of outside d ≡ ok stored
    pub viewed : Registry.pending_view stored host now ≡ ok view
    pub is_met : IsMet model cfg view

  answer_pending-drivers :
      (challenge : _) (p : _) (d : Daemon World)
      → (answer_pending {Secret = Secret} challenge p d).0.drivers ≡ d.drivers
  unfolding answer_pending
  answer_pending-drivers challenge none d = refl
  answer_pending-drivers challenge (some p) d = refl

  judged-drivers :
      (model : AuthorityModel) (host : Text) (cfg : Host) (now : SystemTime) (view : PendingView)
      (authority : Authority) (o : Option Outcome) (d : Daemon World)
      → KeepsOr drivers_of
          ((out : Outcome) × (o ≡ some out) × (out.met ≡ true))
          (judged outside factors policy model host cfg now view authority o)
          d
  unfolding judged
  judged-drivers model host cfg now view authority none d = inl refl
  judged-drivers model host cfg now view authority (some out) d = elim (Bool-cases out.met) [
    | inl e ↦ inr (out, refl, e)
    | inr e ↦ inl (rw e (answer_pending-drivers _ _ d))
  ]

  judge-drivers :
      (model : AuthorityModel) (host : Text) (cfg : Host) (now : SystemTime) (view : PendingView)
      (a : Result Refusal Authority) (d : Daemon World)
      → resolve_authority model cfg view.profile ≡ a
      → KeepsOr drivers_of
          (IsMet model cfg view)
          (judge outside factors policy model host cfg now view a)
          d
  unfolding judge
  judge-drivers model host cfg now view (err e) d r = inl refl
  judge-drivers model host cfg now view (ok authority) d r =
      elim (judged-drivers model host cfg now view authority
        (evaluate policy.depth model.groups authority view.satisfied view.elapsed) d) [
          | inl k ↦ inl k
          | inr (out, e, m) ↦ inr (record {
            authority = authority;
            outcome = out;
            resolved = r;
            evaluated = e;
            met = m;
          })
        ]

  judge_view-drivers :
      (model : AuthorityModel) (host : Text) (cfg : Host) (now : SystemTime)
      (found : Result RegistryError PendingView) (r : GrantRegistry) (d₀ d : Daemon World)
      → registry_of outside d₀ ≡ ok r
      → Registry.pending_view r host now ≡ found
      → KeepsOr drivers_of
          (HasMet model host cfg now d₀)
          (judge_view outside factors policy model host cfg now found)
          d
  unfolding judge_view
  judge_view-drivers model host cfg now (err e) r d₀ d p q = inl refl
  judge_view-drivers model host cfg now (ok view) r d₀ d p q =
      elim (judge-drivers model host cfg now view (resolve_authority model cfg view.profile) d
        refl) [
          | inl k ↦ inl k
          | inr m ↦ inr (record { stored = r; view = view; read = p; viewed = q; is_met = m })
        ]

  pub re_evaluate-drivers :
      (model : AuthorityModel) (host : Text) (cfg : Host) (now : SystemTime) (id : Text)
      (added : Result RegistryError Bool) (d : Daemon World)
      → KeepsOr drivers_of
          (HasMet model host cfg now d)
          (re_evaluate outside factors policy model host cfg now id added)
          d
  unfolding re_evaluate
  re_evaluate-drivers model host cfg now id (err e) d = inl refl
  re_evaluate-drivers model host cfg now id (ok newly) d =
      KeepsOr-bind drivers_of (HasMet model host cfg now d) (noted newly)
        (λ _.
          with_read_registry outside (λ r. Registry.pending_view r host now)
          >>= judge_view outside factors policy model host cfg now)
        d (noted_drivers newly) (λ _ _. read_on (noted newly d).0 (noted_registry newly))
    where
      noted : Bool → Act World (Unit {0})
      noted newly = if newly then journal outside (Event.proof_accepted host id) else pure tt

      noted_drivers : (newly : Bool) → (noted newly d).0.drivers ≡ d.drivers
      noted_drivers true = journal-drivers outside (Event.proof_accepted host id) d
      noted_drivers false = refl

      noted_registry :
          (newly : Bool) → registry_of outside (noted newly d).0 ≡ registry_of outside d
      noted_registry true = journal-registry_of outside (Event.proof_accepted host id) d
      noted_registry false = refl

      read_on :
          (d' : Daemon World)
          → registry_of outside d' ≡ registry_of outside d
          → KeepsOr drivers_of
              (HasMet model host cfg now d)
              (with_read_registry outside (λ r. Registry.pending_view r host now)
                >>= judge_view outside factors policy model host cfg now)
              d'
      read_on d' same =
          KeepsOr-bind drivers_of (HasMet model host cfg now d)
            (with_read_registry outside (λ r. Registry.pending_view r host now))
            (judge_view outside factors policy model host cfg now) d'
            (ap drivers_of
              (with_read_registry_same outside (λ r. Registry.pending_view r host now) d'))
            (λ found e.
              let (r, p, q) =
                with_read_registry_inv outside (λ r. Registry.pending_view r host now) d' found e in
              judge_view-drivers model host cfg now found r d
                (with_read_registry outside (λ r. Registry.pending_view r host now) d').0
                (sym same ∙ p) q)
