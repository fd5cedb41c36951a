-- ===== src/Daemon/Dispatch/Unresolved.antt =====
-- What dispatch_from of daemon/src/lifecycle.rs leaves alone when a profile cannot be resolved, and what the gate only reads.
use lychgate.Prelude.{
  ◌≡◌, refl, ◌∙◌, sym, ap, subst, ◌⊎◌, inl, inr, List, [], ◌∷◌, true, Option, none, some, Result,
  ok, err, arith,
}
use lychgate.Prelude.Text.{Text}
use lychgate.Clock.{SystemTime}
use lychgate.Ttl.{Ttl, TtlError, parse}
use lychgate.Grant.{Nonce, ApprovalRequest}
use lychgate.Registry.{GrantRegistry, RegistryError}
use lychgate.Registry
use lychgate.Registry.Views.{pending-pending_view}
use lychgate.Authority.Spec.Build.{AuthorityModel, mcp_allowed}
use lychgate.Protocol.{Op}
use lychgate.Daemon.{
  Host, Refusal, Fatal, Response, refused, Outside, Daemon, Act, find_host, host_of, registry_of,
  with_read_registry, pure, ◌>>=◌,
}
use lychgate.Daemon.Frame.{with_read_registry_same, with_read_registry_at, bind_at, bind_same}
use lychgate.Daemon.Policy.{Policy, Station, on_daemon, chosen_profile, permitted_profiles}
use lychgate.Daemon.Proofs.{Factors}
use lychgate.Daemon.Requesting.{open_host, open_known, open_chosen, choose, choose_named}
use lychgate.Daemon.Approving.{approve, approve_pending}
use lychgate.Daemon.Dispatch.{
  only_profile, resolve_open_profile, profile_of, admit, pending_profile, gate_under, mcp_gate,
}

pub admit_inv :
    (host : Text) (model : AuthorityModel) (name : Option Text)
    → admit host model name ≡ none
    → (name ≡ none) ⊎ ((p : Text) × (name ≡ some p) × (mcp_allowed model p ≡ true))
unfolding admit
admit_inv host model none h = inl refl
admit_inv host model (some p) h = inr (p, refl, ground (arith, h))

-- A profile that cannot be resolved cannot be chosen either.
pub only_profile-chosen :
    (host : Text) (ps : List Text)
    → only_profile ps ≡ none
    → (e : Refusal) × (chosen_profile host ps none ≡ err e)
unfolding chosen_profile
only_profile-chosen host [] h = (_, refl)
only_profile-chosen host (p ∷ []) h = absurd (ground (arith, h))
only_profile-chosen host (p ∷ q ∷ ps) h = (_, refl)

pub chosen_profile-only :
    (host : Text) (ps : List Text) (p : Text)
    → only_profile ps ≡ some p
    → chosen_profile host ps none ≡ ok p
unfolding chosen_profile
chosen_profile-only host [] p h = absurd (ground (arith, h))
chosen_profile-only host (q ∷ []) p h = ground (arith, h)
chosen_profile-only host (q ∷ r ∷ ps) p h = absurd (ground (arith, h))

-- A profile that `open` resolves is that of a known host, and the one that it chooses.
pub resolve_open_profile_inv :
    (model : AuthorityModel) (host : Text) (found : Option Host) (named : Option Text) (p : Text)
    → resolve_open_profile model found named ≡ some p
    → (cfg : Host) × (found ≡ some cfg)
      × (chosen_profile host (permitted_profiles model cfg) named ≡ ok p)
unfolding resolve_open_profile chosen_profile
resolve_open_profile_inv model host none named p h = absurd (ground (arith, h))
resolve_open_profile_inv model host (some cfg) (some name) p h = (cfg, refl, ground (arith, h))
resolve_open_profile_inv model host (some cfg) none p h =
    (cfg, refl, chosen_profile-only host (permitted_profiles model cfg) p h)

module _ {Secret World : Type 0} (outside : Outside Secret World) (factors : Factors)
    (policy : Policy) where
  -- An `open` whose profile cannot be resolved leaves the daemon as it is.
  open_known_same :
      (model : AuthorityModel) (host : Text) (named : Option Text) (t : Ttl) (nonce : Nonce)
      (now : SystemTime) (found : Option Host) (d : Daemon World)
      → policy.approval ≡ some model
      → resolve_open_profile model found named ≡ none
      → (open_known outside factors policy host named t nonce now found d).0 ≡ d
  unfolding open_known resolve_open_profile choose choose_named open_chosen
  open_known_same model host named t nonce now none d e h = refl
  open_known_same model host (some name) t nonce now (some cfg) d e h = absurd (ground (arith, h))
  open_known_same model host none t nonce now (some cfg) d e h =
      let (x, c) = only_profile-chosen host (permitted_profiles model cfg) h in
      subst
        (λ o.
          (open_chosen outside factors policy host cfg t nonce now
            (choose outside factors policy o host cfg none) d).0
          ≡ d)
        (sym e)
        (subst
          (λ c.
            (open_chosen outside factors policy host cfg t nonce now
              (choose_named outside factors policy model cfg c) d).0
            ≡ d)
          (sym c) refl)

  pub open_host_same :
      (model : AuthorityModel) (host ttl_text : Text) (named : Option Text) (nonce : Nonce)
      (now : SystemTime) (d : Daemon World)
      → policy.approval ≡ some model
      → resolve_open_profile model (find_host host d.inventory) named ≡ none
      → (open_host outside factors policy host ttl_text named nonce now d).0 ≡ d
  unfolding open_host host_of
  open_host_same model host ttl_text named nonce now d e h = parsed (parse ttl_text)
    where
      parsed :
          (r : Result TtlError Ttl)
          → ((elim r as (λ _. Act World (Response Secret)) [
            | err e ↦ pure (refused (Refusal.ttl e))
            | ok t ↦ host_of host >>= open_known outside factors policy host named t nonce now
          ])
              d).0
            ≡ d
      parsed (err x) = refl
      parsed (ok t) =
          open_known_same model host named t nonce now (find_host host d.inventory) d e h

  -- An `approve` without a pending request leaves the station as it is.
  pub approve_same :
      (host token : Text) (now : SystemTime) (s : Station World) (r : GrantRegistry)
      (x : RegistryError)
      → registry_of outside s.daemon ≡ ok r
      → Registry.pending_view r host now ≡ err x
      → (approve outside factors policy host token now s).0 ≡ s
  unfolding approve approve_pending
  approve_same host token now s r x p q =
      let asked = λ (r : GrantRegistry). Registry.pending r host now in
      let reached : on_daemon (with_read_registry outside asked) s ≡ (s, ok (err x)) =
        ap
          (λ (o : Daemon World × Result Fatal (Result RegistryError ApprovalRequest)).
            (record s { daemon = o.0 }, o.1))
          (with_read_registry_at outside asked s.daemon r p
            ∙ ap (λ o. (s.daemon, ok o)) (pending-pending_view r host now x q)) in
      ap (λ (o : Station World × Result Fatal (Response Secret)). o.0)
        (bind_at (on_daemon (with_read_registry outside asked))
          (approve_pending outside factors policy host token now) s s (err x) reached)

  pending_profile_same :
      (host : Text) (now : SystemTime) (d : Daemon World)
      → (pending_profile outside factors policy host now d).0 ≡ d
  unfolding pending_profile
  pending_profile_same host now d =
      bind_same (with_read_registry outside (λ r. Registry.pending_view r host now))
        (λ found. pure (profile_of found)) d
        (with_read_registry_same outside (λ r. Registry.pending_view r host now) d) (λ _ _. refl)

  pub mcp_gate_same :
      (op : Op) (now : SystemTime) (d : Daemon World)
      → (mcp_gate outside factors policy op now d).0 ≡ d
  unfolding mcp_gate gate_under host_of
  mcp_gate_same op now d = under policy.approval op
    where
      under :
          (approval : Option AuthorityModel) (op : Op)
          → (gate_under outside factors policy approval op now d).0 ≡ d
      under none (Op.open_host host ttl profile) = refl
      under none (Op.approve host token) = refl
      under (some model) (Op.open_host host ttl profile) = refl
      under (some model) (Op.approve host token) =
          bind_same (pending_profile outside factors policy host now)
            (λ name. pure (admit host model name)) d (pending_profile_same host now d) (λ _ _. refl)
      under none (Op.drill host) = refl
      under none (Op.renew host ttl) = refl
      under none (Op.close host) = refl
      under none Op.status = refl
      under (some model) (Op.drill host) = refl
      under (some model) (Op.renew host ttl) = refl
      under (some model) (Op.close host) = refl
      under (some model) Op.status = refl
