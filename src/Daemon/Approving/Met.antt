-- ===== src/Daemon/Approving/Met.antt =====
-- What it takes for `approve` of daemon/src/lifecycle.rs to drive a host.
use lychgate.Prelude.{◌≡◌, refl, ◌∙◌, sym, ap, subst, ◌⊎◌, inl, inr, some, Result, ok, err}
use lychgate.Prelude.Text.{Text}
use lychgate.Clock.{SystemTime}
use lychgate.Grant.{ApprovalRequest}
use lychgate.Registry.{GrantRegistry, RegistryError}
use lychgate.Registry
use lychgate.Approval.{ApprovalError}
use lychgate.Authority.Spec.Build.{AuthorityModel}
use lychgate.Channel.Drivers.{DriverSet}
use lychgate.Daemon.{
  Host, Event, refused, proof_refused, Outside, Daemon, find_host, known_host, journal, registry_of,
  with_registry, with_read_registry, pure,
}
use lychgate.Daemon.Frame.{
  KeepsOr, KeepsOr-bind, drivers_of, journal-drivers, with_read_registry_same,
  with_registry-drivers, with_read_registry_inv, known_host_same, known_host_inv,
}
use lychgate.Daemon.Policy.{Policy, Station, on_daemon, on_ledgers}
use lychgate.Daemon.Proofs.{Factors, verify_proof}
use lychgate.Daemon.Proofs.Accepted.{Proves, verify_proof-Proves}
use lychgate.Daemon.Approving.Judged.{HasMet, re_evaluate-drivers}
use lychgate.Daemon.Approving.{re_evaluate, take_proof, approve_under, approve_pending, approve}

module _ {Secret World : Type 0} (outside : Outside Secret World) (factors : Factors)
    (policy : Policy) where
  -- The proof was accepted for an authenticator, and once that is recorded in the state file the request is met.
  pub record ProvesMet (model : AuthorityModel) (host token : Text) (now : SystemTime)
      (s : Station World) : Type 0 where
    pub stored : GrantRegistry
    pub request : ApprovalRequest
    pub cfg : Host
    pub id : Text
    pub read : registry_of outside s.daemon ≡ ok stored
    pub asked : Registry.pending stored host now ≡ ok request
    pub known_as : find_host host s.daemon.inventory ≡ some cfg
    pub proved : Proves factors model policy.secrets request token now s.ledgers id
    pub has_met :
        HasMet outside factors policy model host cfg now
          (with_registry outside (λ r. Registry.add_satisfied r host now id) s.daemon).0

  abbrev station_drivers : Station World → DriverSet World
  station_drivers s = s.daemon.drivers

  take_proof-drivers :
      (model : AuthorityModel) (host : Text) (cfg : Host) (now : SystemTime)
      (verdict : Result ApprovalError Text) (d : Daemon World)
      → KeepsOr drivers_of
          ((id : Text) × (verdict ≡ ok id)
            × HasMet outside factors policy model host cfg now
                (with_registry outside (λ r. Registry.add_satisfied r host now id) d).0)
          (take_proof outside factors policy model host cfg now verdict)
          d
  unfolding take_proof
  take_proof-drivers model host cfg now (err e) d =
      KeepsOr-bind drivers_of _ (journal outside (Event.approval_denied host))
        (λ _. pure (refused (proof_refused e))) d
        (journal-drivers outside (Event.approval_denied host) d) (λ _ _. inl refl)
  take_proof-drivers model host cfg now (ok id) d =
      let recorded = with_registry outside (λ r. Registry.add_satisfied r host now id) in
      KeepsOr-bind drivers_of _ recorded (re_evaluate outside factors policy model host cfg now id)
        d (with_registry-drivers outside (λ r. Registry.add_satisfied r host now id) d)
        (λ added _.
          elim (re_evaluate-drivers outside factors policy model host cfg now id added
            (recorded d).0) [ inl k ↦ inl k | inr m ↦ inr (id, refl, m) ])

  approve_under-drivers :
      (model : AuthorityModel) (host token : Text) (now : SystemTime) (stored : GrantRegistry)
      (request : ApprovalRequest) (cfg : Host) (s : Station World)
      → policy.approval ≡ some model
      → registry_of outside s.daemon ≡ ok stored
      → Registry.pending stored host now ≡ ok request
      → find_host host s.daemon.inventory ≡ some cfg
      → KeepsOr station_drivers
          (ProvesMet model host token now s)
          (approve_under outside factors policy policy.approval host token now request cfg)
          s
  unfolding approve_under
  approve_under-drivers model host token now stored request cfg s e p q k =
      let verify = verify_proof factors model policy.secrets request token now in
      subst
        (λ o.
          KeepsOr station_drivers (ProvesMet model host token now s)
            (approve_under outside factors policy o host token now request cfg) s)
        (sym e)
        (KeepsOr-bind station_drivers (ProvesMet model host token now s) (on_ledgers verify)
          (λ verdict. on_daemon (take_proof outside factors policy model host cfg now verdict)) s
          refl
          (λ verdict v. elim (take_proof-drivers model host cfg now verdict s.daemon) [
            | inl same ↦ inl same
            | inr (id, a, m) ↦ inr (record {
              stored = stored;
              request = request;
              cfg = cfg;
              id = id;
              read = p;
              asked = q;
              known_as = k;
              proved =
                  verify_proof-Proves factors model policy.secrets request token now s.ledgers
                    (verify s.ledgers).0 id (ap (λ r. ((verify s.ledgers).0, r)) (v ∙ ap ok a));
              has_met = m;
            })
          ]))

  approve_pending-drivers :
      (model : AuthorityModel) (host token : Text) (now : SystemTime) (stored : GrantRegistry)
      (found : Result RegistryError ApprovalRequest) (s : Station World)
      → policy.approval ≡ some model
      → registry_of outside s.daemon ≡ ok stored
      → Registry.pending stored host now ≡ found
      → KeepsOr station_drivers
          (ProvesMet model host token now s)
          (approve_pending outside factors policy host token now found)
          s
  unfolding approve_pending
  approve_pending-drivers model host token now stored (err x) s e p q = inl refl
  approve_pending-drivers model host token now stored (ok request) s e p q =
      let same : record s { daemon = (known_host host s.daemon).0 } ≡ s =
        ap (λ d. record s { daemon = d }) (known_host_same host s.daemon) in
      KeepsOr-bind station_drivers (ProvesMet model host token now s) (on_daemon (known_host host))
        (approve_under outside factors policy policy.approval host token now request) s
        (ap drivers_of (known_host_same host s.daemon))
        (λ cfg h.
          subst
            (λ s'.
              KeepsOr station_drivers (ProvesMet model host token now s)
                (approve_under outside factors policy policy.approval host token now request cfg)
                s')
            (sym same)
            (approve_under-drivers model host token now stored request cfg s e p q
              (known_host_inv host s.daemon cfg h)))

  -- Under an approval policy, an approve leaves the drivers and their targets as they are, unless its proof
  -- was accepted for an authenticator and the profile of the request that the state file then holds, with that
  -- authenticator recorded, is met at that instant.
  pub approve_needs_met :
      (model : AuthorityModel) (host token : Text) (now : SystemTime) (s : Station World)
      → policy.approval ≡ some model
      → ((approve outside factors policy host token now s).0.daemon.drivers ≡ s.daemon.drivers)
        ⊎ ProvesMet model host token now s
  unfolding approve
  approve_needs_met model host token now s e =
      let asked = λ (r : GrantRegistry). Registry.pending r host now in
      let same : record s { daemon = (with_read_registry outside asked s.daemon).0 } ≡ s =
        ap (λ d. record s { daemon = d }) (with_read_registry_same outside asked s.daemon) in
      KeepsOr-bind station_drivers (ProvesMet model host token now s)
        (on_daemon (with_read_registry outside asked))
        (approve_pending outside factors policy host token now) s
        (ap drivers_of (with_read_registry_same outside asked s.daemon))
        (λ found h.
          let (r, p, q) = with_read_registry_inv outside asked s.daemon found h in
          subst
            (λ s'.
              KeepsOr station_drivers (ProvesMet model host token now s)
                (approve_pending outside factors policy host token now found) s')
            (sym same) (approve_pending-drivers model host token now r found s e p q))
