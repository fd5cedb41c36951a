-- ===== src/Daemon/Dispatch/Gate.antt =====
-- What the gate of the MCP front door of daemon/src/lifecycle.rs keeps out.
use lychgate.Prelude.{
  ◌≡◌, refl, ◌∙◌, sym, ap, subst, ◌⊎◌, inl, inr, Bool, true, false, Option, none, some, Result, ok,
  err, arith,
}
use lychgate.Prelude.Text.{Text}
use lychgate.Clock.{SystemTime}
use lychgate.Grant.{Nonce, PendingView}
use lychgate.Registry.{GrantRegistry, RegistryError}
use lychgate.Registry
use lychgate.Snapshot.{StateDoc}
use lychgate.Authority.Spec.Build.{AuthorityModel, mcp_allowed}
use lychgate.Channel.Drivers.{DriverSet}
use lychgate.Protocol.{Op}
use lychgate.Daemon.{
  Host, Event, Refusal, refused, Outside, Daemon, find_host, host_of, journal, registry_of,
  with_read_registry, pure,
}
use lychgate.Daemon.Frame.{
  KeepsOr, KeepsOr-bind, journal-drivers, journal-doc, with_read_registry_inv, bind_inv,
}
use lychgate.Daemon.Policy.{Policy, Station, on_daemon, chosen_profile, permitted_profiles}
use lychgate.Daemon.Proofs.{Factors, Ledgers}
use lychgate.Daemon.Requesting.{open_host}
use lychgate.Daemon.Approving.{approve}
use lychgate.Daemon.Dispatch.Unresolved.{
  admit_inv, resolve_open_profile_inv, open_host_same, approve_same, mcp_gate_same,
}
use lychgate.Daemon.Dispatch.{
  Origin, resolve_open_profile, profile_of, admit, pending_profile, gate_under, mcp_gate, perform,
  gated, dispatch_from, host_named,
}

-- What a caller behind the gate could change: the state file, the drivers and their targets, and the ledgers.
abbrev pub Held : Type 0 → Type 0
Held World = StateDoc × (DriverSet World × Ledgers)

abbrev pub held : {World : Type 0} → Station World → Held World
held s = (s.daemon.doc, (s.daemon.drivers, s.ledgers))

-- The operations that the gate looks at.
abbrev pub is_gated : Op → Bool
is_gated (Op.open_host host ttl profile) = true
is_gated (Op.approve host token) = true
is_gated (Op.drill host) = true
is_gated _ = false

module _ {Secret World : Type 0} (outside : Outside Secret World) (factors : Factors)
    (policy : Policy) where
  -- The profile that the operation is about lets it in over MCP.
  abbrev pub LetIn : Op → SystemTime → Daemon World → Type 0
  LetIn (Op.open_host host ttl named) now d =
      (model : AuthorityModel) × (cfg : Host) × (name : Text) × (policy.approval ≡ some model)
      × (find_host host d.inventory ≡ some cfg)
      × (chosen_profile host (permitted_profiles model cfg) named ≡ ok name)
      × (mcp_allowed model name ≡ true)
  LetIn (Op.approve host token) now d =
      (model : AuthorityModel) × (r : GrantRegistry) × (view : PendingView) × (policy.approval
        ≡ some model)
      × (registry_of outside d ≡ ok r)
      × (Registry.pending_view r host now ≡ ok view)
      × (mcp_allowed model view.profile ≡ true)
  LetIn op now d = ⊥

  -- An `open` that the gate leaves alone is let in, or leaves the daemon as it is.
  open_gate :
      (approval : Option AuthorityModel) (host ttl_text : Text) (named : Option Text)
      (nonce : Nonce) (now : SystemTime) (d : Daemon World)
      → policy.approval ≡ approval
      → (gate_under outside factors policy approval (Op.open_host host ttl_text named) now d).1
        ≡ ok none
      → ((open_host outside factors policy host ttl_text named nonce now d).0 ≡ d)
        ⊎ LetIn (Op.open_host host ttl_text named) now d
  unfolding gate_under host_of resolve_open_profile chosen_profile
  open_gate none host ttl_text named nonce now d e h = absurd (ground (arith, h))
  open_gate (some model) host ttl_text named nonce now d e h =
      elim (admit_inv host model (resolve_open_profile model (find_host host d.inventory) named)
        (ground (arith, h))) [
          | inl q ↦
              inl (open_host_same outside factors policy model host ttl_text named nonce now d e q)
          | inr (p, q, m) ↦ inr (
              let (cfg, k, c) =
                resolve_open_profile_inv model host (find_host host d.inventory) named p q in
              (model, cfg, p, e, k, c, m))
        ]

  approve_gate :
      (approval : Option AuthorityModel) (host token : Text) (now : SystemTime) (s : Station World)
      → policy.approval ≡ approval
      → (gate_under outside factors policy approval (Op.approve host token) now s.daemon).1
        ≡ ok none
      → ((approve outside factors policy host token now s).0 ≡ s)
        ⊎ LetIn (Op.approve host token) now s.daemon
  unfolding gate_under pending_profile
  approve_gate none host token now s e h = absurd (ground (arith, h))
  approve_gate (some model) host token now s e h =
      let (name, a, b) =
        bind_inv (pending_profile outside factors policy host now)
          (λ name. pure (admit host model name)) s.daemon none h in
      let (found, c, f) =
        bind_inv (with_read_registry outside (λ r. Registry.pending_view r host now))
          (λ found. pure (profile_of found)) s.daemon name a in
      let (r, p, q) =
        with_read_registry_inv outside (λ r. Registry.pending_view r host now) s.daemon found c in
      let same : profile_of found ≡ name = ground (arith, f) in
      let left : admit host model name ≡ none = ground (arith, b) in
      viewed found r p q
        (admit_inv host model (profile_of found) (ap (admit host model) same ∙ left))
    where
      viewed :
          (found : Result RegistryError PendingView) (r : GrantRegistry)
          → registry_of outside s.daemon ≡ ok r
          → Registry.pending_view r host now ≡ found
          → (profile_of found ≡ none)
            ⊎ ((p : Text) × (profile_of found ≡ some p) × (mcp_allowed model p ≡ true))
          → ((approve outside factors policy host token now s).0 ≡ s)
            ⊎ LetIn (Op.approve host token) now s.daemon
      viewed (err x) r p q a = inl (approve_same outside factors policy host token now s r x p q)
      viewed (ok view) r p q (inl n) = absurd (ground (arith, n))
      viewed (ok view) r p q (inr (name, n, m)) =
          inr
            (model, r, view, e, p, q, subst (λ p. mcp_allowed model p ≡ true) (ground (arith, n)) m)

  performed :
      (op : Op) (nonce : Nonce) (now : SystemTime) (s : Station World)
      → is_gated op ≡ true
      → (mcp_gate outside factors policy op now s.daemon).1 ≡ ok none
      → KeepsOr held (LetIn op now s.daemon) (perform outside factors policy op nonce now) s
  unfolding mcp_gate perform gate_under
  performed (Op.open_host host ttl_text named) nonce now s g h =
      elim (open_gate policy.approval host ttl_text named nonce now s.daemon refl h) [
        | inl same ↦ inl (ap (λ (d : Daemon World). (d.doc, (d.drivers, s.ledgers))) same)
        | inr l ↦ inr l
      ]
  performed (Op.approve host token) nonce now s g h =
      elim (approve_gate policy.approval host token now s refl h) [
        | inl same ↦ inl (ap held same)
        | inr l ↦ inr l
      ]
  performed (Op.drill host) nonce now s g h = absurd (drilled policy.approval h)
    where
      drilled :
          (approval : Option AuthorityModel)
          → (gate_under outside factors policy approval (Op.drill host) now s.daemon).1 ≡ ok none
          → ⊥
      drilled none h = ground (arith, h)
      drilled (some model) h = ground (arith, h)
  performed (Op.renew host ttl) nonce now s g h = absurd (ground (arith, g))
  performed (Op.close host) nonce now s g h = absurd (ground (arith, g))
  performed Op.status nonce now s g h = absurd (ground (arith, g))

  -- An open, an approve or a drill that arrives on the MCP socket leaves the state file, the drivers with
  -- their targets and the ledgers as they are, unless a policy stands and the profile is one that it marks for
  -- MCP: that of the open on a known host, or that of the pending request of the approve.
  pub mcp_keeps_out :
      (op : Op) (nonce : Nonce) (now : SystemTime) (s : Station World)
      → is_gated op ≡ true
      → (held (dispatch_from outside factors policy Origin.mcp op nonce now s).0 ≡ held s)
        ⊎ LetIn op now s.daemon
  unfolding dispatch_from gated
  mcp_keeps_out op nonce now s g =
      let same : record s { daemon = (mcp_gate outside factors policy op now s.daemon).0 } ≡ s =
        ap (λ d. record s { daemon = d }) (mcp_gate_same outside factors policy op now s.daemon) in
      KeepsOr-bind held (LetIn op now s.daemon) (on_daemon (mcp_gate outside factors policy op now))
        (gated outside factors policy op nonce now) s (ap held same)
        (λ verdict h.
          subst
            (λ s'.
              KeepsOr held (LetIn op now s.daemon)
                (gated outside factors policy op nonce now verdict) s')
            (sym same) (verdict_given verdict h))
    where
      told : Event
      told = Event.mcp_refused (host_named op)

      verdict_given :
          (verdict : Option Refusal)
          → (mcp_gate outside factors policy op now s.daemon).1 ≡ ok verdict
          → KeepsOr held
              (LetIn op now s.daemon)
              (gated outside factors policy op nonce now verdict)
              s
      verdict_given none h = performed op nonce now s g h
      verdict_given (some reason) h =
          KeepsOr-bind (λ (d : Daemon World). (d.doc, (d.drivers, s.ledgers)))
            (LetIn op now s.daemon) (journal outside told) (λ _. pure (refused reason)) s.daemon
            (λ i. (
              journal-doc outside told s.daemon i,
              (journal-drivers outside told s.daemon i, s.ledgers),
            ))
            (λ _ _. inl refl)
