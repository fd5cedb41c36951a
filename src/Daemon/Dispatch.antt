-- ===== src/Daemon/Dispatch.antt =====
-- `dispatch_from` and the gate of the MCP front door of daemon/src/lifecycle.rs.
pub mod Unresolved
pub mod Gate
mod Tests
use lychgate.Prelude.{
  ℕ, Bool, true, false, List, [], ◌∷◌, Option, none, some, Result, ok, err, if◌then◌else◌,
}
use lychgate.Prelude.Text.{Text}
use lychgate.Clock.{SystemTime, Duration}
use lychgate.Grant.{Nonce, PendingView}
use lychgate.Registry
use lychgate.Registry.{RegistryError}
use lychgate.Authority.Spec.Build.{AuthorityModel, mcp_allowed}
use lychgate.Protocol.{Op, status_lines}
use lychgate.Daemon.{
  Host, Event, Refusal, Response, refused, grants, Fatal, panic, Outside, Daemon, Act, pure, fatal,
  ◌>>=◌, ◌>>◌, find_host, host_of, journal, with_read_registry, needs_policy, drill_not_mcp,
  profile_not_mcp,
}
use lychgate.Daemon.Reverting.{close}
use lychgate.Daemon.Renewing.{renew, drill}
use lychgate.Daemon.Proofs.{Factors}
use lychgate.Daemon.Policy.{
  Policy, Station, Duty, on_daemon, and_then, chosen_profile, permitted_profiles,
}
use lychgate.Daemon.Requesting.{open_host}
use lychgate.Daemon.Approving.{approve}

-- Which socket an operation arrived on.
pub data Origin : Type 0 where
  operator mcp : Origin

abbrev pub host_named : Op → Text
host_named (Op.open_host host ttl profile) = host
host_named (Op.approve host token) = host
host_named (Op.close host) = host
host_named (Op.renew host ttl) = host
host_named Op.status = []
host_named (Op.drill host) = host

-- The profile that an `open` would choose on a host: the one that is named, or the only one that is permitted.
abbrev pub only_profile : List Text → Option Text
only_profile [] = none
only_profile (only ∷ []) = some only
only_profile (a ∷ b ∷ more) = none

unfoldable pub resolve_open_profile : AuthorityModel → Option Host → Option Text → Option Text
resolve_open_profile model none named = none
resolve_open_profile model (some cfg) (some name) = some name
resolve_open_profile model (some cfg) none = only_profile (permitted_profiles model cfg)

abbrev pub profile_of : Result RegistryError PendingView → Option Text
profile_of (err _) = none
profile_of (ok view) = some view.profile

-- The end of the gate: a profile that cannot be resolved is left to the operation.
unfoldable pub admit : (host : Text) → AuthorityModel → Option Text → Option Refusal
admit host model none = none
admit host model (some name) =
    if mcp_allowed model name then none else some (profile_not_mcp name host)

module _ {Secret World : Type 0} (outside : Outside Secret World) (factors : Factors)
    (policy : Policy) where
  status : SystemTime → Act World (Response Secret)
  status now = with_read_registry outside (λ r. status_lines r now) >>= λ lines. pure (grants lines)

  unfoldable pub pending_profile : (host : Text) → SystemTime → Act World (Option Text)
  pending_profile host now =
      with_read_registry outside (λ r. Registry.pending_view r host now) >>= λ found.
      pure (profile_of found)

  unfoldable pub gate_under : Option AuthorityModel → Op → SystemTime → Act World (Option Refusal)
  gate_under none (Op.open_host host ttl profile) now = pure (some needs_policy)
  gate_under none (Op.approve host token) now = pure (some needs_policy)
  gate_under (some model) (Op.open_host host ttl profile) now =
      host_of host >>= λ found. pure (admit host model (resolve_open_profile model found profile))
  gate_under (some model) (Op.approve host token) now =
      pending_profile host now >>= λ name. pure (admit host model name)
  gate_under approval (Op.drill host) now = pure (some drill_not_mcp)
  gate_under approval (Op.renew host ttl) now = pure none
  gate_under approval (Op.close host) now = pure none
  gate_under approval Op.status now = pure none

  unfoldable pub mcp_gate : Op → SystemTime → Act World (Option Refusal)
  mcp_gate op now = gate_under policy.approval op now

  unfoldable pub perform : Op → Nonce → SystemTime → Duty World (Response Secret)
  unfolding status
  perform (Op.open_host host ttl profile) nonce now =
      on_daemon (open_host outside factors policy host ttl profile nonce now)
  perform (Op.approve host token) nonce now = approve outside factors policy host token now
  perform (Op.renew host ttl) nonce now = on_daemon (renew outside host ttl now)
  perform (Op.close host) nonce now = on_daemon (close outside host now)
  perform Op.status nonce now = on_daemon (status now)
  perform (Op.drill host) nonce now =
      on_daemon (drill outside policy.approval_window nonce host now)

  -- A refusal of the gate is journaled.
  unfoldable pub gated : Op → Nonce → SystemTime → Option Refusal → Duty World (Response Secret)
  gated op nonce now (some reason) =
      on_daemon (journal outside (Event.mcp_refused (host_named op)) >> pure (refused reason))
  gated op nonce now none = perform op nonce now

  unfoldable pub dispatch_from : Origin → Op → Nonce → SystemTime → Duty World (Response Secret)
  dispatch_from Origin.operator op nonce now = perform op nonce now
  dispatch_from Origin.mcp op nonce now =
      and_then (on_daemon (mcp_gate op now)) (gated op nonce now)

  unfoldable pub dispatch : Op → Nonce → SystemTime → Duty World (Response Secret)
  dispatch op nonce now = dispatch_from Origin.operator op nonce now
