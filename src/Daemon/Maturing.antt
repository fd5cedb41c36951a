-- ===== src/Daemon/Maturing.antt =====
-- The second part of `pass` of daemon/src/lifecycle.rs: a request that the time alone brings over its threshold is opened.
-- What the report prints is left out.
pub mod Ready
use lychgate.Prelude.{Bool, true, false, not, ◌&&◌, Option, none, some, Result, ok, err}
use lychgate.Prelude.Text.{Text}
use lychgate.Clock.{SystemTime}
use lychgate.Grant.{PendingView}
use lychgate.Registry.{GrantRegistry, RegistryError, unknown_host}
use lychgate.Registry
use lychgate.Authority.{Authority, evaluate}
use lychgate.Authority.Spec.Build.{AuthorityModel}
use lychgate.Protocol.{status_lines}
use lychgate.Daemon.{
  Host, Refusal, too_deep, Outside, Act, pure, fatal, ◌>>=◌, ◌>>◌, known_host, with_read_registry,
}
use lychgate.Daemon.Opening.{open_pending_now}
use lychgate.Daemon.Reverting.{pass_reverts, for_each}
use lychgate.Daemon.Proofs.{Factors}
use lychgate.Daemon.Policy.{Policy, resolve_authority}

module _ {Secret World : Type 0} (outside : Outside Secret World) (factors : Factors)
    (policy : Policy) where
  -- Whether time alone brings the request over its threshold; `none` when the bound on the depth is met.
  unfoldable pub matures : AuthorityModel → Authority → PendingView → Option Bool
  matures model authority view =
      elim (evaluate policy.depth model.groups authority view.satisfied view.elapsed) [
        | none ↦ none
        | some now_out ↦ elim (evaluate policy.depth model.groups authority view.satisfied 0) [
          | none ↦ none
          | some out ↦ some (now_out.met && not out.met)
        ]
      ]

  unfoldable pub mature_met :
      (host : Text) → Host → SystemTime → PendingView → Option Bool → Act World (Unit {0})
  mature_met host cfg now view none = fatal too_deep
  mature_met host cfg now view (some false) = pure tt
  mature_met host cfg now view (some true) =
      open_pending_now outside host cfg cfg.channels view.requested_at now >> pure tt

  unfoldable pub mature_resolved :
      AuthorityModel
      → (host : Text) → Host
      → SystemTime
      → PendingView
      → Result Refusal Authority
      → Act World (Unit {0})
  mature_resolved model host cfg now view (err _) = pure tt
  mature_resolved model host cfg now view (ok authority) =
      mature_met host cfg now view (matures model authority view)

  unfoldable pub mature_view :
      AuthorityModel
      → SystemTime
      → (host : Text) → Host
      → Result RegistryError PendingView
      → Act World (Unit {0})
  mature_view model now host cfg (err _) = pure tt
  mature_view model now host cfg (ok view) =
      mature_resolved model host cfg now view (resolve_authority model cfg view.profile)

  unfoldable pub mature_one : AuthorityModel → SystemTime → (host : Text) → Act World (Unit {0})
  mature_one model now host = known_host host >>= λ cfg.
      with_read_registry outside (λ r. Registry.pending_view r host now)
      >>= mature_view model now host cfg

  unfoldable pub mature_waits : SystemTime → Act World (Unit {0})
  mature_waits now = elim policy.approval [
    | none ↦ pure tt
    | some model ↦
        with_read_registry outside (λ r. Registry.awaiting_approval_hosts r now)
        >>= for_each outside (mature_one model now)
  ]

  -- The report only reads the lines that it prints.
  unfoldable pub pass : SystemTime → Act World (Unit {0})
  pass now =
      pass_reverts outside now
      >> mature_waits now
      >> with_read_registry outside (λ r. status_lines r now)
      >>= λ lines. pure tt
