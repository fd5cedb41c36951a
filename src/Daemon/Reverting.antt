-- ===== src/Daemon/Reverting.antt =====
-- The calls of daemon/src/lifecycle.rs that take access away: `close`, `drive_one_revert`, the first part of
-- `pass`, `boot_recover` and `reestablish_open`. What they print is left out.
pub mod Closing
use lychgate.Prelude.{
  ℕ, Bool, true, false, List, [], ◌∷◌, Option, none, some, Result, ok, err, map, if◌then◌else◌,
}
use lychgate.Prelude.Text.{Text}
use lychgate.Clock.{SystemTime}
use lychgate.Channel.{Channel, ssh, vnc}
use lychgate.Channel.Drivers.{
  DriverError, RevertOutcome, reverted, stuck, ReestablishOutcome, restored, lost, revert_channels,
  reestablish_channels,
}
use lychgate.Grant.{GrantError, GrantStatus}
use lychgate.Registry.{
  GrantRegistry, RegistryError, grant, host_status, ExpiredGrant, ExpiredPending, needing_revert,
}
use lychgate.Registry
use lychgate.Approval.{epoch_secs}
use lychgate.Daemon.{
  Host, Event, Refusal, Response, refused, cancelled, already_closed, Fatal, panic, unexpected,
  Outside, Daemon, Act, pure, fatal, ◌>>=◌, ◌>>◌, journal, mutate, with_registry, must,
  with_read_registry, with_drivers, with_target, known_host, close_incomplete, registry,
}

pub data RevertProgress : Type 0 where
  all_closed : RevertProgress
  still_stuck : List Channel → RevertProgress

abbrev pub first_or : Channel → List Channel → Channel
first_or c [] = c
first_or c (d ∷ ds) = d

module _ {Secret World : Type 0} (outside : Outside Secret World) where
  -- Another actor may have closed the grant meanwhile.
  abbrev pub finished : Text → Bool → Result RegistryError (Unit {0}) → Act World RevertProgress
  finished host fired (ok _) = journal outside (Event.closed host fired) >> pure all_closed
  finished host fired (err (grant GrantError.not_open)) = pure all_closed
  finished host fired (err e) = fatal (unexpected e)

  unfoldable pub finish_close : Text → (deadman_fired : Bool) → Act World RevertProgress
  finish_close host fired =
      with_registry outside (λ r. Registry.finish_revert r host) >>= finished host fired

  abbrev pub retained : List Channel → Result RegistryError Bool → Act World RevertProgress
  retained left (ok _) = pure (still_stuck left)
  retained left (err (grant GrantError.not_open)) = pure all_closed
  retained left (err e) = fatal (unexpected e)

  unfoldable pub keep_stuck : Text → List Channel → Act World RevertProgress
  keep_stuck host left =
      with_registry outside (λ r. Registry.retain_stuck r host left) >>= retained left

  -- What the removal of the backstop leads to.
  abbrev pub removed : Text → List Channel → Result DriverError Bool → Act World RevertProgress
  removed host channels (ok fired) = finish_close host fired
  removed host channels (err _) =
      with_registry outside (λ r. Registry.retain_stuck r host channels)
      >> pure (still_stuck channels)

  -- The backstop comes out after the channels; a removal that fails keeps them all stuck.
  unfoldable pub settle_revert :
      Text → Host → List Channel → RevertOutcome → Act World RevertProgress
  settle_revert host cfg channels (stuck left) = keep_stuck host (map (λ e. e.0) left)
  settle_revert host cfg channels reverted =
      if cfg.has_ssh
      then (with_target (outside.deadman.remove cfg) >>= removed host channels)
      else finish_close host false

  unfoldable pub drive_one_revert : Text → List Channel → Act World RevertProgress
  drive_one_revert host channels = known_host host >>= λ cfg.
      with_drivers (λ set. revert_channels outside.driver set cfg channels)
      >>= settle_revert host cfg channels

  unfoldable pub close_grant : Text → SystemTime → Act World (Response Secret)
  close_grant host now = with_registry outside (λ r. Registry.begin_revert r host now) >>= λ begun.
      elim begun [
        | err (grant GrantError.not_open) ↦ pure already_closed
        | err e ↦ pure (refused (registry e))
        | ok channels ↦ drive_one_revert host channels >>= λ progress. pure (elim progress [
          | all_closed ↦ Response.closed
          | still_stuck left ↦ refused (close_incomplete left)
        ])
      ]

  cancel : Text → Act World (Response Secret)
  cancel host =
      must outside (λ r. Registry.cancel_pending r host)
      >> journal outside (Event.request_cancelled host)
      >> pure cancelled

  unfoldable pub close : Text → SystemTime → Act World (Response Secret)
  unfolding cancel
  close host now = with_read_registry outside (λ r. host_status r host now) >>= λ status.
      elim status [
        | ok (GrantStatus.awaiting_approval remaining) ↦ cancel host
        | ok GrantStatus.approval_expired ↦ cancel host
        | _ ↦ close_grant host now
      ]

  -- A `for` loop whose body is an action.
  abbrev pub for_each : {A : Type 0} → (A → Act World (Unit {0})) → List A → Act World (Unit {0})
  for_each body [] = pure tt
  for_each body (x ∷ xs) = body x >> for_each body xs

  -- The two reaping rounds under one `mutate`; `none` of a round is its panic.
  reap :
      GrantRegistry
      → SystemTime
      → Option (GrantRegistry × (List ExpiredGrant × List ExpiredPending))
  reap r now = elim (Registry.reap_to_revert r now) [
    | none ↦ none
    | some (r', grants) ↦ elim (Registry.reap_expired_pending r' now) [
      | none ↦ none
      | some (r'', requests) ↦ some (r'', (grants, requests))
    ]
  ]

  -- The first part of `pass`: what ran out is taken down, and everything that needs a revert is driven once.
  unfoldable pub pass_reverts : SystemTime → Act World (Unit {0})
  unfolding reap
  pass_reverts now = mutate outside (λ r. reap r now) >>= λ reaped.
      for_each
        (λ (e : ExpiredGrant).
          journal outside
            (Event.expired e.host e.channels (epoch_secs e.opened_at) (epoch_secs e.expires_at)))
        reaped.0
      >> for_each
          (λ (e : ExpiredPending). journal outside (
            Event.request_expired e.host (epoch_secs e.requested_at)
              (epoch_secs e.approval_deadline)))
          reaped.1
      >> with_read_registry outside (λ r. needing_revert r now)
      >>= for_each (λ e. drive_one_revert e.0 e.1 >> pure tt)

  reestablish_one : SystemTime → Text × List Channel → Act World (Unit {0})
  reestablish_one now (host, channels) = known_host host >>= λ cfg.
      with_drivers (λ set. reestablish_channels outside.driver set cfg channels) >>= λ outcome.
      elim outcome [
        | restored ↦ journal outside (Event.reestablished host channels)
        | lost gone ↦
            must outside (λ r. Registry.begin_revert r host now)
            >> journal outside
                (Event.open_failed host (first_or vnc (map (λ e. e.0) gone)) (map (λ e. e.0) gone))
      ]

  unfoldable pub reestablish_open : SystemTime → Act World (Unit {0})
  unfolding reestablish_one
  reestablish_open now =
      with_read_registry outside (λ r. Registry.open_channels r now)
      >>= for_each (reestablish_one now)

  unfoldable pub boot_recover : SystemTime → Act World (Unit {0})
  boot_recover now =
      mutate outside (λ r. Registry.demote_opening r now)
      >>= for_each (λ e. journal outside (Event.open_failed e.0 (first_or ssh e.1) e.1))
      >> reestablish_open now
