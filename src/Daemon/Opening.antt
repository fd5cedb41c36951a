-- ===== src/Daemon/Opening.antt =====
-- `open_pending_now` and `drive_open` of daemon/src/lifecycle.rs.
pub mod Listed
pub mod Commits
pub mod Coverage
use lychgate.Prelude.{
  ℕ, ◌+◌, Bool, true, false, ◌&&◌, ◌||◌, List, [], ◌∷◌, Option, none, some, Result, ok, err, any,
  is_empty, map, if◌then◌else◌,
}
use lychgate.Prelude.Text.{Text}
use lychgate.Clock.{SystemTime, duration_since, as_secs}
use lychgate.Channel.{Channel, ssh, authorized_keys}
use lychgate.Channel.Drivers.{
  DriverError, ApplyCtx, DriverSet, ApplyOutcome, applied, failed, RevertOutcome, reverted, stuck,
  drivable, apply_channels, revert_channels, take_secret,
}
use lychgate.Grant.{GrantError, GrantStatus}
use lychgate.Registry.{RegistryError, grant, host_status}
use lychgate.Registry
use lychgate.Approval.{epoch_secs}
use lychgate.Daemon.{
  Host, Event, Refusal, Response, refused, opened_until, opening, Fatal, panic, Outside, Daemon,
  Act, pure, fatal, ◌>>=◌, ◌>>◌, journal, with_registry, must, with_read_registry, with_drivers,
  with_target, no_backstop, open_failed_on, not_awaiting, registry,
}

abbrev is_ssh : Channel → Bool
is_ssh ssh = true
is_ssh authorized_keys = true
is_ssh _ = false

unfoldable pub wants_deadman : Host → List Channel → Bool
wants_deadman host channels = host.has_ssh && any is_ssh channels

abbrev pub stuck_of : RevertOutcome → List Channel
stuck_of reverted = []
stuck_of (stuck left) = map (λ e. e.0) left

module _ {Secret World : Type 0} (outside : Outside Secret World) where
  -- The first one-time secret that an applied channel hands out.
  unfoldable pub find_secret :
      List Channel → DriverSet World → DriverSet World × Option (Channel × Secret)
  find_secret [] set = (set, none)
  find_secret (c ∷ cs) set =
      let r = take_secret outside.driver set c in
      let rest = find_secret cs r.0 in elim r.1 [ some s ↦ (r.0, some (c, s)) | none ↦ rest ]

  -- The grant of an open that did not succeed.
  unfoldable pub abandon : Text → List Channel → SystemTime → Act World (Unit {0})
  abandon host [] now = must outside (λ r. Registry.abort_open r host)
  abandon host (c ∷ left) now = must outside (λ r. Registry.fail_open r host (c ∷ left) now)

  unfoldable pub commit_open :
      Text → List Channel → List Channel → ℕ → SystemTime → Act World (Response Secret)
  unfolding find_secret
  commit_open host channels declared ttl_secs expires =
      must outside (λ r. Registry.finish_open r host)
      >> journal outside (Event.opened host channels declared ttl_secs (epoch_secs expires))
      >> with_drivers (find_secret channels)
      >>= λ secret. pure (opened_until (epoch_secs expires) secret)

  -- The branch of an `install` that fails.
  unfoldable pub unwind_open :
      Text → Host → List Channel → DriverError → SystemTime → Act World (Response Secret)
  unwind_open host cfg channels error now =
      with_drivers (λ set. revert_channels outside.driver set cfg channels) >>= λ outcome.
      abandon host (stuck_of outcome) now
      >> journal outside (Event.open_failed host ssh (stuck_of outcome))
      >> pure (refused (no_backstop error))

  -- The commit of what the drivers did; `none` is their panic.
  unfoldable pub settle_open :
      Text
      → Host
      → List Channel
      → ℕ
      → (expires now : SystemTime) → Option ApplyOutcome
      → Act World (Response Secret)
  settle_open host cfg declared ttl_secs expires now none = fatal panic
  settle_open host cfg declared ttl_secs expires now (some (failed c error done left)) =
      abandon host left now
      >> journal outside (Event.open_failed host c left)
      >> pure (refused (open_failed_on c error left))
  settle_open host cfg declared ttl_secs expires now (some (applied channels)) =
      if wants_deadman cfg channels
      then (with_target (outside.deadman.install cfg expires) >>= λ installed. elim installed [
        | ok _ ↦ commit_open host channels declared ttl_secs expires
        | err e ↦ unwind_open host cfg channels e now
      ])
      else commit_open host channels declared ttl_secs expires

  unfoldable pub drive_open :
      Text
      → Host
      → (to_apply declared : List Channel) (ttl_secs : ℕ) (expires now : SystemTime)
      → Act World (Response Secret)
  drive_open host cfg to_apply declared ttl_secs expires now =
      with_drivers (λ set.
        apply_channels outside.driver set cfg to_apply
          (record { ttl_secs = ttl_secs; expires_at = expires }))
      >>= settle_open host cfg declared ttl_secs expires now

  unfoldable pub already_opening_response : Text → SystemTime → Act World (Response Secret)
  already_opening_response host now =
      with_read_registry outside (λ r. host_status r host now) >>= λ status. pure (elim status [
        | ok (GrantStatus.opened remaining) ↦ opened_until (epoch_secs now + as_secs remaining) none
        | ok GrantStatus.opening ↦ opening
        | _ ↦ refused not_awaiting
      ])

  unfoldable pub open_pending_now :
      Text → Host → List Channel → (requested_at now : SystemTime) → Act World (Response Secret)
  open_pending_now host cfg declared requested_at now =
      with_drivers (λ set. (set, drivable set declared)) >>= λ to_apply.
      with_registry outside (λ r. Registry.approve_to_opening r host now to_apply) >>= λ claimed.
      elim claimed [
        | err (grant GrantError.not_pending) ↦ already_opening_response host now
        | err e ↦ pure (refused (registry e))
        | ok expires ↦
            journal outside (Event.approved host (epoch_secs requested_at))
            >> drive_open host cfg to_apply declared
                (elim (duration_since expires now) [ none ↦ 0 | some d ↦ as_secs d ]) expires now
      ]
