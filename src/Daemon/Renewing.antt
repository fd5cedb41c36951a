-- ===== src/Daemon/Renewing.antt =====
-- `renew` and `drill` of daemon/src/lifecycle.rs.
use lychgate.Prelude.{not, List, [], ◌∷◌, none, some, ok, err, is_empty, if◌then◌else◌}
use lychgate.Prelude.Text.{Text, bytes, text_eq}
use lychgate.Clock.{SystemTime, Duration, checked_add, as_secs}
use lychgate.Ttl.{Ttl, parse}
use lychgate.Channel.{Channel}
use lychgate.Channel.Drivers.{renew_channels}
use lychgate.Grant.{GrantStatus, Nonce}
use lychgate.Registry.{GrantRegistry, RegistryError, host_status, unknown_host}
use lychgate.Registry
use lychgate.Approval.{epoch_secs}
use lychgate.Daemon.{
  Host, Event, Response, refused, opened_until, drill_passed, Outside, Act, pure, ◌>>=◌, ◌>>◌,
  journal, with_registry, with_read_registry, with_drivers, with_target, host_of, registry, ttl,
  not_rescheduled, not_told, not_canary, not_idle, drill_did_not_pass,
}
use lychgate.Daemon.Opening.{open_pending_now}
use lychgate.Daemon.Reverting.{close}

module _ {Secret World : Type 0} (outside : Outside Secret World) where
  -- The channels of the host's open grant.
  channels_at : Text → List (Text × List Channel) → List Channel
  channels_at host [] = []
  channels_at host ((name, channels) ∷ rest) =
      if text_eq name host then channels else channels_at host rest

  unfoldable pub commit_renewal : Text → Ttl → SystemTime → Act World (Response Secret)
  commit_renewal host t now =
      with_registry outside (λ r. Registry.renew r host now t) >>= λ renewed. elim renewed [
        | err e ↦ pure (refused (registry e))
        | ok expires ↦
            journal outside (Event.renewed host (as_secs t.duration) (epoch_secs expires))
            >> pure (opened_until (epoch_secs expires) none)
      ]

  -- The channels that hold their own deadline are told before the commit.
  unfoldable pub tell_channels :
      Text → Host → Ttl → (expires now : SystemTime) → Act World (Response Secret)
  unfolding channels_at
  tell_channels host cfg t expires now =
      with_read_registry outside (λ r. channels_at host (Registry.open_channels r now))
      >>= λ channels.
          if is_empty channels
          then commit_renewal host t now
          else (with_drivers (λ set.
                renew_channels outside.driver set cfg channels
                  (record { ttl_secs = as_secs t.duration; expires_at = expires }))
              >>= λ told. elim told [
                | ok _ ↦ commit_renewal host t now
                | err (_, e) ↦ pure (refused (not_told e))
              ])

  unfoldable pub renew : Text → Text → SystemTime → Act World (Response Secret)
  renew host ttl_str now = elim (parse ttl_str) [
    | err e ↦ pure (refused (ttl e))
    | ok t ↦ with_read_registry outside (λ r. (Registry.renew r host now t).1) >>= λ dry. elim dry [
      | err e ↦ pure (refused (registry e))
      | ok expires ↦ host_of host >>= λ found. elim found [
        | none ↦ commit_renewal host t now
        | some cfg ↦
            if cfg.has_ssh
            then (with_target (outside.deadman.reschedule cfg expires) >>= λ moved. elim moved [
              | ok _ ↦ tell_channels host cfg t expires now
              | err e ↦ pure (refused (not_rescheduled e))
            ])
            else tell_channels host cfg t expires now
      ]
    ]
  ]

  drill_failed : Text → Act World (Response Secret)
  drill_failed host = journal outside (Event.drill_failed host) >> pure (refused drill_did_not_pass)

  -- The end of a drill, over the response to its `close`.
  drill_closed : Text → Response Secret → Act World (Response Secret)
  unfolding drill_failed
  drill_closed host (refused _) = drill_failed host
  drill_closed host _ = journal outside (Event.drill_passed host) >> pure drill_passed

  -- `let _ = …`: an error is dropped.
  ignored : {A : Type 0} → Act World A → Act World (Unit {0})
  ignored m d = ((m d).0, ok tt)

  drill_opened : Text → SystemTime → Response Secret → Act World (Response Secret)
  unfolding drill_failed drill_closed ignored
  drill_opened host now (opened_until _ _) = close outside host now >>= drill_closed host
  drill_opened host now _ = ignored (close outside host now) >> drill_failed host

  unfoldable pub drill :
      (window : Duration) → Nonce → Text → SystemTime → Act World (Response Secret)
  unfolding drill_failed drill_opened
  drill window nonce host now = host_of host >>= λ found. elim found [
    | none ↦ pure (refused (registry (unknown_host host)))
    | some cfg ↦
        if not cfg.drill
        then pure (refused not_canary)
        else (with_read_registry outside (λ r. host_status r host now) >>= λ status. elim status [
          | ok GrantStatus.closed ↦ elim (parse (bytes "5m")) [
            | err _ ↦ drill_failed host
            | ok t ↦
                with_registry outside (λ r.
                  Registry.begin_pending r host now
                    (elim (checked_add now window) [ none ↦ now | some deadline ↦ deadline ]) t
                    nonce (bytes "drill"))
                >>= λ begun. elim begun [
                  | err _ ↦ drill_failed host
                  | ok _ ↦
                      open_pending_now outside host cfg cfg.channels now now
                      >>= drill_opened host now
                ]
          ]
          | _ ↦ pure (refused not_idle)
        ])
  ]
