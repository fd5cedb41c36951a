-- ===== src/Daemon/Requesting.antt =====
-- `open` of daemon/src/lifecycle.rs: it records a request and drives nothing. The nonce is an argument.
use lychgate.Prelude.{[], Option, none, some, Result, ok, err, leb, if◌then◌else◌}
use lychgate.Prelude.Text.{Text}
use lychgate.Clock.{SystemTime, checked_add, as_secs}
use lychgate.Ttl.{Ttl, parse}
use lychgate.Grant.{Nonce}
use lychgate.Registry.{GrantRegistry, RegistryError, unknown_host}
use lychgate.Registry
use lychgate.Approval.{epoch_secs, challenge_string}
use lychgate.Authority.{Authority}
use lychgate.Authority.Spec.Build.{AuthorityModel}
use lychgate.Daemon.{
  Host, Event, Refusal, Response, refused, too_deep, Outside, Act, pure, fatal, ◌>>=◌, ◌>>◌,
  host_of, journal, with_registry, registry, ttl, wait_exceeds_window, window_overflows,
}
use lychgate.Daemon.Proofs.{Factors}
use lychgate.Daemon.Policy.{
  Policy, dry_run_profile, permitted_profiles, resolve_authority, chosen_profile, max_wait,
  progress, answer_pending,
}

module _ {Secret World : Type 0} (outside : Outside Secret World) (factors : Factors)
    (policy : Policy) where
  -- The profile and the authority of an `open`; `none` when the bound on the depth is met.
  unfoldable pub choose_resolved :
      AuthorityModel
      → (name : Text) → Result Refusal Authority
      → Option (Result Refusal (Text × Option Authority))
  choose_resolved model name (err e) = some (err e)
  choose_resolved model name (ok authority) = elim (max_wait policy.depth model authority) [
    | none ↦ none
    | some wait ↦ some (
        if leb policy.approval_window wait
        then err (wait_exceeds_window name (as_secs wait) (as_secs policy.approval_window))
        else ok (name, some authority))
  ]

  unfoldable pub choose_named :
      AuthorityModel
      → Host
      → Result Refusal Text
      → Option (Result Refusal (Text × Option Authority))
  choose_named model cfg (err e) = some (err e)
  choose_named model cfg (ok name) = choose_resolved model name (resolve_authority model cfg name)

  unfoldable pub choose :
      Option AuthorityModel
      → (host : Text) → Host
      → Option Text
      → Option (Result Refusal (Text × Option Authority))
  choose none host cfg named = some (ok (dry_run_profile, none))
  choose (some model) host cfg named =
      choose_named model cfg (chosen_profile host (permitted_profiles model cfg) named)

  -- What follows the commit of a request.
  unfoldable pub requested :
      (host : Text)
      → Host
      → Ttl
      → Nonce
      → (now deadline : SystemTime) (name : Text) → Option Authority
      → Result RegistryError (Unit {0})
      → Act World (Response Secret)
  requested host cfg t nonce now deadline name authority (err e) = pure (refused (registry e))
  requested host cfg t nonce now deadline name authority (ok _) =
      journal outside (
        Event.requested host cfg.channels (as_secs t.duration) (epoch_secs now)
          (epoch_secs deadline))
      >> answer_pending
          (record {
            host = host;
            challenge = challenge_string factors.codec (record {
              nonce = nonce;
              host = host;
              ttl_secs = as_secs t.duration;
              requested_at = now;
            });
            ttl_secs = as_secs t.duration;
            requested_at = epoch_secs now;
            approval_deadline = epoch_secs deadline;
            profile = name;
            weight = 0;
            threshold = 0;
            missing = none;
          })
          (progress policy.depth policy.approval authority [] 0)

  unfoldable pub request_open :
      (host : Text)
      → Host
      → Ttl
      → Nonce
      → SystemTime
      → Text × Option Authority
      → Act World (Response Secret)
  request_open host cfg t nonce now (name, authority) =
      elim (checked_add now policy.approval_window) [
        | none ↦ pure (refused window_overflows)
        | some deadline ↦
            with_registry outside (λ r. Registry.begin_pending r host now deadline t nonce name)
            >>= requested host cfg t nonce now deadline name authority
      ]

  unfoldable pub open_chosen :
      (host : Text)
      → Host
      → Ttl
      → Nonce
      → SystemTime
      → Option (Result Refusal (Text × Option Authority))
      → Act World (Response Secret)
  open_chosen host cfg t nonce now none = fatal too_deep
  open_chosen host cfg t nonce now (some (err e)) = pure (refused e)
  open_chosen host cfg t nonce now (some (ok chosen)) = request_open host cfg t nonce now chosen

  unfoldable pub open_known :
      (host : Text) (named : Option Text)
      → Ttl
      → Nonce
      → SystemTime
      → Option Host
      → Act World (Response Secret)
  open_known host named t nonce now none = pure (refused (registry (unknown_host host)))
  open_known host named t nonce now (some cfg) =
      open_chosen host cfg t nonce now (choose policy.approval host cfg named)

  unfoldable pub open_host :
      (host ttl_text : Text) (named : Option Text)
      → Nonce
      → SystemTime
      → Act World (Response Secret)
  open_host host ttl_text named nonce now = elim (parse ttl_text) [
    | err e ↦ pure (refused (ttl e))
    | ok t ↦ host_of host >>= open_known host named t nonce now
  ]
