-- ===== src/Daemon/Approving.antt =====
-- `approve` of daemon/src/lifecycle.rs.
pub mod Judged
pub mod Met
use lychgate.Prelude.{
  ℕ, zero, suc, Bool, true, false, not, ◌&&◌, List, [], ◌∷◌, Option, none, some, Result, ok, err,
  map_err, any, leb, if◌then◌else◌, refuse_if,
}
use lychgate.Prelude as Common
use lychgate.Prelude.Text.{Text, bytes, text_eq}
use lychgate.Prelude.TextMap.{get}
use lychgate.Prelude.TextSet.{TextSet}
use lychgate.Clock.{SystemTime, Duration, checked_add, as_secs}
use lychgate.Ttl.{Ttl, parse}
use lychgate.Grant.{ApprovalRequest, Nonce, PendingView}
use lychgate.Registry.{GrantRegistry, RegistryError, unknown_host}
use lychgate.Registry
use lychgate.Approval.{epoch_secs, challenge_string, ApprovalError}
use lychgate.Authority.{Authority, Outcome, Missing, evaluate}
use lychgate.Authority.Spec.Build.{AuthorityModel, resolve_override, profile, max_wait_inner}
use lychgate.Authority.Proofs.{profile_ids}
use lychgate.Protocol.{PendingChallenge, status_lines}
use lychgate.Daemon.{
  Host, HostAccess, Event, Refusal, Response, refused, pending, Fatal, too_deep, Outside, Daemon,
  Act, pure, fatal, ◌>>=◌, ◌>>◌, host_of, known_host, journal, with_registry, with_read_registry,
  registry, ttl, no_permitted_profile, profile_not_named, profile_not_permitted, profile_undefined,
  bad_override, wait_exceeds_window, window_overflows, proof_refused,
}
use lychgate.Daemon.Opening.{open_pending_now}
use lychgate.Daemon.Reverting.{pass_reverts, for_each}
use lychgate.Daemon.Proofs.{Factors, Secrets, Ledgers, verify_proof}
use lychgate.Daemon.Policy.{
  Policy, Station, Duty, on_daemon, on_ledgers, and_then, dry_run_profile, permitted_profiles,
  resolve_authority, chosen_profile, max_wait, progress, answer_pending,
}

module _ {Secret World : Type 0} (outside : Outside Secret World) (factors : Factors)
    (policy : Policy) where
  -- The block of a grant that stays pending: the challenge was issued before.
  pending_challenge : (host : Text) → PendingView → PendingChallenge
  pending_challenge host view = record {
    host = host;
    challenge = [];
    ttl_secs = 0;
    requested_at = epoch_secs view.requested_at;
    approval_deadline = 0;
    profile = view.profile;
    weight = 0;
    threshold = 0;
    missing = none;
  }

  -- What the evaluation of a request as it is stored leads to.
  unfoldable pub judged :
      AuthorityModel
      → (host : Text) → Host
      → SystemTime
      → PendingView
      → Authority
      → Option Outcome
      → Act World (Response Secret)
  unfolding pending_challenge
  judged model host cfg now view authority none = fatal too_deep
  judged model host cfg now view authority (some out) =
      if out.met
      then open_pending_now outside host cfg cfg.channels view.requested_at now
      else answer_pending (pending_challenge host view)
          (progress policy.depth (some model) (some authority) view.satisfied view.elapsed)

  unfoldable pub judge :
      AuthorityModel
      → (host : Text) → Host
      → SystemTime
      → PendingView
      → Result Refusal Authority
      → Act World (Response Secret)
  judge model host cfg now view (err e) = pure (refused e)
  judge model host cfg now view (ok authority) =
      judged model host cfg now view authority
        (evaluate policy.depth model.groups authority view.satisfied view.elapsed)

  unfoldable pub judge_view :
      AuthorityModel
      → (host : Text) → Host
      → SystemTime
      → Result RegistryError PendingView
      → Act World (Response Secret)
  judge_view model host cfg now (err e) = pure (refused (registry e))
  judge_view model host cfg now (ok view) =
      judge model host cfg now view (resolve_authority model cfg view.profile)

  -- The proof is journaled when it is new.
  unfoldable pub re_evaluate :
      AuthorityModel
      → (host : Text) → Host
      → SystemTime
      → (id : Text) → Result RegistryError Bool
      → Act World (Response Secret)
  re_evaluate model host cfg now id (err e) = pure (refused (registry e))
  re_evaluate model host cfg now id (ok newly) =
      (if newly then journal outside (Event.proof_accepted host id) else pure tt)
      >> (with_read_registry outside (λ r. Registry.pending_view r host now)
          >>= judge_view model host cfg now)

  -- What follows the verification of a proof.
  unfoldable pub take_proof :
      AuthorityModel
      → (host : Text) → Host
      → SystemTime
      → Result ApprovalError Text
      → Act World (Response Secret)
  take_proof model host cfg now (err e) =
      journal outside (Event.approval_denied host) >> pure (refused (proof_refused e))
  take_proof model host cfg now (ok id) =
      with_registry outside (λ r. Registry.add_satisfied r host now id)
      >>= re_evaluate model host cfg now id

  -- Without a policy the first proof opens.
  unfoldable pub approve_under :
      Option AuthorityModel
      → (host token : Text) → SystemTime
      → ApprovalRequest
      → Host
      → Duty World (Response Secret)
  approve_under none host token now request cfg =
      on_daemon (open_pending_now outside host cfg cfg.channels request.requested_at now)
  approve_under (some model) host token now request cfg =
      and_then (on_ledgers (verify_proof factors model policy.secrets request token now))
        (λ verdict. on_daemon (take_proof model host cfg now verdict))

  unfoldable pub approve_pending :
      (host token : Text)
      → SystemTime
      → Result RegistryError ApprovalRequest
      → Duty World (Response Secret)
  approve_pending host token now (err e) = on_daemon (pure (refused (registry e)))
  approve_pending host token now (ok request) =
      and_then (on_daemon (known_host host)) (approve_under policy.approval host token now request)

  unfoldable pub approve : (host token : Text) → SystemTime → Duty World (Response Secret)
  approve host token now =
      and_then (on_daemon (with_read_registry outside (λ r. Registry.pending r host now)))
        (approve_pending host token now)
