-- ===== src/Daemon/Policy.antt =====
-- The approval policy of daemon/src/lifecycle.rs, and which profile and which authority it gives a host. A `Station`
-- is the daemon with its two ledgers. A recursion into groups is bounded by `depth`, and a call that meets the bound
-- ends as `too_deep`.
use lychgate.Prelude.{
  ℕ, List, [], ◌∷◌, Option, none, some, Result, ok, err, map_err, any, if◌then◌else◌,
}
use lychgate.Prelude.Text.{Text, bytes, text_eq}
use lychgate.Prelude.TextMap.{get}
use lychgate.Prelude.TextSet.{TextSet}
use lychgate.Clock.{Duration}
use lychgate.Authority.{Authority, Missing, evaluate}
use lychgate.Authority.Spec.Build.{AuthorityModel, resolve_override, profile, max_wait_inner}
use lychgate.Authority.Proofs.{profile_ids}
use lychgate.Protocol.{PendingChallenge}
use lychgate.Daemon.{
  Host, HostAccess, Refusal, Response, pending, Fatal, too_deep, Daemon, Act, pure, fatal,
  no_permitted_profile, profile_not_named, profile_not_permitted, profile_undefined, bad_override,
}
use lychgate.Daemon.Proofs.{Secrets, Ledgers}

pub record Policy : Type 0 where
  pub approval : Option AuthorityModel
  pub approval_window : Duration
  pub secrets : Secrets
  pub depth : ℕ

pub record Station (World : Type 0) : Type 0 where
  pub daemon : Daemon World
  pub ledgers : Ledgers

-- An action of the daemon with its ledgers.
abbrev pub Duty : Type 0 → Type 0 → Type 0
Duty World A = Station World → Station World × Result Fatal A

module _ {World A : Type 0} where
  abbrev pub on_daemon : Act World A → Duty World A
  on_daemon m s = (record s { daemon = (m s.daemon).0 }, (m s.daemon).1)

  abbrev pub on_ledgers : (Ledgers → Ledgers × Result Fatal A) → Duty World A
  on_ledgers m s = (record s { ledgers = (m s.ledgers).0 }, (m s.ledgers).1)

-- What follows a step, unless that ended the daemon.
abbrev pub and_then : {World A B : Type 0} → Duty World A → (A → Duty World B) → Duty World B
and_then m f s = let r = m s in elim r.1 [ ok a ↦ f a r.0 | err e ↦ (r.0, err e) ]

abbrev pub dry_run_profile : Text
dry_run_profile = bytes "dry-run"

unfoldable pub permitted_profiles : AuthorityModel → Host → List Text
permitted_profiles model cfg = elim cfg.access [
  | some access ↦ access.profiles
  | none ↦ profile_ids model
]

abbrev pub global : AuthorityModel → Text → Result Refusal Authority
global model name = elim (profile model name) [
  | none ↦ err (profile_undefined name)
  | some a ↦ ok a
]

-- The host's own authority for the profile, or the policy's.
abbrev pub effective : AuthorityModel → Option HostAccess → Text → Result Refusal Authority
effective model none name = global model name
effective model (some access) name = elim (get name access.overrides) [
  | none ↦ global model name
  | some body ↦ map_err bad_override (resolve_override model name body)
]

unfoldable pub resolve_authority : AuthorityModel → Host → Text → Result Refusal Authority
resolve_authority model cfg name =
    if any (λ p. text_eq p name) (permitted_profiles model cfg)
    then effective model cfg.access name
    else err (profile_not_permitted cfg.name name)

-- The profile that an `open` names, or the only one that the host permits.
unfoldable pub chosen_profile :
    (host : Text) (permitted : List Text) → Option Text → Result Refusal Text
chosen_profile host permitted (some name) = ok name
chosen_profile host [] none = err (no_permitted_profile host)
chosen_profile host (only ∷ []) none = ok only
chosen_profile host (a ∷ b ∷ more) none = err (profile_not_named host (a ∷ b ∷ more))

unfoldable pub max_wait : ℕ → AuthorityModel → Authority → Option Duration
max_wait depth model authority = elim (max_wait_inner depth model.groups [] authority) [
  | none ↦ none
  | some (w, _) ↦ some w
]

-- Weight, threshold and what is outstanding; without a policy a gate of one factor, whose label is `none`.
unfoldable pub progress :
    ℕ
    → Option AuthorityModel
    → Option Authority
    → TextSet
    → Duration
    → Option (ℕ × (ℕ × Option (List Missing)))
progress depth (some model) (some authority) satisfied elapsed =
    elim (evaluate depth model.groups authority satisfied elapsed) [
      | none ↦ none
      | some out ↦ some (out.weight, (out.threshold, some out.missing))
    ]
progress depth none authority satisfied elapsed = some (0, (1, none))
progress depth (some model) none satisfied elapsed = some (0, (1, none))

unfoldable pub answer_pending :
    {Secret World : Type 0}
    → PendingChallenge
    → Option (ℕ × (ℕ × Option (List Missing)))
    → Act World (Response Secret)
answer_pending challenge none = fatal too_deep
answer_pending challenge (some (weight, (threshold, missing))) =
    pure (pending (record challenge { weight = weight; threshold = threshold; missing = missing }))
