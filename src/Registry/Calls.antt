-- ===== src/Registry/Calls.antt =====
-- Calls on core/src/registry.rs: each is the grant's own call on one host, and hosts do not interfere.
use lychgate.Prelude.{
  ◌≡◌, ap, ◌∙◌, List, [], ◌∷◌, Option, none, some, Result, ok, err, if◌then◌else◌, inl, inr,
  Bool-cases,
}
use lychgate.Prelude.Text.{Text, text_eq}
use lychgate.Prelude.TextMap.{get}
use lychgate.Grant.{Grant}
use lychgate.Grant.Lifecycle.{
  Call, begins_open, finishes_open, aborts_open, fails_open, begins_revert, retains_stuck,
  finishes_revert, renews, begins_pending, adds_satisfied, approves, cancels_pending, step, run,
}
use lychgate.Registry.{
  GrantRegistry, RegistryError, begin_open, finish_open, abort_open, fail_open, begin_revert,
  retain_stuck, finish_revert, renew, begin_pending, add_satisfied, approve_to_opening,
  cancel_pending,
}
use lychgate.Registry.Frame.{with_grant_any}

abbrev refusal {ℓ} : {A : Type ℓ} → Result RegistryError A → Option RegistryError
refusal (ok a) = none
refusal (err e) = some e

abbrev outcome {ℓ} :
    {A : Type ℓ} → GrantRegistry × Result RegistryError A → GrantRegistry × Option RegistryError
outcome p = (p.0, refusal p.1)

-- The registry after the call on one host, and the error that the call returned.
unfoldable pub call : GrantRegistry → Text → Call → GrantRegistry × Option RegistryError
unfolding begin_open finish_open abort_open fail_open begin_revert retain_stuck finish_revert renew
    begin_pending add_satisfied approve_to_opening cancel_pending
call r host (begins_open now ttl channels) = outcome (begin_open r host now ttl channels)
call r host finishes_open = outcome (finish_open r host)
call r host aborts_open = outcome (abort_open r host)
call r host (fails_open stuck now) = outcome (fail_open r host stuck now)
call r host (begins_revert now) = outcome (begin_revert r host now)
call r host (retains_stuck stuck) = outcome (retain_stuck r host stuck)
call r host finishes_revert = outcome (finish_revert r host)
call r host (renews now ttl) = outcome (renew r host now ttl)
call r host (begins_pending now deadline ttl nonce profile) =
    outcome (begin_pending r host now deadline ttl nonce profile)
call r host (adds_satisfied now id) = outcome (add_satisfied r host now id)
call r host (approves now channels) = outcome (approve_to_opening r host now channels)
call r host cancels_pending = outcome (cancel_pending r host)

-- The calls on one host among the calls on all of them.
abbrev pub calls_on : Text → List (Text × Call) → List Call
calls_on host [] = []
calls_on host ((h, c) ∷ cs) = if text_eq h host then c ∷ calls_on host cs else calls_on host cs

unfoldable pub run_all : GrantRegistry → List (Text × Call) → GrantRegistry
run_all r [] = r
run_all r ((host, c) ∷ cs) = run_all (call r host c).0 cs

get-call :
    (r : GrantRegistry) (host other : Text) (g : Grant) (c : Call)
    → get other r ≡ some g
    → get other (call r host c).0 ≡ (if text_eq host other then some (step g c).0 else some g)
unfolding call step
get-call r host other g (begins_open now ttl channels) e = with_grant_any r host other g _ e
get-call r host other g finishes_open e = with_grant_any r host other g _ e
get-call r host other g aborts_open e = with_grant_any r host other g _ e
get-call r host other g (fails_open stuck now) e = with_grant_any r host other g _ e
get-call r host other g (begins_revert now) e = with_grant_any r host other g _ e
get-call r host other g (retains_stuck stuck) e = with_grant_any r host other g _ e
get-call r host other g finishes_revert e = with_grant_any r host other g _ e
get-call r host other g (renews now ttl) e = with_grant_any r host other g _ e
get-call r host other g (begins_pending now deadline ttl nonce profile) e =
    with_grant_any r host other g _ e
get-call r host other g (adds_satisfied now id) e = with_grant_any r host other g _ e
get-call r host other g (approves now channels) e = with_grant_any r host other g _ e
get-call r host other g cancels_pending e = with_grant_any r host other g _ e

-- After any interleaving of calls on any hosts, known or not, a known host has the grant that its own calls,
-- in their order, give on their own.
pub run_all-run :
    (r : GrantRegistry) (host : Text) (g : Grant) (cs : List (Text × Call))
    → get host r ≡ some g
    → get host (run_all r cs) ≡ some (run g (calls_on host cs))
unfolding run_all run
run_all-run r host g [] e = e
run_all-run r host g ((h, c) ∷ cs) e = elim (Bool-cases (text_eq h host)) [
  | inl p ↦ rw p (
      run_all-run (call r h c).0 host (step g c).0 cs
        (get-call r h host g c e ∙ ap (λ b. if b then some (step g c).0 else some g) p))
  | inr p ↦ rw p (
      run_all-run (call r h c).0 host g cs
        (get-call r h host g c e ∙ ap (λ b. if b then some (step g c).0 else some g) p))
]
