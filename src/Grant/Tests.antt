-- ===== src/Grant/Tests.antt =====
-- Runs of core/src/grant.rs at concrete instants.
use mathlib.Core.List.{Memᴰ}
use lychgate.Prelude.{ℕ, ◌≡◌, refl, List, [], ◌∷◌, arith, if◌then◌else◌, ltb}
use lychgate.Clock.{SystemTime, from_secs}
use lychgate.Ttl.{Ttl, IsValid}
use lychgate.Channel.{ssh}
use lychgate.Grant.{
  GrantStatus, closed, opening, opened, pending, status, begin_open, begin_revert, finish_revert,
  expired, awaiting_approval, approval_expired, mid_open,
}
use lychgate.Grant.Lifecycle.{
  Call, begins_open, finishes_open, begins_revert, finishes_revert, renews, step, Edge,
  step_refused, step-Edge, run, closes_by_revert,
}
use lychgate.Grant.Bound.{EndsBy, run-EndsBy}
use lychgate.Grant.Expiry.{status_lem}

abbrev hour : Ttl
hour = record { duration = from_secs 3600 }

abbrev at : ℕ → SystemTime
at secs = from_secs secs

abbrev life : List Call
life =
    begins_open (at 0) hour (ssh ∷ [])
    ∷ finishes_open
    ∷ renews (at 1800) hour
    ∷ begins_revert (at 2000)
    ∷ finishes_revert
    ∷ []

step-Edge_example : Edge closed (step closed (begins_open (at 0) hour (ssh ∷ []))).0
unfolding step begin_open
step-Edge_example = step-Edge closed (begins_open (at 0) hour (ssh ∷ [])) refl

step_refused_example :
    (step (opening (at 0) (at 60) []) (begins_open (at 1) hour [])).0 ≡ opening (at 0) (at 60) []
unfolding step begin_open status
step_refused_example =
    step_refused (opening (at 0) (at 60) []) (begins_open (at 1) hour []) {e = mid_open} refl

closes_by_revert_example : Memᴰ finishes_revert (begins_revert (at 5) ∷ finishes_revert ∷ [])
unfolding run step begin_revert finish_revert
closes_by_revert_example =
    closes_by_revert (opened (at 0) (at 60) (ssh ∷ []))
      (begins_revert (at 5) ∷ finishes_revert ∷ []) tt refl

hour-IsValid : IsValid hour
hour-IsValid = record { positive = ground arith; capped = ground arith; whole = refl }

run-EndsBy_example : EndsBy (at 2000) (run closed life)
run-EndsBy_example =
    run-EndsBy (at 2000) closed life
      ((ground arith, hour-IsValid), (tt, ((ground arith, hour-IsValid), (tt, (tt, tt)))))
      (record { ends = ground arith; asks = ground arith })

status_lem_example :
    (status (opened (at 0) (at 60) (ssh ∷ [])) (at 30)
      ≡ (if ltb (at 30) (at 60) then GrantStatus.opened (at 30) else expired))
    × (status (pending (at 0) (at 60) hour [] [] []) (at 30)
        ≡ (if ltb (at 30) (at 60) then awaiting_approval (at 30) else approval_expired))
status_lem_example = status_lem (at 0) (at 60) (at 30) (ssh ∷ []) hour [] [] []
