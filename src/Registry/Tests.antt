-- ===== src/Registry/Tests.antt =====
-- Runs of core/src/registry.rs on a registry of three hosts.
use lychgate.Prelude.{List, ◌≡◌, refl, [], ◌∷◌, some}
use lychgate.Prelude.Text.{Text, bytes, text_compare}
use lychgate.Prelude.TextMap.{get}
use lychgate.Channel.{ssh}
use lychgate.Grant.{opening, opened, pending}
use lychgate.Registry.{GrantRegistry, reap_to_revert, demote_opening}
use lychgate.Grant.Lifecycle.{Call, begins_revert, finishes_open, finishes_revert, run}
use lychgate.Registry.Calls.{calls_on, run_all, run_all-run}
use lychgate.Registry.Reaping.{
  map_grants, report, expire, expire_event, demote, demote_event, reap_to_revert_lem,
  demote_opening_lem,
}

abbrev fleet : GrantRegistry
fleet =
    (bytes "a", opened 0 60 (ssh ∷ []))
    ∷ (bytes "b", opening 0 60 (ssh ∷ []))
    ∷ (bytes "c", pending 0 60 (record { duration = 60 }) [] [] [])
    ∷ []

reap_to_revert_lem_example :
    reap_to_revert fleet 60 ≡ some (map_grants (expire 60) fleet, report (expire_event 60) fleet)
reap_to_revert_lem_example = reap_to_revert_lem fleet 60

demote_opening_lem_example :
    demote_opening fleet 5 ≡ some (map_grants (demote 5) fleet, report demote_event fleet)
demote_opening_lem_example = demote_opening_lem fleet 5

abbrev interleaved : List (Text × Call)
interleaved =
    (bytes "a", begins_revert 50) ∷ (bytes "b", finishes_open) ∷ (bytes "a", finishes_revert) ∷ []

run_all-run_example :
    get (bytes "a") (run_all fleet interleaved)
    ≡ some (run (opened 0 60 (ssh ∷ [])) (calls_on (bytes "a") interleaved))
unfolding get text_compare
run_all-run_example = run_all-run fleet (bytes "a") (opened 0 60 (ssh ∷ [])) interleaved refl
