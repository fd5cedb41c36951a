-- ===== src/Registry/Reaping.antt =====
-- The reaping loops of core/src/registry.rs against independent descriptions of what they do.
use lychgate.Prelude.{◌≡◌, refl, List, [], ◌∷◌, ◌++◌, Option, none, some, arith, leb, if◌then◌else◌}
use lychgate.Prelude.Text.{Text}
use lychgate.Clock.{SystemTime}
use lychgate.Channel.{Channel}
use lychgate.Grant.{
  Grant, closed, pending, opening, opened, needs_revert, status, begin_revert, cancel_pending,
  fail_open,
}
use lychgate.Grant.Parts.{parts}
use lychgate.Registry.{
  GrantRegistry, ExpiredGrant, ExpiredPending, Round, each, expire_round, lapse_round, demote_round,
  reap_to_revert, reap_expired_pending, demote_opening, push_found,
}

-- A change of each grant by itself, and what it reports.
abbrev pub map_grants : (Grant → Grant) → GrantRegistry → GrantRegistry
map_grants f [] = []
map_grants f ((name, g) ∷ r) = (name, f g) ∷ map_grants f r

abbrev pub report : {A : Type 0} → (Text → Grant → List A) → GrantRegistry → List A
report f [] = []
report f ((name, g) ∷ r) = f name g ++ report f r

-- A loop that does `f` to each grant and pushes what `out` says, and never panics.
each-map :
    {A : Type 0} (round : Round A) (f : Grant → Grant) (out : Text → Grant → List A)
    (now : SystemTime)
    → ((name : Text) (g : Grant)
        → (found : Option A) × (round name g now ≡ some (f g, found))
          × ((rest : List A) → push_found found rest ≡ out name g ++ rest))
    → (r : GrantRegistry) → each round r now ≡ some (map_grants f r, report out r)
unfolding each
each-map round f out now h [] = refl
each-map round f out now h ((name, g) ∷ r) =
    let (found, p, q) = h name g in
    ground (arith, p, each-map round f out now h r, q (report out r))

-- The grant after `reap_to_revert` at `now`: an open grant at or past its expiry needs revert, with the
-- channels that it applied.
abbrev pub expire : SystemTime → Grant → Grant
expire now (opened a b cs) = if leb b now then needs_revert cs now else opened a b cs
expire now g = g

abbrev pub expire_event : SystemTime → Text → Grant → List ExpiredGrant
expire_event now name (opened a b cs) =
    if leb b now
    then record { host = name; opened_at = a; expires_at = b; channels = cs } ∷ []
    else []
expire_event now name g = []

expire_found : SystemTime → Text → Grant → Option ExpiredGrant
expire_found now name (opened a b cs) =
    if leb b now
    then some (record { host = name; opened_at = a; expires_at = b; channels = cs })
    else none
expire_found now name g = none

expire_round_lem :
    (name : Text) (g : Grant) (now : SystemTime)
    → expire_round name g now ≡ some (expire now g, expire_found now name g)
unfolding expire_round expire_found status parts begin_revert
expire_round_lem name closed now = refl
expire_round_lem name (pending a b t n p s) now = ground arith
expire_round_lem name (opening a b cs) now = refl
expire_round_lem name (opened a b cs) now = ground arith
expire_round_lem name (needs_revert cs a) now = refl

expire_found_lem :
    (now : SystemTime) (name : Text) (g : Grant) (rest : List ExpiredGrant)
    → push_found (expire_found now name g) rest ≡ expire_event now name g ++ rest
unfolding expire_found
expire_found_lem now name (opened a b cs) rest = ground arith
expire_found_lem now name _ rest = refl

-- reap_to_revert never panics, turns exactly the open grants at or past their expiry into needs-revert with
-- the channels they applied, leaves every other grant alone, and reports each of them once in order.
pub reap_to_revert_lem :
    (r : GrantRegistry) (now : SystemTime)
    → reap_to_revert r now ≡ some (map_grants (expire now) r, report (expire_event now) r)
unfolding reap_to_revert
reap_to_revert_lem r now =
    each-map expire_round (expire now) (expire_event now) now
      (λ name g.
        (expire_found now name g, expire_round_lem name g now, expire_found_lem now name g))
      r

abbrev pub lapse : SystemTime → Grant → Grant
lapse now (pending a b t n p s) = if leb b now then closed else pending a b t n p s
lapse now g = g

abbrev pub lapse_event : SystemTime → Text → Grant → List ExpiredPending
lapse_event now name (pending a b t n p s) =
    if leb b now then record { host = name; requested_at = a; approval_deadline = b } ∷ [] else []
lapse_event now name g = []

lapse_found : SystemTime → Text → Grant → Option ExpiredPending
lapse_found now name (pending a b t n p s) =
    if leb b now
    then some (record { host = name; requested_at = a; approval_deadline = b })
    else none
lapse_found now name g = none

lapse_round_lem :
    (name : Text) (g : Grant) (now : SystemTime)
    → lapse_round name g now ≡ some (lapse now g, lapse_found now name g)
unfolding lapse_round lapse_found status parts cancel_pending
lapse_round_lem name closed now = refl
lapse_round_lem name (pending a b t n p s) now = ground arith
lapse_round_lem name (opening a b cs) now = refl
lapse_round_lem name (opened a b cs) now = ground arith
lapse_round_lem name (needs_revert cs a) now = refl

lapse_found_lem :
    (now : SystemTime) (name : Text) (g : Grant) (rest : List ExpiredPending)
    → push_found (lapse_found now name g) rest ≡ lapse_event now name g ++ rest
unfolding lapse_found
lapse_found_lem now name (pending a b t n p s) rest = ground arith
lapse_found_lem now name _ rest = refl

-- reap_expired_pending never panics, closes exactly the requests at or past their deadline, leaves every other
-- grant alone, and reports each of them once in order.
pub reap_expired_pending_lem :
    (r : GrantRegistry) (now : SystemTime)
    → reap_expired_pending r now ≡ some (map_grants (lapse now) r, report (lapse_event now) r)
unfolding reap_expired_pending
reap_expired_pending_lem r now =
    each-map lapse_round (lapse now) (lapse_event now) now
      (λ name g. (lapse_found now name g, lapse_round_lem name g now, lapse_found_lem now name g)) r

abbrev pub demote : SystemTime → Grant → Grant
demote now (opening a b cs) = needs_revert cs now
demote now g = g

abbrev pub demote_event : Text → Grant → List (Text × List Channel)
demote_event name (opening a b cs) = (name, cs) ∷ []
demote_event name g = []

demote_found : Text → Grant → Option (Text × List Channel)
demote_found name (opening a b cs) = some (name, cs)
demote_found name g = none

demote_round_lem :
    (name : Text) (g : Grant) (now : SystemTime)
    → demote_round name g now ≡ some (demote now g, demote_found name g)
unfolding demote_round demote_found status parts fail_open
demote_round_lem name closed now = refl
demote_round_lem name (pending a b t n p s) now = ground arith
demote_round_lem name (opening a b cs) now = refl
demote_round_lem name (opened a b cs) now = ground arith
demote_round_lem name (needs_revert cs a) now = refl

demote_found_lem :
    (name : Text) (g : Grant) (rest : List (Text × List Channel))
    → push_found (demote_found name g) rest ≡ demote_event name g ++ rest
unfolding demote_found
demote_found_lem name (opening a b cs) rest = refl
demote_found_lem name _ rest = refl

-- demote_opening never panics, turns exactly the grants that are mid-open into needs-revert with all their
-- intended channels, leaves every other grant alone, and reports each of them once in order.
pub demote_opening_lem :
    (r : GrantRegistry) (now : SystemTime)
    → demote_opening r now ≡ some (map_grants (demote now) r, report demote_event r)
unfolding demote_opening
demote_opening_lem r now =
    each-map demote_round (demote now) demote_event now
      (λ name g. (demote_found name g, demote_round_lem name g now, demote_found_lem name g)) r

expire-again :
    (now : SystemTime) (name : Text) (g : Grant) → expire_event now name (expire now g) ≡ []
expire-again now name closed = refl
expire-again now name (opened a b cs) = ground arith
expire-again now name _ = refl

report-expire_again :
    (now : SystemTime) (r : GrantRegistry)
    → report (expire_event now) (map_grants (expire now) r) ≡ []
report-expire_again now [] = refl
report-expire_again now ((name, g) ∷ r) =
    ground (arith, expire-again now name g, report-expire_again now r)

-- A second reap at the instant of the first reports nothing.
pub reap_to_revert_twice :
    (r r' : GrantRegistry) (now : SystemTime) (events : List ExpiredGrant)
    → reap_to_revert r now ≡ some (r', events)
    → (again : GrantRegistry) × (reap_to_revert r' now ≡ some (again, []))
reap_to_revert_twice r r' now events h = (
  map_grants (expire now) r',
  ground (arith, reap_to_revert_lem r now, reap_to_revert_lem r' now, report-expire_again now r),
)
