-- ===== src/Grant/Bound.antt =====
-- The cap of core/src/ttl.rs over every sequence of calls of core/src/grant.rs.
use lychgate.Prelude.{◌+◌, ◌≤◌, List, [], ◌∷◌, All, arith}
use lychgate.Clock.{SystemTime, from_secs}
use lychgate.Ttl.{IsValid, max_ttl_secs}
use lychgate.Grant.{Grant, closed, pending, opening, opened, needs_revert}
use lychgate.Grant.Lifecycle.{Call, begins_open, renews, begins_pending, approves, step, run}

-- A call made no later than `latest`, with a ttl that `Ttl` admits.
abbrev pub CalledBy : SystemTime → Call → Type 0
CalledBy latest (begins_open now ttl cs) = (now ≤ latest) × IsValid ttl
CalledBy latest (renews now ttl) = (now ≤ latest) × IsValid ttl
CalledBy latest (begins_pending now deadline ttl nonce profile) = (now ≤ latest) × IsValid ttl
CalledBy latest (approves now cs) = now ≤ latest
CalledBy latest _ = Unit

-- When the access that a grant holds or records ends, and the time that a pending request asks for.
abbrev pub access_end : Grant → SystemTime
access_end (opening a b cs) = b
access_end (opened a b cs) = b
access_end _ = 0

abbrev pub asks_for : Grant → SystemTime
asks_for (pending a b ttl n p s) = ttl.duration
asks_for _ = 0

-- Access ends within the cap of `latest`, and a pending request asks for no more than the cap.
pub record EndsBy (latest : SystemTime) (g : Grant) : Type 0 where
  pub ends : access_end g ≤ latest + from_secs max_ttl_secs
  pub asks : asks_for g ≤ from_secs max_ttl_secs

step-EndsBy :
    (latest : SystemTime) (g : Grant) (c : Call)
    → CalledBy latest c
    → EndsBy latest g
    → EndsBy latest (step g c).0
unfolding step
step-EndsBy latest closed c h e = ground arith
step-EndsBy latest (pending a b t n p s) c h e = ground arith
step-EndsBy latest (opening a b cs) c h e = ground arith
step-EndsBy latest (opened a b cs) c h e = ground arith
step-EndsBy latest (needs_revert cs a) c h e = ground arith

-- Calls made no later than an instant, with ttls that Ttl admits, never leave access that ends more than the
-- cap after that instant, if that held before.
pub run-EndsBy :
    (latest : SystemTime) (g : Grant) (cs : List Call)
    → All (CalledBy latest) cs
    → EndsBy latest g
    → EndsBy latest (run g cs)
unfolding run
run-EndsBy latest g [] h e = e
run-EndsBy latest g (c ∷ cs) h e =
    run-EndsBy latest (step g c).0 cs h.1 (step-EndsBy latest g c h.0 e)
