-- ===== src/Grant/Expiry.antt =====
-- Expiry in core/src/grant.rs is a property of observation: what `status` and `renew` say at an instant.
use lychgate.Prelude.{◌+◌, ◌-◌, ◌≡◌, List, Result, ok, err, arith, ltb, leb, if◌then◌else◌}
use lychgate.Prelude.Text.{Text}
use lychgate.Prelude.TextSet.{TextSet}
use lychgate.Clock.{SystemTime, clock_limit, from_secs}
use lychgate.Ttl.{Ttl, renewal_window_secs}
use lychgate.Channel.{Channel}
use lychgate.Grant.{
  Grant, opening, opened, pending, GrantStatus, awaiting_approval, approval_expired, expired, Nonce,
  GrantError, not_open, too_early, clock_overflow, approval_window_elapsed, status, renew,
  approve_to_opening,
}

-- An open grant is observed open strictly before its expiry, with exactly the time that is left, and
-- expired from that instant on; a pending request is observed awaiting and expired likewise.
pub status_lem :
    (a b now : SystemTime) (cs : List Channel) (t : Ttl) (n : Nonce) (p : Text) (s : TextSet)
    → (status (opened a b cs) now ≡ (if ltb now b then GrantStatus.opened (b - now) else expired))
      × (status (pending a b t n p s) now
          ≡ (if ltb now b then awaiting_approval (b - now) else approval_expired))
unfolding status
status_lem a b now cs t n p s = (ground arith, ground arith)

-- The renewal policy on an open grant that observes the instant `now`.
abbrev pub renewal_policy :
    SystemTime → SystemTime → SystemTime → List Channel → Ttl → Grant × Result GrantError SystemTime
renewal_policy a b now cs ttl =
    if leb b now
    then (opened a b cs, err not_open)
    else if ltb (now + from_secs renewal_window_secs) b
    then (opened a b cs, err (too_early (b - now)))
    else if leb clock_limit (now + ttl.duration)
    then (opened a b cs, err clock_overflow)
    else (opened a (now + ttl.duration) cs, ok (now + ttl.duration))

-- A renewal of an open grant is refused from the expiry on, refused with more than the renewal window left,
-- refused when the clock overflows, and otherwise anchored at now, whatever the old expiry was.
pub renew-renewal_policy :
    (a b now : SystemTime) (cs : List Channel) (ttl : Ttl)
    → renew (opened a b cs) now ttl ≡ renewal_policy a b now cs ttl
unfolding renew
renew-renewal_policy a b now cs ttl = ground arith

-- An approval of a pending request opens the ttl that was asked for, anchored at the approval, strictly before
-- the deadline and while the clock can hold it; otherwise the request stays as it is.
pub approve_to_opening_lem :
    (a b now : SystemTime) (t : Ttl) (n : Nonce) (p : Text) (s : TextSet) (cs : List Channel)
    → approve_to_opening (pending a b t n p s) now cs ≡ (
        if leb b now
        then (pending a b t n p s, err approval_window_elapsed)
        else if leb clock_limit (now + t.duration)
        then (pending a b t n p s, err clock_overflow)
        else (opening now (now + t.duration) cs, ok (now + t.duration)))
unfolding approve_to_opening
approve_to_opening_lem a b now t n p s cs = ground arith
