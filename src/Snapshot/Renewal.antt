-- ===== src/Snapshot/Renewal.antt =====
-- The cap of core/src/snapshot.rs spans from the opening, and a renewal of core/src/grant.rs does not move the
-- opening.
use lychgate.Prelude.{◌-◌, ◌<◌, ◌≡◌, List, Result, ok, err, Option, none, some, arith}
use lychgate.Prelude.Text.{Text, text_compare}
use lychgate.Clock.{SystemTime, as_secs}
use lychgate.Ttl.{Ttl, max_ttl_secs}
use lychgate.Channel.{Channel}
use lychgate.Grant.{Grant, opened, renew}
use lychgate.Grant.Parts.{parts}
use lychgate.Snapshot.Records.{positive_span_ok}
use lychgate.Snapshot.{
  HexLower, SnapshotError, exceeds_cap, record_of, parts_of, interval, no_pending_fields,
}
use lychgate.Grant.Parts.{GrantParts}

-- The record of a stored grant read back; a closed grant has none.
abbrev pub reload : HexLower → Text → Grant → Option (Result SnapshotError GrantParts)
reload hex host g = elim (parts g) [
  | none ↦ none
  | some p ↦ some (parts_of hex host (record_of hex p))
]

renewed :
    (a b now e : SystemTime) (cs : List Channel) (ttl : Ttl)
    → (renew (opened a b cs) now ttl).1 ≡ ok e
    → (renew (opened a b cs) now ttl).0 ≡ opened a e cs
unfolding renew
renewed a b now e cs ttl h = ground arith

reload_over :
    (hex : HexLower) (host : Text) (a e : SystemTime) (cs : List Channel)
    → max_ttl_secs < as_secs (e - a)
    → reload hex host (opened a e cs) ≡ some (err (exceeds_cap host (as_secs (e - a))))
unfolding parts parts_of record_of interval no_pending_fields text_compare
reload_over hex host a e cs h = rw (positive_span_ok a e (omega arith)) (ground arith)

-- The record of an open grant whose renewal succeeds with an expiry more than the cap, in whole seconds, after
-- its opening is refused when it is read back.
pub renew-reload :
    (hex : HexLower) (host : Text) (a b now e : SystemTime) (cs : List Channel) (ttl : Ttl)
    → (renew (opened a b cs) now ttl).1 ≡ ok e
    → max_ttl_secs < as_secs (e - a)
    → reload hex host (renew (opened a b cs) now ttl).0
      ≡ some (err (exceeds_cap host (as_secs (e - a))))
renew-reload hex host a b now e cs ttl h cap =
    rw (renewed a b now e cs ttl h) (reload_over hex host a e cs cap)
