-- ===== src/Snapshot/Records.antt =====
-- A record of core/src/snapshot.rs reads back as the parts that it records, and a record that is read holds
-- intervals within the caps.
use lychgate.Prelude.{
  ℕ, ◌-◌, ◌<◌, ◌≤◌, ◌≡◌, refl, List, some, ok, Result-cases, inl, inr, arith, length,
}
use lychgate.Prelude.Text.{Text, text_compare}
use lychgate.Prelude.TextSet.{collect}
use lychgate.Clock.{SystemTime, duration_since, as_secs}
use lychgate.Ttl.{Ttl, IsValid, max_ttl_secs, ttl_from_secs}
use lychgate.Ttl.Laws.{ttl_from_secs-ok}
use lychgate.Grant.{max_approval_window_secs}
use lychgate.Grant.Parts.{GrantParts, pending, opening, opened, needs_revert}
use lychgate.Snapshot.{
  HexLower, GrantRecord, record_of, parts_of, interval, no_pending_fields, positive_span, ttl_of,
  nonce_of, pending_of, needs_revert_of,
}

-- An interval that is not empty and, in whole seconds, within `cap`.
abbrev pub IsInterval : ℕ → SystemTime → SystemTime → Type 0
IsInterval cap start end = (start < end) × (as_secs (end - start) ≤ cap)

-- The parts whose times are within the caps.
abbrev pub IsBounded : GrantParts → Type 0
IsBounded (pending a b ttl nonce profile satisfied) =
    IsInterval max_approval_window_secs a b × IsValid ttl × (length nonce ≡ 32)
IsBounded (opening a b cs) = IsInterval max_ttl_secs a b
IsBounded (opened a b cs) = IsInterval max_ttl_secs a b
IsBounded (needs_revert cs a) = Unit {0}

-- What a set that was built by insertions satisfies.
abbrev pub IsCollected : GrantParts → Type 0
IsCollected (pending a b ttl nonce profile satisfied) = collect satisfied ≡ satisfied
IsCollected _ = Unit {0}

pub positive_span_ok : (a b : SystemTime) → a < b → positive_span b a ≡ some (b - a)
unfolding positive_span duration_since
positive_span_ok a b h = ground arith

positive_span_inv :
    (a b span : SystemTime) → positive_span b a ≡ some span → (a < b) × (span ≡ b - a)
unfolding positive_span duration_since
positive_span_inv a b span h = ground arith

ttl_of_ok :
    (hex : HexLower) (host : Text) (ttl : Ttl)
    → IsValid ttl
    → ttl_of hex host (as_secs ttl.duration) ≡ ok ttl
unfolding ttl_of
ttl_of_ok hex host ttl v =
    ground (arith, ttl_from_secs-ok (as_secs ttl.duration) v.positive v.capped)

module _ (hex : HexLower) (hex_law : (bs : List ℕ) → hex.decode (hex.encode bs) ≡ some bs) where
  -- With a hexadecimal codec that decodes what it encodes, the record of parts whose times are within the
  -- caps, whose nonce has 32 bytes and whose authenticator set is sorted reads back as those parts.
  pub record_of-parts_of :
      (host : Text) (p : GrantParts)
      → IsBounded p
      → IsCollected p
      → parts_of hex host (record_of hex p) ≡ ok p
  unfolding parts_of record_of pending_of needs_revert_of interval no_pending_fields nonce_of ttl_of
      text_compare
  record_of-parts_of host (pending a b ttl nonce profile satisfied) h c =
      let (i, v, l) = h in
      rw (ttl_of_ok hex host ttl v, positive_span_ok a b i.0, hex_law nonce, c) (ground arith)
  record_of-parts_of host (opening a b cs) h c = rw (positive_span_ok a b h.0) (ground arith)
  record_of-parts_of host (opened a b cs) h c = rw (positive_span_ok a b h.0) (ground arith)
  record_of-parts_of host (needs_revert cs a) h c = refl

module _ (hex : HexLower) where
  interval-IsInterval :
      (host : Text) (r : GrantRecord) (a b : SystemTime)
      → interval host r ≡ ok (a, b)
      → IsInterval max_ttl_secs a b
  unfolding interval positive_span duration_since no_pending_fields
  interval-IsInterval host r a b h = ground arith

  pending_of-IsBounded :
      (host : Text) (r : GrantRecord) (p : GrantParts) → pending_of hex host r ≡ ok p → IsBounded p
  unfolding pending_of nonce_of ttl_of ttl_from_secs positive_span duration_since
  pending_of-IsBounded host r p h = ground arith

  -- The parts that any record reads as are within the caps.
  pub parts_of-IsBounded :
      (host : Text) (r : GrantRecord) (p : GrantParts) → parts_of hex host r ≡ ok p → IsBounded p
  unfolding parts_of needs_revert_of no_pending_fields
  parts_of-IsBounded host r p h = elim (Result-cases (interval host r)) [
    | inl (k, q) ↦
        ground (arith, pending_of-IsBounded host r p, interval-IsInterval host r k.0 k.1 q)
    | inr (e, q) ↦ ground (arith, pending_of-IsBounded host r p)
  ]
