-- ===== src/Grant/Parts.antt =====
-- `GrantParts` of core/src/grant.rs, the stored shape that the snapshot layer reads and writes.
use lychgate.Prelude.{◌≡◌, refl, List, Option, none, some, arith}
use lychgate.Prelude.Text.{Text}
use lychgate.Prelude.TextSet.{TextSet}
use lychgate.Clock.{SystemTime}
use lychgate.Ttl.{Ttl}
use lychgate.Channel.{Channel}
use lychgate.Grant.{Grant, Nonce}

pub data GrantParts : Type 0 where
  pending :
      (requested_at approval_deadline : SystemTime) (ttl : Ttl) (nonce : Nonce) (profile : Text)
      (satisfied : TextSet)
      → GrantParts
  opening : (opened_at expires_at : SystemTime) (channels : List Channel) → GrantParts
  opened : (opened_at expires_at : SystemTime) (channels : List Channel) → GrantParts
  needs_revert : (channels : List Channel) (since : SystemTime) → GrantParts

-- Stored state, not an observation. `Closed` is absence.
unfoldable pub parts : Grant → Option GrantParts
parts Grant.closed = none
parts (Grant.pending a b t n p s) = some (GrantParts.pending a b t n p s)
parts (Grant.opening a b cs) = some (GrantParts.opening a b cs)
parts (Grant.opened a b cs) = some (GrantParts.opened a b cs)
parts (Grant.needs_revert cs a) = some (GrantParts.needs_revert cs a)

unfoldable pub restore : GrantParts → Grant
restore (GrantParts.pending a b t n p s) = Grant.pending a b t n p s
restore (GrantParts.opening a b cs) = Grant.opening a b cs
restore (GrantParts.opened a b cs) = Grant.opened a b cs
restore (GrantParts.needs_revert cs a) = Grant.needs_revert cs a

pub parts-restore : (p : GrantParts) → parts (restore p) ≡ some p
unfolding parts restore
parts-restore (GrantParts.pending a b t n p s) = refl
parts-restore (GrantParts.opening a b cs) = refl
parts-restore (GrantParts.opened a b cs) = refl
parts-restore (GrantParts.needs_revert cs a) = refl

pub restore-parts : (g : Grant) (p : GrantParts) → parts g ≡ some p → restore p ≡ g
unfolding parts restore
restore-parts Grant.closed p h = cc
restore-parts (Grant.pending a b t n x s) p h = ground arith
restore-parts (Grant.opening a b cs) p h = ground arith
restore-parts (Grant.opened a b cs) p h = ground arith
restore-parts (Grant.needs_revert cs a) p h = ground arith
