-- ===== src/Registry/Views.antt =====
-- The two readings of a pending request in core/src/registry.rs.
use lychgate.Prelude.{◌≡◌, err, arith, Option-cases, Result-cases, inl, inr}
use lychgate.Prelude.Text.{Text}
use lychgate.Prelude.TextMap.{get}
use lychgate.Clock.{SystemTime}
use lychgate.Grant.{Grant, GrantError}
use lychgate.Grant as Machine
use lychgate.Grant.Views.{pending_request-pending_view}
use lychgate.Registry.{GrantRegistry, RegistryError, pending, pending_view, reading}

-- A host without a view has no request.
pub pending-pending_view :
    (r : GrantRegistry) (host : Text) (now : SystemTime) (e : RegistryError)
    → pending_view r host now ≡ err e
    → pending r host now ≡ err e
unfolding pending pending_view reading
pending-pending_view r host now e h = elim (Option-cases (get host r)) [
  | inl p ↦ ground (arith, p, h)
  | inr (g, p) ↦ elim (Result-cases (Machine.pending_view g now)) [
    | inl (v, q) ↦ absurd (ground (arith, p, q, h))
    | inr (x, q) ↦ ground (arith, p, q, h, pending_request-pending_view g host now x q)
  ]
]
