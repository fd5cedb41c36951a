-- ===== src/Grant/Views.antt =====
-- The two readings of a pending grant in core/src/grant.rs.
use lychgate.Prelude.{◌≡◌, err, arith}
use lychgate.Prelude.Text.{Text}
use lychgate.Clock.{SystemTime}
use lychgate.Grant.{Grant, GrantError, status, pending_view, pending_request, view_of, request_of}

-- A grant without a view has no request.
pub pending_request-pending_view :
    (g : Grant) (host : Text) (now : SystemTime) (e : GrantError)
    → pending_view g now ≡ err e
    → pending_request g host now ≡ err e
unfolding pending_view pending_request status view_of request_of
pending_request-pending_view g host now e h = ground arith
