-- ===== src/Approval.antt =====
-- core/src/approval.rs: the bytes that an approval signs. `Codec` is what the factors call of `str::trim` and
-- of the `data_encoding` crate.
mod Tests
pub mod Canonical
pub mod Fido2
pub mod Tpm
pub mod Totp
pub mod HmacFactor
pub mod Password
pub mod Ledgers
use lychgate.Prelude.{
  ℕ, ◌+◌, ◌%◌, ◌/◌, ◌^◌, List, [], ◌∷◌, ◌++◌, Option, none, some, Result, ok, err, length, map_err,
}
use lychgate.Prelude.Text.{Text, bytes}
use lychgate.Clock.{SystemTime, Duration, duration_since, unix_epoch, as_secs}
use lychgate.Grant.{ApprovalRequest}
use lychgate.Wire.Cbor.{be_bytes}

pub record Codec : Type 0 where
  pub trim : Text → Text
  pub encode : List ℕ → Text
  pub decode : Text → Option (List ℕ)

pub data ApprovalError : Type 0 where
  malformed wrong_namespace unknown_approver : ApprovalError
  bad_signature already_used clone_suspected : ApprovalError

-- `duration_since(UNIX_EPOCH)` in seconds: zero before the epoch.
unfoldable pub epoch_secs : SystemTime → ℕ
epoch_secs t = elim (duration_since t unix_epoch) [ none ↦ 0 | some d ↦ as_secs d ]

abbrev pub domain : List ℕ
domain = bytes "lychgate-approval" ++ (0 ∷ bytes "v1" ++ (0 ∷ []))

-- A length is cast to 32 bits.
unfoldable pub canonical_bytes : ApprovalRequest → List ℕ
canonical_bytes r =
    domain
    ++ (be_bytes 4 (length r.host % 2 ^ 32)
        ++ (r.host
            ++ (be_bytes 8 r.ttl_secs
                ++ (be_bytes 8 (epoch_secs r.requested_at)
                    ++ (be_bytes 4 (length r.nonce % 2 ^ 32) ++ r.nonce)))))

unfoldable pub challenge_string : Codec → ApprovalRequest → Text
challenge_string codec r = bytes "lg1.req." ++ codec.encode (canonical_bytes r)
