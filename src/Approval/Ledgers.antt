-- ===== src/Approval/Ledgers.antt =====
-- daemon/src/totp_ledger.rs and daemon/src/fido2_counters.rs: what the daemon remembers of one-time proofs. A
-- call runs under the file's lock from its read to its write, so a call is one step on the file. A write that
-- fails is left out.
pub mod Replay
pub mod Counters
use lychgate.Prelude.{
  ℕ, ◌+◌, ◌-◌, Bool, true, false, not, ◌&&◌, ◌||◌, List, [], ◌∷◌, ◌++◌, Option, none, some, Result,
  ok, err, ◌>>=◌, ◌>>◌, ltb, leb, ◌==◌, if◌then◌else◌, any, retain,
}
use lychgate.Prelude.Text.{Text, text_eq}
use lychgate.Prelude.TextMap.{TextMap, get, insert}
use lychgate.Clock.{SystemTime}
use lychgate.Approval.{Codec, epoch_secs}

abbrev pub retain_secs : ℕ
retain_secs = 600

abbrev pub ledger_version : ℕ
ledger_version = 1

-- What the file holds: text that is a document of some version, or other text.
pub data File {ℓ} (A : Type ℓ) : Type ℓ where
  not_found unreadable corrupt : File A
  written : (version : ℕ) (body : A) → File A

pub data ReadError : Type 0 where
  not_readable invalid_data : ReadError

pub record Entry : Type 0 where
  pub authenticator : Text
  pub counter : ℕ
  pub at : ℕ

-- The body of the document; a missing file is an empty one.
unfoldable pub read {ℓ} : {A : Type ℓ} → A → File A → Result ReadError A
read empty not_found = ok empty
read empty unreadable = err not_readable
read empty corrupt = err invalid_data
read empty (written version body) = if version == ledger_version then ok body else err invalid_data

abbrev pub kept : ℕ → Entry → Bool
kept now_secs e = leb (now_secs - e.at) retain_secs

abbrev pub spends : Text → ℕ → Entry → Bool
spends authenticator counter e = text_eq e.authenticator authenticator && e.counter == counter

-- `TotpLedger::consume` on the entries: those that are left, and whether the code is fresh.
unfoldable pub consume_entry : Text → ℕ → ℕ → List Entry → List Entry × Bool
consume_entry authenticator counter now_secs consumed =
    let recent = retain (kept now_secs) consumed in
    if any (spends authenticator counter) recent then (recent, false) else (
      recent ++ (record { authenticator = authenticator; counter = counter; at = now_secs } ∷ []),
      true,
    )

unfoldable pub consume :
    Text → ℕ → SystemTime → File (List Entry) → Result ReadError (File (List Entry) × Bool)
consume authenticator counter now file = do
  consumed ← read [] file
  let r = consume_entry authenticator counter (epoch_secs now) consumed
  ok (written ledger_version r.0, r.1)

pub data CounterVerdict : Type 0 where
  fresh regressed : CounterVerdict

-- `Fido2Counters::observe` on the marks: the marks that are written, when some are, and the verdict.
unfoldable pub observe_mark : Text → ℕ → TextMap ℕ → Option (TextMap ℕ) × CounterVerdict
observe_mark key counter counters =
    let stored : ℕ = elim (get key counters) [ none ↦ 0 | some c ↦ c ] in
    if ltb 0 stored && leb counter stored
    then (none, regressed)
    else if ltb 0 counter
    then (some (insert key counter counters), fresh)
    else (none, fresh)

unfoldable pub observe :
    Codec → List ℕ → ℕ → File (TextMap ℕ) → Result ReadError (File (TextMap ℕ) × CounterVerdict)
observe codec credential_id counter file = do
  counters ← read [] file
  let r = observe_mark (codec.encode credential_id) counter counters
  ok (elim r.0 [ none ↦ file | some marks ↦ written ledger_version marks ], r.1)
