-- ===== src/Approval/Ledgers/Replay.antt =====
-- A time-based code is spent once: daemon/src/totp_ledger.rs and the window of core/src/totp.rs.
use lychgate.Prelude.{
  ℕ, ◌+◌, ◌/◌, ◌≤◌, ◌≡◌, refl, sym, ap, ◌∙◌, Bool, true, false, ◌&&◌, List, [], ◌∷◌, ◌++◌, Result,
  ok, ◌>>=◌, >>=-eq-ok, ◌==◌, ==_refl, any, retain, All, some, arith, Bool-cases, inl, inr,
}
use lychgate.Prelude.Text.{Text, text_eq_refl}
use lychgate.Clock.{SystemTime}
use lychgate.Approval.{epoch_secs}
use lychgate.Approval.Totp.{Hotp, matches, counter_at, step_secs}
use lychgate.Approval.Totp.Window.{matches_within}
use lychgate.Approval.Ledgers.{
  File, written, ReadError, Entry, read, kept, spends, consume_entry, consume, retain_secs,
  ledger_version,
}

-- A code that someone presents.
pub record Attempt : Type 0 where
  pub authenticator : Text
  pub counter : ℕ
  pub now : SystemTime

-- The file after a sequence of attempts.
unfoldable pub consume_all : List Attempt → File (List Entry) → Result ReadError (File (List Entry))
consume_all [] file = ok file
consume_all (a ∷ attempts) file =
    consume a.authenticator a.counter a.now file >>= λ r. consume_all attempts r.0

module _ (authenticator : Text) (counter at : ℕ) where
  -- The entry that was made at the instant `at`.
  abbrev is_ours : Entry → Bool
  is_ours e = spends authenticator counter e && e.at == at

  retain-is_ours :
      (now_secs : ℕ) (es : List Entry)
      → now_secs ≤ at + retain_secs
      → any is_ours es ≡ true
      → any is_ours (retain (kept now_secs) es) ≡ true
  retain-is_ours now_secs [] l h = h
  retain-is_ours now_secs (e ∷ es) l h = ground (arith, retain-is_ours now_secs es l)

  append-is_ours :
      (es : List Entry) (e : Entry) → any is_ours es ≡ true → any is_ours (es ++ (e ∷ [])) ≡ true
  append-is_ours [] e h = cc
  append-is_ours (x ∷ es) e h = ground (arith, append-is_ours es e)

  appended :
      (es : List Entry)
      → any is_ours
          (es ++ (record { authenticator = authenticator; counter = counter; at = at } ∷ []))
        ≡ true
  appended [] = ground (arith, text_eq_refl authenticator, ==_refl counter, ==_refl at)
  appended (x ∷ es) = ground (arith, appended es)

  is_ours-spends :
      (es : List Entry) → any is_ours es ≡ true → any (spends authenticator counter) es ≡ true
  is_ours-spends [] h = h
  is_ours-spends (e ∷ es) h = ground (arith, is_ours-spends es)

  consume_entry-is_ours :
      (id : Text) (k now_secs : ℕ) (es : List Entry)
      → now_secs ≤ at + retain_secs
      → any is_ours es ≡ true
      → any is_ours (consume_entry id k now_secs es).0 ≡ true
  unfolding consume_entry
  consume_entry-is_ours id k now_secs es l h =
      elim (Bool-cases (any (spends id k) (retain (kept now_secs) es))) [
        | inl e ↦ rw e (retain-is_ours now_secs es l h)
        | inr e ↦
            rw e (append-is_ours (retain (kept now_secs) es) _ (retain-is_ours now_secs es l h))
      ]

  consume_entry_ours :
      (es : List Entry)
      → (consume_entry authenticator counter at es).1 ≡ true
      → any is_ours (consume_entry authenticator counter at es).0 ≡ true
  unfolding consume_entry
  consume_entry_ours es h =
      elim (Bool-cases (any (spends authenticator counter) (retain (kept at) es))) [
        | inl e ↦ absurd (ground (arith, e))
        | inr e ↦ rw e (appended (retain (kept at) es))
      ]

  consume_entry_replay :
      (now_secs : ℕ) (es : List Entry)
      → now_secs ≤ at + retain_secs
      → any is_ours es ≡ true
      → (consume_entry authenticator counter now_secs es).1 ≡ false
  unfolding consume_entry
  consume_entry_replay now_secs es l h =
      rw (is_ours-spends (retain (kept now_secs) es) (retain-is_ours now_secs es l h)) refl

  consume_all-is_ours :
      (attempts : List Attempt) (es : List Entry) (file : File (List Entry))
      → All (λ (a : Attempt). epoch_secs a.now ≤ at + retain_secs) attempts
      → any is_ours es ≡ true
      → consume_all attempts (written ledger_version es) ≡ ok file
      → (es' : List Entry) × (file ≡ written ledger_version es') × (any is_ours es' ≡ true)
  unfolding consume_all consume read
  consume_all-is_ours [] es file a h e = (es, ground (arith, e), h)
  consume_all-is_ours (x ∷ attempts) es file a h e =
      consume_all-is_ours attempts (consume_entry x.authenticator x.counter (epoch_secs x.now) es).0
        file a.1 (consume_entry-is_ours x.authenticator x.counter (epoch_secs x.now) es a.0 h) e

consume-written :
    (id : Text) (k : ℕ) (now : SystemTime) (es : List Entry)
    → consume id k now (written ledger_version es)
      ≡ ok (
        written ledger_version (consume_entry id k (epoch_secs now) es).0,
        (consume_entry id k (epoch_secs now) es).1,
      )
unfolding consume read
consume-written id k now es = refl

-- What a call that succeeds left in the file.
consume_inv :
    (id : Text) (k : ℕ) (now : SystemTime) (file file' : File (List Entry)) (b : Bool)
    → consume id k now file ≡ ok (file', b)
    → (es : List Entry) × (file'
        ≡ written ledger_version (consume_entry id k (epoch_secs now) es).0)
      × (b ≡ (consume_entry id k (epoch_secs now) es).1)
unfolding consume
consume_inv id k now file file' b h =
    let (es, p, q) = >>=-eq-ok (read [] file) _ h in (es, ground (arith, q), ground (arith, q))

-- An identifier that was consumed is refused again, after any further attempts, all within the time it is retained.
pub consume_once :
    (id : Text) (k : ℕ) (now now' : SystemTime) (file file' file'' : File (List Entry))
    (attempts : List Attempt)
    → consume id k now file ≡ ok (file', true)
    → All (λ (a : Attempt). epoch_secs a.now ≤ epoch_secs now + retain_secs) attempts
    → epoch_secs now' ≤ epoch_secs now + retain_secs
    → consume_all attempts file' ≡ ok file''
    → (left : File (List Entry)) × (consume id k now' file'' ≡ ok (left, false))
consume_once id k now now' file file' file'' attempts h a l c =
    let (es, e, b) = consume_inv id k now file file' true h in
    let at = epoch_secs now in
    let ours = consume_entry_ours id k at es (sym b) in
    let (es', e', held) =
      consume_all-is_ours id k at attempts (consume_entry id k at es).0 file'' a ours
        (ap (consume_all attempts) (sym e) ∙ c) in
    (
      written ledger_version (consume_entry id k (epoch_secs now') es').0,
      ap (consume id k now') e'
          ∙ consume-written id k now' es'
          ∙ ap (λ b. ok (written ledger_version (consume_entry id k (epoch_secs now') es').0, b))
              (consume_entry_replay id k at (epoch_secs now') es' l held),
    )

-- A time-based code is spent once: with a skew of at most nine steps, after a code that matches some counter
-- was consumed as fresh, and after any attempts no later than a second instant, a code that matches the same
-- counter at that instant is refused as a replay.
pub consume-matches :
    (lib : Hotp) (secret code code' id : Text) (now now' : SystemTime) (skew k : ℕ)
    (file file' file'' : File (List Entry)) (attempts : List Attempt)
    → skew ≤ 9
    → matches lib secret code now skew ≡ some k
    → consume id k now file ≡ ok (file', true)
    → All (λ (a : Attempt). epoch_secs a.now ≤ epoch_secs now') attempts
    → consume_all attempts file' ≡ ok file''
    → matches lib secret code' now' skew ≡ some k
    → (left : File (List Entry)) × (consume id k now' file'' ≡ ok (left, false))
consume-matches lib secret code code' id now now' skew k file file' file'' attempts s m h a c m' =
    let (_, low, _) = matches_within lib secret code now skew k m in
    let (high, _, _) = matches_within lib secret code' now' skew k m' in
    let l =
      soon (epoch_secs now) (epoch_secs now') skew k s (unfold counter_at in low)
        (unfold counter_at in high) in
    consume_once id k now now' file file' file'' attempts h (earlier attempts a l) l c
  where
    soon :
        (t t' skew k : ℕ)
        → skew ≤ 9
        → k ≤ t / step_secs + skew
        → t' / step_secs ≤ k + skew
        → t' ≤ t + retain_secs
    soon t t' skew k s low high = omega (arith, s, low, high)

    earlier :
        (attempts : List Attempt)
        → All (λ (a : Attempt). epoch_secs a.now ≤ epoch_secs now') attempts
        → epoch_secs now' ≤ epoch_secs now + retain_secs
        → All (λ (a : Attempt). epoch_secs a.now ≤ epoch_secs now + retain_secs) attempts
    earlier [] a l = tt
    earlier (x ∷ attempts) a l = (omega (arith, a.0, l), earlier attempts a.1 l)
