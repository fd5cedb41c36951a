-- ===== src/Approval/Ledgers/Counters.antt =====
-- The signature counters of daemon/src/fido2_counters.rs only go up.
use lychgate.Prelude.{
  ℕ, ◌≤◌, ◌<◌, ◌≡◌, refl, sym, ap, subst, ◌∙◌, List, [], ◌∷◌, Option, none, some, Result, ok, ◌>>=◌,
  >>=-eq-ok, arith, inl, inr, Option-cases,
}
use lychgate.Prelude.Text.{Text, text_eq_refl, text_eq_iff}
use lychgate.Prelude.TextMap.{TextMap, get, insert, get-insert}
use lychgate.Approval.{Codec}
use lychgate.Approval.Ledgers.{
  File, written, ReadError, read, ledger_version, observe_mark, observe, CounterVerdict, fresh,
  regressed,
}

-- The file after a sequence of observations.
unfoldable pub observe_all :
    Codec → List (List ℕ × ℕ) → File (TextMap ℕ) → Result ReadError (File (TextMap ℕ))
observe_all codec [] file = ok file
observe_all codec ((id, counter) ∷ observations) file =
    observe codec id counter file >>= λ r. observe_all codec observations r.0

-- The marks that the file holds after a call.
left : TextMap ℕ → Option (TextMap ℕ) → TextMap ℕ
left marks none = marks
left marks (some marks') = marks'

observe-written :
    (codec : Codec) (id : List ℕ) (c : ℕ) (marks : TextMap ℕ)
    → observe codec id c (written ledger_version marks)
      ≡ ok (
        written ledger_version (left marks (observe_mark (codec.encode id) c marks).0),
        (observe_mark (codec.encode id) c marks).1,
      )
unfolding observe read left observe_mark
observe-written codec id c marks = ground arith

mark_kept :
    (key key' : Text) (c c' s : ℕ) (marks : TextMap ℕ)
    → get key marks ≡ some s
    → c ≤ s
    → (s' : ℕ) × (get key (left marks (observe_mark key' c' marks).0) ≡ some s') × (c ≤ s')
unfolding left observe_mark
mark_kept key key' c c' s marks h l =
    elim (Option-cases (get key (left marks (observe_mark key' c' marks).0))) [
      | inl e ↦ absurd (ground (arith, e, get-insert key key' c' marks))
      | inr (s', e) ↦ (s', e, ground (arith, e, get-insert key key' c' marks, text_eq_iff key' key))
    ]

-- The file holds a mark of at least `c`.
record Holds (key : Text) (c : ℕ) (file : File (TextMap ℕ)) : Type 0 where
  marks : TextMap ℕ
  mark : ℕ
  is_written : file ≡ written ledger_version marks
  is_mark : get key marks ≡ some mark
  at_least : c ≤ mark

accepted-Holds :
    (codec : Codec) (id : List ℕ) (c : ℕ) (file file' : File (TextMap ℕ))
    → 0 < c
    → observe codec id c file ≡ ok (file', fresh)
    → Holds (codec.encode id) c file'
unfolding observe observe_mark
accepted-Holds codec id c file file' l h =
    let key = codec.encode id in
    let (marks, p, q) = >>=-eq-ok (read [] file) _ h in
    record {
      marks = insert key c marks;
      mark = c;
      is_written = written_of key marks file file' c l q;
      is_mark = ground (arith, get-insert key key c marks, text_eq_refl key);
      at_least = omega arith;
    }
  where
    written_of :
        (key : Text) (marks : TextMap ℕ) (file file' : File (TextMap ℕ)) (c : ℕ)
        → 0 < c
        → Path
            (Result ReadError (File (TextMap ℕ) × CounterVerdict))
            (ok (
              elim (observe_mark key c marks).0 [
                | none ↦ file
                | some ms ↦ written ledger_version ms
              ],
              (observe_mark key c marks).1,
            ))
            (ok (file', fresh))
        → file' ≡ written ledger_version (insert key c marks)
    written_of key marks file file' c l h = ground arith

Holds-observe_all :
    (codec : Codec) (key : Text) (c : ℕ) (observations : List (List ℕ × ℕ))
    (file file' : File (TextMap ℕ))
    → Holds key c file
    → observe_all codec observations file ≡ ok file'
    → Holds key c file'
unfolding observe_all
Holds-observe_all codec key c [] file file' k h = subst (Holds key c) (ground (arith, h)) k
Holds-observe_all codec key c ((id, c') ∷ observations) file file' k h =
    let e = ap (observe codec id c') k.is_written ∙ observe-written codec id c' k.marks in
    let (s, m, l) = mark_kept key (codec.encode id) c c' k.mark k.marks k.is_mark k.at_least in
    Holds-observe_all codec key c observations
      (written ledger_version (left k.marks (observe_mark (codec.encode id) c' k.marks).0)) file'
      (record { marks = _; mark = s; is_written = refl; is_mark = m; at_least = l })
      (ap (λ r. r >>= λ r. observe_all codec observations r.0) (sym e) ∙ h)

-- After a positive counter of a credential was accepted, and after any observations of any credentials, a
-- counter of that credential that is not above it is a regression and leaves the file as it is.
pub observe_regressed :
    (codec : Codec) (id : List ℕ) (c c' : ℕ) (file file' file'' : File (TextMap ℕ))
    (observations : List (List ℕ × ℕ))
    → 0 < c
    → observe codec id c file ≡ ok (file', fresh)
    → observe_all codec observations file' ≡ ok file''
    → c' ≤ c
    → observe codec id c' file'' ≡ ok (file'', regressed)
observe_regressed codec id c c' file file' file'' observations l h a m =
    let key = codec.encode id in
    let k =
      Holds-observe_all codec key c observations file' file''
        (accepted-Holds codec id c file file' l h) a in
    ap (observe codec id c') k.is_written
    ∙ observe-written codec id c' k.marks
    ∙ ap (λ r. ok r)
        (refused key k.marks k.mark k.is_mark (omega (arith, k.at_least, l))
          (omega (arith, k.at_least, m)))
    ∙ ap (λ f. ok (f, regressed)) (sym k.is_written)
  where
    refused :
        (key : Text) (marks : TextMap ℕ) (mark : ℕ)
        → get key marks ≡ some mark
        → 0 < mark
        → c' ≤ mark
        → Path
            (File (TextMap ℕ) × CounterVerdict)
            (
              written ledger_version (left marks (observe_mark key c' marks).0),
              (observe_mark key c' marks).1,
            )
            (written ledger_version marks, regressed)
    refused key marks mark e p q = unfold observe_mark in unfold left in ground (arith, e, p, q)
