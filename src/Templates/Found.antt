-- ===== src/Templates/Found.antt =====
-- The scan of core/src/vnc.rs misses no placeholder.
use lychgate.Prelude.{
  ℕ, zero, suc, ◌<◌, ◌≡◌, ◌≢◌, refl, Bool, true, false, not, ◌&&◌, ◌==◌, List, [], ◌∷◌, ◌++◌, some,
  Result, ok, err, arith, length, all, any, Bool-cases, Option-cases, inl, inr,
}
use lychgate.Prelude.Text.{Text, text_eq, text_eq_refl}
use lychgate.Templates.{
  is_name_byte, name_run, name_at, scan_names, placeholders, forbid_placeholders,
}

-- The byte before a text's end.
abbrev pub last_or : ℕ → Text → ℕ
last_or c [] = c
last_or c (d ∷ s) = last_or d s

abbrev pub holds : Text → List Text → Bool
holds name ps = any (λ p. text_eq p name) ps

name_run_lem :
    (name post : Text) → all is_name_byte name ≡ true → name_run (name ++ (b'}' ∷ post)) ≡ some name
unfolding name_run
name_run_lem [] post h = refl
name_run_lem (c ∷ name) post h = ground (arith, h, name_run_lem name post)

-- A run of name bytes, with its closing brace, ends before a brace opens.
name_run_short :
    (pre rest name : Text) → name_run (pre ++ (b'{' ∷ rest)) ≡ some name → length name < length pre
unfolding name_run
name_run_short [] rest name h = absurd (ground (arith, h))
name_run_short (c ∷ pre) rest name h = elim (Bool-cases (is_name_byte c)) [
  | inl e ↦ elim (Option-cases (name_run (pre ++ (b'{' ∷ rest)))) [
    | inl q ↦ absurd (ground (arith, h, e, q))
    | inr (n, q) ↦
        let at : length name ≡ suc (length n) = ground (arith, h, e, q) in
        omega (arith, at, name_run_short pre rest n q)
  ]
  | inr e ↦ elim (Bool-cases (c == b'}')) [
    | inl q ↦ ground (arith, h, e, q)
    | inr q ↦ absurd (ground (arith, h, e, q))
  ]
]

name_at_short :
    (pre rest name : Text) → name_at (pre ++ (b'{' ∷ rest)) ≡ some name → length name < length pre
name_at_short pre rest name h = elim (Option-cases (name_run (pre ++ (b'{' ∷ rest)))) [
  | inl q ↦ absurd (ground (arith, h, q))
  | inr ([], q) ↦ absurd (ground (arith, h, q))
  | inr (c ∷ n, q) ↦
      let at : length name ≡ suc (length n) = ground (arith, h, q) in
      omega (arith, at, name_run_short pre rest (c ∷ n) q)
]

name_at_lem :
    (c : ℕ) (name post : Text)
    → all is_name_byte (c ∷ name) ≡ true
    → name_at ((c ∷ name) ++ (b'}' ∷ post)) ≡ some (c ∷ name)
name_at_lem c name post h = ground (arith, name_run_lem (c ∷ name) post h)

module _ (n : ℕ) (name post : Text) (named : all is_name_byte (n ∷ name) ≡ true) where
  abbrev written : Text
  written = b'{' ∷ ((n ∷ name) ++ (b'}' ∷ post))

  scan_names-holds :
      (skip previous : ℕ) (pre : Text)
      → skip < suc (length pre)
      → (last_or previous pre == b'$') ≡ false
      → holds (n ∷ name) (scan_names skip previous (pre ++ written)) ≡ true
  unfolding scan_names
  scan_names-holds zero previous [] l d =
      rw d (rw (name_at_lem n name post named) (ground (arith, text_eq_refl (n ∷ name))))
  scan_names-holds (suc skip) previous [] l d = absurd (omega (arith, l))
  scan_names-holds (suc skip) previous (c ∷ pre) l d =
      scan_names-holds skip c pre (omega (arith, l)) d
  scan_names-holds zero previous (c ∷ pre) l d =
      elim (Bool-cases (c == b'{' && not (previous == b'$'))) [
        | inr e ↦ rw e (scan_names-holds zero c pre (omega arith) d)
        | inl e ↦ elim (Option-cases (name_at (pre ++ written))) [
          | inl q ↦ rw e (rw q (scan_names-holds zero c pre (omega arith) d))
          | inr (m, q) ↦
              let far = name_at_short pre ((n ∷ name) ++ (b'}' ∷ post)) m q in
              rw e (
                rw q
                  (ground (arith, scan_names-holds (suc (length m)) c pre (omega (arith, far)) d)))
        ]
      ]

  -- A placeholder that no dollar sign stands before is found.
  placeholders-holds :
      (pre : Text)
      → (last_or 0 pre == b'$') ≡ false
      → holds (n ∷ name) (placeholders (pre ++ written)) ≡ true
  unfolding placeholders
  placeholders-holds pre d = scan_names-holds zero 0 pre (omega arith) d

  forbid_placeholders_refuses :
      (pre : Text) → (last_or 0 pre == b'$') ≡ false → forbid_placeholders (pre ++ written) ≢ ok tt
  unfolding forbid_placeholders
  forbid_placeholders_refuses pre d h =
      found (placeholders (pre ++ written)) (placeholders-holds pre d) h
    where
      found :
          (ps : List Text)
          → holds (n ∷ name) ps ≡ true
          → (elim ps as (λ _. Result Text (Unit {0})) [ [] ↦ ok tt | p ∷ _ ↦ err p ]) ≢ ok tt
      found [] a h = ground (arith, a)
      found (p ∷ ps) a h = ground (arith, h)
