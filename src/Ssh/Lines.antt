-- ===== src/Ssh/Lines.antt =====
-- Cutting into lines and joining them, as core/src/ssh.rs does.
use lychgate.Prelude.{
  ℕ, ◌≡◌, refl, ap, ◌∙◌, Bool, true, false, not, ◌&&◌, List, [], ◌∷◌, ◌++◌, ◌==◌, arith, All, any,
  Bool-cases, inl, inr,
}
use mathlib.Core.List.{append_assoc}
use lychgate.Prelude.Text.{Text}
use lychgate.Ssh.{lines, join, cons_head}

-- A text that holds neither a newline nor a carriage return.
abbrev pub is_line : Text → Bool
is_line [] = true
is_line (c ∷ l) = not (c == 10) && not (c == 13) && is_line l

lines-line : (l s : Text) → is_line l ≡ true → lines (l ++ (10 ∷ s)) ≡ l ∷ lines s
unfolding lines
lines-line [] s h = refl
lines-line (c ∷ l) s h = ground (arith, h, lines-line l s)

-- Lines that were joined are cut again.
pub lines-join :
    (l : Text) (ls : List Text)
    → All (λ l. is_line l ≡ true) (l ∷ ls)
    → lines (join (l ∷ ls) ++ (10 ∷ [])) ≡ l ∷ ls
unfolding join lines
lines-join l [] h = lines-line l [] h.0
lines-join l (m ∷ ls) h =
    ap lines (append_assoc l (10 ∷ join (m ∷ ls)) (10 ∷ []))
    ∙ lines-line l (join (m ∷ ls) ++ (10 ∷ [])) h.0
    ∙ ap (λ rest. l ∷ rest) (lines-join m ls h.1)

cons_head-All :
    (c : ℕ) (ls : List Text)
    → (c == 10) ≡ false
    → (c == 13) ≡ false
    → All (λ l. is_line l ≡ true) ls
    → All (λ l. is_line l ≡ true) (cons_head c ls)
cons_head-All c [] p q h = (ground (arith, p, q), tt)
cons_head-All c (l ∷ ls) p q h = (ground (arith, p, q, h.0), h.1)

-- Without a carriage return in the file every line is one.
pub lines-All : (s : Text) → any (λ c. c == 13) s ≡ false → All (λ l. is_line l ≡ true) (lines s)
unfolding lines
lines-All [] h = tt
lines-All (c ∷ s) h =
    let rest = lines-All s (ground (arith, h)) in
    let not_return : (c == 13) ≡ false = ground (arith, h) in
    elim (Bool-cases (c == 10)) [
      | inl e ↦ rw e (refl, rest)
      | inr e ↦ rw e (rw not_return (cons_head-All c (lines s) e not_return rest))
    ]
