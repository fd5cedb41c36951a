-- ===== src/Ttl/Laws.antt =====
-- What the constructors of `Ttl` in core/src/ttl.rs guarantee.
use lychgate.Prelude.{ℕ, ◌<◌, ◌≤◌, ◌≡◌, refl, [], ◌∷◌, ◌++◌, some, ok, arith, ◌>>=◌}
use lychgate.Prelude.Text.{Text}
use lychgate.Prelude.Decimal.{decimal, parse_digits-decimal, decimal-digits, decimal-not_empty}
use lychgate.Clock.{from_secs, as_secs}
use lychgate.Ttl.{Ttl, IsValid, ttl_from_secs, parse, display, split_last, max_ttl_secs}

pub ttl_from_secs-IsValid :
    (secs : ℕ) {t : Ttl} → ttl_from_secs secs ≡ ok t → IsValid t × (as_secs t.duration ≡ secs)
unfolding ttl_from_secs
ttl_from_secs-IsValid secs h = ground arith

pub ttl_from_secs-ok :
    (secs : ℕ)
    → 0 < secs
    → secs ≤ max_ttl_secs
    → ttl_from_secs secs ≡ ok (record { duration = from_secs secs })
unfolding ttl_from_secs
ttl_from_secs-ok secs p q = ground arith

-- Whatever text is parsed, a ttl that comes out is positive, in whole seconds and within the cap.
pub parse-IsValid : (s : Text) {t : Ttl} → parse s ≡ ok t → IsValid t
unfolding parse ttl_from_secs
parse-IsValid s h = ground arith

split_last-append : (s : Text) (c : ℕ) → split_last (s ++ (c ∷ [])) ≡ some (s, c)
unfolding split_last
split_last-append [] c = refl
split_last-append (x ∷ s) c = rw (split_last-append s c)

-- Printing a valid ttl and parsing the text gives it back.
pub parse-display : (t : Ttl) → IsValid t → parse (display t) ≡ ok t
unfolding parse display
parse-display t v =
    let secs : ℕ = as_secs t.duration in
    rw (split_last-append (decimal secs) b's', ◌>>=◌)
      (ground (
        arith,
        decimal-not_empty secs,
        decimal-digits secs,
        parse_digits-decimal secs,
        ttl_from_secs-ok secs,
      ))
