-- ===== src/Ttl/Tests.antt =====
-- Texts of core/src/ttl.rs.
use lychgate.Prelude.{◌≡◌, refl, ok, arith}
use lychgate.Prelude.Text.{bytes}
use lychgate.Prelude.Decimal.{parse_digits, digits_value}
use lychgate.Clock.{from_secs}
use lychgate.Ttl.{Ttl, IsValid, parse, display, ttl_from_secs}
use lychgate.Ttl.Laws.{parse-IsValid, parse-display}

abbrev ninety_minutes : Ttl
ninety_minutes = record { duration = from_secs 5400 }

ninety_minutes-IsValid : IsValid ninety_minutes
ninety_minutes-IsValid = record { positive = ground arith; capped = ground arith; whole = refl }

parse-display_example : parse (display ninety_minutes) ≡ ok ninety_minutes
parse-display_example = parse-display ninety_minutes ninety_minutes-IsValid

parse-IsValid_example : IsValid ninety_minutes
unfolding parse ttl_from_secs parse_digits digits_value
parse-IsValid_example = parse-IsValid (bytes "90m") {t = ninety_minutes} refl
