-- ===== src/Ttl.antt =====
-- core/src/ttl.rs: the policy constants, the validated time-to-live and its parser.
mod Tests
pub mod Laws
use Prim.Native.String.{String}
use lychgate.Prelude.{
  ℕ, ◌+◌, ◌*◌, ◌<◌, ◌≤◌, ◌≡◌, Bool, true, false, ◌&&◌, ◌||◌, not, List, [], ◌∷◌, ◌++◌, Option, none,
  some, Result, ok, err, ◌>>=◌, ◌>>◌, refuse_if, ok_or, ltb, ◌==◌, if◌then◌else◌, all, is_empty,
  arith,
}
use lychgate.Prelude.Text.{Text, bytes}
use lychgate.Prelude.Decimal.{decimal, parse_digits, is_ascii_digit, u64_limit}
use lychgate.Clock.{Duration, from_secs, as_secs}

abbrev pub max_ttl_secs : ℕ
max_ttl_secs = 24 * 60 * 60

abbrev pub renewal_window_secs : ℕ
renewal_window_secs = 2 * 60 * 60

pub record Ttl : Type 0 where
  pub duration : Duration

pub data TtlError : Type 0 where
  zero_ttl : TtlError
  exceeds_cap : ℕ → TtlError
  unparseable : Text → TtlError
  overflow : TtlError

unfoldable pub ttl_from_secs : ℕ → Result TtlError Ttl
ttl_from_secs secs =
    if secs == 0
    then err zero_ttl
    else if ltb max_ttl_secs secs
    then err (exceeds_cap secs)
    else ok (record { duration = from_secs secs })

-- The text before the last byte, and that byte.
split_last : Text → Option (Text × ℕ)
split_last [] = none
split_last (c ∷ cs) = elim (split_last cs) [
  | none ↦ some ([], c)
  | some (front, last) ↦ some (c ∷ front, last)
]

-- `str::strip_suffix` by one ASCII character.
strip_suffix : ℕ → Text → Option Text
strip_suffix suffix s = elim (split_last s) [
  | none ↦ none
  | some (front, last) ↦ if last == suffix then some front else none
]

-- The digits and the seconds of their unit.
split_unit : Text → Option (Text × ℕ)
split_unit s = elim (strip_suffix b's' s) [
  | some d ↦ some (d, 1)
  | none ↦ elim (strip_suffix b'm' s) [
    | some d ↦ some (d, 60)
    | none ↦ elim (strip_suffix b'h' s) [ some d ↦ some (d, 60 * 60) | none ↦ none ]
  ]
]

checked_mul : ℕ → ℕ → Option ℕ
checked_mul a b = if ltb (a * b) u64_limit then some (a * b) else none

unfoldable pub parse : Text → Result TtlError Ttl
unfolding split_unit strip_suffix split_last checked_mul
parse s = do
  (digits, per_unit) ← ok_or (split_unit s) (unparseable s)
  refuse_if (is_empty digits || not (all is_ascii_digit digits)) (unparseable s)
  count ← ok_or (parse_digits digits) overflow
  secs ← ok_or (checked_mul count per_unit) overflow
  ttl_from_secs secs

-- `Display for Ttl`.
pub display : Ttl → Text
display t = decimal (as_secs t.duration) ++ (b's' ∷ [])

-- The type's invariant: `0 < secs <= MAX_TTL_SECS`, in whole seconds.
pub record IsValid (t : Ttl) : Type 0 where
  pub positive : 0 < as_secs t.duration
  pub capped : as_secs t.duration ≤ max_ttl_secs
  pub whole : t.duration ≡ from_secs (as_secs t.duration)
