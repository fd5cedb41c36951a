-- ===== src/Clock.antt =====
-- `std::time` as core/src uses it. An instant is the number of nanoseconds since the earliest instant
-- that the clock can hold, which lies 2 ^ 63 seconds before the epoch; a duration is a number of
-- nanoseconds. Both hold below `clock_limit`.
use lychgate.Prelude.{ℕ, ◌+◌, ◌-◌, ◌*◌, ◌/◌, ◌^◌, Option, none, some, ltb, leb, if◌then◌else◌}

abbrev pub SystemTime : Type 0
SystemTime = ℕ

abbrev pub Duration : Type 0
Duration = ℕ

abbrev pub nanos_per_sec : ℕ
nanos_per_sec = 1_000_000_000

abbrev pub clock_limit : ℕ
clock_limit = 2 ^ 64 * nanos_per_sec

abbrev pub unix_epoch : SystemTime
unix_epoch = 2 ^ 63 * nanos_per_sec

abbrev pub from_secs : ℕ → Duration
from_secs secs = secs * nanos_per_sec

abbrev pub as_secs : Duration → ℕ
as_secs d = d / nanos_per_sec

-- `None` when the sum does not fit.
unfoldable pub checked_add : SystemTime → Duration → Option SystemTime
checked_add t d = if ltb (t + d) clock_limit then some (t + d) else none

-- `Err` when the second instant is the later one.
unfoldable pub duration_since : SystemTime → SystemTime → Option Duration
duration_since later earlier = if leb earlier later then some (later - earlier) else none
