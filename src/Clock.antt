-- ===== src/Clock.antt =====
-- Time as the backend counts it. An instant is a number of microseconds since an epoch, in UTC, the
-- resolution of Python's `datetime`; a date is the number of the day that holds the instant. A
-- duration is exact, in microseconds: where the backend has float minutes, one minute is
-- `minute` units, and no rounding takes place.
use apm.Shared.{ℕ, ◌*◌, ◌/◌, ◌≡◌, refl}

abbrev pub second : ℕ
second = 1000000

abbrev pub minute : ℕ
minute = 60000000

abbrev pub hour : ℕ
hour = 3600000000

abbrev pub day : ℕ
day = 86400000000

-- `instant.date()`
abbrev pub date_of : ℕ → ℕ
date_of t = t / day

abbrev pub days : ℕ → ℕ
days n = n * day

-- A `datetime`: without a time zone, or with one. An aware value stands for one instant, whatever
-- its offset is.
pub data DateTime : Type 0 where
  naive aware : ℕ → DateTime

-- `value.replace(tzinfo=UTC)` on a naive value (`_as_utc`): the instant that is meant.
unfoldable pub as_utc : DateTime → DateTime
as_utc (naive t) = aware t
as_utc (aware t) = aware t

abbrev pub instant : DateTime → ℕ
instant (naive t) = t
instant (aware t) = t

pub instant-as_utc : (v : DateTime) → instant (as_utc v) ≡ instant v
unfolding as_utc
instant-as_utc (naive t) = refl
instant-as_utc (aware t) = refl
