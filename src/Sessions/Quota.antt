-- ===== src/Sessions/Quota.antt =====
-- The daily quota: backend/app/core/quota.py. Minutes are exact durations (Clock).
use apm.Shared.{
  ℕ, ◌+◌, ◌-◌, ◌*◌, ◌≤◌, ◌≡◌, Bool, true, false, not, Option, none, some, str_eq, ◌==◌, arith,
  if◌then◌else◌,
}
use apm.Clock.{minute}
use apm.Database.Models.{User, tier_free}

-- A float number of minutes; `unlimited` is `float("inf")`.
pub data Remaining : Type 0 where
  unlimited : Remaining
  left : ℕ → Remaining

-- `user.quota_date == today`
abbrev pub is_date : Option ℕ → ℕ → Bool
is_date none today = false
is_date (some d) today = d == today

-- `user.minutes_used_today if user.quota_date == today else 0.0`
unfoldable pub used_on : User → ℕ → ℕ
used_on user today = if is_date user.quota_date today then user.minutes_used_today else 0

unfoldable pub remaining_minutes : User → ℕ → ℕ → Remaining
unfolding used_on
remaining_minutes user free_daily today =
    if not (str_eq user.tier tier_free)
    then unlimited
    else left (free_daily * minute - used_on user today)

-- `remaining <= 0`
abbrev pub is_exhausted : Remaining → Bool
is_exhausted unlimited = false
is_exhausted (left n) = n == 0

abbrev reset_on : User → ℕ → User
reset_on user today =
    if is_date user.quota_date today
    then user
    else record user { quota_date = some today; minutes_used_today = 0 }

abbrev charge : ℕ → User → User
charge minutes user = record user { minutes_used_today = user.minutes_used_today + minutes }

unfoldable pub record_usage : User → ℕ → ℕ → User
record_usage user minutes today = charge minutes (reset_on user today)

-- Usage on a day adds to what was used on that day, whatever day was stored before, and is nothing
-- but that: the tier, the key and the streak fields stay.
pub used_on-record_usage :
    (user : User) (minutes today : ℕ)
    → (used_on (record_usage user minutes today) today ≡ used_on user today + minutes)
      × ((record_usage user minutes today).id ≡ user.id)
      × ((record_usage user minutes today).tier ≡ user.tier)
unfolding used_on record_usage
used_on-record_usage user minutes today = ground arith

-- What remains after a use: the rest of what remained before, and 0 once the use reaches it.
pub remaining_minutes-record_usage :
    (user : User) (free_daily minutes today n : ℕ)
    → remaining_minutes user free_daily today ≡ left n
    → remaining_minutes (record_usage user minutes today) free_daily today ≡ left (n - minutes)
unfolding remaining_minutes record_usage
remaining_minutes-record_usage user free_daily minutes today n h = ground arith

-- A paid tier is never exhausted, and a new day never starts exhausted while the free allowance is
-- positive.
pub is_exhausted-used_on :
    (user : User) (free_daily today : ℕ)
    → is_exhausted (remaining_minutes user free_daily today) ≡ true
    → (str_eq user.tier tier_free ≡ true) × (free_daily * minute ≤ used_on user today)
unfolding remaining_minutes
is_exhausted-used_on user free_daily today h = ground arith
