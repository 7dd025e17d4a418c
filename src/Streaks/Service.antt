-- ===== src/Streaks/Service.antt =====
-- `StreakService` of backend/app/features/streaks/service.py. The source of the fields and the minutes
-- of the practised sessions is a parameter; a date is Python's ordinal, whose first day is a Monday.
use apm.Shared.Dict.{Dict, lookup, insert, lookup-insert, lookup-insert_self}
use apm.Shared.{
  nat_eq, ◌≢◌, ℕ, ◌+◌, ◌-◌, ◌%◌, ◌/◌, ◌≤◌, ◌<◌, ◌≡◌, Option, none, some, arith, if◌then◌else◌,
}
use apm.Shared.Int.{ℤ, pos, ◌≤ℤ◌, ltb_ℤ}
use apm.Clock.{minute}
use apm.Streaks.{StreakState, current_streak_for}

abbrev pub min_weekly_goal_minutes : ℤ
min_weekly_goal_minutes = pos 5

abbrev pub max_weekly_goal_minutes : ℤ
max_weekly_goal_minutes = pos 1000

pub record StreakFields : Type 0 where
  pub state : StreakState
  pub weekly_goal_minutes : ℤ

pub record StreakSnapshot : Type 0 where
  pub current_streak : ℕ
  pub longest_streak : ℕ
  pub weekly_goal_minutes : ℤ
  pub minutes_this_week : ℕ

-- `date.weekday()`
abbrev pub weekday : ℕ → ℕ
weekday ordinal = (ordinal + 6) % 7

-- `_week_start`
unfoldable pub week_start : ℕ → ℕ
week_start today = today - weekday today

-- `get_streak_fields` and `minutes_since`, which gives an exact duration.
pub record StreakDataSource : Type 0 where
  pub get_streak_fields : ℕ → Option StreakFields
  pub minutes_since : ℕ → ℕ → ℕ

unfoldable pub snapshot : StreakDataSource → ℕ → ℕ → Option StreakSnapshot
unfolding week_start
snapshot source user_id today = elim (source.get_streak_fields user_id) [
  | none ↦ none
  | some fields ↦ some (record {
    current_streak = current_streak_for fields.state today;
    longest_streak = fields.state.longest_streak;
    weekly_goal_minutes = fields.weekly_goal_minutes;
    minutes_this_week = source.minutes_since user_id (week_start today) / minute;
  })
]

abbrev pub clamp_goal : ℤ → ℤ
clamp_goal minutes =
    let low = if ltb_ℤ minutes max_weekly_goal_minutes then minutes else max_weekly_goal_minutes in
    if ltb_ℤ min_weekly_goal_minutes low then low else min_weekly_goal_minutes

-- `set_weekly_goal`, on the stored goals by user; it returns the stored value.
unfoldable pub set_weekly_goal : ℕ → ℤ → Dict ℕ ℤ → ℤ × Dict ℕ ℤ
set_weekly_goal user_id minutes goals =
    let clamped = clamp_goal minutes in (clamped, insert user_id clamped goals)

-- Whatever integer is asked for, the goal that is stored is the one returned, within 5 and 1000
-- minutes, and is the one asked for if that is within; no other user's goal changes.
pub set_weekly_goal_bounds :
    (user_id other : ℕ) (minutes : ℤ) (goals : Dict ℕ ℤ)
    → let (goal, goals') = set_weekly_goal user_id minutes goals in
      (lookup user_id goals' ≡ some goal)
      × (min_weekly_goal_minutes ≤ℤ goal)
      × (goal ≤ℤ max_weekly_goal_minutes)
      × (min_weekly_goal_minutes ≤ℤ minutes → minutes ≤ℤ max_weekly_goal_minutes → goal ≡ minutes)
      × (user_id ≢ other → lookup other goals' ≡ lookup other goals)
unfolding set_weekly_goal
set_weekly_goal_bounds user_id other minutes goals = (
  lookup-insert_self user_id (clamp_goal minutes) goals,
  ground arith,
  ground arith,
  λ low high. ground arith,
  λ ne. ground (arith, lookup-insert user_id other (clamp_goal minutes) goals, ne),
)

-- The week of a day starts on a Monday, at most six days before it.
pub week_start_bounds :
    (today : ℕ)
    → 1 ≤ today
    → (week_start today ≤ today)
      × (today < week_start today + 7)
      × (weekday (week_start today) ≡ 0)
      × (1 ≤ week_start today)
unfolding week_start
week_start_bounds today h = (omega arith, omega arith, omega arith, omega arith)
