-- ===== src/Streaks.antt =====
-- Streaks: backend/app/features/streaks/logic.py (the pure transitions) and service.py
-- (`StreakService`). A date is the number of its day, so that "yesterday" is the number before.
pub mod Runs
pub mod Days
pub mod Service
mod Tests
use apm.Shared.{ℕ, ◌+◌, Option, none, some, Bool, ◌||◌, max, ◌==◌, if◌then◌else◌}

abbrev pub default_weekly_goal_minutes : ℕ
default_weekly_goal_minutes = 30

pub record StreakState : Type 0 where
  pub current_streak : ℕ
  pub longest_streak : ℕ
  pub last_active_date : Option ℕ

-- The dataclass' defaults.
abbrev pub fresh : StreakState
fresh = record { current_streak = 0; longest_streak = 0; last_active_date = none }

-- `last == today`
abbrev pub is_today : Option ℕ → ℕ → Bool
is_today last today = elim last [ none ↦ Bool.false | some d ↦ d == today ]

-- `last is not None and last == today - timedelta(days=1)`
abbrev pub is_yesterday : Option ℕ → ℕ → Bool
is_yesterday last today = elim last [ none ↦ Bool.false | some d ↦ (d + 1) == today ]

unfoldable pub register_active_day : StreakState → ℕ → StreakState
register_active_day state today =
    if is_today state.last_active_date today
    then state
    else (let current =
          if is_yesterday state.last_active_date today then state.current_streak + 1 else 1 in
        record {
          current_streak = current;
          longest_streak = max state.longest_streak current;
          last_active_date = some today;
        })

unfoldable pub current_streak_for : StreakState → ℕ → ℕ
current_streak_for state today =
    if is_today state.last_active_date today || is_yesterday state.last_active_date today
    then state.current_streak
    else 0
