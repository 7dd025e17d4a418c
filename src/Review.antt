-- ===== src/Review.antt =====
-- Spaced repetition of error types: backend/app/features/review/scheduler.py (the pure ladder),
-- service.py and repository.py.
pub mod Ladder
pub mod Service
pub mod Recording
pub mod Schedule
mod Tests
use apm.Shared.{
  ℕ, suc, ◌+◌, ◌-◌, Bool, true, false, Option, none, some, String, str_eq, min, ltb, leb, List, [],
  ◌∷◌, get_or, length, if◌then◌else◌,
}
use apm.Clock.{days}

-- `STATUS_DUE` and `STATUS_MASTERED`; no other text is ever stored.
pub data Status : Type 0 where
  due mastered : Status

abbrev pub interval_days : List ℕ
interval_days = 1 ∷ 3 ∷ 7 ∷ []

abbrev pub mastery_streak : ℕ
mastery_streak = 3

pub record ReviewState : Type 0 where
  pub stage : ℕ
  pub clean_streak : ℕ
  pub status : Status
  pub next_review_at : Option ℕ
  pub latest_correction : String

-- The dataclass' defaults.
abbrev pub initial : ReviewState
initial = record {
  stage = 0;
  clean_streak = 0;
  status = due;
  next_review_at = none;
  latest_correction = "";
}

-- `correction or state.latest_correction`
abbrev pub or_latest : String → String → String
or_latest correction latest = if str_eq correction "" then latest else correction

unfoldable pub on_error_seen : ReviewState → String → ℕ → ReviewState
on_error_seen state correction now = record {
  stage = 0;
  clean_streak = 0;
  status = due;
  next_review_at = some (now + days (get_or interval_days 0 0));
  latest_correction = or_latest correction state.latest_correction;
}

abbrev pub is_mastered : Status → Bool
is_mastered mastered = true
is_mastered due = false

-- `state.next_review_at is not None and now < state.next_review_at`
abbrev pub is_early : Option ℕ → ℕ → Bool
is_early none now = false
is_early (some at) now = ltb now at

abbrev climb : ReviewState → ℕ → ReviewState
climb state now =
    let next_stage = min (state.stage + 1) (length interval_days - 1) in
    record state {
      stage = next_stage;
      clean_streak = state.clean_streak + 1;
      status = due;
      next_review_at = some (now + days (get_or interval_days next_stage 0));
    }

unfoldable pub on_error_absent : ReviewState → ℕ → ReviewState
on_error_absent state now =
    if is_mastered state.status
    then state
    else if is_early state.next_review_at now
    then state
    else if leb mastery_streak (state.clean_streak + 1)
    then record state {
      clean_streak = state.clean_streak + 1;
      status = mastered;
      next_review_at = none;
    }
    else climb state now
