-- ===== src/Database/Models.antt =====
-- The rows of the tables: backend/app/features/auth/models.py, sessions/models.py and
-- conversation/models.py. Keys and counters are numbers, instants and dates as in Clock. A column
-- that a model object may leave unset is optional.
use apm.Shared.{ℕ, Bool, true, false, String, Option, none, some}

abbrev pub tier_free : String
tier_free = "free"

abbrev pub tier_premium : String
tier_premium = "premium"

pub record User : Type 0 where
  pub id : ℕ
  pub email : String
  pub hashed_password : String
  pub native_language : String
  pub cefr_level : String
  pub tier : String
  pub is_admin : Bool
  pub is_active : Option Bool
  pub quota_date : Option ℕ
  pub minutes_used_today : ℕ
  pub current_streak : Option ℕ
  pub longest_streak : Option ℕ
  pub last_active_date : Option ℕ
  pub weekly_goal_minutes : ℕ
  pub reset_token_hash : Option String
  pub reset_token_expires_at : Option ℕ

pub record RefreshToken : Type 0 where
  pub id : ℕ
  pub user_id : ℕ
  pub token_hash : String
  pub expires_at : ℕ
  pub revoked_at : Option ℕ

pub record ConversationSession : Type 0 where
  pub id : ℕ
  pub user_id : ℕ
  pub mode : String
  pub scenario_id : Option String
  pub mission_id : Option ℕ
  pub voice_engine : String
  pub started_at : ℕ
  pub last_activity_at : ℕ
  pub ended_at : Option ℕ
  pub duration_minutes : Option ℕ

abbrev pub is_none : {A : Type 0} → Option A → Bool
is_none none = true
is_none (some _) = false
