-- ===== src/Sessions/Tests.antt =====
-- Concrete sessions of one user, and what the theorems give on them.
use apm.Shared.Table.{find}
use apm.Sessions.Repository.{is_user}
use apm.Database.Models.{User}
use apm.Shared.{ℕ, ◌+◌, ◌*◌, ◌<◌, ◌≡◌, refl, true, false, [], ◌∷◌, none, some, arith}
use apm.Shared.Table.{update_where, All}
use apm.Clock.{minute, hour, date_of}
use apm.Database.{Db}
use apm.Database.Models.{User, ConversationSession, tier_free}
use apm.Sessions.Quota.{used_on}
use apm.Sessions.Repository.{Tables, has_id}
use apm.Sessions.Service.{Config, StartTimes, start, record_turn_activity, after_turn, charge_since}
use apm.Sessions.Invariant.{IsSound}
use apm.Sessions.Start.{start-IsSound}
use apm.Sessions.Turns.{IsMetered, record_turn_activity_double}
use apm.Sessions.Metering.{record_turn_activity-Metered}

abbrev cfg : Config
cfg = record {
  free_daily_minutes = 15;
  voice_engine = "native";
  inactivity_timeout = 30 * minute;
  turn_meter_cap = 5 * minute;
  has_missions = false;
  has_transcripts = true;
}

abbrev ann : User
ann = record {
  id = 1;
  email = "ann@apm.test";
  hashed_password = "secret";
  native_language = "fr";
  cefr_level = "A1";
  tier = tier_free;
  is_admin = false;
  is_active = some true;
  quota_date = some 0;
  minutes_used_today = 2 * minute;
  current_streak = some 0;
  longest_streak = some 0;
  last_active_date = none;
  weekly_goal_minutes = 30;
  reset_token_hash = none;
  reset_token_expires_at = none;
}

-- Begun at 10 minutes, and last active at 20.
abbrev talk : ConversationSession
talk = record {
  id = 1;
  user_id = 1;
  mode = "free";
  scenario_id = none;
  mission_id = none;
  voice_engine = "native";
  started_at = 10 * minute;
  last_activity_at = 20 * minute;
  ended_at = none;
  duration_minutes = some (10 * minute);
}

abbrev over : ConversationSession
over = record talk { ended_at = some (22 * minute); duration_minutes = some (12 * minute) }

abbrev tables_of : ConversationSession → Tables
tables_of s = record {
  users = ann ∷ [];
  sessions = s ∷ [];
  missions = [];
  transcripts = [];
  profiles = [];
  next_session_id = 2;
}

abbrev db_of : ConversationSession → Db Tables
db_of s = record { committed = tables_of s; working = tables_of s; faults = [] }

abbrev idle : Tables → Tables
idle t = t

abbrev now : ℕ
now = 23 * minute

-- Another turn, committed at `now`.
abbrev moved : ConversationSession
moved = record talk { last_activity_at = now; duration_minutes = some (13 * minute) }

abbrev at : ℕ → StartTimes
at t = record { checked = t; reaped = t; started = t; active = t }

abbrev later : ℕ
later = 3 * hour

talk-IsSound : IsSound (talk ∷ []) 2
talk-IsSound = record {
  below = (omega arith, tt);
  distinct = (tt, tt);
  one_active = ((λ _. tt), tt);
}

start-IsSound_example :
    IsSound
      (start cfg 1 "free" none none (at later) (db_of talk)).1.committed.sessions
      (start cfg 1 "free" none none (at later) (db_of talk)).1.committed.next_session_id
start-IsSound_example =
    start-IsSound cfg 1 "free" none none (at later) (db_of talk) refl talk-IsSound

record_turn_activity-Metered_example :
    All (IsMetered cfg) (record_turn_activity cfg 1 1 now idle (db_of talk)).1.committed.sessions
record_turn_activity-Metered_example =
    record_turn_activity-Metered cfg 1 1 now (db_of talk) refl (λ s e. ground arith)
      (omega arith, tt)

record_turn_activity_double_example :
    (charge_since cfg moved now ≡ 0)
    × (0 < charge_since cfg talk now)
    × ((record_turn_activity cfg 1 1 now (λ t. tables_of moved) (db_of talk)).1.committed.sessions
        ≡ update_where
            (has_id 1)
            (λ _. after_turn cfg moved (charge_since cfg talk now) now)
            (tables_of moved).sessions)
    × ((u : User) × (find
            (is_user 1)
            (record_turn_activity cfg 1 1 now (λ t. tables_of moved) (db_of talk)).1.committed.users
          ≡ some u)
        × (used_on u (date_of now) ≡ used_on ann (date_of now) + charge_since cfg talk now))
record_turn_activity_double_example =
    record_turn_activity_double cfg 1 1 now (λ t. tables_of moved) (db_of talk) talk moved ann refl
      refl refl refl refl refl refl refl (omega arith) refl (omega arith)
