-- ===== src/Auth/Tests.antt =====
-- Concrete accounts, tokens and configurations, and what the theorems give on them.
use apm.Shared.{ℕ, ◌+◌, ◌*◌, ◌≡◌, ◌≢◌, refl, true, false, [], ◌∷◌, none, some, str_eq, arith}
use apm.Shared.Table.{NoRow}
use apm.Clock.{second, day}
use apm.Database.{Db, ok, err, IsClean, invalid_refresh_token}
use apm.Database.Models.{User, RefreshToken, tier_free}
use apm.Auth.Repository.{Tables, is_live_of, lock_by_hash, get_by_id, revoke, create_token}
use apm.Auth.Service.{Security, Config, AuthResult, refresh, issue_tokens}
use apm.Auth.Rotation.{IsReuse, Outcome, refresh_atomic}
use apm.Auth.Tokens.{Rotated, refresh-Rotated, refresh_theft, refresh_single_use}

-- Texts are their own hashes.
abbrev sec : Security
sec = record {
  hash_token = λ s. s;
  hash_password = λ salt p. p;
  verify_password = str_eq;
  jwt_encode = λ n at. "jwt";
  jwt_decode = λ t. some (some t);
  int_of = λ s. some 1;
  strip = λ s. s;
  lower = λ s. s;
}

abbrev cfg : Config
cfg = record { refresh_ttl_days = 30; reuse_grace_seconds = 10; has_mailer = true }

abbrev ann : User
ann = record {
  id = 1;
  email = "ann@apm.test";
  hashed_password = "secret";
  native_language = "fr";
  cefr_level = "A1";
  tier = tier_free;
  is_admin = false;
  is_active = some true;
  quota_date = none;
  minutes_used_today = 0;
  current_streak = some 0;
  longest_streak = some 0;
  last_active_date = none;
  weekly_goal_minutes = 30;
  reset_token_hash = some "reset";
  reset_token_expires_at = some 900;
}

abbrev first : RefreshToken
first = record {
  id = 1;
  user_id = 1;
  token_hash = "first";
  expires_at = 500 * day;
  revoked_at = some 7;
}

abbrev second_token : RefreshToken
second_token = record {
  id = 2;
  user_id = 1;
  token_hash = "second";
  expires_at = 500 * day;
  revoked_at = none;
}

abbrev stored : Tables
stored = record {
  users = ann ∷ [];
  refresh_tokens = first ∷ second_token ∷ [];
  next_user_id = 2;
  next_token_id = 3;
}

abbrev quiet : Db Tables
quiet = record { committed = stored; working = stored; faults = [] }

-- The second statement will fail.
abbrev faulty : Db Tables
faulty = record { committed = stored; working = stored; faults = false ∷ true ∷ [] }

abbrev late : ℕ
late = 11 * second

abbrev first_reuse : IsReuse sec cfg "first" late stored first
first_reuse = record { at = 7; stored = refl; revoked = refl; late = omega arith }

refresh_atomic_example :
    IsClean (refresh sec cfg "first" late late "third" faulty).1
    × Outcome sec cfg "first" late faulty (refresh sec cfg "first" late late "third" faulty)
refresh_atomic_example = refresh_atomic sec cfg "first" late late "third" faulty refl

abbrev ann_result : AuthResult
ann_result = record { user = ann; access_token = "jwt"; refresh_token = "third" }

refresh-Rotated_example :
    Rotated sec cfg "second" late late "third" stored ann_result
      (refresh sec cfg "second" late late "third" quiet).1.committed
unfolding refresh lock_by_hash get_by_id revoke create_token issue_tokens
refresh-Rotated_example =
    refresh-Rotated sec cfg "second" late late "third" quiet ann_result refl refl

refresh_theft_example :
    ((refresh sec cfg "first" late late "third" quiet).0
      ≡ err (invalid_refresh_token "Invalid refresh token"))
    × NoRow
        (is_live_of 1)
        (refresh sec cfg "first" late late "third" quiet).1.committed.refresh_tokens
refresh_theft_example =
    refresh_theft sec cfg "first" late late "third" quiet first refl refl first_reuse

-- What is stored after the second token was rotated.
abbrev rotated : Db Tables
rotated = record {
  committed = (refresh sec cfg "second" late late "third" quiet).1.committed;
  working = (refresh sec cfg "second" late late "third" quiet).1.committed;
  faults = [];
}

refresh_single_use_example :
    (refresh sec cfg "second" (late + 1) late "fourth" rotated).0 ≢ ok ann_result
unfolding refresh lock_by_hash get_by_id revoke create_token issue_tokens
refresh_single_use_example =
    refresh_single_use sec cfg "second" late late "third" quiet ann_result (late + 1) late "fourth"
      rotated ann_result refl refl refl refl
