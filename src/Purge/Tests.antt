-- ===== src/Purge/Tests.antt =====
-- A purge of a few rows.
use apm.Shared.{ℕ, ◌*◌, [], ◌∷◌, none, some, refl}
use apm.Clock.{day}
use apm.Database.{Db}
use apm.Purge.{PurgeTables, purge_expired_entries}
use apm.Purge.Retention.{AllOrNothing, purge_expired_entries-AllOrNothing}

abbrev now : ℕ
now = 100 * day

-- A token that is expired and a revoked one that is not, an old key and a new one, and three old events.
abbrev rows : PurgeTables
rows = record {
  refresh_tokens =
      record { id = 1; user_id = 1; token_hash = "a"; expires_at = 99 * day; revoked_at = none }
      ∷ record {
        id = 2;
        user_id = 1;
        token_hash = "b";
        expires_at = 101 * day;
        revoked_at = some day;
      }
      ∷ [];
  idempotency_keys =
      record { user_id = 1; key = "old"; response = some "Hello"; created_at = 98 * day }
      ∷ record { user_id = 1; key = "new"; response = none; created_at = 100 * day }
      ∷ [];
  analytics_events =
      record { id = 1; name = "activation"; user_id = 1; created_at = day }
      ∷ record { id = 2; name = "session_completed"; user_id = 1; created_at = day }
      ∷ record { id = 3; name = "session_completed"; user_id = 1; created_at = 90 * day }
      ∷ [];
}

abbrev db : Db PurgeTables
db = record { committed = rows; working = rows; faults = [] }

purge_expired_entries-AllOrNothing_example : AllOrNothing now rows [] (purge_expired_entries now db)
purge_expired_entries-AllOrNothing_example = purge_expired_entries-AllOrNothing now db refl
