-- ===== src/Purge.antt =====
-- The periodic purge of backend/app/features/purge/task.py, with the rows of VoiceData: three deletes
-- and one commit, whose exceptions are swallowed. The counts of the deleted rows are kept as they are
-- filled in, since they are returned also when the deletes are rolled back.
pub mod Retention
mod Tests
use apm.Shared.{ℕ, List, Bool, ◌&&◌, not, ◌-◌, ◌*◌, String, str_eq, ltb}
use apm.Shared.Table.{delete_where, count_where}
use apm.Clock.{minute, day}
use apm.Database.{Db, Result, ok, err, commit}
use apm.Database.Models.{RefreshToken}
use apm.VoiceData.{Statement, affected}
use apm.VoiceData.Rows.{IdempotencyKey, AnalyticsEventRow}

pub record PurgeTables : Type 0 where
  pub refresh_tokens : List RefreshToken
  pub idempotency_keys : List IdempotencyKey
  pub analytics_events : List AnalyticsEventRow

abbrev pub idempotency_key_ttl_hours : ℕ
idempotency_key_ttl_hours = 24

abbrev pub analytics_event_ttl_days : ℕ
analytics_event_ttl_days = 30

abbrev pub event_activation : String
event_activation = "activation"

-- `name IN ANALYTICS_RETENTION_EXEMPT_NAMES`
abbrev pub is_exempt : String → Bool
is_exempt name = str_eq name event_activation

-- `expires_at < now`
abbrev pub is_expired : ℕ → RefreshToken → Bool
is_expired now t = ltb t.expires_at now

abbrev pub is_forgotten : ℕ → IdempotencyKey → Bool
is_forgotten now k = ltb k.created_at (now - idempotency_key_ttl_hours * (60 * minute))

abbrev pub is_outdated : ℕ → AnalyticsEventRow → Bool
is_outdated now e =
    ltb e.created_at (now - analytics_event_ttl_days * day) && not (is_exempt e.name)

-- The dict of the results.
pub record Counts : Type 0 where
  pub refresh_tokens : ℕ
  pub idempotency_keys : ℕ
  pub analytics_events : ℕ

abbrev pub nothing : Counts
nothing = record { refresh_tokens = 0; idempotency_keys = 0; analytics_events = 0 }

abbrev pub put_tokens : ℕ → Counts → Counts
put_tokens n c = record c { refresh_tokens = n }

abbrev pub put_keys : ℕ → Counts → Counts
put_keys n c = record c { idempotency_keys = n }

abbrev pub put_events : ℕ → Counts → Counts
put_events n c = record c { analytics_events = n }

abbrev pub delete_tokens : ℕ → Statement PurgeTables
delete_tokens now = record {
  rowcount = λ t. count_where (is_expired now) t.refresh_tokens;
  change = λ t. record t { refresh_tokens = delete_where (is_expired now) t.refresh_tokens };
}

abbrev pub delete_keys : ℕ → Statement PurgeTables
delete_keys now = record {
  rowcount = λ t. count_where (is_forgotten now) t.idempotency_keys;
  change = λ t. record t { idempotency_keys = delete_where (is_forgotten now) t.idempotency_keys };
}

abbrev pub delete_events : ℕ → Statement PurgeTables
delete_events now = record {
  rowcount = λ t. count_where (is_outdated now) t.analytics_events;
  change = λ t. record t { analytics_events = delete_where (is_outdated now) t.analytics_events };
}

abbrev pub Purged : Type 0
Purged = Counts × Db PurgeTables

-- The `except`: a rollback, and the counts so far.
abbrev pub failed : Counts → Db PurgeTables → Purged
failed c db = (c, record db { working = db.committed })

-- One delete, and its count put down.
abbrev pub counted :
    Statement PurgeTables
    → (ℕ → Counts → Counts)
    → (Counts → Db PurgeTables → Purged)
    → Counts
    → Db PurgeTables
    → Purged
counted s put next c db =
    let (r, db') = affected s db in elim r [ ok n ↦ next (put n c) db' | err e ↦ failed c db' ]

abbrev pub commit_all : Counts → Db PurgeTables → Purged
commit_all c db = let (r, db') = commit db in elim r [ ok u ↦ (c, db') | err e ↦ failed c db' ]

abbrev pub purge_events : ℕ → Counts → Db PurgeTables → Purged
purge_events now = counted (delete_events now) put_events commit_all

abbrev pub purge_keys : ℕ → Counts → Db PurgeTables → Purged
purge_keys now = counted (delete_keys now) put_keys (purge_events now)

unfoldable pub purge_expired_entries : ℕ → Db PurgeTables → Purged
purge_expired_entries now db = counted (delete_tokens now) put_tokens (purge_keys now) nothing db
