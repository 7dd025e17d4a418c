-- ===== src/VoiceData.antt =====
-- The erasure of a learner's voice data: `SqlAlchemyVoiceDataSource.purge` of
-- backend/app/features/voice_data/repository.py, and `erase` of service.py. The dictionary of counts is
-- a list of named statements that are executed in the order in which they are written.
pub mod Rows
pub mod Erasure
pub mod Promises
pub mod Others
pub mod Pages
pub mod Paging
pub mod Ordering
pub mod Export
pub mod Portability
pub mod Membership
pub mod Exported
mod Tests
use apm.Shared.{
  ℕ, Bool, true, false, ◌&&◌, ◌||◌, not, List, [], ◌∷◌, Option, none, some, String, str_eq, ◌==◌,
}
use apm.Shared.Table.{find, update_where, delete_where, count_where}
use apm.Database.{Action, pure, gets, modify, statement, commit, ◌>>=◌, ◌>>◌}
use apm.Database.Models.{User, ConversationSession, is_none}
use apm.Sessions.Repository.{LearnerProfile}
use apm.VoiceData.Rows.{VoiceTables}

-- A DELETE or an UPDATE: the rows that it touches, and what it makes of the tables.
pub record Statement (T : Type 0) : Type 0 where
  pub rowcount : T → ℕ
  pub change : T → T

module _ {T : Type 0} where
  -- `_affected`
  abbrev pub affected : Statement T → Action T ℕ
  affected s = do statement; n ← gets s.rowcount; modify s.change; pure n

  -- `{key: await _affected(statement), ...}`
  abbrev pub affected_all : List (String × Statement T) → Action T (List (String × ℕ))
  affected_all [] = pure []
  affected_all ((key, s) ∷ rest) = do
    n ← affected s
    counts ← affected_all rest
    pure ((key, n) ∷ counts)

abbrev pub default_cefr : String
default_cefr = "A1"

abbrev pub is_session_of : ℕ → ConversationSession → Bool
is_session_of user_id s = s.user_id == user_id

-- `session_id IN (SELECT id FROM sessions WHERE user_id = ...)`
abbrev pub is_in_sessions_of : ℕ → List ConversationSession → ℕ → Bool
is_in_sessions_of user_id sessions session_id =
    not (is_none (find (λ s. is_session_of user_id s && (s.id == session_id)) sessions))

abbrev pub is_unset : Option ℕ → Bool
is_unset none = true
is_unset (some n) = n == 0

-- `or_(cefr_level != ..., current_streak != 0, longest_streak != 0, last_active_date IS NOT NULL)`
abbrev pub has_stats : User → Bool
has_stats u =
    not (str_eq u.cefr_level default_cefr)
    || (not (is_unset u.current_streak)
        || (not (is_unset u.longest_streak) || not (is_none u.last_active_date)))

abbrev pub has_memory : LearnerProfile → Bool
has_memory p = not (str_eq p.memory_summary "")

abbrev pub without_stats : User → User
without_stats u = record u {
  cefr_level = default_cefr;
  current_streak = some 0;
  longest_streak = some 0;
  last_active_date = none;
}

abbrev pub without_memory : LearnerProfile → LearnerProfile
without_memory p = record p { memory_summary = "" }

module _ (user_id : ℕ) where
  -- The statements of `deleted`, in their order.
  abbrev pub cascade : List (String × Statement VoiceTables)
  cascade =
      (
        "transcripts",
        record {
          rowcount = λ t.
              count_where (λ r. is_in_sessions_of user_id t.sessions r.session_id) t.transcripts;
          change = λ t. record t {
            transcripts =
                delete_where (λ r. is_in_sessions_of user_id t.sessions r.session_id) t.transcripts;
          };
        },
      )
      ∷ (
        "debriefs",
        record {
          rowcount =
              λ t. count_where (λ r. is_in_sessions_of user_id t.sessions r.session_id) t.debriefs;
          change = λ t. record t {
            debriefs =
                delete_where (λ r. is_in_sessions_of user_id t.sessions r.session_id) t.debriefs;
          };
        },
      )
      ∷ (
        "vocabulary",
        record {
          rowcount = λ t. count_where (λ r. r.user_id == user_id) t.vocabulary;
          change =
              λ t. record t { vocabulary = delete_where (λ r. r.user_id == user_id) t.vocabulary };
        },
      )
      ∷ (
        "review_items",
        record {
          rowcount = λ t. count_where (λ r. r.user_id == user_id) t.review_items;
          change = λ t. record t {
            review_items = delete_where (λ r. r.user_id == user_id) t.review_items;
          };
        },
      )
      ∷ (
        "sessions",
        record {
          rowcount = λ t. count_where (is_session_of user_id) t.sessions;
          change = λ t. record t { sessions = delete_where (is_session_of user_id) t.sessions };
        },
      )
      ∷ (
        "missions",
        record {
          rowcount = λ t. count_where (λ r. r.user_id == user_id) t.missions;
          change = λ t. record t { missions = delete_where (λ r. r.user_id == user_id) t.missions };
        },
      )
      ∷ (
        "analytics_events",
        record {
          rowcount = λ t. count_where (λ r. r.user_id == user_id) t.analytics_events;
          change = λ t. record t {
            analytics_events = delete_where (λ r. r.user_id == user_id) t.analytics_events;
          };
        },
      )
      ∷ (
        "memory_summary",
        record {
          rowcount = λ t. count_where (λ p. (p.user_id == user_id) && has_memory p) t.profiles;
          change = λ t. record t {
            profiles =
                update_where (λ p. (p.user_id == user_id) && has_memory p) without_memory
                  t.profiles;
          };
        },
      )
      ∷ (
        "user_stats",
        record {
          rowcount = λ t. count_where (λ u. (u.id == user_id) && has_stats u) t.users;
          change = λ t. record t {
            users = update_where (λ u. (u.id == user_id) && has_stats u) without_stats t.users;
          };
        },
      )
      ∷ (
        "idempotency_keys",
        record {
          rowcount = λ t. count_where (λ r. r.user_id == user_id) t.idempotency_keys;
          change = λ t. record t {
            idempotency_keys = delete_where (λ r. r.user_id == user_id) t.idempotency_keys;
          };
        },
      )
      ∷ []

  -- `SELECT ... FOR UPDATE` of the user's row
  abbrev lock_user : Action VoiceTables (Option User)
  lock_user = gets (λ t. find (λ u. u.id == user_id) t.users)

  unfoldable pub purge : Action VoiceTables (List (String × ℕ))
  purge = do locked ← lock_user; deleted ← affected_all cascade; commit; pure deleted
