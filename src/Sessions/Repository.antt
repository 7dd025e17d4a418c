-- ===== src/Sessions/Repository.antt =====
-- `SqlAlchemySessionRepository` of backend/app/features/sessions/repository.py and ownership.py, over
-- the tables that the session service uses. The missions are there for their owners, the transcripts
-- for the turns of a session.
use apm.Shared.{ℕ, suc, Bool, ◌&&◌, ◌||◌, List, [], ◌∷◌, ◌++◌, Option, String, ◌==◌, ltb, not}
use apm.Shared.Table.{find, update_where}
use apm.Database.{
  Action, ok, integrity_error, not_found, pure, raise_if, or_raise, gets, modify, statement, ◌>>=◌,
  ◌>>◌,
}
use apm.Database.Models.{User, ConversationSession, is_none}

pub record Mission : Type 0 where
  pub id : ℕ
  pub user_id : ℕ
  pub system_prompt : String

-- features/profile/models.py
pub record LearnerProfile : Type 0 where
  pub user_id : ℕ
  pub interests : List String
  pub goal : Option String
  pub memory_summary : String
  pub correction_intensity : String
  pub accent : String

pub record Message : Type 0 where
  pub role : String
  pub content : String

pub record Transcript : Type 0 where
  pub session_id : ℕ
  pub turns : List Message

pub record Tables : Type 0 where
  pub users : List User
  pub sessions : List ConversationSession
  pub missions : List Mission
  pub transcripts : List Transcript
  pub profiles : List LearnerProfile
  pub next_session_id : ℕ

abbrev pub has_id : ℕ → ConversationSession → Bool
has_id n s = s.id == n

abbrev pub is_user : ℕ → User → Bool
is_user n u = u.id == n

-- `user_id == n and ended_at is None`
abbrev pub is_active_of : ℕ → ConversationSession → Bool
is_active_of n s = (s.user_id == n) && is_none s.ended_at

unfoldable pub get : ℕ → Action Tables (Option ConversationSession)
get n = gets (λ t. find (has_id n) t.sessions)

unfoldable pub get_active_for_user : ℕ → Action Tables (Option ConversationSession)
get_active_for_user n = gets (λ t. find (is_active_of n) t.sessions)

-- `UserRepository.lock`
unfoldable pub lock_user : ℕ → Action Tables (Option User)
lock_user n = gets (λ t. find (is_user n) t.users)

-- `MissionRepository.get_owned`
unfoldable pub get_owned : ℕ → ℕ → Action Tables (Option Mission)
get_owned n owner = gets (λ t. find (λ m. (m.id == n) && (m.user_id == owner)) t.missions)

-- `TranscriptRepository.get_by_session`
unfoldable pub get_by_session : ℕ → Action Tables (Option Transcript)
get_by_session n = gets (λ t. find (λ r. r.session_id == n) t.transcripts)

-- `ProfileRepository.get_by_user_id`
unfoldable pub get_by_user_id : ℕ → Action Tables (Option LearnerProfile)
get_by_user_id n = gets (λ t. find (λ p. p.user_id == n) t.profiles)

abbrev has_active : ℕ → Tables → Bool
has_active n t = not (is_none (find (is_active_of n) t.sessions))

abbrev insert_session : ConversationSession → Action Tables ConversationSession
insert_session s db =
    let row = record s { id = db.working.next_session_id } in
    (
      ok row,
      record db {
        working = record (db.working) {
          sessions = db.working.sessions ++ (row ∷ []);
          next_session_id = suc db.working.next_session_id;
        };
      },
    )

-- `add`: the flush fails on the partial unique index `uq_sessions_one_active_per_user`.
unfoldable pub add : ConversationSession → Action Tables ConversationSession
add s = do
  taken ← gets (has_active s.user_id)
  statement
  raise_if taken integrity_error
  insert_session s

-- The changed fields of a loaded session and of a loaded user.
abbrev pub put_session : ConversationSession → Action Tables (Unit {0})
put_session s = modify λ t. record t { sessions = update_where (has_id s.id) (λ _. s) t.sessions }

-- `n` is the key of the user's row, which no change of the object touches.
abbrev pub put_user : ℕ → User → Action Tables (Unit {0})
put_user n u = modify λ t. record t { users = update_where (is_user n) (λ _. u) t.users }

-- `refresh`: the row as it is now. A row that is gone raises.
unfoldable pub refresh : ConversationSession → Action Tables ConversationSession
unfolding get
refresh s = do row ← get s.id; or_raise row integrity_error

-- What other transactions commit while this one waits for a lock.
abbrev pub others_commit : (Tables → Tables) → Action Tables (Unit {0})
others_commit f db = (ok tt, record db { working = f db.working; committed = f db.committed })

-- `get_owned_session` of ownership.py
unfoldable pub get_owned_session : ℕ → ℕ → Action Tables ConversationSession
unfolding get
get_owned_session session_id user_id = do
  found ← get session_id
  session ← or_raise found (not_found "Session not found")
  raise_if (not (session.user_id == user_id)) (not_found "Session not found")
  pure session

-- `ConversationSession.started_at < cursor.started_at or (== and id <)`
abbrev pub is_before : ConversationSession → ConversationSession → Bool
is_before cursor s =
    ltb s.started_at cursor.started_at
    || ((s.started_at == cursor.started_at) && ltb s.id cursor.id)
