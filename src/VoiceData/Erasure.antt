-- ===== src/VoiceData/Erasure.antt =====
-- What an erasure removes, keeps and reports.
use apm.Shared.{ℕ, ◌≡◌, refl, ap, ◌∙◌, true, false, Bool, ◌&&◌, List, [], ◌∷◌, String, arith, ◌==◌}
use apm.Shared.Table.{update_where, delete_where, NoRow, delete_where-NoRow, update_where-NoRow}
use apm.Database.{Db, Result, ok, err, pure, ◌>>=◌}
use apm.Database.Models.{User, ConversationSession}
use apm.Sessions.Repository.{LearnerProfile}
use apm.VoiceData.{
  Statement, affected_all, cascade, is_session_of, is_in_sessions_of, has_stats, has_memory,
  without_stats, without_memory,
}
use apm.VoiceData.Rows.{VoiceTables}

module _ {T : Type 0} where
  -- What named statements make of the tables, and the counts that they report on the way.
  abbrev pub change_all : List (String × Statement T) → T → T
  change_all [] t = t
  change_all ((key, s) ∷ rest) t = change_all rest (s.change t)

  abbrev pub counts : List (String × Statement T) → T → List (String × ℕ)
  counts [] t = []
  counts ((key, s) ∷ rest) t = (key, s.rowcount t) ∷ counts rest (s.change t)

  -- Statements do not publish anything; if none of them fails they are all executed.
  abbrev pub Executed :
      List (String × Statement T) → Db T → Result (List (String × ℕ)) × Db T → Type 0
  Executed ss db (ok ns, db') =
      (ns ≡ counts ss db.working)
      × (db'.working ≡ change_all ss db.working)
      × (db'.committed ≡ db.committed)
  Executed ss db (err e, db') = db'.committed ≡ db.committed

  then_count :
      (key : String) (s : Statement T) (rest : List (String × Statement T)) (db next : Db T)
      (res : Result (List (String × ℕ)) × Db T)
      → next.working ≡ s.change db.working
      → next.committed ≡ db.committed
      → Executed rest next res
      → Executed
          ((key, s) ∷ rest)
          db
          (((λ _. res) >>= λ ns. pure ((key, s.rowcount db.working) ∷ ns)) next)
  then_count key s rest db next (ok ns, d) w c (a, b, e) = (
    ap (λ ms. (key, s.rowcount db.working) ∷ ms) (a ∙ ap (counts rest) w),
    b ∙ ap (change_all rest) w,
    e ∙ c,
  )
  then_count key s rest db next (err x, d) w c e = e ∙ c

  step_Executed :
      (key : String) (s : Statement T) (rest : List (String × Statement T)) (db : Db T)
      (faults : List Bool)
      → db.faults ≡ faults
      → ((d : Db T) → Executed rest d (affected_all rest d))
      → Executed ((key, s) ∷ rest) db (affected_all ((key, s) ∷ rest) db)
  step_Executed key s rest db [] e ih =
      let next : Db T = record {
        committed = db.committed;
        working = s.change db.working;
        faults = [];
      } in
      rw e (then_count key s rest db next (affected_all rest next) refl refl (ih next))
  step_Executed key s rest db (true ∷ fs) e ih = rw e refl
  step_Executed key s rest db (false ∷ fs) e ih =
      let next : Db T = record {
        committed = db.committed;
        working = s.change db.working;
        faults = fs;
      } in
      rw e (then_count key s rest db next (affected_all rest next) refl refl (ih next))

  pub affected_all-Executed :
      (ss : List (String × Statement T)) (db : Db T) → Executed ss db (affected_all ss db)
  affected_all-Executed [] db = (refl, refl, refl)
  affected_all-Executed ((key, s) ∷ rest) db =
      step_Executed key s rest db db.faults refl (affected_all-Executed rest)

-- The tables without the voice data of a user, all others as they are.
abbrev pub erased : ℕ → VoiceTables → VoiceTables
erased user_id t = record {
  users = update_where (λ u. (u.id == user_id) && has_stats u) without_stats t.users;
  profiles = update_where (λ p. (p.user_id == user_id) && has_memory p) without_memory t.profiles;
  sessions = delete_where (is_session_of user_id) t.sessions;
  transcripts = delete_where (λ r. is_in_sessions_of user_id t.sessions r.session_id) t.transcripts;
  debriefs = delete_where (λ r. is_in_sessions_of user_id t.sessions r.session_id) t.debriefs;
  vocabulary = delete_where (λ r. r.user_id == user_id) t.vocabulary;
  review_items = delete_where (λ r. r.user_id == user_id) t.review_items;
  missions = delete_where (λ r. r.user_id == user_id) t.missions;
  analytics_events = delete_where (λ r. r.user_id == user_id) t.analytics_events;
  idempotency_keys = delete_where (λ r. r.user_id == user_id) t.idempotency_keys;
}

pub cascade-erased :
    (user_id : ℕ) (t : VoiceTables) → change_all (cascade user_id) t ≡ erased user_id t
cascade-erased user_id t = refl

-- Nothing of the voice of a user is left.
abbrev pub NoVoice : ℕ → VoiceTables → Type 0
NoVoice user_id t =
    NoRow (is_session_of user_id) t.sessions
    × NoRow (λ r. r.user_id == user_id) t.vocabulary
    × NoRow (λ r. r.user_id == user_id) t.review_items
    × NoRow (λ r. r.user_id == user_id) t.missions
    × NoRow (λ r. r.user_id == user_id) t.analytics_events
    × NoRow (λ r. r.user_id == user_id) t.idempotency_keys
    × NoRow (λ p. (p.user_id == user_id) && has_memory p) t.profiles
    × NoRow (λ u. (u.id == user_id) && has_stats u) t.users

without_memory-none :
    (user_id : ℕ) (p : LearnerProfile)
    → ((without_memory p).user_id == user_id) && has_memory (without_memory p) ≡ false
without_memory-none user_id p = ground arith

without_stats-none :
    (user_id : ℕ) (u : User)
    → ((without_stats u).id == user_id) && has_stats (without_stats u) ≡ false
without_stats-none user_id u = ground arith

pub erased-NoVoice : (user_id : ℕ) (t : VoiceTables) → NoVoice user_id (erased user_id t)
erased-NoVoice user_id t = (
  delete_where-NoRow _ t.sessions,
  delete_where-NoRow _ t.vocabulary,
  delete_where-NoRow _ t.review_items,
  delete_where-NoRow _ t.missions,
  delete_where-NoRow _ t.analytics_events,
  delete_where-NoRow _ t.idempotency_keys,
  update_where-NoRow _ without_memory _ t.profiles (λ p _. without_memory-none user_id p)
      (λ p h. h),
  update_where-NoRow _ without_stats _ t.users (λ u _. without_stats-none user_id u) (λ u h. h),
)

-- Without a session of the user, no row belongs to one.
pub no_sessions :
    (user_id : ℕ) (sessions : List ConversationSession) (session_id : ℕ)
    → NoRow (is_session_of user_id) sessions
    → is_in_sessions_of user_id sessions session_id ≡ false
no_sessions user_id [] session_id h = refl
no_sessions user_id (s ∷ rest) session_id h =
    ground (arith, no_sessions user_id rest session_id h.1)
