-- ===== src/Sessions/Metering.antt =====
-- Turns one after another: what is charged stays within the time that a session was in progress.
use apm.Shared.{
  ℕ, ◌≤◌, ◌≡◌, sym, ◌⊎◌, inl, inr, List, [], ◌∷◌, Option, none, some, arith, Option-cases, ==_iff,
}
use mathlib.Core.Path.{subst}
use apm.Shared.Table.{find, update_where, All, find-All, find-holds}
use apm.Database.{Db, IsClean}
use apm.Database.Models.{User, ConversationSession}
use apm.Sessions.Repository.{Tables, has_id, is_user}
use apm.Sessions.Service.{
  Config, record_turn_activity, after_turn, charge_since, meterable, record_locked,
}
use apm.Sessions.Turns.{IsMetered, after_turn-IsMetered}

module _ (cfg : Config) where
  abbrev Metered : List ConversationSession → Type 0
  Metered = All (IsMetered cfg)

  -- A write of a metered session over the row with its key.
  Metered-put :
      (s' : ConversationSession) (n : ℕ) (ss : List ConversationSession)
      → IsMetered cfg s'
      → Metered ss
      → Metered (update_where (has_id n) (λ _. s') ss)
  Metered-put s' n [] m h = tt
  Metered-put s' n (r ∷ ss) m h = (ground arith, Metered-put s' n ss m h.1)

  -- One turn alone on a session in progress: it commits the charge, or nothing.
  abbrev Alone : ConversationSession → ℕ → Db Tables → List ConversationSession → Type 0
  Alone s now db ss =
      (ss ≡ db.committed.sessions)
      ⊎ (ss
          ≡ update_where (has_id s.id) (λ _. after_turn cfg s (charge_since cfg s now) now)
              db.committed.sessions)

  record_locked-Alone :
      (user : Option User) (s : ConversationSession) (now : ℕ) (db : Db Tables)
      → IsClean db
      → s.ended_at ≡ none
      → Alone s now db
          (record_locked cfg s user (charge_since cfg s now) now db).1.committed.sessions
  unfolding record_locked
  record_locked-Alone none s now db clean live = ground arith
  record_locked-Alone (some user) s now db clean live = ground arith

  record_turn_activity-record_locked :
      (session_id user_id now : ℕ) (db : Db Tables) (s : ConversationSession)
      → IsClean db
      → find (has_id session_id) db.committed.sessions ≡ some s
      → find (has_id s.id) db.committed.sessions ≡ some s
      → meterable cfg user_id (some s) ≡ some s
      → record_turn_activity cfg session_id user_id now (λ t. t) db
        ≡ record_locked cfg s
            (find (is_user user_id) db.working.users)
            (charge_since cfg s now)
            now
            db
  unfolding record_turn_activity
  record_turn_activity-record_locked session_id user_id now db s clean found again mine =
      ground arith

  record_turn_activity-Alone :
      (session_id user_id now : ℕ) (db : Db Tables) (s : ConversationSession)
      → IsClean db
      → find (has_id session_id) db.committed.sessions ≡ some s
      → find (has_id s.id) db.committed.sessions ≡ some s
      → meterable cfg user_id (some s) ≡ some s
      → s.ended_at ≡ none
      → Alone s now db
          (record_turn_activity cfg session_id user_id now (λ t. t) db).1.committed.sessions
  record_turn_activity-Alone session_id user_id now db s clean found again mine live =
      subst (λ r. Alone s now db r.1.committed.sessions)
        (sym
          (record_turn_activity-record_locked session_id user_id now db s clean found again mine))
        (record_locked-Alone (find (is_user user_id) db.working.users) s now db clean live)

  unmetered :
      (session_id user_id now : ℕ) (db : Db Tables) (s : ConversationSession)
      → IsClean db
      → find (has_id session_id) db.committed.sessions ≡ some s
      → meterable cfg user_id (some s) ≡ none
      → (record_turn_activity cfg session_id user_id now (λ t. t) db).1 ≡ db
  unfolding record_turn_activity
  unmetered session_id user_id now db s clean found foreign = ground arith

  unmetered_unknown :
      (session_id user_id now : ℕ) (db : Db Tables)
      → IsClean db
      → find (has_id session_id) db.committed.sessions ≡ none
      → (record_turn_activity cfg session_id user_id now (λ t. t) db).1 ≡ db
  unfolding record_turn_activity
  unmetered_unknown session_id user_id now db clean e = ground arith

  meterable-cases :
      (user_id : ℕ) (s : ConversationSession)
      → (meterable cfg user_id (some s) ≡ none)
        ⊎ ((meterable cfg user_id (some s) ≡ some s) × (s.ended_at ≡ none))
  meterable-cases user_id s = ground arith

  Metered-of_Alone :
      (s : ConversationSession) (now : ℕ) (db : Db Tables) (ss : List ConversationSession)
      → s.ended_at ≡ none
      → s.last_activity_at ≤ now
      → IsMetered cfg s
      → Metered db.committed.sessions
      → Alone s now db ss
      → Metered ss
  Metered-of_Alone s now db ss live clock h m (inl same) = rw same m
  Metered-of_Alone s now db ss live clock h m (inr written) = rw written (
      Metered-put (after_turn cfg s (charge_since cfg s now) now) s.id db.committed.sessions
        (after_turn-IsMetered cfg s now live clock h) m)

  -- Turns one after another never charge more than the time in progress: if no stored session has
  -- been charged more than that, and the clock is not behind the activity of the session of the
  -- turn, then whatever statement fails the same holds after the turn.
  pub record_turn_activity-Metered :
      (session_id user_id now : ℕ) (db : Db Tables)
      → IsClean db
      → ((s : ConversationSession)
          → find (has_id session_id) db.committed.sessions ≡ some s
          → s.last_activity_at ≤ now)
      → Metered db.committed.sessions
      → Metered (record_turn_activity cfg session_id user_id now (λ t. t) db).1.committed.sessions
  record_turn_activity-Metered session_id user_id now db clean clock m =
      elim (Option-cases (find (has_id session_id) db.committed.sessions)) [
        | inl e ↦ rw (unmetered_unknown session_id user_id now db clean e) m
        | inr (s, e) ↦ elim (meterable-cases user_id s) [
          | inl foreign ↦ rw (unmetered session_id user_id now db s clean e foreign) m
          | inr (mine, live) ↦
              let n : s.id ≡ session_id =
                (==_iff s.id session_id).0 (find-holds (has_id session_id) _ e) in
              Metered-of_Alone s now db _ live (clock s e)
                (find-All (IsMetered cfg) (has_id session_id) db.committed.sessions m e) m
                (record_turn_activity-Alone session_id user_id now db s clean e
                  (subst (λ k. find (has_id k) db.committed.sessions ≡ some s) (sym n) e) mine live)
        ]
      ]
