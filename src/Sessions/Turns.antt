-- ===== src/Sessions/Turns.antt =====
-- Metering: what a turn and the end of a session charge, and what they commit.
use apm.Shared.{
  ℕ, ◌+◌, ◌≤◌, ◌<◌, ◌≡◌, ◌⊎◌, inl, inr, false, [], none, some, arith, Option-cases, ◌==◌, ==_iff,
  sym,
}
use mathlib.Core.Path.{subst}
use apm.Shared.Table.{find, update_where, find-holds, find-update_where_self}
use apm.Clock.{date_of, as_utc}
use apm.Database.{Db, ok, err, IsClean, not_found}
use apm.Database.Models.{User, ConversationSession, is_none}
use apm.Sessions.Quota.{used_on, used_on-record_usage, record_usage}
use apm.Sessions.Activity.{elapsed_minutes, elapsed_minutes_bounds}
use apm.Sessions.Repository.{Tables, has_id, is_user}
use apm.Sessions.Service.{
  Config, end, record_turn_activity, closed, after_turn, charge_since, usage_if, apply_active_day,
  record_locked,
}

module _ (cfg : Config) where
  -- What a session was charged is at most the time it was in progress.
  abbrev pub last_instant : ConversationSession → ℕ
  last_instant s = elim s.ended_at [ none ↦ s.last_activity_at | some e ↦ e ]

  abbrev pub duration : ConversationSession → ℕ
  duration s = elim s.duration_minutes [ none ↦ 0 | some d ↦ d ]

  abbrev pub IsMetered : ConversationSession → Type 0
  IsMetered s = s.started_at + duration s ≤ last_instant s

  pub closed-IsMetered :
      (s : ConversationSession) (now : ℕ)
      → s.ended_at ≡ none
      → s.last_activity_at ≤ now
      → IsMetered s
      → IsMetered (closed cfg s now)
  closed-IsMetered s now e h m =
      ground (arith, elapsed_minutes_bounds s.last_activity_at now cfg.turn_meter_cap)

  pub after_turn-IsMetered :
      (s : ConversationSession) (now : ℕ)
      → s.ended_at ≡ none
      → s.last_activity_at ≤ now
      → IsMetered s
      → IsMetered (after_turn cfg s (charge_since cfg s now) now)
  after_turn-IsMetered s now e h m =
      ground (arith, elapsed_minutes_bounds s.last_activity_at now cfg.turn_meter_cap)

  -- Ending a session that has ended changes nothing and returns it.
  pub end_idem :
      (session_id user_id now : ℕ) (others : Tables → Tables) (db : Db Tables)
      (s : ConversationSession) (e : ℕ)
      → find (has_id session_id) db.working.sessions ≡ some s
      → s.user_id ≡ user_id
      → s.ended_at ≡ some e
      → end cfg session_id user_id now others db ≡ (ok s, db)
  unfolding end
  end_idem session_id user_id now others db s e found owner ended = ground arith

  -- A session of the user that another transaction has ended before the lock was taken is not charged:
  -- exactly what the other transaction did is there.
  pub end_ended_meanwhile :
      (session_id user_id now : ℕ) (others : Tables → Tables) (db : Db Tables)
      (s s' : ConversationSession) (e : ℕ)
      → find (has_id session_id) db.working.sessions ≡ some s
      → s.user_id ≡ user_id
      → s.ended_at ≡ none
      → find (has_id s.id) (others db.working).sessions ≡ some s'
      → s'.ended_at ≡ some e
      → end cfg session_id user_id now others db
        ≡ (ok s', record db { working = others db.working; committed = others db.committed })
  unfolding end
  end_ended_meanwhile session_id user_id now others db s s' e found owner live again ended =
      ground arith

  -- A session of another user is not found, as if it did not exist.
  pub end_foreign :
      (session_id user_id now : ℕ) (others : Tables → Tables) (db : Db Tables)
      → ((s : ConversationSession)
          → find (has_id session_id) db.working.sessions ≡ some s
          → (s.user_id == user_id) ≡ false)
      → end cfg session_id user_id now others db ≡ (err (not_found "Session not found"), db)
  unfolding end
  end_foreign session_id user_id now others db h =
      elim (Option-cases (find (has_id session_id) db.working.sessions)) [
        | inl e ↦ ground arith
        | inr (s, e) ↦ ground (arith, h s e)
      ]

  -- What `end` commits when no statement fails and the session is still in progress under the lock:
  -- the charge is that of the session as it was read under the lock.
  pub end_committed :
      (session_id user_id now : ℕ) (others : Tables → Tables) (db : Db Tables)
      (s s' : ConversationSession) (user : User)
      → IsClean db
      → db.faults ≡ []
      → find (has_id session_id) db.committed.sessions ≡ some s
      → s.user_id ≡ user_id
      → s.ended_at ≡ none
      → find (has_id s.id) (others db.committed).sessions ≡ some s'
      → s'.ended_at ≡ none
      → find (is_user user_id) (others db.committed).users ≡ some user
      → let res = end cfg session_id user_id now others db in
        (res.0 ≡ ok (closed cfg s' now))
        × (res.1.committed.sessions
            ≡ update_where (has_id s'.id) (λ _. closed cfg s' now) (others db.committed).sessions)
        × (0 < charge_since cfg s' now
            → res.1.committed.users
              ≡ update_where
                  (is_user user.id)
                  (λ _. record_usage user (charge_since cfg s' now) (date_of now))
                  (others db.committed).users)
        × (charge_since cfg s' now ≡ 0 → res.1.committed.users ≡ (others db.committed).users)
  unfolding end
  end_committed session_id user_id now others db s s' user clean sound found owner live again live'
        u =
      (ground arith, ground arith, λ h. ground arith, λ h. ground arith)

  -- A turn on a session that is not there, not the user's, or ended is not charged.
  pub record_turn_activity_ignored :
      (session_id user_id now : ℕ) (others : Tables → Tables) (db : Db Tables)
      → ((s : ConversationSession)
          → find (has_id session_id) db.working.sessions ≡ some s
          → ((s.user_id == user_id) ≡ false) ⊎ (is_none s.ended_at ≡ false))
      → record_turn_activity cfg session_id user_id now others db ≡ (ok tt, db)
  unfolding record_turn_activity
  record_turn_activity_ignored session_id user_id now others db h =
      elim (Option-cases (find (has_id session_id) db.working.sessions)) [
        | inl e ↦ ground arith
        | inr (s, e) ↦ ground (arith, h s e)
      ]

  -- What a turn commits when no statement fails: the charge is that of the session as it was read
  -- before the lock, also if `s'`, the session under the lock, has been charged since.
  pub record_turn_activity_committed :
      (session_id user_id now : ℕ) (others : Tables → Tables) (db : Db Tables)
      (s s' : ConversationSession) (user : User)
      → IsClean db
      → db.faults ≡ []
      → find (has_id session_id) db.committed.sessions ≡ some s
      → s.user_id ≡ user_id
      → s.ended_at ≡ none
      → find (has_id s.id) (others db.committed).sessions ≡ some s'
      → s'.ended_at ≡ none
      → find (is_user user_id) (others db.committed).users ≡ some user
      → let res = record_turn_activity cfg session_id user_id now others db in
        (res.0 ≡ ok tt)
        × (res.1.committed.sessions
            ≡ update_where
                (has_id s'.id)
                (λ _. after_turn cfg s' (charge_since cfg s now) now)
                (others db.committed).sessions)
        × (res.1.committed.users
            ≡ update_where
                (is_user user.id)
                (λ _.
                  apply_active_day
                    (usage_if cfg (charge_since cfg s now) user (date_of now))
                    (date_of now))
                (others db.committed).users)
  unfolding record_turn_activity record_locked
  record_turn_activity_committed session_id user_id now others db s s' user clean sound found owner
        live again live' u =
      (ground arith, ground arith, ground arith)

  -- The user that a turn commits.
  abbrev charged_user : ℕ → ℕ → User → User
  charged_user minutes now user =
      apply_active_day (usage_if cfg minutes user (date_of now)) (date_of now)

  used_on-charged_user :
      (minutes now : ℕ) (user : User)
      → 0 < minutes
      → (used_on (charged_user minutes now user) (date_of now)
          ≡ used_on user (date_of now) + minutes)
        × ((charged_user minutes now user).id ≡ user.id)
  unfolding apply_active_day used_on
  used_on-charged_user minutes now user positive =
      let h = used_on-record_usage user minutes (date_of now) in
      (ground (arith, h), ground (arith, h))

  -- Two concurrent turns, no statement failing: once a turn that was committed before the lock has
  -- moved the activity to `now`, nothing is left to charge, and yet the positive charge since the older
  -- mark is committed to the session, and the committed usage of the user is raised by it.
  pub record_turn_activity_double :
      (session_id user_id now : ℕ) (others : Tables → Tables) (db : Db Tables)
      (s s' : ConversationSession) (user : User)
      → IsClean db
      → db.faults ≡ []
      → find (has_id session_id) db.committed.sessions ≡ some s
      → s.user_id ≡ user_id
      → s.ended_at ≡ none
      → find (has_id s.id) (others db.committed).sessions ≡ some s'
      → s'.ended_at ≡ none
      → find (is_user user_id) (others db.committed).users ≡ some user
      → s.last_activity_at < now
      → s'.last_activity_at ≡ now
      → 0 < cfg.turn_meter_cap
      → (charge_since cfg s' now ≡ 0)
        × (0 < charge_since cfg s now)
        × ((record_turn_activity cfg session_id user_id now others db).1.committed.sessions
            ≡ update_where
                (has_id s'.id)
                (λ _. after_turn cfg s' (charge_since cfg s now) now)
                (others db.committed).sessions)
        × ((u : User) × (find
                (is_user user_id)
                (record_turn_activity cfg session_id user_id now others db).1.committed.users
              ≡ some u)
            × (used_on u (date_of now) ≡ used_on user (date_of now) + charge_since cfg s now))
  unfolding elapsed_minutes as_utc
  record_turn_activity_double session_id user_id now others db s s' user clean sound found owner
        live again live' u before after cap =
      let positive : 0 < charge_since cfg s now = omega arith in
      let charged = used_on-charged_user (charge_since cfg s now) now user positive in
      let mine : user.id ≡ user_id = ground (
        arith,
        find-holds (is_user user_id) (others db.committed).users u,
        ==_iff user.id user_id,
      ) in
      let committed =
        record_turn_activity_committed session_id user_id now others db s s' user clean sound found
          owner live again live' u in
      (
        omega arith,
        positive,
        committed.1,
        (
          charged_user (charge_since cfg s now) now user,
          subst
              (λ rows.
                find (is_user user_id) rows ≡ some (charged_user (charge_since cfg s now) now user))
              (sym committed.2)
              (subst
                (λ n.
                  find (is_user user_id) (
                    update_where (is_user n) (λ _. charged_user (charge_since cfg s now) now user)
                      (others db.committed).users)
                  ≡ some (charged_user (charge_since cfg s now) now user))
                (sym mine)
                (find-update_where_self (is_user user_id)
                  (charged_user (charge_since cfg s now) now user) (others db.committed).users u
                  (ground (arith, charged.1, mine, ==_iff user_id user_id)))),
          charged.0,
        ),
      )
