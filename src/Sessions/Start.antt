-- ===== src/Sessions/Start.antt =====
-- What `start` commits, on every path and with any statement failing.
use apm.Shared.{
  ℕ, ◌+◌, ◌<◌, ◌≡◌, refl, sym, ◌⊎◌, inl, inr, false, List, [], ◌∷◌, ◌++◌, Option, none, some,
  String, arith, Option-cases, Bool-cases, suc,
}
use mathlib.Core.Path.{subst}
use apm.Shared.Table.{find, update_where, NoRow-of_none}
use apm.Database.{Db, Result, ok, err, IsClean}
use apm.Database.Models.{User, ConversationSession}
use apm.Sessions.Repository.{Tables, has_id, is_user, is_active_of, get_owned, add}
use apm.Sessions.Activity.{is_stale_iff}
use apm.Sessions.Service.{
  Config, StartTimes, start, open_session, reap, closed, new_session, is_out_of_quota,
}
use apm.Sessions.Invariant.{IsSound, IsSound-snoc, IsSound-put, find_by_id}

module _ (cfg : Config) where
  -- The stored sessions after the abandoned one of the user, if any, was closed.
  abbrev pub reaped : ℕ → ℕ → List ConversationSession → List ConversationSession
  reaped user_id now ss = elim (find (is_active_of user_id) ss) [
    | none ↦ ss
    | some s ↦ update_where (has_id s.id) (λ _. closed cfg s now) ss
  ]

  -- The session in progress of the user, if any, has been inactive for longer than the timeout.
  abbrev pub IsAbandoned : ℕ → Option ConversationSession → Type 0
  IsAbandoned now none = Unit
  IsAbandoned now (some s) = s.last_activity_at + cfg.inactivity_timeout < now

  -- A call that returns has committed the new session, after the sessions with any abandoned one
  -- closed; a call that raises has committed nothing, or just that closing.
  abbrev pub Committed :
      ℕ
      → String
      → Option String
      → Option ℕ
      → StartTimes
      → Db Tables
      → Result ConversationSession × Db Tables
      → Type 0
  Committed user_id mode scenario_id mission_id at db (ok s, db') =
      (s ≡ record (new_session cfg user_id mode scenario_id mission_id at) {
        id = db.committed.next_session_id;
      })
      × (find (is_active_of user_id) (reaped user_id at.reaped db.committed.sessions) ≡ none)
      × (db'.committed.sessions ≡ reaped user_id at.reaped db.committed.sessions ++ (s ∷ []))
      × (db'.committed.next_session_id ≡ suc db.committed.next_session_id)
      × IsAbandoned at.reaped (find (is_active_of user_id) db.committed.sessions)
  Committed user_id mode scenario_id mission_id at db (err _, db') =
      ((db'.committed.sessions ≡ db.committed.sessions)
        ⊎ ((db'.committed.sessions ≡ reaped user_id at.reaped db.committed.sessions)
            × IsAbandoned at.reaped (find (is_active_of user_id) db.committed.sessions)))
      × (db'.committed.next_session_id ≡ db.committed.next_session_id)

  -- What the tail of `start` commits, from any pending writes.
  abbrev Opened :
      ℕ
      → String
      → Option String
      → Option ℕ
      → StartTimes
      → Db Tables
      → Result ConversationSession × Db Tables
      → Type 0
  Opened user_id mode scenario_id mission_id at db (ok s, db') =
      (s ≡ record (new_session cfg user_id mode scenario_id mission_id at) {
        id = db.working.next_session_id;
      })
      × (find (is_active_of user_id) db.working.sessions ≡ none)
      × (db'.committed.sessions ≡ db.working.sessions ++ (s ∷ []))
      × (db'.committed.next_session_id ≡ suc db.working.next_session_id)
  Opened user_id mode scenario_id mission_id at db (err _, db') = db'.committed ≡ db.committed

  open_session-Opened :
      (user_id : ℕ) (mode : String) (scenario_id : Option String) (mission_id : Option ℕ)
      (at : StartTimes) (db : Db Tables)
      → Opened user_id mode scenario_id mission_id at db
          (open_session cfg user_id mode scenario_id mission_id at db)
  unfolding open_session add get_owned
  open_session-Opened user_id mode scenario_id mission_id at db = ground arith

  -- What the reaper leaves pending or commits.
  abbrev Reaped : ConversationSession → ℕ → Db Tables → Result (Unit {0}) × Db Tables → Type 0
  Reaped s now db (ok _, db') =
      (db'.committed ≡ db.committed)
      × (db'.working.sessions
          ≡ update_where (has_id s.id) (λ _. closed cfg s now) db.working.sessions)
      × (db'.working.next_session_id ≡ db.working.next_session_id)
      × (s.last_activity_at + cfg.inactivity_timeout < now)
  Reaped s now db (err _, db') =
      (db'.committed ≡ db.committed)
      ⊎ (db'.committed.sessions
          ≡ update_where (has_id s.id) (λ _. closed cfg s now) db.working.sessions)
        × (db'.committed.next_session_id ≡ db.working.next_session_id)
        × (s.last_activity_at + cfg.inactivity_timeout < now)

  reap-Reaped :
      (s : ConversationSession) (user : User) (now : ℕ) (db : Db Tables)
      → Reaped s now db (reap cfg s user now db)
  unfolding reap
  reap-Reaped s user now db =
      ground (arith, is_stale_iff s.last_activity_at now cfg.inactivity_timeout)

  start-Committed-none :
      (user_id : ℕ) (mode : String) (scenario_id : Option String) (mission_id : Option ℕ)
      (at : StartTimes) (db : Db Tables)
      → IsClean db
      → find (is_active_of user_id) db.committed.sessions ≡ none
      → Committed user_id mode scenario_id mission_id at db
          (start cfg user_id mode scenario_id mission_id at db)
  unfolding start
  start-Committed-none user_id mode scenario_id mission_id at db clean e =
      ground (arith, open_session-Opened user_id mode scenario_id mission_id at db)

  module _ (user_id : ℕ) (mode : String) (scenario_id : Option String) (mission_id : Option ℕ)
      (at : StartTimes) where
    abbrev resume : Result (Unit {0}) × Db Tables → Result ConversationSession × Db Tables
    resume (ok _, db) = open_session cfg user_id mode scenario_id mission_id at db
    resume (err e, db) = (err e, db)

    Committed-of_Opened :
        (db db1 : Db Tables) (s : ConversationSession)
        (res : Result ConversationSession × Db Tables)
        → IsClean db
        → find (is_active_of user_id) db.committed.sessions ≡ some s
        → Reaped s at.reaped db (ok tt, db1)
        → Opened user_id mode scenario_id mission_id at db1 res
        → Committed user_id mode scenario_id mission_id at db res
    Committed-of_Opened db db1 s (ok x, db') clean e h o = ground arith
    Committed-of_Opened db db1 s (err x, db') clean e h o = ground arith

    Committed-of_Reaped :
        (db : Db Tables) (s : ConversationSession) (res : Result (Unit {0}) × Db Tables)
        → IsClean db
        → find (is_active_of user_id) db.committed.sessions ≡ some s
        → Reaped s at.reaped db res
        → Committed user_id mode scenario_id mission_id at db (resume res)
    Committed-of_Reaped db s (ok tt, db1) clean e h =
        Committed-of_Opened db db1 s _ clean e h
          (open_session-Opened user_id mode scenario_id mission_id at db1)
    Committed-of_Reaped db s (err x, db1) clean e h = ground arith

    start-resume :
        (db : Db Tables) (s : ConversationSession) (user : User)
        → find (is_user user_id) db.working.users ≡ some user
        → is_out_of_quota cfg user at.checked ≡ false
        → find (is_active_of user_id) db.working.sessions ≡ some s
        → start cfg user_id mode scenario_id mission_id at db
          ≡ resume (reap cfg s user at.reaped db)
    unfolding start
    start-resume db s user u fine active = ground arith

    start-Committed-some :
        (db : Db Tables) (s : ConversationSession)
        → IsClean db
        → find (is_active_of user_id) db.committed.sessions ≡ some s
        → Committed user_id mode scenario_id mission_id at db
            (start cfg user_id mode scenario_id mission_id at db)
    unfolding start
    start-Committed-some db s clean e =
        elim (Option-cases (find (is_user user_id) db.working.users)) [
          | inl no_user ↦ ground arith
          | inr (user, u) ↦ elim (Bool-cases (is_out_of_quota cfg user at.checked)) [
            | inl out ↦ ground arith
            | inr fine ↦
                let active : find (is_active_of user_id) db.working.sessions ≡ some s =
                  ground arith in
                subst (Committed user_id mode scenario_id mission_id at db)
                  (sym (start-resume db s user u fine active))
                  (Committed-of_Reaped db s (reap cfg s user at.reaped db) clean e
                    (reap-Reaped s user at.reaped db))
          ]
        ]

    pub start-Committed :
        (db : Db Tables)
        → IsClean db
        → Committed user_id mode scenario_id mission_id at db
            (start cfg user_id mode scenario_id mission_id at db)
    start-Committed db clean =
        elim (Option-cases (find (is_active_of user_id) db.committed.sessions)) [
          | inl e ↦ start-Committed-none user_id mode scenario_id mission_id at db clean e
          | inr (s, e) ↦ start-Committed-some db s clean e
        ]

    reaped-IsSound :
        (ss : List ConversationSession) (next : ℕ)
        → IsSound ss next
        → IsSound (reaped user_id at.reaped ss) next
    reaped-IsSound ss next v = elim (Option-cases (find (is_active_of user_id) ss)) [
      | inl e ↦ rw (e, reaped) v
      | inr (s, e) ↦
          rw (e, reaped)
            (IsSound-put s (closed cfg s at.reaped) ss next v
              (find_by_id (is_active_of user_id) ss s v.distinct e) refl refl (λ _. refl))
    ]

    IsSound-of_Committed :
        (db : Db Tables) (res : Result ConversationSession × Db Tables)
        → IsSound db.committed.sessions db.committed.next_session_id
        → Committed user_id mode scenario_id mission_id at db res
        → IsSound res.1.committed.sessions res.1.committed.next_session_id
    IsSound-of_Committed db (ok s, db') v h =
        let next = db.committed.next_session_id in
        let grown =
          IsSound-snoc (reaped user_id at.reaped db.committed.sessions)
            (record (new_session cfg user_id mode scenario_id mission_id at) { id = next })
            (reaped-IsSound db.committed.sessions next v) (NoRow-of_none _ _ h.1) in
        rw (h.2, h.3, h.0) grown
    IsSound-of_Committed db (err x, db') v (inl e, n) = rw (e, n) v
    IsSound-of_Committed db (err x, db') v (inr (e, _), n) =
        rw (e, n) (reaped-IsSound db.committed.sessions db.committed.next_session_id v)

    -- `start` keeps the stored sessions sound: no user ever has two in progress.
    pub start-IsSound :
        (db : Db Tables)
        → IsClean db
        → IsSound db.committed.sessions db.committed.next_session_id
        → let db' = (start cfg user_id mode scenario_id mission_id at db).1 in
          IsSound db'.committed.sessions db'.committed.next_session_id
    start-IsSound db clean v = IsSound-of_Committed db _ v (start-Committed db clean)
