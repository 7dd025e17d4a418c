-- ===== src/Sessions/Service.antt =====
-- `SessionService` of backend/app/features/sessions/service.py. Every reading of the clock is an
-- argument. Between the first read of a session and the lock of its user, other transactions may
-- commit: `others` is what they do to the tables.
use apm.Shared.{
  ℕ, ◌+◌, Bool, false, not, List, [], Option, none, some, String, ltb, ◌==◌, if◌then◌else◌,
}
use apm.Clock.{aware, date_of}
use apm.Streaks.{register_active_day}
use apm.Database.{
  Action, not_found, quota_exhausted, active_session_exists, pure, raise, raise_if, or_raise,
  commit, ◌>>=◌, ◌>>◌,
}
use apm.Database.Models.{User, ConversationSession, is_none}
use apm.Sessions.Quota.{remaining_minutes, is_exhausted, record_usage}
use apm.Sessions.Activity.{elapsed_minutes, is_stale}
use apm.Sessions.Repository.{
  Tables, Message, get, get_active_for_user, lock_user, get_owned, get_by_session, add, put_session,
  put_user, refresh, others_commit, get_owned_session,
}

pub record Config : Type 0 where
  pub free_daily_minutes : ℕ
  pub voice_engine : String
  pub inactivity_timeout : ℕ
  pub turn_meter_cap : ℕ
  pub has_missions : Bool
  pub has_transcripts : Bool

-- The readings of the clock in `start`, in their order.
pub record StartTimes : Type 0 where
  pub checked : ℕ
  pub reaped : ℕ
  pub started : ℕ
  pub active : ℕ

abbrev or_zero : Option ℕ → ℕ
or_zero none = 0
or_zero (some n) = n

-- `_apply_active_day`
unfoldable pub apply_active_day : User → ℕ → User
apply_active_day user today =
    let updated =
      register_active_day
        (record {
          current_streak = or_zero user.current_streak;
          longest_streak = or_zero user.longest_streak;
          last_active_date = user.last_active_date;
        })
        today in
    record user {
      current_streak = some updated.current_streak;
      longest_streak = some updated.longest_streak;
      last_active_date = updated.last_active_date;
    }

module _ (cfg : Config) where
  abbrev pub is_out_of_quota : User → ℕ → Bool
  is_out_of_quota user now =
      is_exhausted (remaining_minutes user cfg.free_daily_minutes (date_of now))

  -- The charge for the time since the last activity.
  abbrev pub charge_since : ConversationSession → ℕ → ℕ
  charge_since s now =
      elapsed_minutes (aware s.last_activity_at) (aware now) (some cfg.turn_meter_cap)

  abbrev pub closed : ConversationSession → ℕ → ConversationSession
  closed s now = record s {
    ended_at = some now;
    duration_minutes = some (or_zero s.duration_minutes + charge_since s now);
  }

  -- `if user is not None and residual > 0: quota.record_usage(...)`
  abbrev pub bill : Option User → ℕ → ℕ → Action Tables (Unit {0})
  bill none minutes now = pure tt
  bill (some user) minutes now =
      if ltb 0 minutes then put_user user.id (record_usage user minutes (date_of now)) else pure tt

  -- `_close_session`
  unfoldable pub close_session : ConversationSession → Option User → ℕ → Action Tables (Unit {0})
  close_session s user now = put_session (closed s now) >> bill user (charge_since s now) now

  -- `_owns_mission`
  unfoldable pub owns_mission : ℕ → ℕ → Action Tables Bool
  unfolding get_owned
  owns_mission mission_id user_id =
      if cfg.has_missions
      then (do found ← get_owned mission_id user_id; pure (not (is_none found)))
      else pure false

  -- The user after a charge, if there is one.
  abbrev pub usage_if : ℕ → User → ℕ → User
  usage_if minutes user today = if ltb 0 minutes then record_usage user minutes today else user

  -- The body of `if active is not None`.
  unfoldable pub reap : ConversationSession → User → ℕ → Action Tables (Unit {0})
  unfolding close_session
  reap active user now =
      if is_stale (aware active.last_activity_at) (aware now) cfg.inactivity_timeout
      then (do
        close_session active (some user) now
        if is_out_of_quota (usage_if (charge_since active now) user (date_of now)) now
            then (commit >> raise (quota_exhausted "Daily free quota exhausted"))
            else pure tt)
      else raise (active_session_exists "A session is already in progress")

  abbrev pub reap_active : Option ConversationSession → User → ℕ → Action Tables (Unit {0})
  reap_active none user now = pure tt
  reap_active (some active) user now = reap active user now

  abbrev check_mission : Option ℕ → ℕ → Action Tables (Unit {0})
  check_mission none user_id = pure tt
  check_mission (some m) user_id = do
    owned ← owns_mission m user_id
    raise_if (not owned) (not_found "Mission not found")

  abbrev pub new_session : ℕ → String → Option String → Option ℕ → StartTimes → ConversationSession
  new_session user_id mode scenario_id mission_id at = record {
    id = 0;
    user_id = user_id;
    mode = mode;
    scenario_id = scenario_id;
    mission_id = mission_id;
    voice_engine = cfg.voice_engine;
    started_at = at.started;
    last_activity_at = at.active;
    ended_at = none;
    duration_minutes = none;
  }

  -- `start` from the check of the mission on.
  unfoldable pub open_session :
      ℕ → String → Option String → Option ℕ → StartTimes → Action Tables ConversationSession
  unfolding owns_mission
  open_session user_id mode scenario_id mission_id at = do
    check_mission mission_id user_id
    session ← add (new_session user_id mode scenario_id mission_id at)
    commit
    pure session

  unfoldable pub start :
      ℕ → String → Option String → Option ℕ → StartTimes → Action Tables ConversationSession
  unfolding lock_user get_active_for_user
  start user_id mode scenario_id mission_id at = do
    row ← lock_user user_id
    user ← or_raise row (not_found "User not found")
    raise_if (is_out_of_quota user at.checked) (quota_exhausted "Daily free quota exhausted")
    active ← get_active_for_user user_id
    reap_active active user at.reaped
    open_session user_id mode scenario_id mission_id at

  -- `active`: the session in progress with its turns so far.
  unfoldable pub active : ℕ → Action Tables (Option (ConversationSession × List Message))
  unfolding get_active_for_user get_by_session
  active user_id = do
    found ← get_active_for_user user_id
    elim found [
      | none ↦ pure none
      | some session ↦ do
        transcript ← get_by_session session.id
        pure (
            some (
              session,
              if cfg.has_transcripts then elim transcript [ none ↦ [] | some t ↦ t.turns ] else [],
            ))
    ]

  abbrev end_locked : ConversationSession → Option User → ℕ → Action Tables ConversationSession
  end_locked session user now =
      if not (is_none session.ended_at)
      then pure session
      else (close_session session user now >> commit >> pure (closed session now))

  unfoldable pub end : ℕ → ℕ → ℕ → (others : Tables → Tables) → Action Tables ConversationSession
  unfolding close_session get_owned_session lock_user refresh
  end session_id user_id now others = do
    session ← get_owned_session session_id user_id
    if not (is_none session.ended_at) then pure session else (do
      others_commit others
      user ← lock_user user_id
      reread ← refresh session
      end_locked reread user now)

  -- The session after a turn that is charged `minutes`.
  abbrev pub after_turn : ConversationSession → ℕ → ℕ → ConversationSession
  after_turn s minutes now = record s {
    last_activity_at = now;
    duration_minutes =
        if ltb 0 minutes then some (or_zero s.duration_minutes + minutes) else s.duration_minutes;
  }

  abbrev bill_turn : Option User → ℕ → ℕ → Action Tables (Unit {0})
  bill_turn none minutes today = pure tt
  bill_turn (some user) minutes today =
      put_user user.id (apply_active_day (usage_if minutes user today) today)

  -- The charge is computed before the lock, from the session as it was read first.
  unfoldable pub record_locked :
      ConversationSession → Option User → ℕ → ℕ → Action Tables (Unit {0})
  record_locked session user minutes now =
      if not (is_none session.ended_at)
      then pure tt
      else (put_session (after_turn session minutes now)
          >> bill_turn user minutes (date_of now)
          >> commit)

  -- `session is None or session.user_id != user_id or session.ended_at is not None`
  abbrev pub meterable : ℕ → Option ConversationSession → Option ConversationSession
  meterable user_id none = none
  meterable user_id (some s) =
      if s.user_id == user_id then (if is_none s.ended_at then some s else none) else none

  unfoldable pub record_turn_activity :
      ℕ → ℕ → ℕ → (others : Tables → Tables) → Action Tables (Unit {0})
  unfolding get lock_user refresh
  record_turn_activity session_id user_id now others = do
    found ← get session_id
    elim (meterable user_id found) [
      | none ↦ pure tt
      | some session ↦ do
        others_commit others
        user ← lock_user user_id
        reread ← refresh session
        record_locked reread user (charge_since session now) now
    ]
