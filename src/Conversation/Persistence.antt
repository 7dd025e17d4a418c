-- ===== src/Conversation/Persistence.antt =====
-- When a turn is stored, and when it is not.
use apm.Shared.{
  ℕ, ◌-◌, ◌≤◌, ◌<◌, ◌≡◌, refl, sym, false, List, [], ◌∷◌, none, some, String, ==_iff, arith, length,
  length-drop, Option, Option-cases, inl, inr,
}
use apm.Shared.Table.{find, update_where, find-append}
use apm.Clock.{DateTime}
use apm.Database.{Db, ok, err, IsClean, Error}
use apm.Database.Models.{ConversationSession, is_none}
use apm.Sessions.Activity.{clamp_practiced_at}
use apm.Sessions.Repository.{is_user, Tables, Message, Transcript, has_id}
use mathlib.Core.Path.{subst}
use apm.Database.Models.{User}
use apm.Sessions.Service.{meterable, charge_since, record_locked, Config, record_turn_activity}
use apm.Sessions.Turns.{record_turn_activity_ignored}
use apm.Conversation.{is_of, upsert_turns, extended, bounded_turns, persist_turn, Meter}

-- With a positive cap no more than that many messages are kept.
pub length-bounded_turns :
    (cap : ℕ) (turns : List Message) → 0 < cap → length (bounded_turns cap turns) ≤ cap
unfolding bounded_turns
length-bounded_turns cap turns h = ground (arith, length-drop (length turns - cap) turns)

find-update_turns :
    (n : ℕ) (turns : List Message) (rows : List Transcript)
    → find (is_of n) (update_where (is_of n) (λ r. record r { turns = turns }) rows)
      ≡ elim (find (is_of n) rows) [ none ↦ none | some r ↦ some (record r { turns = turns }) ]
find-update_turns n turns [] = refl
find-update_turns n turns (r ∷ rows) = ground (arith, find-update_turns n turns rows)

abbrev pub turns_of : Option Transcript → Option (List Message)
turns_of none = none
turns_of (some r) = some r.turns

pub turns_of-upsert_turns :
    (n : ℕ) (turns : List Message) (rows : List Transcript)
    → turns_of (find (is_of n) (upsert_turns n turns rows)) ≡ some turns
turns_of-upsert_turns n turns rows = elim (Option-cases (find (is_of n) rows)) [
  | inl e ↦ ground (
    arith,
    find-append (is_of n) rows (record { session_id = n; turns = turns } ∷ []),
    ==_iff n n,
  )
  | inr (r, e) ↦ ground (arith, find-update_turns n turns rows)
]

-- The write under the lock commits the whole transaction, the transcript with it.
record_locked-transcripts :
    (cfg : Config) (s : ConversationSession) (user : Option User) (minutes now : ℕ) (db : Db Tables)
    → db.faults ≡ []
    → s.ended_at ≡ none
    → let res = record_locked cfg s user minutes now db in
      (res.0 ≡ ok tt) × (res.1.committed.transcripts ≡ db.working.transcripts)
unfolding record_locked
record_locked-transcripts cfg s none minutes now db sound live = (ground arith, ground arith)
record_locked-transcripts cfg s (some user) minutes now db sound live = (ground arith, ground arith)

record_turn_activity-locked :
    (cfg : Config) (session_id user_id now : ℕ) (db : Db Tables) (s : ConversationSession)
    → find (has_id session_id) db.working.sessions ≡ some s
    → find (has_id s.id) db.working.sessions ≡ some s
    → meterable cfg user_id (some s) ≡ some s
    → record_turn_activity cfg session_id user_id now (λ tables. tables) db
      ≡ record_locked cfg s
          (find (is_user user_id) db.working.users)
          (charge_since cfg s now)
          now
          db
unfolding record_turn_activity
record_turn_activity-locked cfg session_id user_id now db s found again mine = ground arith

record_turn_activity-transcripts :
    (cfg : Config) (session_id user_id now : ℕ) (db : Db Tables) (s : ConversationSession)
    → db.faults ≡ []
    → find (has_id session_id) db.working.sessions ≡ some s
    → find (has_id s.id) db.working.sessions ≡ some s
    → s.user_id ≡ user_id
    → s.ended_at ≡ none
    → let res = record_turn_activity cfg session_id user_id now (λ tables. tables) db in
      (res.0 ≡ ok tt) × (res.1.committed.transcripts ≡ db.working.transcripts)
record_turn_activity-transcripts cfg session_id user_id now db s sound found again owner live =
    subst (λ res. (res.0 ≡ ok tt) × (res.1.committed.transcripts ≡ db.working.transcripts))
      (sym (record_turn_activity-locked cfg session_id user_id now db s found again (ground arith)))
      (record_locked-transcripts cfg s (find (is_user user_id) db.working.users)
        (charge_since cfg s now) now db sound live)

-- What `TurnPersistence` carries in the program.
abbrev pub program_meter : Config → Meter
program_meter cfg n user now = record_turn_activity cfg n user now (λ tables. tables)

module _ (cap session_id user_id : ℕ) (turns : List Message) (text reply : String)
    (practiced_at : Option DateTime) (now : ℕ) where
  abbrev pub kept : List Message
  kept = bounded_turns cap (extended turns text reply)

  -- A meter that raises without touching the database does not lose the turn: with no statement
  -- failing, the call returns and the turns are stored.
  pub persist_turn_meter_raises :
      (meter : Meter) (e : Error) (db : Db Tables)
      → IsClean db
      → db.faults ≡ []
      → ((db' : Db Tables)
          → meter session_id user_id (clamp_practiced_at practiced_at now) db' ≡ (err e, db'))
      → let res =
          persist_turn (some meter) cap session_id user_id turns text reply practiced_at now db in
        (res.0 ≡ ok kept)
        × (turns_of (find (is_of session_id) res.1.committed.transcripts) ≡ some kept)
  unfolding persist_turn
  persist_turn_meter_raises meter e db clean sound raises =
      let saved : Db Tables = record db {
        working = record (db.working) {
          transcripts = upsert_turns session_id kept db.working.transcripts;
        };
      } in
      (
        ground (arith, raises saved),
        ground (arith, raises saved, turns_of-upsert_turns session_id kept db.working.transcripts),
      )

  -- The meter of the program returns without a commit for a session that has ended, or is gone, since
  -- the turn began. The call returns the turns as if they were stored, and nothing was committed: the
  -- exchange is lost.
  pub persist_turn_lost :
      (cfg : Config) (db : Db Tables)
      → IsClean db
      → db.faults ≡ []
      → ((s : ConversationSession)
          → find (has_id session_id) db.working.sessions ≡ some s
          → is_none s.ended_at ≡ false)
      → let res =
          persist_turn
            (some (program_meter cfg))
            cap
            session_id
            user_id
            turns
            text
            reply
            practiced_at
            now
            db in
        (res.0 ≡ ok kept) × (res.1.committed ≡ db.committed)
  unfolding persist_turn
  persist_turn_lost cfg db clean sound ended =
      let saved : Db Tables = record db {
        working = record (db.working) {
          transcripts = upsert_turns session_id kept db.working.transcripts;
        };
      } in
      let ignored =
        record_turn_activity_ignored cfg session_id user_id (clamp_practiced_at practiced_at now)
          (λ tables. tables) saved (λ s found. inr (ended s found)) in
      (ground (arith, ignored), ground (arith, ignored))

  -- A turn of the user's own session that is still in progress is stored: with no statement failing, the call
  -- returns the turns and commits them as the transcript of the session.
  pub persist_turn_stored :
      (cfg : Config) (db : Db Tables) (s : ConversationSession)
      → IsClean db
      → db.faults ≡ []
      → find (has_id session_id) db.working.sessions ≡ some s
      → find (has_id s.id) db.working.sessions ≡ some s
      → s.user_id ≡ user_id
      → s.ended_at ≡ none
      → let res =
          persist_turn
            (some (program_meter cfg))
            cap
            session_id
            user_id
            turns
            text
            reply
            practiced_at
            now
            db in
        (res.0 ≡ ok kept)
        × (turns_of (find (is_of session_id) res.1.committed.transcripts) ≡ some kept)
  unfolding persist_turn
  persist_turn_stored cfg db s clean sound found again owner live =
      let saved : Db Tables = record db {
        working = record (db.working) {
          transcripts = upsert_turns session_id kept db.working.transcripts;
        };
      } in
      let charged =
        record_turn_activity-transcripts cfg session_id user_id
          (clamp_practiced_at practiced_at now) saved s sound found again owner live in
      (
        ground (arith, charged),
        ground (arith, charged, turns_of-upsert_turns session_id kept db.working.transcripts),
      )
