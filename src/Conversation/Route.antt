-- ===== src/Conversation/Route.antt =====
-- The streaming route of backend/app/features/conversation/router.py: `stream_turn` with its
-- `on_persisted` and `event_stream`, `_replay_completed`, and the kinds of server-sent events. It joins
-- the generator of Stream to the idempotency key and the turn lock. Each statement on the claims has a
-- session of its own; those that follow the preparation may fail, as `ClaimFaults` says. `moment` says what others do while the key is claimed.
use apm.Shared.{
  ℕ, Bool, true, false, List, [], ◌∷◌, ◌++◌, Option, none, some, String, if◌then◌else◌,
}
use apm.Database.{Db, Result, ok, err, Error, conflict, llm_provider, database_error}
use apm.Database.Models.{User}
use apm.Sessions.Repository.{Tables}
use apm.Conversation.Prompt.{Text, is_empty}
use apm.Conversation.Correction.{TurnCorrection}
use apm.Conversation.Prepare.{TurnConfig, PreparedTurn, prepare_turn}
use apm.Conversation.Stream.{
  TurnStreamEvent, reply_chunk, audio_chunk, correction_ready, Ending, returned, raised, gone,
  Stage, Providers, Callback, stream_prepared,
}
use apm.Conversation.Promises.{begun}
use apm.Idempotency.{
  Claims, Moment, ClaimOutcome, claimed, in_flight, completed, begin, complete, release,
  acquire_turn_lock, release_turn_lock,
}

-- The frames of a response, by their events.
pub data Frame : Type 0 where
  chunk audio : String → Frame
  correction : TurnCorrection → Frame
  done : Frame
  error : String → Frame

abbrev pub frame_of : TurnStreamEvent → Frame
frame_of (reply_chunk s) = chunk s
frame_of (audio_chunk a) = audio a
frame_of (correction_ready c) = correction c

abbrev pub frames_of : List TurnStreamEvent → List Frame
frames_of [] = []
frames_of (e ∷ es) = frame_of e ∷ frames_of es

pub data Response : Type 0 where
  refused : Error → Response
  streamed : List Frame → Response

-- `_replay_completed`
abbrev pub replay_completed : String → List Frame
replay_completed reply = chunk reply ∷ done ∷ []

abbrev pub complete_for : ℕ → Option String → String → Claims → Claims
complete_for user_id none reply d = d
complete_for user_id (some key) reply d =
    if is_empty key then d else complete (user_id, key) reply d

-- Which of the statements on the claims that follow the preparation of a turn fail.
pub record ClaimFaults : Type 0 where
  pub complete_fails : Bool
  pub release_fails : Bool
  pub unlock_fails : Bool

abbrev pub complete_unless : Bool → ℕ → Option String → String → Claims → Claims
complete_unless true user_id key reply d = d
complete_unless false user_id key reply d = complete_for user_id key reply d

-- The claims with the flag `completed` of the request, which is set also if the completion fails: its
-- exception is swallowed.
abbrev pub on_persisted : ClaimFaults → ℕ → Option String → Callback (Claims × Bool)
on_persisted f user_id key reply keys =
    (ok tt, (complete_unless f.complete_fails user_id key reply keys.0, true))

-- A release of the key of a request that has one; `none` if it raises.
abbrev pub try_release : ClaimFaults → ℕ → Option String → Claims → Option Claims
try_release f user_id none d = some d
try_release f user_id (some key) d =
    if is_empty key
    then some d
    else if f.release_fails
    then none
    else some (release (user_id, key) d)

-- `if idempotency_key and not completed`
abbrev pub release_unless : Bool → ClaimFaults → ℕ → Option String → Claims → Option Claims
release_unless true f user_id key d = some d
release_unless false f user_id key d = try_release f user_id key d

-- An error of a provider has its own message.
abbrev pub message_of : Error → String
message_of (llm_provider m) = "LLM provider failed"
message_of e = "Turn failed"

-- The last frame after an error, unless the release raises.
abbrev pub end_in_error : List Frame → Error → Claims → Option Claims → List Frame × Claims
end_in_error frames e d none = (frames, d)
end_in_error frames e d (some d') = (frames ++ (error (message_of e) ∷ []), d')

-- The frames after the stream has ended, and the claims. An exception in the handler ends the response
-- where it is.
abbrev pub close_stream :
    ClaimFaults
    → ℕ
    → Option String
    → Ending (Unit {0}) × Stage (Claims × Bool)
    → List Frame × Claims
close_stream f user_id key (returned u, st) = (frames_of st.events ++ (done ∷ []), st.keys.0)
close_stream f user_id key (raised e, st) =
    end_in_error (frames_of st.events) e st.keys.0
      (release_unless st.keys.1 f user_id key st.keys.0)
close_stream f user_id key (gone, st) = (frames_of st.events, st.keys.0)

-- `release_turn_lock`, which may raise
abbrev pub unlock_unless : Bool → (ℕ → String) → ℕ → ℕ → Claims → Claims
unlock_unless true lock_key user_id session_id d = d
unlock_unless false lock_key user_id session_id d = release_turn_lock lock_key user_id session_id d

-- An error is answered once the key is released; if the release raises, that is the error.
abbrev pub refuse : Error → Claims → Option Claims → Response × Claims
refuse e d none = (refused database_error, d)
refuse e d (some d') = (refused e, d')

module _ (f : ClaimFaults) (lock_key : ℕ → String) (io : Providers) (cfg : TurnConfig) (now : ℕ)
    (key : Option String) where
  abbrev pub run_stream :
      PreparedTurn
      → (leaves : List Bool) → Db Tables × Claims
      → Ending (Unit {0}) × Stage (Claims × Bool)
  run_stream p leaves (db, d) =
      stream_prepared io p cfg now (some (on_persisted f p.user.id key))
        (begun db (d, false) leaves)

  -- `event_stream`, whose `finally` frees the turn lock.
  unfoldable pub event_stream :
      PreparedTurn → (leaves : List Bool) → Db Tables × Claims → Response × (Db Tables × Claims)
  unfolding stream_prepared release_turn_lock release complete
  event_stream p leaves (db, d) =
      let res = run_stream p leaves (db, d) in
      let (frames, d') = close_stream f p.user.id key res in
      (streamed frames, (res.1.db, unlock_unless f.unlock_fails lock_key p.user.id p.session_id d'))

  module _ (text_of : Text) (nonce : String) (session_id : ℕ) (user : User) (text : String)
      (server_now : ℕ) (leaves : List Bool) where
    -- The `finally` of a preparation that raises: the lock, then the key.
    abbrev after_unlock : Bool → Error → Claims → Response × Claims
    after_unlock true e d = (refused database_error, d)
    after_unlock false e d =
        let d' = release_turn_lock lock_key user.id session_id d in
        refuse e d' (try_release f user.id key d')

    abbrev after_prepare :
        Result PreparedTurn × Db Tables → Claims → Response × (Db Tables × Claims)
    after_prepare (ok p, db) d = event_stream p leaves (db, d)
    after_prepare (err e, db) d = let (r, d') = after_unlock f.unlock_fails e d in (r, (db, d'))

    abbrev after_lock : Bool × Claims → Db Tables → Response × (Db Tables × Claims)
    after_lock (false, d) db =
        let (r, d') =
          refuse (conflict "A turn is already in progress for this session") d
            (try_release f user.id key d) in
        (r, (db, d'))
    after_lock (true, d) db =
        after_prepare (prepare_turn text_of nonce cfg session_id user text db) d

    abbrev after_claim : ClaimOutcome × Claims → Db Tables → Response × (Db Tables × Claims)
    after_claim (in_flight, d) db =
        (refused (conflict "This request is already being processed; retry shortly"), (db, d))
    after_claim (completed reply, d) db = (streamed (replay_completed reply), (db, d))
    after_claim (claimed, d) db =
        after_lock (acquire_turn_lock lock_key user.id session_id now server_now d) db

    abbrev claim_key : Option String → Moment → Claims → ClaimOutcome × Claims
    claim_key none moment d = (claimed, d)
    claim_key (some k) moment d = if is_empty k then (claimed, d) else begin (user.id, k) moment d

    -- `stream_turn`, once the rate limiter lets the request pass.
    unfoldable pub stream_turn : Moment → Db Tables × Claims → Response × (Db Tables × Claims)
    unfolding event_stream prepare_turn acquire_turn_lock begin release_turn_lock release
    stream_turn moment (db, d) = after_claim (claim_key key moment d) db
