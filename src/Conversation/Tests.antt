-- ===== src/Conversation/Tests.antt =====
-- A turn of one session, in progress and ended.
use apm.Shared.{
  user_key_instance, ℕ, List, String, ◌<◌, ◌≤◌, ◌++◌, length, ◌*◌, ◌≡◌, refl, false, true, [], ◌∷◌,
  none, some, arith,
}
use apm.Shared.Table.{find}
use apm.Clock.{minute}
use apm.Database.{Db, ok}
use apm.Database.Models.{ConversationSession}
use apm.Sessions.Repository.{Tables}
use apm.Sessions.Service.{Config, record_turn_activity, record_locked}
use apm.Conversation.{is_of, persist_turn}
use apm.Database.{Result, err, provider_error}
use apm.Database.Models.{User, tier_free}
use apm.Sessions.Repository.{
  Message, has_id, get_owned_session, get_by_session, get_by_user_id, get_owned,
}
use apm.Conversation.{message}
use apm.Conversation.Prompt.{Text}
use apm.Conversation.Correction.{CorrectorText, TurnCorrection}
use apm.Conversation.Preparing.{prepare_turn-history}
use apm.Conversation.Continuity.{exchanged, take_turn-remembered}
use apm.Conversation.Prepare.{
  TurnConfig, PreparedTurn, turns_or_empty, prepare_turn, take_turn, prompt_and_intensity_for,
  window,
}
use apm.Conversation.Stream.{Providers, Callback, stream_prepared}
use apm.Conversation.Settlement.{Settled}
use apm.Conversation.Promises.{
  released, begun, Whole, stream_prepared-Settled, stream_prepared-Whole,
}
use apm.Conversation.Route.{ClaimFaults, Response, event_stream}
use apm.Idempotency.Replay.{Pending}
use apm.Conversation.Stored.{IsLive, Rescued, stream_prepared-Rescued}
use apm.Conversation.Remembered.{Remembered, event_stream-Remembered}
use apm.Conversation.Frames.{said_by}
use apm.Conversation.Retries.{IsUnlocked}
use apm.Idempotency.{Claims, lookup_response}
use apm.Conversation.Persistence.{
  turns_of, kept, program_meter, persist_turn_stored, persist_turn_lost,
}

abbrev cfg : Config
cfg = record {
  free_daily_minutes = 15;
  voice_engine = "native";
  inactivity_timeout = 30 * minute;
  turn_meter_cap = 5 * minute;
  has_missions = false;
  has_transcripts = true;
}

abbrev talk : ConversationSession
talk = record {
  id = 1;
  user_id = 1;
  mode = "free";
  scenario_id = none;
  mission_id = none;
  voice_engine = "native";
  started_at = 10 * minute;
  last_activity_at = 20 * minute;
  ended_at = none;
  duration_minutes = none;
}

abbrev db_of : ConversationSession → Db Tables
db_of s =
    let tables : Tables = record {
      users = [];
      sessions = s ∷ [];
      missions = [];
      transcripts = [];
      profiles = [];
      next_session_id = 2;
    } in
    record { committed = tables; working = tables; faults = [] }

abbrev over : ConversationSession
over = record talk { ended_at = some (22 * minute) }

abbrev now : ℕ
now = 23 * minute

persist_turn_stored_example :
    let res =
      persist_turn (some (program_meter cfg)) 40 1 1 [] "Hi" "Hello" none now (db_of talk) in
    (res.0 ≡ ok (kept 40 1 1 [] "Hi" "Hello" none now))
    × (turns_of (find (is_of 1) res.1.committed.transcripts)
        ≡ some (kept 40 1 1 [] "Hi" "Hello" none now))
persist_turn_stored_example =
    persist_turn_stored 40 1 1 [] "Hi" "Hello" none now cfg (db_of talk) talk refl refl refl refl
      refl refl

persist_turn_lost_example :
    let res =
      persist_turn (some (program_meter cfg)) 40 1 1 [] "Hi" "Hello" none now (db_of over) in
    (res.0 ≡ ok (kept 40 1 1 [] "Hi" "Hello" none now)) × (res.1.committed ≡ (db_of over).committed)
persist_turn_lost_example =
    persist_turn_lost 40 1 1 [] "Hi" "Hello" none now cfg (db_of over) refl refl
      (λ s e. ground arith)

abbrev ann : User
ann = record {
  id = 1;
  email = "ann@apm.test";
  hashed_password = "secret";
  native_language = "fr";
  cefr_level = "A1";
  tier = tier_free;
  is_admin = false;
  is_active = some true;
  quota_date = some 0;
  minutes_used_today = 2 * minute;
  current_streak = some 0;
  longest_streak = some 0;
  last_active_date = none;
  weekly_goal_minutes = 30;
  reset_token_hash = none;
  reset_token_expires_at = none;
}

abbrev prepared : PreparedTurn
prepared = record {
  session_id = 1;
  user = ann;
  text = "Hi";
  turns = [];
  system_prompt = "";
  history = [];
  intensity = "gentle";
}

abbrev service : TurnConfig
service = record {
  has_missions = true;
  meter = some (program_meter cfg);
  history_max_messages = 20;
  transcript_max_messages = 40;
  releases = true;
  fresh = true;
}

abbrev two : List String
two = "Hello." ∷ "How are you?" ∷ []

-- A provider that says two sentences, a voice, and a corrector.
abbrev providers : Result (Unit {0}) → Providers
providers end = record {
  llm_stream = λ prompt history. (two, end);
  tts = some (λ sentence. some (1 ∷ 2 ∷ []));
  b64encode = λ audio. "AQI=";
  corrector = some (λ text level language intensity.
      some (record { original = "Hi"; correction = "Hello"; rule = ""; alternatives = [] }));
}

-- The keys are what the callback was told.
abbrev tell : Callback (List String)
tell reply told = (ok tt, reply ∷ told)

stream_prepared-Settled_example :
    Settled
      (providers (ok tt))
      prepared
      service
      now
      (some tell)
      (released service (db_of talk))
      []
      (false ∷ true ∷ [])
      (stream_prepared
        (providers (ok tt))
        prepared
        service
        now
        (some tell)
        (begun (db_of talk) [] (false ∷ true ∷ []))).1
stream_prepared-Settled_example =
    stream_prepared-Settled (providers (ok tt)) prepared service now (some tell) (db_of talk) []
      (false ∷ true ∷ [])

stream_prepared-Whole_example :
    Whole (providers (ok tt)) prepared service now (some tell) (db_of talk) [] two (
      stream_prepared
        (providers (ok tt))
        prepared
        service
        now
        (some tell)
        (begun (db_of talk) [] []))
stream_prepared-Whole_example =
    stream_prepared-Whole (providers (ok tt)) prepared service now (some tell) (db_of talk) [] two
      (λ reply k f e. ground arith) refl

-- A session that plays a mission, whose prompt is stored.
abbrev interview : ConversationSession
interview = record talk { mission_id = some 7 }

abbrev interview_db : Db Tables
interview_db =
    let tables : Tables = record {
      users = [];
      sessions = interview ∷ [];
      missions = record { id = 7; user_id = 1; system_prompt = "Be a recruiter." } ∷ [];
      transcripts = [];
      profiles = [];
      next_session_id = 2;
    } in
    record { committed = tables; working = tables; faults = [] }

abbrev plain : Text
plain = record {
  replace_control = λ s. s;
  collapse_whitespace = λ s. s;
  strip = λ s. s;
  rstrip = λ s. s;
  prefix = λ n s. s;
  upper = λ s. s;
  replace_scenario = λ s. s;
  strip_scenario = λ s. s;
  instruction_patterns = [];
}

abbrev ready : PreparedTurn
ready = record {
  session_id = 1;
  user = ann;
  text = "Hi";
  turns = [];
  system_prompt = "Be a recruiter.";
  history = message "user" "Hi" ∷ [];
  intensity = "gentle";
}

abbrev exchange : List Message
exchange = message "user" "Hi" ∷ message "assistant" "Hello" ∷ []

abbrev ready_again : PreparedTurn
ready_again = record ready {
  text = "Well";
  turns = exchange;
  history = exchange ++ (message "user" "Well" ∷ []);
}

abbrev answer : String → List Message → Result String
answer prompt history = ok "Hello"

prepare_turn-history_example :
    let res = prepare_turn plain "" service 1 ann "Hi" interview_db in
    (res.1 ≡ interview_db)
    × ((s : ConversationSession) × (find (has_id 1) interview_db.working.sessions ≡ some s)
        × (s.user_id ≡ 1)
        × (s.ended_at ≡ none))
    × ([] ≡ turns_or_empty (find (is_of 1) interview_db.working.transcripts))
    × ((older recent : List Message) × (older ++ recent ≡ [])
        × (ready.history ≡ recent ++ (message "user" "Hi" ∷ [])))
    × (0 < 20 → length ready.history ≤ 21)
unfolding prepare_turn get_owned_session get_by_session prompt_and_intensity_for get_by_user_id
    get_owned window
prepare_turn-history_example =
    prepare_turn-history plain "" service 1 ann "Hi" interview_db ready refl

take_turn-remembered_example :
    ((take_turn plain "" service answer 1 ann "Hi" none now interview_db).0
      ≡ ok ("Hello", exchanged plain "" service answer 1 ann "Hi" "Hello" none now ready))
    × (ready_again.turns ≡ exchanged plain "" service answer 1 ann "Hi" "Hello" none now ready)
unfolding prepare_turn get_owned_session get_by_session prompt_and_intensity_for get_by_user_id
    get_owned window take_turn record_turn_activity record_locked
take_turn-remembered_example =
    take_turn-remembered plain "" service answer 1 ann "Hi" "Hello" none now cfg interview_db ready
      ready_again "Well" refl refl refl refl refl refl refl

-- A corrector whose answers are fixed.
abbrev reading : CorrectorText
reading = record {
  count_words = λ s. 3;
  strip = λ s. s;
  prefix = λ n s. s;
  upper = λ s. s;
  is_blank = λ s. false;
  contains = λ text part. true;
  index_of_open = λ s. some 0;
  index_of_close = λ s. some 9;
  slice = λ s i j. s;
  loads = λ s. some (record {
    has_error = true;
    original = "I goes";
    correction = "I go";
    rule = "";
    alternatives = none;
  });
}

abbrev fixed : TurnCorrection
fixed = record { original = "I goes"; correction = "I go"; rule = ""; alternatives = [] }

-- The key of a turn and the lock of its session, both claimed.
abbrev claims : Claims
claims =
    ((1, "key"), record { response = none; created_at = 0 })
    ∷ ((1, "turn-lock"), record { response = none; created_at = 0 })
    ∷ []

abbrev lock_key : ℕ → String
lock_key session_id = "turn-lock"

abbrev quiet : ClaimFaults
quiet = record { complete_fails = false; release_fails = false; unlock_fails = false }

abbrev in_talk : IsLive cfg service prepared (db_of talk) talk
in_talk = record {
  fresh = refl;
  metered = refl;
  sound = refl;
  found = refl;
  again = refl;
  owned = refl;
  in_progress = refl;
}

abbrev response : Response × (Db Tables × Claims)
response =
    event_stream quiet lock_key (providers (err provider_error)) service now (some "key") prepared
      [] (db_of talk, claims)

abbrev pending : Pending (1, "key") claims
unfolding lookup_response
pending = refl

event_stream-Remembered_example :
    Remembered quiet
      (providers (err provider_error))
      cfg
      service
      now
      prepared
      "key"
      (db_of talk)
      claims
      talk
      in_talk
      (said_by response.0)
      response.1.0
      response.1.1
    × IsUnlocked quiet
        (providers (err provider_error))
        service
        now
        prepared
        "key"
        (db_of talk)
        claims
        pending
        (refl, (refl, tt))
        refl
        lock_key
        []
        response.1.1
event_stream-Remembered_example =
    event_stream-Remembered quiet (providers (err provider_error)) cfg service now prepared "key"
      (db_of talk) claims talk in_talk pending (refl, (refl, tt)) refl lock_key [] (λ e. absurd cc)

stream_prepared-Rescued_example :
    Rescued cfg service prepared now
      (db_of talk)
      talk
      in_talk
      (providers (err provider_error))
      (some tell)
      []
      two
      (stream_prepared
        (providers (err provider_error))
        prepared
        service
        now
        (some tell)
        (begun (db_of talk) [] []))
stream_prepared-Rescued_example =
    stream_prepared-Rescued cfg service prepared now (db_of talk) talk in_talk
      (providers (err provider_error)) (some tell) [] two provider_error (λ e. cc) refl
