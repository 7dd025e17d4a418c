-- ===== src/Conversation/Prepare.antt =====
-- What a turn is built from, and the turn that does not stream: `_prepare`, `_prompt_and_intensity_for`,
-- `prepare_turn` and `take_turn` of backend/app/features/conversation/turn_service.py.
use apm.Shared.{
  ℕ, ◌-◌, Bool, true, false, not, List, [], ◌∷◌, ◌++◌, Option, none, some, String, ltb, length,
  drop, if◌then◌else◌,
}
use apm.Clock.{DateTime}
use apm.Database.{Action, Result, pure, raise_if, conflict, rollback, ◌>>=◌, ◌>>◌}
use apm.Database.Models.{User, ConversationSession, is_none}
use apm.Sessions.Repository.{
  Tables, Message, Transcript, Mission, LearnerProfile, get_owned_session, get_by_session,
  get_owned, get_by_user_id,
}
use apm.Conversation.{Meter, persist_turn, message}
use apm.Conversation.Prompt.{Text, PromptContext, build_system_prompt, is_empty}

-- `__init__`, but the providers and the callbacks: `releases` says that the connection is handed back
-- before the calls of the providers, and `fresh` that the terminal write has a session of its own.
pub record TurnConfig : Type 0 where
  pub has_missions : Bool
  pub meter : Option Meter
  pub history_max_messages : ℕ
  pub transcript_max_messages : ℕ
  pub releases : Bool
  pub fresh : Bool

pub record PreparedTurn : Type 0 where
  pub session_id : ℕ
  pub user : User
  pub text : String
  pub turns : List Message
  pub system_prompt : String
  pub history : List Message
  pub intensity : String

-- `turns[-n:] if n > 0 else turns`
unfoldable pub window : ℕ → List Message → List Message
window n turns = if ltb 0 n then drop (length turns - n) turns else turns

abbrev pub turns_or_empty : Option Transcript → List Message
turns_or_empty none = []
turns_or_empty (some t) = t.turns

abbrev or_empty : Option String → String
or_empty none = ""
or_empty (some s) = s

abbrev pub intensity_of : Option LearnerProfile → String
intensity_of none = "gentle"
intensity_of (some p) = p.correction_intensity

abbrev pub context_of : User → ConversationSession → Option LearnerProfile → PromptContext
context_of user session none = record {
  cefr_level = user.cefr_level;
  scenario_id = session.scenario_id;
  interests = [];
  memory_summary = "";
  goal = "";
}
context_of user session (some p) = record {
  cefr_level = user.cefr_level;
  scenario_id = session.scenario_id;
  interests = p.interests;
  memory_summary = p.memory_summary;
  goal = or_empty p.goal;
}

-- The mission's own prompt, if it has one.
abbrev pub stored_prompt : Option Mission → Option String
stored_prompt none = none
stored_prompt (some m) = if is_empty m.system_prompt then none else some m.system_prompt

abbrev pub find_prompt : Bool → Option ℕ → ℕ → Action Tables (Option String)
find_prompt true (some mission_id) user_id =
    get_owned mission_id user_id >>= λ mission. pure (stored_prompt mission)
find_prompt true none user_id = pure none
find_prompt false mission_id user_id = pure none

abbrev pub or_built : Option String → String → String
or_built none built = built
or_built (some prompt) built = prompt

module _ (text_of : Text) (nonce : String) (cfg : TurnConfig) where
  unfoldable pub prompt_and_intensity_for :
      ConversationSession → User → Action Tables (String × String)
  unfolding get_by_user_id get_owned build_system_prompt
  prompt_and_intensity_for session user = do
    profile ← get_by_user_id user.id
    stored ← find_prompt cfg.has_missions session.mission_id user.id
    pure (
      or_built stored (build_system_prompt text_of nonce (context_of user session profile)),
      intensity_of profile,
    )

  -- `_prepare` and `prepare_turn`
  unfoldable pub prepare_turn : ℕ → User → String → Action Tables PreparedTurn
  unfolding get_owned_session get_by_session prompt_and_intensity_for window
  prepare_turn session_id user text = do
    session ← get_owned_session session_id user.id
    raise_if (not (is_none session.ended_at)) (conflict "Session already ended")
    existing ← get_by_session session_id
    prompt ← prompt_and_intensity_for session user
    pure (record {
      session_id = session_id;
      user = user;
      text = text;
      turns = turns_or_empty existing;
      system_prompt = prompt.0;
      history =
          window cfg.history_max_messages (turns_or_empty existing) ++ (message "user" text ∷ []);
      intensity = prompt.1;
    })

-- `release_request_connection` of database.py, when the hook is given.
abbrev pub release_connection_for_io : TurnConfig → Action Tables (Unit {0})
release_connection_for_io cfg = if cfg.releases then rollback else pure tt

-- `async with self._open_persistence()`: a session of its own begins with what is committed, and is
-- closed at the end.
abbrev pub with_persistence : {A : Type 0} → TurnConfig → Action Tables A → Action Tables A
with_persistence cfg m db =
    if cfg.fresh
    then (let (r, db') = m (record db { working = db.committed }) in
        (r, record db' { working = db'.committed }))
    else m db

-- `_persist`
abbrev pub persist :
    TurnConfig → PreparedTurn → String → Option DateTime → ℕ → Action Tables (List Message)
persist cfg p reply practiced_at now = with_persistence cfg (
    persist_turn cfg.meter cfg.transcript_max_messages p.session_id p.user.id p.turns p.text reply
      practiced_at now)

abbrev pub lift : {A : Type 0} → Result A → Action Tables A
lift r db = (r, db)

-- `take_turn`: `llm` answers or raises. The result is the reply with the turns.
unfoldable pub take_turn :
    Text
    → (nonce : String) → TurnConfig
    → (llm : String → List Message → Result String) → ℕ
    → User
    → (text : String) → Option DateTime
    → (now : ℕ) → Action Tables (String × List Message)
unfolding prepare_turn persist_turn
take_turn text_of nonce cfg llm session_id user text practiced_at now = do
  p ← prepare_turn text_of nonce cfg session_id user text
  release_connection_for_io cfg
  reply ← lift (llm p.system_prompt p.history)
  turns ← persist cfg p reply practiced_at now
  pure (reply, turns)
