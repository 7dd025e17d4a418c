-- ===== src/Debrief/Tests.antt =====
-- A session with one sentence of the learner, and an analysis of it.
use apm.Shared.{◌≡◌, ◌⊎◌, refl, true, false, List, [], ◌∷◌, none, some, String}
use apm.Database.{Db, Result, ok, err, provider_error}
use apm.Database.Models.{User, ConversationSession, tier_free}
use apm.Sessions.Repository.{Message, get_owned_session, get_by_session, get_by_user_id}
use apm.Conversation.Prompt.{Text}
use apm.Conversation.Correction.{style_for_intensity}
use apm.Progression.{next_cefr_level}
use apm.Debrief.{
  DebriefTables, row_of, generate, generate_locked, find_debrief, persist_core, save_debrief,
}
use apm.Debrief.Analyzer.{AnalyzerText, DebriefResult, learner_text_of, analyze, parse_debrief_json}
use apm.Debrief.Findings.{Grounded, analyze-Grounded}
use apm.Shared.Table.{find}
use apm.Debrief.{debrief_of}
use apm.Debrief.Learning.{learnt}
use apm.Debrief.Generation.{with_debrief, generate_committed, generate_double, generate_once}
use apm.Debrief.Atomicity.{generate_atomic}

abbrev ann : User
ann = record {
  id = 1;
  email = "ann@apm.test";
  hashed_password = "secret";
  native_language = "fr";
  cefr_level = "A1";
  tier = tier_free;
  is_admin = false;
  is_active = some true;
  quota_date = none;
  minutes_used_today = 0;
  current_streak = none;
  longest_streak = none;
  last_active_date = none;
  weekly_goal_minutes = 30;
  reset_token_hash = none;
  reset_token_expires_at = none;
}

abbrev talk : ConversationSession
talk = record {
  id = 1;
  user_id = 1;
  mode = "free";
  scenario_id = none;
  mission_id = none;
  voice_engine = "native";
  started_at = 10;
  last_activity_at = 20;
  ended_at = some 30;
  duration_minutes = none;
}

abbrev said : Message
said = record { role = "user"; content = "I goes home" }

abbrev tables : DebriefTables
tables = record {
  core = record {
    users = ann ∷ [];
    sessions = talk ∷ [];
    missions = [];
    transcripts = record { session_id = 1; turns = said ∷ [] } ∷ [];
    profiles = [];
    next_session_id = 2;
  };
  debriefs = [];
  next_debrief_id = 1;
}

abbrev db : Db DebriefTables
db = record { committed = tables; working = tables; faults = [] }

abbrev plain : Text
plain = record {
  replace_control = λ s. s;
  collapse_whitespace = λ s. s;
  strip = λ s. s;
  rstrip = λ s. s;
  prefix = λ n s. s;
  upper = λ s. s;
  replace_scenario = λ s. s;
  strip_scenario = λ s. s;
  instruction_patterns = [];
}

-- A learner of level A1 who spoke at B2.
abbrev found : DebriefResult
found = record { cefr_estimate = "B2"; summary = "Good"; errors = []; words = [] }

abbrev analysis : List Message → String → String → Result DebriefResult
analysis turns language intensity = ok found

abbrev broken : List Message → String → String → Result DebriefResult
broken turns language intensity = err provider_error

abbrev idle : DebriefTables → DebriefTables
idle t = t

-- Another worker makes the debrief of the same session from the same analysis.
abbrev sibling : DebriefTables → DebriefTables
sibling t = with_debrief plain analysis idle none 1 ann found t

abbrev later : Db DebriefTables
later =
    let t = with_debrief plain analysis idle none 1 ann found tables in
    let moved = record t { core = record (t.core) { next_session_id = 9 } } in
    record { committed = moved; working = moved; faults = [] }

generate_committed_example :
    (generate plain analysis idle none 1 ann db).1.committed
    ≡ with_debrief plain analysis idle none 1 ann found tables
generate_committed_example =
    generate_committed plain analysis idle none 1 ann db talk
      (record { session_id = 1; turns = said ∷ [] }) said [] found refl refl refl refl refl refl
      refl refl refl

generate_once_example :
    generate plain broken idle none 1 ann later ≡ (ok (row_of 1 1 "B2" "Good" []), later)
unfolding generate generate_locked find_debrief persist_core save_debrief get_owned_session
    get_by_session get_by_user_id next_cefr_level
generate_once_example =
    generate_once plain analysis broken idle idle none 1 ann db later talk talk
      (record { session_id = 1; turns = said ∷ [] }) said [] found refl refl refl refl refl refl
      refl refl refl refl refl

-- The level of the learner rises from A1 to B1 for one session.
generate_double_example :
    let res = generate plain analysis sibling none 1 ann db in
    (res.0 ≡ ok (row_of 1 1 "B2" "Good" []))
    × (res.1.committed.core ≡ learnt plain 1 found (sibling tables).core)
    × (find (debrief_of 1) res.1.committed.debriefs ≡ some (row_of 1 1 "B2" "Good" []))
generate_double_example =
    generate_double plain analysis sibling none 1 ann db talk
      (record { session_id = 1; turns = said ∷ [] }) said [] found (row_of 1 1 "B2" "Good" []) refl
      refl refl refl refl refl refl refl

generate_atomic_example :
    ((generate plain broken sibling none 1 ann db).1.committed ≡ tables)
    ⊎ ((generate plain broken sibling none 1 ann db).1.committed ≡ sibling tables)
unfolding generate generate_locked find_debrief get_owned_session get_by_session get_by_user_id
generate_atomic_example = generate_atomic plain broken sibling none 1 ann db provider_error refl

abbrev reading : AnalyzerText
reading = record {
  strip = λ s. s;
  contains = λ text part. true;
  index_of_open = λ s. some 0;
  index_of_close = λ s. some 9;
  slice = λ s i j. s;
  loads = λ s. some (record { cefr_estimate = "Z9"; summary = "Good"; errors = []; words = [] });
  normal = λ s. s;
  underscored = λ s. s;
}

abbrev answer : String → List Message → Result String
answer prompt messages = ok "{}"

analyze-Grounded_example :
    Grounded reading
      (style_for_intensity "gentle").max_errors
      (learner_text_of reading 60 (said ∷ []))
      (record { cefr_estimate = "A1"; summary = "Good"; errors = []; words = [] })
unfolding analyze parse_debrief_json
analyze-Grounded_example =
    analyze-Grounded reading "" (λ n. "1") answer 60 (said ∷ []) "fr" "A1" "gentle"
      (record { cefr_estimate = "A1"; summary = "Good"; errors = []; words = [] }) refl refl
