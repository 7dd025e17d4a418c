-- ===== src/Debrief.antt =====
-- The debrief of a session: `DebriefService` of backend/app/features/debrief/service.py and
-- repository.py, wired as in dependencies.py: with the profiles, the users and the hook that hands the
-- connection back before the analysis. The best-effort enrichment that follows is Enrichment. `others` is
-- what other workers commit while the analysis runs, and `winner` what one of them inserts for the
-- session after `save` has looked for a row. The advisory lock of the session is left out: it ends with
-- the transaction, which is rolled back before the analysis, so that it keeps no other worker from what
-- `others` and `winner` stand for. Reads do not fail.
pub mod Analyzer
pub mod Findings
pub mod Learning
pub mod Generation
pub mod Atomicity
pub mod Enrichment
mod Tests
use apm.Shared.{
  ℕ, suc, Bool, true, false, not, List, [], ◌∷◌, ◌++◌, Option, none, some, String, str_eq, ◌==◌,
  take, map, if◌then◌else◌,
}
use Prim.Native.String.{◌++◌ as ◌+++◌}
use apm.Shared.Table.{find, update_where}
use apm.Database.{
  Db, Action, Result, ok, err, Error, not_found, pure, raise, or_raise, gets, modify, commit,
  rollback, ◌>>=◌, ◌>>◌,
}
use apm.Database.Models.{User, is_none}
use apm.Sessions.Repository.{
  Tables, Message, Transcript, LearnerProfile, is_user, get_owned_session, get_by_session,
  get_by_user_id,
}
use apm.Conversation.Prompt.{Text, join, is_empty, strip_persistent_instructions}
use apm.Conversation.Prepare.{intensity_of}
use apm.VoiceData.Rows.{Debrief, DebriefError}
use apm.Progression.{next_cefr_level}
use apm.Debrief.Analyzer.{DebriefResult}

-- The tables of the conversation with that of the debriefs.
pub record DebriefTables : Type 0 where
  pub core : Tables
  pub debriefs : List Debrief
  pub next_debrief_id : ℕ

-- An action on the tables of the conversation, in the same session.
abbrev pub within : {A : Type 0} → Action Tables A → Action DebriefTables A
within m db =
    let (r, db') =
      m (record { committed = db.committed.core; working = db.working.core; faults = db.faults }) in
    (
      r,
      record {
        committed = record (db.committed) { core = db'.committed };
        working = record (db.working) { core = db'.working };
        faults = db'.faults;
      },
    )

abbrev pub debrief_of : ℕ → Debrief → Bool
debrief_of n d = d.session_id == n

-- `get_by_session`
unfoldable pub find_debrief : ℕ → Action DebriefTables (Option Debrief)
find_debrief n = gets (λ t. find (debrief_of n) t.debriefs)

abbrev pub row_of : ℕ → ℕ → String → String → List DebriefError → Debrief
row_of id n cefr summary errors = record {
  id = id;
  session_id = n;
  cefr_estimate = cefr;
  summary = summary;
  errors = errors;
}

-- `session.add(Debrief(...))`, or the changed fields of the row that there is.
abbrev pub stage_debrief :
    Option Debrief → ℕ → String → String → List DebriefError → Action DebriefTables Debrief
stage_debrief none n cefr summary errors db =
    let row = row_of db.working.next_debrief_id n cefr summary errors in
    (
      ok row,
      record db {
        working = record (db.working) {
          debriefs = db.working.debriefs ++ (row ∷ []);
          next_debrief_id = suc db.working.next_debrief_id;
        };
      },
    )
stage_debrief (some d) n cefr summary errors db =
    let row = row_of d.id n cefr summary errors in
    (
      ok row,
      record db {
        working = record (db.working) {
          debriefs = update_where (debrief_of n) (λ _. row) db.working.debriefs;
        };
      },
    )

-- What another worker commits with the row that it inserts for the session.
pub record Winner : Type 0 where
  pub row : Debrief
  pub core : Tables → Tables

-- The commit of a row that was staged. If another worker has inserted one for the session, the commit of
-- an insertion fails on the unique key: the transaction is rolled back and the winner's row returned. The
-- refresh after a commit is a read.
abbrev pub commit_debrief : Option Debrief → Option Winner → Debrief → Action DebriefTables Debrief
commit_debrief none (some w) row db =
    let others : DebriefTables = record (db.committed) {
      core = w.core db.committed.core;
      debriefs = db.committed.debriefs ++ (w.row ∷ []);
    } in
    (ok w.row, record db { committed = others; working = others })
commit_debrief none none row db = (commit >> pure row) db
commit_debrief (some d) winner row db = (commit >> pure row) db

-- `save`
unfoldable pub save_debrief :
    (winner : Option Winner)
    → ℕ
    → String
    → String
    → List DebriefError
    → Action DebriefTables Debrief
unfolding find_debrief
save_debrief winner n cefr summary errors = do
  existing ← find_debrief n
  row ← stage_debrief existing n cefr summary errors
  commit_debrief existing winner row

abbrev pub others_act : (DebriefTables → DebriefTables) → Action DebriefTables (Unit {0})
others_act f db = (ok tt, record db { working = f db.working; committed = f db.committed })

abbrev pub await_result : {A : Type 0} → Result A → Action DebriefTables A
await_result r db = (r, db)

abbrev error_types_of : List DebriefError → List String
error_types_of [] = []
error_types_of (e ∷ es) =
    if is_empty e.error_type then error_types_of es else e.error_type ∷ error_types_of es

module _ (text : Text) where
  abbrev pub details_of : String → List DebriefError → String
  details_of summary errors =
      let details = strip_persistent_instructions text summary 500 in
      elim (error_types_of errors) [
        | [] ↦ details
        | e ∷ es ↦
            text.strip
              (details +++ (" Recurring focus: " +++ (join ", " (take 3 (e ∷ es)) +++ ".")))
      ]

  -- `_stage_memory`, on the profile that was loaded.
  unfoldable pub with_memory : String → List DebriefError → LearnerProfile → LearnerProfile
  unfolding strip_persistent_instructions
  with_memory summary errors p =
      let details = details_of summary errors in
      if is_empty details
      then p
      else record p { memory_summary = strip_persistent_instructions text details 500 }

  abbrev pub is_profile : ℕ → LearnerProfile → Bool
  is_profile n p = p.user_id == n

  -- The nudged level and the memory, staged on the loaded rows.
  abbrev pub stage_core : ℕ → DebriefResult → Tables → Tables
  stage_core user_id r t = record t {
    users =
        update_where (is_user user_id)
          (λ u. record u { cefr_level = next_cefr_level u.cefr_level r.cefr_estimate }) t.users;
    profiles = update_where (is_profile user_id) (with_memory r.summary r.errors) t.profiles;
  }

  -- `_persist_core`
  unfoldable pub persist_core :
      (winner : Option Winner) → ℕ → ℕ → DebriefResult → Action DebriefTables Debrief
  unfolding next_cefr_level with_memory save_debrief
  persist_core winner session_id user_id r = do
    modify λ t. record t { core = stage_core user_id r t.core }
    save_debrief winner session_id r.cefr_estimate r.summary r.errors

  module _ (analysis : List Message → String → String → Result DebriefResult)
      (others : DebriefTables → DebriefTables) (winner : Option Winner) (session_id : ℕ)
      (user : User) where
    abbrev pub analyse_turns : List Message → Action DebriefTables Debrief
    analyse_turns turns = do
      profile ← within (get_by_user_id user.id)
      rollback
      result ← await_result (analysis turns user.native_language (intensity_of profile))
      others_act others
      persist_core winner session_id user.id result

    abbrev pub empty_debrief : Action DebriefTables Debrief
    empty_debrief =
        save_debrief winner session_id user.cefr_level "Pas encore de conversation à analyser." []

    abbrev pub from_transcript : Option Transcript → Action DebriefTables Debrief
    from_transcript none = empty_debrief
    from_transcript (some t) = elim (t.turns) [
      | [] ↦ empty_debrief
      | m ∷ ms ↦ analyse_turns (m ∷ ms)
    ]

    abbrev pub unless_found : Option Debrief → Action DebriefTables Debrief
    unless_found (some d) = pure d
    unless_found none = within (get_by_session session_id) >>= from_transcript

    -- `_generate_locked`
    unfoldable pub generate_locked : Action DebriefTables Debrief
    unfolding find_debrief persist_core save_debrief get_by_session get_by_user_id
    generate_locked = find_debrief session_id >>= unless_found

    unfoldable pub generate : Action DebriefTables Debrief
    unfolding get_owned_session generate_locked
    generate = within (get_owned_session session_id user.id) >>= λ session. generate_locked

  -- `get`
  unfoldable pub get_debrief : ℕ → User → Action DebriefTables Debrief
  unfolding find_debrief get_owned_session
  get_debrief session_id user = do
    session ← within (get_owned_session session_id user.id)
    found ← find_debrief session_id
    or_raise found (not_found "No debrief for this session")
