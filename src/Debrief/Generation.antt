-- ===== src/Debrief/Generation.antt =====
-- A debrief is generated once: what is committed, and what a second request does.
use apm.Shared.{
  ℕ, suc, ◌≡◌, refl, ap, ◌∙◌, List, [], ◌∷◌, ◌++◌, Option, none, some, String, ◌==◌, ==_iff, arith,
}
use apm.Shared.Table.{find, find-append, update_where, find-update_where_self}
use apm.Database.{Db, Result, ok}
use apm.Database.Models.{User, ConversationSession}
use apm.Sessions.Repository.{
  Message, Transcript, has_id, get_owned_session, get_by_session, get_by_user_id,
}
use apm.Conversation.Prompt.{Text}
use apm.Conversation.Prepare.{intensity_of}
use apm.VoiceData.Rows.{Debrief}
use apm.Debrief.Analyzer.{DebriefResult}
use apm.Debrief.Learning.{learnt, stage_core-learnt}
use apm.Debrief.{
  Winner, DebriefTables, debrief_of, find_debrief, row_of, save_debrief, persist_core,
  generate_locked, generate,
}

-- The profile that is loaded for an analysis.
abbrev intensity_for : Db DebriefTables → ℕ → String
intensity_for db n = intensity_of (find (λ p. p.user_id == n) db.working.core.profiles)

module _ (text : Text) (analysis : List Message → String → String → Result DebriefResult)
    (others : DebriefTables → DebriefTables) (winner : Option Winner) (session_id : ℕ)
    (user : User) where
  -- A debrief that exists is returned, and nothing is done.
  pub generate_existing :
      (db : Db DebriefTables) (s : ConversationSession) (d : Debrief)
      → find (has_id session_id) db.working.core.sessions ≡ some s
      → s.user_id ≡ user.id
      → find (debrief_of session_id) db.working.debriefs ≡ some d
      → generate text analysis others winner session_id user db ≡ (ok d, db)
  unfolding generate generate_locked find_debrief get_owned_session
  generate_existing db s d found owner exists = ground arith

  generate_runs :
      (db : Db DebriefTables) (s : ConversationSession) (t : Transcript) (m : Message)
      (ms : List Message) (r : DebriefResult)
      → find (has_id session_id) db.working.core.sessions ≡ some s
      → s.user_id ≡ user.id
      → find (debrief_of session_id) db.working.debriefs ≡ none
      → find (λ x. x.session_id == session_id) db.working.core.transcripts ≡ some t
      → t.turns ≡ m ∷ ms
      → analysis (m ∷ ms) user.native_language (intensity_for db user.id) ≡ ok r
      → generate text analysis others winner session_id user db
        ≡ persist_core text winner session_id user.id r (record {
          committed = others db.committed;
          working = others db.committed;
          faults = db.faults;
        })
  unfolding generate generate_locked find_debrief get_owned_session get_by_session get_by_user_id
  generate_runs db s t m ms r found owner fresh spoken turns analysed = ground arith

  -- The tables once the debrief of a session is committed with the level and the memory.
  abbrev pub with_debrief : DebriefResult → DebriefTables → DebriefTables
  with_debrief r t =
      let row = row_of t.next_debrief_id session_id r.cefr_estimate r.summary r.errors in
      record {
        core = learnt text user.id r t.core;
        debriefs = t.debriefs ++ (row ∷ []);
        next_debrief_id = suc t.next_debrief_id;
      }

  persist_core_first :
      (db : Db DebriefTables) (r : DebriefResult)
      → db.faults ≡ []
      → winner ≡ none
      → find (debrief_of session_id) db.working.debriefs ≡ none
      → (persist_core text winner session_id user.id r db).1.committed ≡ with_debrief r db.working
  unfolding persist_core save_debrief find_debrief
  persist_core_first db r sound alone fresh =
      ground (arith, stage_core-learnt text user.id r db.working.core)

  persist_core_second :
      (db : Db DebriefTables) (r : DebriefResult) (d : Debrief)
      → db.faults ≡ []
      → find (debrief_of session_id) db.working.debriefs ≡ some d
      → ((persist_core text winner session_id user.id r db).0
          ≡ ok (row_of d.id session_id r.cefr_estimate r.summary r.errors))
        × ((persist_core text winner session_id user.id r db).1.committed.core
            ≡ learnt text user.id r db.working.core)
        × ((persist_core text winner session_id user.id r db).1.committed.debriefs
            ≡ update_where
                (debrief_of session_id)
                (λ _. row_of d.id session_id r.cefr_estimate r.summary r.errors)
                db.working.debriefs)
  unfolding persist_core save_debrief find_debrief
  persist_core_second db r d sound there =
      (ground arith, ground (arith, stage_core-learnt text user.id r db.working.core), ground arith)

  -- The debrief of a session in which something was said is committed in one transaction with the learner's
  -- new level and memory, on what others have committed meanwhile, if no statement fails, the
  -- analysis returns, and no other worker makes a debrief of the session.
  pub generate_committed :
      (db : Db DebriefTables) (s : ConversationSession) (t : Transcript) (m : Message)
      (ms : List Message) (r : DebriefResult)
      → db.faults ≡ []
      → winner ≡ none
      → find (has_id session_id) db.working.core.sessions ≡ some s
      → s.user_id ≡ user.id
      → find (debrief_of session_id) db.working.debriefs ≡ none
      → find (λ x. x.session_id == session_id) db.working.core.transcripts ≡ some t
      → t.turns ≡ m ∷ ms
      → analysis (m ∷ ms) user.native_language (intensity_for db user.id) ≡ ok r
      → find (debrief_of session_id) (others db.committed).debriefs ≡ none
      → (generate text analysis others winner session_id user db).1.committed
        ≡ with_debrief r (others db.committed)
  generate_committed db s t m ms r sound alone found owner fresh spoken turns analysed still =
      rw (generate_runs db s t m ms r found owner fresh spoken turns analysed) (
        persist_core_first
          (record {
            committed = others db.committed;
            working = others db.committed;
            faults = db.faults;
          })
          r sound alone still)

  -- When another worker commits a debrief of the session while the analysis runs, that debrief is neither
  -- returned nor kept: the later one takes its place in the committed row, and the level that the user has
  -- by then is moved by the later analysis as well. No statement fails and the analysis returns.
  pub generate_double :
      (db : Db DebriefTables) (s : ConversationSession) (t : Transcript) (m : Message)
      (ms : List Message) (r : DebriefResult) (d : Debrief)
      → db.faults ≡ []
      → find (has_id session_id) db.working.core.sessions ≡ some s
      → s.user_id ≡ user.id
      → find (debrief_of session_id) db.working.debriefs ≡ none
      → find (λ x. x.session_id == session_id) db.working.core.transcripts ≡ some t
      → t.turns ≡ m ∷ ms
      → analysis (m ∷ ms) user.native_language (intensity_for db user.id) ≡ ok r
      → find (debrief_of session_id) (others db.committed).debriefs ≡ some d
      → let res = generate text analysis others winner session_id user db in
        (res.0 ≡ ok (row_of d.id session_id r.cefr_estimate r.summary r.errors))
        × (res.1.committed.core ≡ learnt text user.id r (others db.committed).core)
        × (find (debrief_of session_id) res.1.committed.debriefs
            ≡ some (row_of d.id session_id r.cefr_estimate r.summary r.errors))
  generate_double db s t m ms r d sound found owner fresh spoken turns analysed taken =
      let row = row_of d.id session_id r.cefr_estimate r.summary r.errors in
      let second =
        persist_core_second
          (record {
            committed = others db.committed;
            working = others db.committed;
            faults = db.faults;
          })
          r d sound taken in
      rw (generate_runs db s t m ms r found owner fresh spoken turns analysed) (
        second.0,
        second.1,
        ap (λ rows. find (debrief_of session_id) rows) second.2
            ∙ find-update_where_self (debrief_of session_id) row (others db.committed).debriefs
                taken (ground (arith, ==_iff session_id session_id)),
      )

-- Once the debrief of a session in which something was said has been committed, no statement having failed
-- and no other worker having made one, a later request for it by a user who owns the session returns
-- that debrief, whatever its analysis would be, and changes nothing, also if others have changed
-- anything since but the debrief of this session.
pub generate_once :
    (text : Text) (analysis again : List Message → String → String → Result DebriefResult)
    (others meanwhile : DebriefTables → DebriefTables) (winner : Option Winner) (session_id : ℕ)
    (user : User) (db later : Db DebriefTables) (s s' : ConversationSession) (t : Transcript)
    (m : Message) (ms : List Message) (r : DebriefResult)
    → db.faults ≡ []
    → find (has_id session_id) db.working.core.sessions ≡ some s
    → s.user_id ≡ user.id
    → find (debrief_of session_id) db.working.debriefs ≡ none
    → find (λ x. x.session_id == session_id) db.working.core.transcripts ≡ some t
    → t.turns ≡ m ∷ ms
    → analysis (m ∷ ms) user.native_language (intensity_for db user.id) ≡ ok r
    → find (debrief_of session_id) (others db.committed).debriefs ≡ none
    → find (debrief_of session_id) later.working.debriefs
      ≡ find
          (debrief_of session_id)
          (generate text analysis others none session_id user db).1.committed.debriefs
    → find (has_id session_id) later.working.core.sessions ≡ some s'
    → s'.user_id ≡ user.id
    → generate text again meanwhile winner session_id user later ≡ (
      ok (
          row_of
            (others db.committed).next_debrief_id
            session_id
            r.cefr_estimate
            r.summary
            r.errors),
      later,
    )
generate_once text analysis again others meanwhile winner session_id user db later s s' t m ms r
      sound found owner fresh spoken turns analysed still after found' owner' =
    let row =
      row_of (others db.committed).next_debrief_id session_id r.cefr_estimate r.summary r.errors in
    let committed =
      generate_committed text analysis others none session_id user db s t m ms r sound refl found
        owner fresh spoken turns analysed still in
    let stored : find (debrief_of session_id) later.working.debriefs ≡ some row =
      after
      ∙ ap (λ x. find (debrief_of session_id) x.debriefs) committed
      ∙ ground (
        arith,
        find-append (debrief_of session_id) (others db.committed).debriefs (row ∷ []),
        ==_iff session_id session_id,
      ) in
    generate_existing text again meanwhile winner session_id user later s' row found' owner' stored
