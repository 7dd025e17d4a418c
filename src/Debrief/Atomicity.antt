-- ===== src/Debrief/Atomicity.antt =====
-- A debrief that fails leaves nothing of itself behind.
use apm.Shared.{
  ℕ, ◌≡◌, ◌⊎◌, refl, true, false, Bool, Bool-cases, Option-cases, inl, inr, List, [], ◌∷◌, Option,
  none, some, String, ◌==◌, arith,
}
use apm.Shared.Table.{find}
use apm.Database.{Db, Result, ok, err, Error, commit, pure, ◌>>◌, ◌>>=◌}
use apm.Database.Models.{User}
use apm.Sessions.Repository.{
  Message, Transcript, has_id, get_owned_session, get_by_session, get_by_user_id,
}
use apm.Conversation.Prompt.{Text}
use apm.Conversation.Prepare.{intensity_of}
use apm.VoiceData.Rows.{Debrief, DebriefError}
use apm.Debrief.Analyzer.{DebriefResult}
use apm.Debrief.{
  Winner, DebriefTables, debrief_of, find_debrief, commit_debrief, save_debrief, persist_core,
  from_transcript, unless_found, generate_locked, generate, await_result, others_act,
}

-- The commit is the only step that raises, before it publishes.
commit_refused :
    (row : Debrief) (db : Db DebriefTables) (faults : List Bool) (e : Error)
    → db.faults ≡ faults
    → ((commit >> pure row) db).0 ≡ err e
    → ((commit >> pure row) db).1.committed ≡ db.committed
commit_refused row db [] e q k = absurd (let x : ok row ≡ err e = rw q at k in cc)
commit_refused row db (true ∷ fs) e q k = rw q refl
commit_refused row db (false ∷ fs) e q k = absurd (let x : ok row ≡ err e = rw q at k in cc)

commit_debrief_refused :
    (existing : Option Debrief) (winner : Option Winner) (row : Debrief) (db : Db DebriefTables)
    (e : Error)
    → (commit_debrief existing winner row db).0 ≡ err e
    → (commit_debrief existing winner row db).1.committed ≡ db.committed
commit_debrief_refused none (some w) row db e h = absurd (let x : ok w.row ≡ err e = h in cc)
commit_debrief_refused none none row db e h = commit_refused row db db.faults e refl h
commit_debrief_refused (some d) winner row db e h = commit_refused row db db.faults e refl h

save_debrief_refused :
    (winner : Option Winner) (n : ℕ) (cefr summary : String) (errors : List DebriefError)
    (db : Db DebriefTables) (e : Error)
    → (save_debrief winner n cefr summary errors db).0 ≡ err e
    → (save_debrief winner n cefr summary errors db).1.committed ≡ db.committed
unfolding save_debrief find_debrief
save_debrief_refused winner n cefr summary errors db e h =
    by_row (find (debrief_of n) db.working.debriefs) refl h
  where
    by_row :
        (existing : Option Debrief)
        → find (debrief_of n) db.working.debriefs ≡ existing
        → (save_debrief winner n cefr summary errors db).0 ≡ err e
        → (save_debrief winner n cefr summary errors db).1.committed ≡ db.committed
    by_row none q k = rw q (commit_debrief_refused none winner _ _ e (rw q at k))
    by_row (some d) q k = rw q (commit_debrief_refused (some d) winner _ _ e (rw q at k))

module _ (text : Text) (analysis : List Message → String → String → Result DebriefResult)
    (others : DebriefTables → DebriefTables) (winner : Option Winner) (session_id : ℕ)
    (user : User) where
  -- Nothing but what others have committed meanwhile.
  abbrev pub Unchanged : Db DebriefTables → Result Debrief × Db DebriefTables → Type 0
  Unchanged db res = (res.1.committed ≡ db.committed) ⊎ (res.1.committed ≡ others db.committed)

  analysed_refused :
      (result : Result DebriefResult) (db : Db DebriefTables) (e : Error)
      → ((await_result result >>= λ r.
            others_act others >> persist_core text winner session_id user.id r)
          db).0
        ≡ err e
      → Unchanged db (
          (await_result result >>= λ r.
          others_act others >> persist_core text winner session_id user.id r)
            db)
  unfolding persist_core
  analysed_refused (err x) db e h = inl refl
  analysed_refused (ok r) db e h = inr (save_debrief_refused winner session_id _ _ _ _ e h)

  by_turns :
      (t : Transcript) (turns : List Message) (db : Db DebriefTables) (e : Error)
      → t.turns ≡ turns
      → (from_transcript text analysis others winner session_id user (some t) db).0 ≡ err e
      → Unchanged db (from_transcript text analysis others winner session_id user (some t) db)
  unfolding get_by_user_id
  by_turns t [] db e q k =
      rw q (inl (save_debrief_refused winner session_id _ _ _ db e (rw q at k)))
  by_turns t (m ∷ ms) db e q k = rw q (
      analysed_refused
        (analysis (m ∷ ms) user.native_language
          (intensity_of (find (λ p. p.user_id == user.id) db.working.core.profiles)))
        (record db { working = db.committed }) e (rw q at k))

  turns_refused :
      (t : Option Transcript) (db : Db DebriefTables) (e : Error)
      → (from_transcript text analysis others winner session_id user t db).0 ≡ err e
      → Unchanged db (from_transcript text analysis others winner session_id user t db)
  turns_refused none db e h = inl (save_debrief_refused winner session_id _ _ _ db e h)
  turns_refused (some t) db e h = by_turns t t.turns db e refl h

  existing_refused :
      (existing : Option Debrief) (db : Db DebriefTables) (e : Error)
      → (unless_found text analysis others winner session_id user existing db).0 ≡ err e
      → Unchanged db (unless_found text analysis others winner session_id user existing db)
  unfolding get_by_session
  existing_refused (some d) db e h = inl refl
  existing_refused none db e h =
      turns_refused (find (λ r. r.session_id == session_id) db.working.core.transcripts) db e h

  -- A debrief that is refused, or in which the analysis or a statement fails, commits nothing: neither the
  -- debrief nor the level nor the memory, only what others have committed meanwhile.
  pub generate_atomic :
      (db : Db DebriefTables) (e : Error)
      → (generate text analysis others winner session_id user db).0 ≡ err e
      → ((generate text analysis others winner session_id user db).1.committed ≡ db.committed)
        ⊎ ((generate text analysis others winner session_id user db).1.committed
            ≡ others db.committed)
  unfolding generate generate_locked find_debrief get_owned_session
  generate_atomic db e h = elim (Option-cases (find (has_id session_id) db.working.core.sessions)) [
    | inl missing ↦ inl (ground arith)
    | inr (s, found) ↦ elim (Bool-cases (s.user_id == user.id)) [
      | inr foreign ↦ inl (ground arith)
      | inl mine ↦
          let runs : generate text analysis others winner session_id user db
              ≡ unless_found text analysis others winner session_id user
                  (find (debrief_of session_id) db.working.debriefs) db =
            ground arith in
          rw runs (
            existing_refused (find (debrief_of session_id) db.working.debriefs) db e (rw runs at h))
    ]
  ]
