-- ===== src/Conversation/Preparing.antt =====
-- What a turn is prepared from, and the turn that does not stream.
use apm.Shared.{
  ℕ, ltb, ◌+◌, ◌-◌, ◌≡◌, ◌≤◌, ◌<◌, refl, sym, ap, ◌∙◌, Bool, true, false, Bool-cases, Option-cases,
  inl, inr, List, [], ◌∷◌, ◌++◌, Option, none, some, String, ◌==◌, arith, length, length-append,
  length-drop, take, take-append-drop,
}
use mathlib.Core.Path.{subst}
use apm.Shared.Table.{find}
use apm.Database.{Db, ok}
use apm.Database.Models.{User, ConversationSession}
use apm.Sessions.Repository.{Tables, Message, has_id, get_owned, get_owned_session, get_by_session}
use apm.Conversation.{message, is_of}
use apm.Conversation.Prompt.{Text, build_system_prompt}
use apm.Conversation.Prepare.{
  TurnConfig, PreparedTurn, window, turns_or_empty, intensity_of, context_of, find_prompt, or_built,
  prompt_and_intensity_for, prepare_turn,
}

-- The window is the end of the transcript, and with a positive bound no longer than that.
window-append :
    (n : ℕ) (turns : List Message) → (older : List Message) × (older ++ window n turns ≡ turns)
unfolding window
window-append n turns = elim (Bool-cases (ltb 0 n)) [
  | inl t ↦ rw t (take (length turns - n) turns, take-append-drop (length turns - n) turns)
  | inr f ↦ rw f ([], refl)
]

length-window : (n : ℕ) (turns : List Message) → 0 < n → length (window n turns) ≤ n
unfolding window
length-window n turns h = ground (arith, length-drop (length turns - n) turns)

find_prompt_reads :
    (has_missions : Bool) (mission_id : Option ℕ) (user_id : ℕ) (db : Db Tables)
    → (stored : Option String) × (find_prompt has_missions mission_id user_id db ≡ (ok stored, db))
unfolding get_owned
find_prompt_reads true (some m) user_id db = (_, refl)
find_prompt_reads true none user_id db = (none, refl)
find_prompt_reads false m user_id db = (none, refl)

module _ (text_of : Text) (nonce : String) (cfg : TurnConfig) where
  -- The prompt is read without a change of the database.
  prompt_and_intensity_for_reads :
      (session : ConversationSession) (user : User) (db : Db Tables)
      → (pi : String × String) × (prompt_and_intensity_for text_of nonce cfg session user db
          ≡ (ok pi, db))
  unfolding prompt_and_intensity_for
  prompt_and_intensity_for_reads session user db =
      let (stored, e) = find_prompt_reads cfg.has_missions session.mission_id user.id db in
      let profile = find (λ p. p.user_id == user.id) db.working.profiles in
      (
        (
          or_built stored (build_system_prompt text_of nonce (context_of user session profile)),
          intensity_of profile,
        ),
        ground (arith, e),
      )

  abbrev pub prepared_as : ℕ → User → String → Db Tables → String × String → PreparedTurn
  prepared_as session_id user text db pi =
      let turns = turns_or_empty (find (is_of session_id) db.working.transcripts) in
      record {
        session_id = session_id;
        user = user;
        text = text;
        turns = turns;
        system_prompt = pi.0;
        history = window cfg.history_max_messages turns ++ (message "user" text ∷ []);
        intensity = pi.1;
      }

  prepare_turn_reads :
      (session_id : ℕ) (user : User) (text : String) (db : Db Tables) (s : ConversationSession)
      → find (has_id session_id) db.working.sessions ≡ some s
      → s.user_id ≡ user.id
      → s.ended_at ≡ none
      → (pi : String × String) × (prepare_turn text_of nonce cfg session_id user text db
          ≡ (ok (prepared_as session_id user text db pi), db))
  unfolding prepare_turn get_owned_session get_by_session
  prepare_turn_reads session_id user text db s found owner live =
      let (pi, e) = prompt_and_intensity_for_reads s user db in (pi, ground (arith, e))

  pub prepare_turn-live :
      (session_id : ℕ) (user : User) (text : String) (db : Db Tables) (p : PreparedTurn)
      → (prepare_turn text_of nonce cfg session_id user text db).0 ≡ ok p
      → (s : ConversationSession) × (find (has_id session_id) db.working.sessions ≡ some s)
        × (s.user_id ≡ user.id)
        × (s.ended_at ≡ none)
  unfolding prepare_turn get_owned_session get_by_session
  prepare_turn-live session_id user text db p e =
      elim (Option-cases (find (has_id session_id) db.working.sessions)) [
        | inl missing ↦ absurd (ground arith)
        | inr (s, found) ↦ elim (Bool-cases (s.user_id == user.id)) [
          | inr foreign ↦ absurd (ground arith)
          | inl mine ↦ elim (Option-cases s.ended_at) [
            | inl live ↦ (s, found, ground arith, live)
            | inr (at, over) ↦ absurd (ground arith)
          ]
        ]
      ]

  -- What is prepared, as a record.
  pub prepare_turn_as :
      (session_id : ℕ) (user : User) (text : String) (db : Db Tables) (p : PreparedTurn)
      → (prepare_turn text_of nonce cfg session_id user text db).0 ≡ ok p
      → (pi : String × String) × (prepare_turn text_of nonce cfg session_id user text db
          ≡ (ok p, db))
        × (prepared_as session_id user text db pi ≡ p)
  prepare_turn_as session_id user text db p e =
      let (s, found, owner, live) = prepare_turn-live session_id user text db p e in
      let (pi, reads) = prepare_turn_reads session_id user text db s found owner live in
      let is_p : ok (prepared_as session_id user text db pi) ≡ ok p =
        sym (ap (λ r. r.0) reads) ∙ e in
      let eq : prepared_as session_id user text db pi ≡ p = cc in
      (pi, reads ∙ ap (λ q. (ok q, db)) eq, eq)

  -- A turn that is prepared leaves the database as it is; it is for a session of the user's own that has
  -- not ended. The turns are those that are stored for the session; the history ends with the
  -- learner's text, after the end of these turns, and with a positive bound on the messages it has at
  -- most that many and the text.
  pub prepare_turn-history :
      (session_id : ℕ) (user : User) (text : String) (db : Db Tables) (p : PreparedTurn)
      → (prepare_turn text_of nonce cfg session_id user text db).0 ≡ ok p
      → ((prepare_turn text_of nonce cfg session_id user text db).1 ≡ db)
        × ((s : ConversationSession) × (find (has_id session_id) db.working.sessions ≡ some s)
            × (s.user_id ≡ user.id)
            × (s.ended_at ≡ none))
        × (p.turns ≡ turns_or_empty (find (is_of session_id) db.working.transcripts))
        × ((older recent : List Message) × (older ++ recent ≡ p.turns)
            × (p.history ≡ recent ++ (message "user" text ∷ [])))
        × (0 < cfg.history_max_messages → length p.history ≤ cfg.history_max_messages + 1)
  prepare_turn-history session_id user text db p e =
      let (s, found, owner, live) = prepare_turn-live session_id user text db p e in
      let (pi, reads, eq) = prepare_turn_as session_id user text db p e in
      let turns = turns_or_empty (find (is_of session_id) db.working.transcripts) in
      let (older, whole) = window-append cfg.history_max_messages turns in
      subst
        (λ q.
          ((prepare_turn text_of nonce cfg session_id user text db).1 ≡ db)
          × ((s : ConversationSession) × (find (has_id session_id) db.working.sessions ≡ some s)
              × (s.user_id ≡ user.id)
              × (s.ended_at ≡ none))
          × (q.turns ≡ turns)
          × ((older recent : List Message) × (older ++ recent ≡ q.turns)
              × (q.history ≡ recent ++ (message "user" text ∷ [])))
          × (0 < cfg.history_max_messages → length q.history ≤ cfg.history_max_messages + 1))
        eq
        (
          ap (λ r. r.1) reads,
          (s, found, owner, live),
          refl,
          (older, window cfg.history_max_messages turns, whole, refl),
          (λ h.
              let few = length-window cfg.history_max_messages turns h in
              let all =
                length-append (window cfg.history_max_messages turns) (message "user" text ∷ []) in
              omega (arith, few, all)),
        )
