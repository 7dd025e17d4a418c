-- ===== src/Conversation/Continuity.antt =====
-- From one turn to the next: what `take_turn` stores is what the next turn is prepared from.
use apm.Shared.{
  ℕ, ◌≡◌, refl, sym, ap, ◌∙◌, true, none, [], Bool-cases, inl, inr, List, Option, some, String,
  ==_iff, arith,
}
use mathlib.Core.Path.{subst}
use apm.Shared.Table.{find, find-holds}
use apm.Clock.{DateTime}
use apm.Database.{Db, Result, ok, IsClean}
use apm.Database.Models.{User}
use apm.Sessions.Repository.{Tables, Message, Transcript, has_id}
use apm.Sessions.Service.{Config}
use apm.Conversation.{persist_turn, is_of, bounded_turns, extended}
use apm.Conversation.Prompt.{Text}
use apm.Conversation.Prepare.{TurnConfig, PreparedTurn, turns_or_empty, prepare_turn, take_turn}
use apm.Conversation.Persistence.{turns_of, program_meter, persist_turn_stored}
use apm.Conversation.Preparing.{
  prepare_turn-history, prepare_turn-live, prepared_as, prepare_turn_as,
}

turns_or_empty_of :
    {turns : List Message} (t : Option Transcript)
    → turns_of t ≡ some turns
    → turns_or_empty t ≡ turns
turns_or_empty_of none e = absurd (cc)
turns_or_empty_of (some t) e = cc

module _ (text_of : Text) (nonce : String) (cfg : TurnConfig)
    (llm : String → List Message → Result String) (session_id : ℕ) (user : User)
    (text reply : String) (practiced_at : Option DateTime) (now : ℕ) where
  -- What is stored of a turn that was prepared so.
  abbrev pub exchanged : PreparedTurn → List Message
  exchanged p = bounded_turns cfg.transcript_max_messages (extended p.turns text reply)

  abbrev on_fresh : Db Tables → PreparedTurn → Result (List Message) × Db Tables
  on_fresh db p =
      persist_turn cfg.meter cfg.transcript_max_messages p.session_id p.user.id p.turns p.text reply
        practiced_at now (record db { working = db.committed })

  take_turn_persisted :
      (db : Db Tables) (p : PreparedTurn) (turns : List Message)
      → cfg.fresh ≡ true
      → prepare_turn text_of nonce cfg session_id user text db ≡ (ok p, db)
      → llm p.system_prompt p.history ≡ ok reply
      → (on_fresh db p).0 ≡ ok turns
      → take_turn text_of nonce cfg llm session_id user text practiced_at now db
        ≡ (ok (reply, turns), record (on_fresh db p).1 { working = (on_fresh db p).1.committed })
  unfolding take_turn
  take_turn_persisted db p turns fresh prepared answers stored = elim (Bool-cases cfg.releases) [
    | inl t ↦ ground arith
    | inr f ↦ ground arith
  ]

  take_turn_stored :
      (meter_cfg : Config) (db : Db Tables) (p : PreparedTurn)
      → cfg.fresh ≡ true
      → cfg.meter ≡ some (program_meter meter_cfg)
      → IsClean db
      → db.faults ≡ []
      → (prepare_turn text_of nonce cfg session_id user text db).0 ≡ ok p
      → ((on_fresh db p).0 ≡ ok (exchanged p))
        × (turns_of (find (is_of session_id) (on_fresh db p).1.committed.transcripts)
            ≡ some (exchanged p))
  take_turn_stored meter_cfg db p fresh metered clean sound prepared =
      let (s, found, owner, live) =
        prepare_turn-live text_of nonce cfg session_id user text db p prepared in
      let (pi, _, eq) = prepare_turn_as text_of nonce cfg session_id user text db p prepared in
      let in_db : find (has_id session_id) db.committed.sessions ≡ some s =
        subst (λ t. find (has_id session_id) t.sessions ≡ some s) clean found in
      let is_s : s.id ≡ session_id =
        (==_iff s.id session_id).0 (find-holds (has_id session_id) db.committed.sessions in_db) in
      let again : find (has_id s.id) db.committed.sessions ≡ some s =
        subst (λ n. find (has_id n) db.committed.sessions ≡ some s) (sym is_s) in_db in
      subst
        (λ q.
          ((on_fresh db q).0 ≡ ok (exchanged q))
          × (turns_of (find (is_of session_id) (on_fresh db q).1.committed.transcripts)
              ≡ some (exchanged q)))
        eq
        (rw metered (
          persist_turn_stored cfg.transcript_max_messages session_id user.id
            (prepared_as text_of nonce cfg session_id user text db pi).turns text reply practiced_at
            now meter_cfg (record db { working = db.committed }) s refl sound in_db again owner
            live))

  -- A turn that could be prepared, that the provider answers and of which no statement fails, on a
  -- database without pending changes and with the program's own meter and a session of its own for the
  -- write, returns the answer with the stored turns; and whatever turn of the session is prepared
  -- next starts from just these turns: those before with the exchange, the oldest dropped beyond the
  -- bound.
  pub take_turn-remembered :
      (meter_cfg : Config) (db : Db Tables) (p next : PreparedTurn) (later : String)
      → cfg.fresh ≡ true
      → cfg.meter ≡ some (program_meter meter_cfg)
      → IsClean db
      → db.faults ≡ []
      → (prepare_turn text_of nonce cfg session_id user text db).0 ≡ ok p
      → llm p.system_prompt p.history ≡ ok reply
      → (prepare_turn text_of nonce cfg session_id user later
          (take_turn text_of nonce cfg llm session_id user text practiced_at now db).1).0
        ≡ ok next
      → ((take_turn text_of nonce cfg llm session_id user text practiced_at now db).0
          ≡ ok (reply, exchanged p))
        × (next.turns ≡ exchanged p)
  take_turn-remembered meter_cfg db p next later fresh metered clean sound prepared answers again =
      let (returns, keeps) = take_turn_stored meter_cfg db p fresh metered clean sound prepared in
      let (_, reads, _) = prepare_turn_as text_of nonce cfg session_id user text db p prepared in
      let runs = take_turn_persisted db p (exchanged p) fresh reads answers returns in
      let after = (take_turn text_of nonce cfg llm session_id user text practiced_at now db).1 in
      let (_, _, turns, _, _) =
        prepare_turn-history text_of nonce cfg session_id user later after next again in
      let stored : turns_of (find (is_of session_id) after.working.transcripts)
          ≡ some (exchanged p) =
        rw runs keeps in
      (ap (λ r. r.0) runs, turns ∙ turns_or_empty_of _ stored)
