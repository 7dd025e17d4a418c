-- ===== src/Conversation/Stored.antt =====
-- What a streamed turn has committed, with the meter of the program: the exchange of `_persist` of
-- backend/app/features/conversation/turn_service.py in the transcript of the session.
use apm.Shared.{
  ℕ, ◌≡◌, ◌≢◌, refl, ap, ◌∙◌, List, [], Option, none, some, String, inl, inr, true, Bool-cases,
}
use apm.Shared.Table.{find}
use apm.Database.{Db, Result, ok, err, Error}
use apm.Database.Models.{ConversationSession}
use apm.Sessions.Repository.{Tables, Message, has_id}
use apm.Sessions.Service.{Config}
use apm.Conversation.{is_of}
use apm.Conversation.Prompt.{join}
use apm.Conversation.Prepare.{TurnConfig, PreparedTurn, persist}
use apm.Conversation.Stream.{Ending, raised, Stage, Providers, Callback, stream_prepared}
use apm.Conversation.Delivery.{texts_of}
use apm.Conversation.Settlement.{told, keys_after}
use apm.Conversation.Promises.{released, begun, Partial, stream_prepared-Partial}
use apm.Conversation.Persistence.{turns_of, kept, program_meter, persist_turn_stored}

-- The session of a turn is the user's and in progress, the writes are metered as in the program, on
-- sessions of their own, and no statement fails.
pub record IsLive (mc : Config) (cfg : TurnConfig) (p : PreparedTurn) (db : Db Tables)
    (s : ConversationSession) : Type 0 where
  pub fresh : cfg.fresh ≡ true
  pub metered : cfg.meter ≡ some (program_meter mc)
  pub sound : db.faults ≡ []
  pub found : find (has_id p.session_id) db.committed.sessions ≡ some s
  pub again : find (has_id s.id) db.committed.sessions ≡ some s
  pub owned : s.user_id ≡ p.user.id
  pub in_progress : s.ended_at ≡ none

module _ (mc : Config) (cfg : TurnConfig) (p : PreparedTurn) (now : ℕ) (db : Db Tables)
    (s : ConversationSession) (live : IsLive mc cfg p db s) where
  -- The turns so far with the exchange, as far as the transcript holds them.
  abbrev pub exchange : String → List Message
  exchange reply =
      kept cfg.transcript_max_messages p.session_id p.user.id p.turns p.text reply none now

  -- The committed transcript of the session.
  abbrev pub transcript_in : Tables → Option (List Message)
  transcript_in t = turns_of (find (is_of p.session_id) t.transcripts)

  pub released-committed :
      ((released cfg db).committed ≡ db.committed) × ((released cfg db).faults ≡ db.faults)
  released-committed = elim (Bool-cases cfg.releases) [
    | inl t ↦ rw t (refl, refl)
    | inr f ↦ rw f (refl, refl)
  ]

  stored_afresh :
      (reply : String) (d : Db Tables)
      → d.committed ≡ db.committed
      → d.faults ≡ db.faults
      → let res = persist cfg p reply none now d in
        (res.0 ≡ ok (exchange reply)) × (transcript_in res.1.committed ≡ some (exchange reply))
  stored_afresh reply d c f =
      let began : Db Tables = record d { working = d.committed } in
      let stored =
        persist_turn_stored cfg.transcript_max_messages p.session_id p.user.id p.turns p.text reply
          none now mc began s refl (f ∙ live.sound)
          (ap (λ t. find (has_id p.session_id) t.sessions) c ∙ live.found)
          (ap (λ t. find (has_id s.id) t.sessions) c ∙ live.again) live.owned live.in_progress in
      rw (live.fresh, live.metered) stored

  pub persist_stored :
      (reply : String)
      → let res = persist cfg p reply none now (released cfg db) in
        (res.0 ≡ ok (exchange reply)) × (transcript_in res.1.committed ≡ some (exchange reply))
  persist_stored reply =
      stored_afresh reply (released cfg db) released-committed.0 released-committed.1

  module _ {K : Type 0} (io : Providers) (on_persisted : Option (Callback K)) (keys : K)
      (ss : List String) where
    -- What is left when the provider raises.
    abbrev pub Rescued : Ending (Unit {0}) × Stage K → Type 0
    Rescued res =
        ((e : Error) × (res.0 ≡ raised e))
        × (texts_of res.1.events ≡ ss)
        × (transcript_in res.1.db.committed ≡ some (exchange (join " " ss)))
        × (res.1.keys ≡ told on_persisted (join " " ss) keys)

    persist-Rescued :
        (res : Ending (Unit {0}) × Stage K) (w : Result (List Message) × Db Tables)
        → persist cfg p (join " " ss) none now (released cfg db) ≡ w
        → w.0 ≡ ok (exchange (join " " ss))
        → transcript_in w.1.committed ≡ some (exchange (join " " ss))
        → Partial io p cfg now on_persisted db keys ss res
        → Rescued res
    persist-Rescued res w e k t (r, x, d, q) = (
      r,
      x,
      ap (λ y. transcript_in y.committed) (d ∙ ap (λ y. y.1) e) ∙ t,
      q ∙ ap (λ y. keys_after on_persisted y (join " " ss) keys) (ap (λ y. y.0) e ∙ k),
    )

    -- When the provider's stream raises after it has yielded some sentences and the reader stays, the stream
    -- raises too, and these sentences are not lost: they were sent, they are committed as the reply of
    -- the exchange in the transcript, and the callback was told. The session is the user's and still in
    -- progress, the program's meter is wired, and no statement fails.
    pub stream_prepared-Rescued :
        (e : Error)
        → ss ≢ []
        → io.llm_stream p.system_prompt p.history ≡ (ss, err e)
        → Rescued (stream_prepared io p cfg now on_persisted (begun db keys []))
    stream_prepared-Rescued e some_read says =
        let stored = persist_stored (join " " ss) in
        persist-Rescued (stream_prepared io p cfg now on_persisted (begun db keys []))
          (persist cfg p (join " " ss) none now (released cfg db)) refl stored.0 stored.1
          (stream_prepared-Partial io p cfg now on_persisted db keys ss e some_read says)
