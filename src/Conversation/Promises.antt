-- ===== src/Conversation/Promises.antt =====
-- The promises of a streaming turn to its reader and to the next request.
use apm.Shared.{
  ℕ, ◌≡◌, refl, sym, ap, ◌∙◌, ◌≢◌, Bool-cases, inl, inr, List, [], Option, none, some, String, Bool,
}
use apm.Database.{Db, Result, ok, err, Error}
use apm.Sessions.Repository.{Tables}
use apm.Conversation.Prompt.{join}
use apm.Conversation.Prepare.{TurnConfig, PreparedTurn, persist, release_connection_for_io}
use apm.Conversation.Stream.{
  Ending, returned, raised, gone, Stage, Providers, Callback, rest_of_stream, stream_prepared,
}
use apm.Conversation.Delivery.{texts_of, clips_of, Ends, clips}
use apm.Conversation.Settlement.{Settled, keys_after, Refuses}
use apm.Conversation.Outcome.{Delivered, Interrupted, Abandoned, rest_of_stream-Ends}

-- The generator before its first step.
abbrev pub begun : {K : Type 0} → Db Tables → K → List Bool → Stage K
begun db keys leaves = record {
  db = db;
  keys = keys;
  events = [];
  leaves = leaves;
  parts = [];
  pending_audio = none;
  correction_task = none;
}

-- The database once the connection has been handed back.
abbrev pub released : TurnConfig → Db Tables → Db Tables
released cfg db = (release_connection_for_io cfg db).1

no_refusal :
    {K : Type 0} (on_persisted : Option (Callback K)) (reply : String) (keys : K) (e : Error)
    → ((said : String) (k : K) (f : Callback K) → on_persisted ≡ some f → (f said k).0 ≡ ok tt)
    → Refuses on_persisted reply keys e
    → ok tt ≡ err e
no_refusal none reply keys e kind h = h
no_refusal (some f) reply keys e kind h = sym (kind reply keys f refl) ∙ h

module _ {K : Type 0} (io : Providers) (p : PreparedTurn) (cfg : TurnConfig) (now : ℕ)
    (on_persisted : Option (Callback K)) (db : Db Tables) (keys : K) where
  stream_prepared-rest :
      (leaves : List Bool)
      → stream_prepared io p cfg now on_persisted (begun db keys leaves)
        ≡ rest_of_stream io p cfg now on_persisted (begun (released cfg db) keys leaves)
  unfolding stream_prepared
  stream_prepared-rest leaves = elim (Bool-cases cfg.releases) [
    | inl t ↦ rw t refl
    | inr t ↦ rw t refl
  ]

  module _ (leaves : List Bool) (ss : List String) (end : Result (Unit {0})) where
    abbrev Ended : Ending (Unit {0}) × Stage K → Type 0
    Ended =
        Ends (λ _. Delivered io p cfg now on_persisted (released cfg db) keys leaves ss end)
          (Interrupted io p cfg now on_persisted (released cfg db) keys leaves ss end)
          (Abandoned io p cfg now on_persisted (released cfg db) keys leaves ss end)

    stream_prepared-Ends :
        io.llm_stream p.system_prompt p.history ≡ (ss, end)
        → Ended (stream_prepared io p cfg now on_persisted (begun db keys leaves))
    stream_prepared-Ends says = rw (stream_prepared-rest leaves) (
        rest_of_stream-Ends io p cfg now on_persisted (released cfg db) keys leaves ss end
          (begun (released cfg db) keys leaves) ((refl, refl, refl, refl), refl, (λ b. b), refl)
          says)

    Ended-Settled :
        (res : Ending (Unit {0}) × Stage K)
        → Ended res
        → Settled io p cfg now on_persisted (released cfg db) keys leaves res.1
    Ended-Settled (returned u, st) h = h.0
    Ended-Settled (raised e, st) h = h.0
    Ended-Settled (gone, st) h = h.0

  -- However a streaming turn ends (its stream is read, the provider, a write or the callback raises, or
  -- the reader leaves at some event), the sentences sent are the parts of the reply, the clips sent are
  -- those of a first part of these sentences in their order, there is at most one correction and it is
  -- the last event; and either the database and the keys are as they were, or the exchange with just
  -- the sentences sent was written and the callback was told of it exactly if the write succeeded.
  pub stream_prepared-Settled :
      (leaves : List Bool)
      → Settled io p cfg now on_persisted
          (released cfg db)
          keys
          leaves
          (stream_prepared io p cfg now on_persisted (begun db keys leaves)).1
  stream_prepared-Settled leaves =
      let says = io.llm_stream p.system_prompt p.history in
      Ended-Settled leaves says.0 says.1
        (stream_prepared io p cfg now on_persisted (begun db keys leaves))
        (stream_prepared-Ends leaves says.0 says.1 refl)

  module _ (ss : List String) where
    abbrev pub Whole : Ending (Unit {0}) × Stage K → Type 0
    Whole res =
        let reply = join " " ss in
        let written = persist cfg p reply none now (released cfg db) in
        (res.0 ≡ returned tt)
        × (texts_of res.1.events ≡ ss)
        × (clips_of res.1.events ≡ clips io ss)
        × (res.1.db ≡ written.1)
        × (res.1.keys ≡ keys_after on_persisted written.0 reply keys)

    said_in_full :
        (res : Ending (Unit {0}) × Stage K)
        → ((reply : String) (k : K) (f : Callback K)
            → on_persisted ≡ some f
            → (f reply k).0 ≡ ok tt)
        → Ended [] ss (ok tt) res
        → Whole res
    said_in_full (returned u, st) kind (h, _, parts, cs, (d, k)) =
        let f : List String → _ = λ x. persist cfg p (join " " x) none now (released cfg db) in
        (
          refl,
          h.0 ∙ parts,
          cs,
          d ∙ ap (λ x. (f x).1) parts,
          k ∙ ap (λ x. keys_after on_persisted (f x).0 (join " " x) keys) parts,
        )
    said_in_full (raised e, st) kind (_, _, _, refused) =
        absurd (let x : ok tt ≡ err e = no_refusal on_persisted _ keys e kind (refused refl) in cc)
    said_in_full (gone, st) kind (_, left) = absurd (left refl)

    -- When the provider's stream ends normally, the reader stays and the callback does not raise, the
    -- stream returns, whether or not the write succeeds: every sentence was sent, with the clip of each in
    -- their order, the whole reply was written, and the callback was told if the write succeeded.
    pub stream_prepared-Whole :
        ((reply : String) (k : K) (f : Callback K) → on_persisted ≡ some f → (f reply k).0 ≡ ok tt)
        → io.llm_stream p.system_prompt p.history ≡ (ss, ok tt)
        → Whole (stream_prepared io p cfg now on_persisted (begun db keys []))
    stream_prepared-Whole kind says =
        said_in_full (stream_prepared io p cfg now on_persisted (begun db keys [])) kind
          (stream_prepared-Ends [] ss (ok tt) says)

    abbrev pub Partial : Ending (Unit {0}) × Stage K → Type 0
    Partial res =
        let reply = join " " ss in
        let written = persist cfg p reply none now (released cfg db) in
        ((e : Error) × (res.0 ≡ raised e))
        × (texts_of res.1.events ≡ ss)
        × (res.1.db ≡ written.1)
        × (res.1.keys ≡ keys_after on_persisted written.0 reply keys)

    said_in_part :
        (e : Error) (res : Ending (Unit {0}) × Stage K)
        → ss ≢ []
        → Ended [] ss (err e) res
        → Partial res
    said_in_part e (returned u, st) some_read (h, f, _, _, _) =
        absurd (let x : err e ≡ ok tt = f in cc)
    said_in_part e (raised e', st) some_read (h, parts, kept, _) =
        let f : List String → _ = λ x. persist cfg p (join " " x) none now (released cfg db) in
        let (d, k) = kept some_read in
        (
          (e', refl),
          h.0 ∙ parts,
          d ∙ ap (λ x. (f x).1) parts,
          k ∙ ap (λ x. keys_after on_persisted (f x).0 (join " " x) keys) parts,
        )
    said_in_part e (gone, st) some_read (_, left) = absurd (left refl)

    -- When the provider's stream raises after it has yielded some sentences and the reader stays, the
    -- stream raises too, the write of the sentences that were sent as the reply was run, and the callback
    -- was told if it returned.
    pub stream_prepared-Partial :
        (e : Error)
        → ss ≢ []
        → io.llm_stream p.system_prompt p.history ≡ (ss, err e)
        → Partial (stream_prepared io p cfg now on_persisted (begun db keys []))
    stream_prepared-Partial e some_read says =
        said_in_part e (stream_prepared io p cfg now on_persisted (begun db keys [])) some_read
          (stream_prepared-Ends [] ss (err e) says)
