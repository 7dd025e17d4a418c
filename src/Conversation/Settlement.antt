-- ===== src/Conversation/Settlement.antt =====
-- What a streaming turn leaves behind, however it ends: the terminal write and the callback of
-- `stream_prepared`.
use apm.Shared.{
  ℕ, ◌≡◌, ◌⊎◌, inl, inr, refl, sym, ap, ◌∙◌, List, [], ◌∷◌, ◌++◌, Option, none, some, String, Bool,
}
use mathlib.Core.Path.{subst}
use apm.Database.{Db, Result, ok, err, Error, runtime_error}
use apm.Sessions.Repository.{Tables, Message}
use apm.Conversation.Correction.{TurnCorrection}
use apm.Conversation.Prompt.{join}
use apm.Conversation.Prepare.{TurnConfig, PreparedTurn, persist}
use apm.Conversation.Stream.{
  TurnStreamEvent, correction_ready, Stage, Providers, Callback, notify, after_store, ended_as,
  fail, ◌>>◌,
}
use apm.Conversation.Delivery.{texts_of, clips_of, corrections_of, Ends, map-Ends, bind-Ends, clips}
use apm.Conversation.Reading.{Reading, Paced}

abbrev pub told : {K : Type 0} → Option (Callback K) → String → K → K
told none reply keys = keys
told (some on_persisted) reply keys = (on_persisted reply keys).1

-- The callback is told of a reply that was stored, and of no other.
abbrev pub keys_after : {K : Type 0} → Option (Callback K) → Result (List Message) → String → K → K
keys_after on_persisted (ok turns) reply keys = told on_persisted reply keys
keys_after on_persisted (err e) reply keys = keys

-- The callback raises this error on this reply.
abbrev pub Refuses : {K : Type 0} → Option (Callback K) → String → K → Error → Type 0
Refuses none reply keys e = ok tt ≡ err e
Refuses (some on_persisted) reply keys e = (on_persisted reply keys).0 ≡ err e

-- No correction, or one that is the last event.
abbrev pub AtMostLast : List TurnStreamEvent → Type 0
AtMostLast events =
    (corrections_of events ≡ [])
    ⊎ ((front : List TurnStreamEvent) × (c : TurnCorrection) × (events
          ≡ front ++ (correction_ready c ∷ []))
        × (corrections_of front ≡ []))

-- What a stage is once a reply has been stored with this result, and the callback told.
abbrev pub kept_in :
    {K : Type 0}
    → Option (Callback K)
    → String
    → Result (List Message) × Db Tables
    → Stage K
    → Stage K
kept_in on_persisted reply res st = record st {
  db = res.1;
  keys = keys_after on_persisted res.0 reply st.keys;
}

module _ {K : Type 0} (io : Providers) (p : PreparedTurn) (cfg : TurnConfig) (now : ℕ)
    (on_persisted : Option (Callback K)) where
  told-Ends :
      (told_by : Option (Callback K)) (reply : String) (turns : List Message) (d : Db Tables)
      (st : Stage K)
      → Ends
          (λ _ s. s ≡ kept_in told_by reply (ok turns, d) st)
          (λ e s. (s ≡ kept_in told_by reply (ok turns, d) st) × Refuses told_by reply st.keys e)
          (λ _. ok tt ≡ err runtime_error)
          (notify told_by reply (record st { db = d }))
  told-Ends none reply turns d st = refl
  told-Ends (some f) reply turns d st = told_by (f reply st.keys) refl
    where
      told_by :
          (res : Result (Unit {0}) × K)
          → f reply st.keys ≡ res
          → Ends
              (λ _ s. s ≡ kept_in (some f) reply (ok turns, d) st)
              (λ e s.
                (s ≡ kept_in (some f) reply (ok turns, d) st) × Refuses (some f) reply st.keys e)
              (λ _. ok tt ≡ err runtime_error)
              (ended_as res.0, record st { db = d; keys = res.1 })
      told_by (ok u, k) e = ap (λ r. record st { db = d; keys = r.1 }) (sym e)
      told_by (err x, k) e = (ap (λ r. record st { db = d; keys = r.1 }) (sym e), ap (λ r. r.0) e)

  pub after_store-Ends :
      (reply : String) (res : Result (List Message) × Db Tables) (st : Stage K)
      → Ends
          (λ _ s. s ≡ kept_in on_persisted reply res st)
          (λ e s. (s ≡ kept_in on_persisted reply res st) × Refuses on_persisted reply st.keys e)
          (λ _. ok tt ≡ err runtime_error)
          (after_store io p cfg now on_persisted reply (ended_as res.0, record st { db = res.1 }))
  after_store-Ends reply (ok turns, d) st = told-Ends on_persisted reply turns d st
  after_store-Ends reply (err e, d) st = refl

  -- The same steps before an error that is raised again: none of them returns.
  pub partial-Ends :
      (reply : String) (e : Error) (res : Result (List Message) × Db Tables) (st : Stage K)
      → Ends {A = Unit {0}}
          (λ _ _. ok tt ≡ err runtime_error)
          (λ _ s. s ≡ kept_in on_persisted reply res st)
          (λ _. ok tt ≡ err runtime_error)
          ((((λ _. (ended_as res.0, record st { db = res.1 })) >> notify on_persisted reply)
              >> fail e)
            st)
  partial-Ends reply e (err x, d) st = refl
  partial-Ends reply e (ok turns, d) st =
      bind-Ends (λ _ s. s ≡ kept_in on_persisted reply (ok turns, d) st)
        (λ _ _. ok tt ≡ err runtime_error) (λ _ s. s ≡ kept_in on_persisted reply (ok turns, d) st)
        (λ _. ok tt ≡ err runtime_error) (λ _. notify on_persisted reply (record st { db = d }))
        (λ _. fail e) st
        (map-Ends _ (λ _ s. s ≡ kept_in on_persisted reply (ok turns, d) st) _
          (λ _ s. s ≡ kept_in on_persisted reply (ok turns, d) st) _
          (λ _. ok tt ≡ err runtime_error) (notify on_persisted reply (record st { db = d }))
          (told-Ends on_persisted reply turns d st) (λ _ _ h. h) (λ _ _ h. h.0) (λ _ h. h))
        (λ _ s k. k)

module _ {K : Type 0} (io : Providers) (p : PreparedTurn) (cfg : TurnConfig) (now : ℕ)
    (on_persisted : Option (Callback K)) (db : Db Tables) (keys : K) (before : List Bool) where
  abbrev pub stored : String → Result (List Message) × Db Tables
  stored reply = persist cfg p reply none now db

  -- The reply is stored as far as it was read, and the callback told of it if that succeeded.
  abbrev pub Kept : Stage K → Type 0
  Kept st =
      (st.db ≡ (stored (join " " st.parts)).1)
      × (st.keys ≡ keys_after on_persisted (stored (join " " st.parts)).0 (join " " st.parts) keys)

  -- What was sent are the parts of the reply and clips of them in their order, with at most one
  -- correction and that at the end; and either nothing is written, or just that reply is.
  abbrev pub Settled : Stage K → Type 0
  Settled st =
      (texts_of st.events ≡ st.parts)
      × ((rest : List String) × (clips_of st.events ++ rest ≡ clips io st.parts))
      × AtMostLast st.events
      × (((st.db ≡ db) × (st.keys ≡ keys)) ⊎ Kept st)

  pub Reading-Settled :
      (rest : List String) (st : Stage K)
      → Reading io p db keys before st
      → Paced io p db keys before rest st
      → Settled st
  Reading-Settled rest st (t, q, d, k) c = (t, (rest, c), inl q, inl (d, k))

  -- A stage in which the reply has been read, once it is stored.
  pub stored_keeps :
      (st s : Stage K)
      → Reading io p db keys before st
      → s
        ≡ kept_in on_persisted
            (join " " st.parts)
            (persist cfg p (join " " st.parts) none now st.db)
            st
      → Kept s × (s.parts ≡ st.parts) × (s.events ≡ st.events) × (s.leaves ≡ st.leaves)
  stored_keeps st s (t, c, d, k) e =
      let reply = join " " st.parts in
      subst
        (λ s'. Kept s' × (s'.parts ≡ st.parts) × (s'.events ≡ st.events) × (s'.leaves ≡ st.leaves))
        (sym e)
        (
          (
            ap (λ x. (persist cfg p reply none now x).1) d,
            ap (λ x. keys_after on_persisted (persist cfg p reply none now x).0 reply st.keys) d
                ∙ ap (λ x. keys_after on_persisted (stored reply).0 reply x) k,
          ),
          refl,
          refl,
          refl,
        )

  -- Storing the reply that was read settles the turn.
  pub stored_settles :
      (rest : List String) (st s : Stage K)
      → Reading io p db keys before st
      → Paced io p db keys before rest st
      → Kept s
      → s.parts ≡ st.parts
      → s.events ≡ st.events
      → Settled s
  stored_settles rest st s (t, q, d, k) c kept ps es = (
    ap texts_of es ∙ (t ∙ sym ps),
    (rest, ap (λ x. clips_of x ++ rest) es ∙ (c ∙ ap (clips io) (sym ps))),
    inl (ap corrections_of es ∙ q),
    inr kept,
  )
