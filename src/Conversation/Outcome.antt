-- ===== src/Conversation/Outcome.antt =====
-- How a streaming turn ends: when its reader stays and when it leaves, when the provider's stream
-- ends and when it raises.
use apm.Shared.{
  ℕ, ◌≡◌, ◌≢◌, inl, inr, refl, sym, ap, ◌∙◌, List, [], ◌∷◌, ◌++◌, Option, none, some, String, Bool,
}
use mathlib.Core.Path.{subst}
use apm.Database.{Db, Result, ok, err, Error, runtime_error}
use apm.Sessions.Repository.{Tables}
use apm.Conversation.Correction.{TurnCorrection}
use apm.Conversation.Prompt.{join}
use apm.Conversation.Prepare.{TurnConfig, PreparedTurn, persist}
use apm.Conversation.Stream.{
  TurnStreamEvent, correction_ready, Ending, returned, raised, gone, Stage, Providers, Callback,
  read_reply, keep_partial, except_raised, keep_reply, emit_correction, rest_of_stream,
  deliver_correction, read_or_keep_partial, fail, ◌>>◌,
}
use apm.Conversation.Delivery.{
  texts_of, clips_of, corrections_of, texts_of-append, clips_of-append, Ends, map-Ends, bind-Ends,
  emit-Ends, Stays, clips, append_nil,
}
use apm.Conversation.Reading.{Left, Spoken, Whole, read_reply-Ends}
use apm.Conversation.Settlement.{
  kept_in, Refuses, Kept, Settled, Reading-Settled, stored_keeps, stored_settles, partial-Ends,
  after_store-Ends,
}

texts_of-correction :
    (es : List TurnStreamEvent) (c : TurnCorrection)
    → texts_of (es ++ (correction_ready c ∷ [])) ≡ texts_of es
texts_of-correction es c = texts_of-append es (correction_ready c ∷ []) ∙ append_nil (texts_of es)

clips_of-correction :
    (es : List TurnStreamEvent) (c : TurnCorrection)
    → clips_of (es ++ (correction_ready c ∷ [])) ≡ clips_of es
clips_of-correction es c = clips_of-append es (correction_ready c ∷ []) ∙ append_nil (clips_of es)

module _ {K : Type 0} (io : Providers) (p : PreparedTurn) (cfg : TurnConfig) (now : ℕ)
    (on_persisted : Option (Callback K)) (db : Db Tables) (keys : K) (before : List Bool)
    (ss : List String) (end : Result (Unit {0})) where
  abbrev IsSettled : Stage K → Type 0
  IsSettled = Settled io p cfg now on_persisted db keys before

  abbrev IsKept : Stage K → Type 0
  IsKept = Kept io p cfg now on_persisted db keys before

  -- The reply was sent as a whole and stored.
  abbrev pub Delivered : Stage K → Type 0
  Delivered s =
      IsSettled s × (end ≡ ok tt) × (s.parts ≡ ss) × (clips_of s.events ≡ clips io ss) × IsKept s

  -- An error is raised after the sentences were sent: they are stored if there are any.
  abbrev pub Interrupted : Error → Stage K → Type 0
  Interrupted e s =
      IsSettled s
      × (s.parts ≡ ss)
      × (ss ≢ [] → IsKept s)
      × (end ≡ ok tt → Refuses on_persisted (join " " ss) keys e)

  abbrev pub Abandoned : Stage K → Type 0
  Abandoned s = IsSettled s × (before ≢ [])

  -- The reply is stored, and the correction is to come.
  abbrev Answered : Stage K → Type 0
  Answered s =
      (texts_of s.events ≡ s.parts)
      × (corrections_of s.events ≡ [])
      × (clips_of s.events ≡ clips io ss)
      × Stays before s.leaves
      × (s.parts ≡ ss)
      × IsKept s
      × (end ≡ ok tt)

  partial-Interrupted :
      (e : Error) (st : Stage K) (parts : List String)
      → st.parts ≡ parts
      → end ≡ err e
      → Spoken io p db keys before ss st
      → Ends
          (λ (u : Unit {0}) s. (end ≡ ok tt) × Whole io p db keys before ss s)
          Interrupted
          Abandoned
          ((keep_partial io p cfg now on_persisted parts >> fail e) st)
  partial-Interrupted e st [] q f (r, c, l, m) = (
    Reading-Settled io p cfg now on_persisted db keys before _ st r c,
    m,
    (λ some_read. absurd (some_read (sym m ∙ q))),
    (λ whole. absurd (let x : err e ≡ ok tt = sym f ∙ whole in cc)),
  )
  partial-Interrupted e st (x ∷ xs) q f (r, c, l, m) =
      let res = persist cfg p (join " " (x ∷ xs)) none now st.db in
      map-Ends (λ _ _. ok tt ≡ err runtime_error)
        (λ u s. (end ≡ ok tt) × Whole io p db keys before ss s)
        (λ _ s. s ≡ kept_in on_persisted (join " " (x ∷ xs)) res st) Interrupted
        (λ _. ok tt ≡ err runtime_error) Abandoned _
        (partial-Ends io p cfg now on_persisted (join " " (x ∷ xs)) e res st) (λ _ _ h. absurd (cc))
        (λ e' s h.
          let h' =
            subst
              (λ ps.
                s
                ≡ kept_in on_persisted (join " " ps) (persist cfg p (join " " ps) none now st.db)
                    st)
              (sym q) h in
          let (kept, ps, es, _) = stored_keeps io p cfg now on_persisted db keys before st s r h' in
          (
            stored_settles io p cfg now on_persisted db keys before _ st s r c kept ps es,
            ps ∙ m,
            (λ _. kept),
            (λ whole. absurd (let y : err e ≡ ok tt = sym f ∙ whole in cc)),
          ))
        (λ _ h. absurd (cc))

  keep_reply-Ends :
      (st : Stage K)
      → end ≡ ok tt
      → Whole io p db keys before ss st
      → Ends (λ _. Answered) Interrupted Abandoned (keep_reply io p cfg now on_persisted st)
  unfolding keep_reply
  keep_reply-Ends st f (r, c, l, m) =
      let reply = join " " st.parts in
      let res = persist cfg p reply none now st.db in
      map-Ends (λ _ s. s ≡ kept_in on_persisted reply res st) (λ _. Answered)
        (λ e s. (s ≡ kept_in on_persisted reply res st) × Refuses on_persisted reply st.keys e)
        Interrupted (λ _. ok tt ≡ err runtime_error) Abandoned _
        (after_store-Ends io p cfg now on_persisted reply res st)
        (λ _ s h.
          let (kept, ps, es, ls) = stored_keeps io p cfg now on_persisted db keys before st s r h in
          let (t, q, _, _) = r in
          (
            ap texts_of es ∙ (t ∙ sym ps),
            ap corrections_of es ∙ q,
            ap clips_of es ∙ (sym (append_nil _) ∙ (c ∙ ap (clips io) m)),
            (λ b. ls ∙ l b),
            ps ∙ m,
            kept,
            f,
          ))
        (λ e s h.
          let (eq, refused) = h in
          let (kept, ps, es, _) = stored_keeps io p cfg now on_persisted db keys before st s r eq in
          let (_, _, _, k) = r in
          (
            stored_settles io p cfg now on_persisted db keys before _ st s r c kept ps es,
            ps ∙ m,
            (λ _. kept),
            (λ _.
                subst (λ x. Refuses on_persisted (join " " x) keys e) m
                  (subst (λ x. Refuses on_persisted reply x e) k refused)),
          ))
        (λ _ h. absurd (cc))

  Answered-Delivered : (st : Stage K) → Answered st → Delivered st
  Answered-Delivered st (t, q, a, l, m, kept, f) =
      ((t, ([], append_nil _ ∙ (a ∙ ap (clips io) (sym m))), inl q, inr kept), f, m, a, kept)

  correction-Settled :
      (c : TurnCorrection) (st : Stage K) (l : List Bool)
      → Answered st
      → IsSettled (record st { events = st.events ++ (correction_ready c ∷ []); leaves = l })
  correction-Settled c st l (t, q, a, _, m, kept, f) = (
    texts_of-correction st.events c ∙ t,
    ([], append_nil _ ∙ (clips_of-correction st.events c ∙ (a ∙ ap (clips io) (sym m)))),
    inr (st.events, c, refl, q),
    inr kept,
  )

  emit_correction-Ends :
      (task : Option (Option TurnCorrection)) (st : Stage K)
      → Answered st
      → Ends
          (λ _. Delivered)
          Interrupted
          Abandoned
          (emit_correction io p cfg now on_persisted task st)
  emit_correction-Ends none st h = Answered-Delivered st h
  emit_correction-Ends (some none) st h = Answered-Delivered st h
  emit_correction-Ends (some (some c)) st (t, q, a, l, m, kept, f) =
      emit-Ends before Delivered Interrupted Abandoned (correction_ready c) st l
        (λ l' k. (
          correction-Settled c st l' (t, q, a, l, m, kept, f),
          f,
          m,
          clips_of-correction st.events c ∙ a,
          kept,
        ))
        (λ l' k. (correction-Settled c st l' (t, q, a, l, m, kept, f), k))

  except_raised-Ends :
      (res : Ending (Unit {0}) × Stage K)
      → Ends
          (λ _ s. (end ≡ ok tt) × Whole io p db keys before ss s)
          (λ e s. (end ≡ err e) × Spoken io p db keys before ss s)
          (Left io p db keys before)
          res
      → Ends
          (λ _ s. (end ≡ ok tt) × Whole io p db keys before ss s)
          Interrupted
          Abandoned
          (except_raised io p cfg now on_persisted res)
  except_raised-Ends (returned u, st) h = h
  except_raised-Ends (raised e, st) h = partial-Interrupted e st st.parts refl h.0 h.1
  except_raised-Ends (gone, st) (r, b, (rest, c)) =
      (Reading-Settled io p cfg now on_persisted db keys before rest st r c, b)

  -- What follows the boundary of the input and output.
  pub rest_of_stream-Ends :
      (st : Stage K)
      → Spoken io p db keys before [] st
      → io.llm_stream p.system_prompt p.history ≡ (ss, end)
      → Ends (λ _. Delivered) Interrupted Abandoned (rest_of_stream io p cfg now on_persisted st)
  unfolding rest_of_stream
  rest_of_stream-Ends st h says =
      bind-Ends (λ _ s. (end ≡ ok tt) × Whole io p db keys before ss s) (λ _. Delivered) Interrupted
        Abandoned (read_or_keep_partial io p cfg now on_persisted)
        (λ _. keep_reply io p cfg now on_persisted >> deliver_correction io p cfg now on_persisted)
        st
        (except_raised-Ends (read_reply io p (io.llm_stream p.system_prompt p.history) st)
          (rw says (read_reply-Ends io p db keys before ss end st h)))
        (λ _ st' (f, w).
          bind-Ends (λ _. Answered) (λ _. Delivered) Interrupted Abandoned
            (keep_reply io p cfg now on_persisted)
            (λ _. deliver_correction io p cfg now on_persisted) st' (keep_reply-Ends st' f w)
            (λ _ st'' a. emit_correction-Ends st''.correction_task st'' a))
