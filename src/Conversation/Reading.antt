-- ===== src/Conversation/Reading.antt =====
-- The loop of `stream_prepared`: what has been received while the reply is read, at whatever event
-- the reader leaves.
use apm.Shared.{
  ℕ, ◌≡◌, ◌≢◌, refl, sym, ap, Bool, List, [], ◌∷◌, ◌++◌, Option, none, some, String, append_assoc,
  ◌∙◌,
}
use apm.Database.{Db, Result, ok, err, Error}
use apm.Sessions.Repository.{Tables}
use apm.Conversation.Prepare.{PreparedTurn}
use apm.Conversation.Stream.{
  reply_chunk, audio_chunk, Stage, Providers, emit, start_synthesis, emit_audio, drain_audio, say,
  say_all, read_reply,
}
use apm.Conversation.Stream.{drain_and_start, start_tasks, end_reply, forget_audio}
use apm.Conversation.Delivery.{
  texts_of, clips_of, corrections_of, Ends, bind-Ends, emit-Ends, Stays, clip_of, clips,
  chunk_texts, chunk_clips, chunk_corrections, audio_texts, audio_clips, audio_corrections,
  append_nil,
}

module _ {K : Type 0} (io : Providers) (p : PreparedTurn) (db : Db Tables) (keys : K)
    (before : List Bool) where
  -- While the reply is read nothing is written, the sentences received are the parts of the reply, and
  -- no correction is received.
  abbrev pub Reading : Stage K → Type 0
  Reading st =
      (texts_of st.events ≡ st.parts)
      × (corrections_of st.events ≡ [])
      × (st.db ≡ db)
      × (st.keys ≡ keys)

  -- The clips received, with those to come, are those of the parts.
  abbrev pub Paced : List String → Stage K → Type 0
  Paced rest st = clips_of st.events ++ rest ≡ clips io st.parts

  abbrev pub Left : Stage K → Type 0
  Left st = Reading st × (before ≢ []) × ((rest : List String) × Paced rest st)

  abbrev pub Spoken : List String → Stage K → Type 0
  Spoken said st =
      Reading st
      × Paced (clip_of io st.pending_audio) st
      × Stays before st.leaves
      × (st.parts ≡ said)

  -- After the text of a sentence, and after the clip of the sentence before it.
  abbrev Chunked : String → List String → Stage K → Type 0
  Chunked s said st =
      Reading st
      × Paced (clip_of io st.pending_audio ++ clip_of io (start_synthesis io.tts s)) st
      × Stays before st.leaves
      × (st.parts ≡ said ++ (s ∷ []))

  abbrev Drained : List String → List String → Stage K → Type 0
  Drained rest said st = Reading st × Paced rest st × Stays before st.leaves × (st.parts ≡ said)

  chunk_Reading :
      (s : String) (st : Stage K)
      → Reading st
      → Reading
          (record st { events = st.events ++ (reply_chunk s ∷ []); parts = st.parts ++ (s ∷ []) })
  chunk_Reading s st (t, c, d, k) =
      (chunk_texts st.events st.parts s t, chunk_corrections st.events s c, d, k)

  audio_Reading :
      (a : String) (st : Stage K)
      → Reading st
      → Reading (record st { events = st.events ++ (audio_chunk a ∷ []) })
  audio_Reading a st (t, c, d, k) =
      (audio_texts st.events st.parts a t, audio_corrections st.events a c, d, k)

  module _ (E : Error → Stage K → Type 0) where
    drain_audio-Ends :
        (rest said : List String) (st : Stage K)
        → Reading st
        → Paced (clip_of io st.pending_audio ++ rest) st
        → Stays before st.leaves
        → st.parts ≡ said
        → Ends (λ _. Drained rest said) E Left (drain_audio io p st)
    unfolding drain_audio
    drain_audio-Ends rest said st h c l e = emit_audio-Ends st.pending_audio refl
      where
        emit_audio-Ends :
            (audio : Option (List ℕ))
            → st.pending_audio ≡ audio
            → Ends (λ _. Drained rest said) E Left (emit_audio io p audio st)
        emit_audio-Ends none a = (h, rw a at c, l, e)
        emit_audio-Ends (some []) a = (h, rw a at c, l, e)
        emit_audio-Ends (some (b ∷ bs)) a =
            emit-Ends before (Drained rest said) E Left (audio_chunk (io.b64encode (b ∷ bs))) st l
              (λ l' k. (audio_Reading _ st h, audio_clips st.events rest _ _ (rw a at c), k, e))
              (λ l' k.
                (audio_Reading _ st h, k, (rest, audio_clips st.events rest _ _ (rw a at c))))

    chunk-Ends :
        (s : String) (said : List String) (st : Stage K)
        → Spoken said st
        → Ends
            (λ _. Chunked s said)
            E
            Left
            (emit (reply_chunk s) (record st { parts = st.parts ++ (s ∷ []) }))
    chunk-Ends s said st (h, c, l, e) =
        let new = clip_of io (start_synthesis io.tts s) in
        let paced = chunk_clips io st.events st.parts (clip_of io st.pending_audio) s c in
        emit-Ends before (Chunked s said) E Left (reply_chunk s)
          (record st { parts = st.parts ++ (s ∷ []) }) l
          (λ l' k. (chunk_Reading s st h, paced, k, ap (λ l. l ++ (s ∷ [])) e))
          (λ l' k. (chunk_Reading s st h, k, (_, paced)))

    say-Ends :
        (s : String) (said : List String) (st : Stage K)
        → Spoken said st
        → Ends (λ _. Spoken (said ++ (s ∷ []))) E Left (say io p s st)
    unfolding say
    say-Ends s said st h =
        let later = clip_of io (start_synthesis io.tts s) in
        bind-Ends (λ _. Chunked s said) (λ _. Spoken (said ++ (s ∷ []))) E Left
          (emit (reply_chunk s)) (λ _. drain_and_start io p s) _ (chunk-Ends s said st h)
          (λ _ st' (r, c, l, e).
            bind-Ends (λ _. Drained later (said ++ (s ∷ []))) (λ _. Spoken (said ++ (s ∷ []))) E
              Left (drain_audio io p) (λ _. start_tasks io p s) st'
              (drain_audio-Ends later _ st' r c l e) (λ _ st'' k. k))

    say_all-Ends :
        (ss said : List String) (st : Stage K)
        → Spoken said st
        → Ends (λ _. Spoken (said ++ ss)) E Left (say_all io p ss st)
    unfolding say_all
    say_all-Ends [] said st (r, c, l, e) = (r, c, l, e ∙ sym (append_nil said))
    say_all-Ends (s ∷ ss) said st h =
        bind-Ends (λ _. Spoken (said ++ (s ∷ []))) (λ _. Spoken (said ++ (s ∷ ss))) E Left
          (say io p s) (λ _. say_all io p ss) st (say-Ends s said st h)
          (λ _ st' k. rw (← append_assoc said (s ∷ []) ss) (say_all-Ends ss _ st' k))

  -- The reply is read to its end, or raises what the stream of the provider raises, or the reader
  -- leaves.
  abbrev pub Whole : List String → Stage K → Type 0
  Whole ss st = Drained [] ss st

  pub read_reply-Ends :
      (ss : List String) (end : Result (Unit {0})) (st : Stage K)
      → Spoken [] st
      → Ends
          (λ _ s. (end ≡ ok tt) × Whole ss s)
          (λ e s. (end ≡ err e) × Spoken ss s)
          Left
          (read_reply io p (ss, end) st)
  unfolding read_reply
  read_reply-Ends ss (err e) st h =
      bind-Ends (λ _. Spoken ss) (λ _ s. (err e ≡ ok tt) × Whole ss s)
        (λ e' s. (err e ≡ err e') × Spoken ss s) Left (say_all io p ss)
        (λ _. end_reply io p (err e)) st
        (say_all-Ends (λ e' s. (err e ≡ err e') × Spoken ss s) ss [] st h) (λ _ st' k. (refl, k))
  read_reply-Ends ss (ok tt) st h =
      let E : Error → Stage K → Type 0 = λ e s. (ok tt ≡ err e) × Spoken ss s in
      bind-Ends (λ _. Spoken ss) (λ _ s. (ok tt ≡ ok tt) × Whole ss s) E Left (say_all io p ss)
        (λ _. end_reply io p (ok tt)) st (say_all-Ends E ss [] st h)
        (λ _ st' (r, c, l, e).
          bind-Ends (λ _. Drained [] ss) (λ _ s. (ok tt ≡ ok tt) × Whole ss s) E Left
            (drain_audio io p) (λ _. forget_audio io p) st'
            (drain_audio-Ends E [] ss st' r (rw (append_nil (clip_of io st'.pending_audio)) c) l e)
            (λ _ st'' k. (refl, k)))
