-- ===== src/Conversation/Delivery.antt =====
-- The events of a streaming turn that its reader has received, and rules on how a step of
-- `stream_prepared` ends.
use apm.Shared.{
  ℕ, ◌≡◌, ◌≢◌, refl, sym, ap, Bool, true, false, List, [], ◌∷◌, ◌++◌, Option, none, some, String,
  append_assoc, ◌∙◌,
}
use mathlib.Core.Path.{subst}
use apm.Database.{Error}
use apm.Conversation.Correction.{TurnCorrection}
use apm.Conversation.Stream.{
  TurnStreamEvent, reply_chunk, audio_chunk, correction_ready, Ending, returned, raised, gone,
  Stage, Step, Providers, emit, leave_or_stay, start_synthesis, ◌>>=◌,
}

-- The sentences among the events, the clips, and the corrections.
abbrev pub texts_of : List TurnStreamEvent → List String
texts_of [] = []
texts_of (reply_chunk s ∷ es) = s ∷ texts_of es
texts_of (audio_chunk a ∷ es) = texts_of es
texts_of (correction_ready c ∷ es) = texts_of es

abbrev pub clips_of : List TurnStreamEvent → List String
clips_of [] = []
clips_of (reply_chunk s ∷ es) = clips_of es
clips_of (audio_chunk a ∷ es) = a ∷ clips_of es
clips_of (correction_ready c ∷ es) = clips_of es

abbrev pub corrections_of : List TurnStreamEvent → List TurnCorrection
corrections_of [] = []
corrections_of (reply_chunk s ∷ es) = corrections_of es
corrections_of (audio_chunk a ∷ es) = corrections_of es
corrections_of (correction_ready c ∷ es) = c ∷ corrections_of es

pub texts_of-append :
    (xs ys : List TurnStreamEvent) → texts_of (xs ++ ys) ≡ texts_of xs ++ texts_of ys
texts_of-append [] ys = refl
texts_of-append (reply_chunk s ∷ xs) ys = ap (λ l. s ∷ l) (texts_of-append xs ys)
texts_of-append (audio_chunk a ∷ xs) ys = texts_of-append xs ys
texts_of-append (correction_ready c ∷ xs) ys = texts_of-append xs ys

pub clips_of-append :
    (xs ys : List TurnStreamEvent) → clips_of (xs ++ ys) ≡ clips_of xs ++ clips_of ys
clips_of-append [] ys = refl
clips_of-append (reply_chunk s ∷ xs) ys = clips_of-append xs ys
clips_of-append (audio_chunk a ∷ xs) ys = ap (λ l. a ∷ l) (clips_of-append xs ys)
clips_of-append (correction_ready c ∷ xs) ys = clips_of-append xs ys

pub corrections_of-append :
    (xs ys : List TurnStreamEvent)
    → corrections_of (xs ++ ys) ≡ corrections_of xs ++ corrections_of ys
corrections_of-append [] ys = refl
corrections_of-append (reply_chunk s ∷ xs) ys = corrections_of-append xs ys
corrections_of-append (audio_chunk a ∷ xs) ys = corrections_of-append xs ys
corrections_of-append (correction_ready c ∷ xs) ys = ap (λ l. c ∷ l) (corrections_of-append xs ys)

-- What holds when a step returns, when it raises, and when the reader leaves in it.
abbrev pub Ends :
    {K A : Type 0}
    → (A → Stage K → Type 0)
    → (Error → Stage K → Type 0)
    → (Stage K → Type 0)
    → Ending A × Stage K
    → Type 0
Ends Q E R (returned a, st) = Q a st
Ends Q E R (raised e, st) = E e st
Ends Q E R (gone, st) = R st

module _ {K A B : Type 0} (Q : A → Stage K → Type 0) (S : B → Stage K → Type 0)
    (E : Error → Stage K → Type 0) (R : Stage K → Type 0) where
  bind_after :
      (f : A → Step K B) (res : Ending A × Stage K)
      → Ends Q E R res
      → ((a : A) (st : Stage K) → Q a st → Ends S E R (f a st))
      → Ends S E R (((λ _. res) >>= f) res.1)
  bind_after f (returned a, st) h k = k a st h
  bind_after f (raised e, st) h k = h
  bind_after f (gone, st) h k = h

  pub bind-Ends :
      (m : Step K A) (f : A → Step K B) (st : Stage K)
      → Ends Q E R (m st)
      → ((a : A) (st' : Stage K) → Q a st' → Ends S E R (f a st'))
      → Ends S E R ((m >>= f) st)
  bind-Ends m f st h k = bind_after f (m st) h k

pub map-Ends :
    {K A : Type 0} (Q Q' : A → Stage K → Type 0) (E E' : Error → Stage K → Type 0)
    (R R' : Stage K → Type 0) (res : Ending A × Stage K)
    → Ends Q E R res
    → ((a : A) (st : Stage K) → Q a st → Q' a st)
    → ((e : Error) (st : Stage K) → E e st → E' e st)
    → ((st : Stage K) → R st → R' st)
    → Ends Q' E' R' res
map-Ends Q Q' E E' R R' (returned a, st) h q e r = q a st h
map-Ends Q Q' E E' R R' (raised x, st) h q e r = e x st h
map-Ends Q Q' E E' R R' (gone, st) h q e r = r st h

pub append_nil : {A : Type 0} (xs : List A) → xs ++ [] ≡ xs
append_nil [] = refl
append_nil (x ∷ xs) = ap (λ l. x ∷ l) (append_nil xs)

-- As long as the reader had no wish to leave, it has none.
abbrev pub Stays : List Bool → List Bool → Type 0
Stays before l = before ≡ [] → l ≡ []

module _ {K : Type 0} (before : List Bool) (Q : Stage K → Type 0) (E : Error → Stage K → Type 0)
    (R : Stage K → Type 0) where
  leave_or_stay-Ends :
      (l : List Bool) (st : Stage K)
      → Stays before l
      → ((l' : List Bool) → Stays before l' → Q (record st { leaves = l' }))
      → ((l' : List Bool) → before ≢ [] → R (record st { leaves = l' }))
      → st.leaves ≡ l
      → Ends (λ _ s. Q s) E R (leave_or_stay l st)
  leave_or_stay-Ends [] st h q r e = subst (λ l. Q (record st { leaves = l })) (sym e) (q [] h)
  leave_or_stay-Ends (true ∷ rest) st h q r e = r rest (λ b. let w : true ∷ rest ≡ [] = h b in cc)
  leave_or_stay-Ends (false ∷ rest) st h q r e = q rest (λ b. let w : false ∷ rest ≡ [] = h b in cc)

  -- An event is received whether or not the reader leaves on it.
  pub emit-Ends :
      (event : TurnStreamEvent) (st : Stage K)
      → Stays before st.leaves
      → ((l : List Bool)
          → Stays before l
          → Q (record st { events = st.events ++ (event ∷ []); leaves = l }))
      → ((l : List Bool)
          → before ≢ []
          → R (record st { events = st.events ++ (event ∷ []); leaves = l }))
      → Ends (λ _ s. Q s) E R (emit event st)
  emit-Ends event st h q r =
      leave_or_stay-Ends st.leaves (record st { events = st.events ++ (event ∷ []) }) h q r refl

-- The clip of a pending synthesis, if it is not empty; the clips of sentences.
abbrev pub clip_of : Providers → Option (List ℕ) → List String
clip_of io none = []
clip_of io (some []) = []
clip_of io (some (b ∷ bs)) = io.b64encode (b ∷ bs) ∷ []

abbrev pub clips : Providers → List String → List String
clips io [] = []
clips io (s ∷ ss) = clip_of io (start_synthesis io.tts s) ++ clips io ss

pub clips-append :
    (io : Providers) (xs ys : List String) → clips io (xs ++ ys) ≡ clips io xs ++ clips io ys
clips-append io [] ys = refl
clips-append io (s ∷ xs) ys =
    ap (λ l. clip_of io (start_synthesis io.tts s) ++ l) (clips-append io xs ys)
    ∙ sym (append_assoc (clip_of io (start_synthesis io.tts s)) (clips io xs) (clips io ys))

pub chunk_texts :
    (es : List TurnStreamEvent) (parts : List String) (s : String)
    → texts_of es ≡ parts
    → texts_of (es ++ (reply_chunk s ∷ [])) ≡ parts ++ (s ∷ [])
chunk_texts es parts s e = texts_of-append es (reply_chunk s ∷ []) ∙ ap (λ l. l ++ (s ∷ [])) e

pub chunk_clips :
    (io : Providers) (es : List TurnStreamEvent) (parts rest : List String) (s : String)
    → clips_of es ++ rest ≡ clips io parts
    → clips_of (es ++ (reply_chunk s ∷ [])) ++ (rest ++ clip_of io (start_synthesis io.tts s))
      ≡ clips io (parts ++ (s ∷ []))
chunk_clips io es parts rest s e =
    let new = clip_of io (start_synthesis io.tts s) in
    rw
      (
        clips_of-append es (reply_chunk s ∷ []),
        clips-append io parts (s ∷ []),
        ← e,
        append_nil (clips_of es),
        append_nil new,
      )
      (sym (append_assoc (clips_of es) rest new))

pub chunk_corrections :
    (es : List TurnStreamEvent) (s : String)
    → corrections_of es ≡ []
    → corrections_of (es ++ (reply_chunk s ∷ [])) ≡ []
chunk_corrections es s e = corrections_of-append es (reply_chunk s ∷ []) ∙ ap (λ l. l ++ []) e

pub audio_texts :
    (es : List TurnStreamEvent) (parts : List String) (a : String)
    → texts_of es ≡ parts
    → texts_of (es ++ (audio_chunk a ∷ [])) ≡ parts
audio_texts es parts a e = texts_of-append es (audio_chunk a ∷ []) ∙ (append_nil (texts_of es) ∙ e)

pub audio_corrections :
    (es : List TurnStreamEvent) (a : String)
    → corrections_of es ≡ []
    → corrections_of (es ++ (audio_chunk a ∷ [])) ≡ []
audio_corrections es a e = corrections_of-append es (audio_chunk a ∷ []) ∙ ap (λ l. l ++ []) e

pub audio_clips :
    (es : List TurnStreamEvent) (rest all : List String) (a : String)
    → clips_of es ++ (a ∷ rest) ≡ all
    → clips_of (es ++ (audio_chunk a ∷ [])) ++ rest ≡ all
audio_clips es rest all a e =
    rw (clips_of-append es (audio_chunk a ∷ []), append_assoc (clips_of es) (a ∷ []) rest) e
