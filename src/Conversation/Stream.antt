-- ===== src/Conversation/Stream.antt =====
-- The turn that streams: `stream_prepared` of backend/app/features/conversation/turn_service.py, as an
-- asynchronous generator whose reader may leave at any `yield`. A synthesis or a correction that runs
-- in the background is kept as its result, which the code awaits later; cancelling it changes nothing
-- that is modelled.
use apm.Shared.{ℕ, Bool, true, false, List, [], ◌∷◌, ◌++◌, Option, none, some, String}
use apm.Database.{Db, Result, ok, err, Error, Action}
use apm.Sessions.Repository.{Tables, Message}
use apm.Conversation.{persist_turn}
use apm.Conversation.Correction.{TurnCorrection}
use apm.Conversation.Prepare.{TurnConfig, PreparedTurn, release_connection_for_io, persist}
use apm.Conversation.Prompt.{join}

pub data TurnStreamEvent : Type 0 where
  reply_chunk : String → TurnStreamEvent
  audio_chunk : String → TurnStreamEvent
  correction_ready : TurnCorrection → TurnStreamEvent

-- How a step of the generator ends: `gone` is the GeneratorExit of a reader that has left, which
-- `except Exception` does not catch.
pub data Ending (A : Type 0) : Type 0 where
  returned : A → Ending A
  raised : Error → Ending A
  gone : Ending A

-- The local variables of the generator, what it has yielded, the database, and the store `keys` that
-- the callback writes. `leaves` says for each event to come whether the reader leaves on it.
pub record Stage (K : Type 0) : Type 0 where
  pub db : Db Tables
  pub keys : K
  pub events : List TurnStreamEvent
  pub leaves : List Bool
  pub parts : List String
  pub pending_audio : Option (List ℕ)
  pub correction_task : Option (Option TurnCorrection)

-- The providers: what a stream yields and how it ends; the bytes of a sentence, or nothing when the
-- synthesis raises; the correction of the learner's text.
pub record Providers : Type 0 where
  pub llm_stream : String → List Message → List String × Result (Unit {0})
  pub tts : Option (String → Option (List ℕ))
  pub b64encode : List ℕ → String
  pub corrector : Option (String → String → String → String → Option TurnCorrection)

abbrev pub Callback : Type 0 → Type 0
Callback K = String → K → Result (Unit {0}) × K

abbrev pub Step : Type 0 → Type 0 → Type 0
Step K A = Stage K → Ending A × Stage K

abbrev pub ended_as : {A : Type 0} → Result A → Ending A
ended_as (ok a) = returned a
ended_as (err e) = raised e

-- `_synthesize_quietly`
abbrev pub synthesize_quietly : (String → Option (List ℕ)) → String → List ℕ
synthesize_quietly tts sentence = elim (tts sentence) [ none ↦ [] | some audio ↦ audio ]

-- `_start_synthesis`
abbrev pub start_synthesis : Option (String → Option (List ℕ)) → String → Option (List ℕ)
start_synthesis none sentence = none
start_synthesis (some tts) sentence = some (synthesize_quietly tts sentence)

abbrev pub corrected :
    PreparedTurn
    → Option (String → String → String → String → Option TurnCorrection)
    → Option (Option TurnCorrection)
    → Option (Option TurnCorrection)
corrected p none task = task
corrected p (some correct) (some task) = some task
corrected p (some correct) none =
    some (correct p.text p.user.cefr_level p.user.native_language p.intensity)

module _ {K : Type 0} where
  abbrev pub give : {A : Type 0} → A → Step K A
  give a st = (returned a, st)

  abbrev pub fail : {A : Type 0} → Error → Step K A
  fail e st = (raised e, st)

  infixl 5 ◌>>=◌ ◌>>◌
  abbrev pub ◌>>=◌ : {A B : Type 0} → Step K A → (A → Step K B) → Step K B
  ◌>>=◌ m f st =
      let (r, st') = m st in
      elim r [ returned a ↦ f a st' | raised e ↦ (raised e, st') | gone ↦ (gone, st') ]

  abbrev pub ◌>>◌ : {A B : Type 0} → Step K A → Step K B → Step K B
  m >> k = m >>= λ _. k

  abbrev pub assign : (Stage K → Stage K) → Step K (Unit {0})
  assign f st = (returned tt, f st)

  abbrev pub leave_or_stay : List Bool → Stage K → Ending (Unit {0}) × Stage K
  leave_or_stay [] st = (returned tt, st)
  leave_or_stay (true ∷ rest) st = (gone, record st { leaves = rest })
  leave_or_stay (false ∷ rest) st = (returned tt, record st { leaves = rest })

  -- `yield event`
  abbrev pub emit : TurnStreamEvent → Step K (Unit {0})
  emit event st = leave_or_stay st.leaves (record st { events = st.events ++ (event ∷ []) })

  -- An action on the database, awaited by the generator.
  abbrev pub await_db : {A : Type 0} → Action Tables A → Step K A
  await_db m st = let (r, db') = m st.db in (ended_as r, record st { db = db' })

  -- `if on_persisted is not None: await on_persisted(reply)`
  abbrev pub notify : Option (Callback K) → String → Step K (Unit {0})
  notify none reply st = (returned tt, st)
  notify (some on_persisted) reply st =
      let (r, keys') = on_persisted reply st.keys in (ended_as r, record st { keys = keys' })

  module _ (io : Providers) (p : PreparedTurn) where
    abbrev pub emit_audio : Option (List ℕ) → Step K (Unit {0})
    emit_audio none = give tt
    emit_audio (some []) = give tt
    emit_audio (some (b ∷ bs)) = emit (audio_chunk (io.b64encode (b ∷ bs)))

    -- `_drain_audio`
    unfoldable pub drain_audio : Step K (Unit {0})
    drain_audio st = emit_audio st.pending_audio st

    abbrev pub start_tasks : String → Step K (Unit {0})
    start_tasks sentence = do
      assign λ st. record st { pending_audio = start_synthesis io.tts sentence }
      assign λ st. record st { correction_task = corrected p io.corrector st.correction_task }

    abbrev pub drain_and_start : String → Step K (Unit {0})
    drain_and_start sentence = drain_audio >> start_tasks sentence

    -- The body of the loop, for one sentence.
    unfoldable pub say : String → Step K (Unit {0})
    unfolding drain_audio
    say sentence = do
      assign λ st. record st { parts = st.parts ++ (sentence ∷ []) }
      emit (reply_chunk sentence)
      drain_and_start sentence

    unfoldable pub say_all : List String → Step K (Unit {0})
    unfolding say
    say_all [] = give tt
    say_all (s ∷ ss) = say s >> say_all ss

    abbrev pub forget_audio : Step K (Unit {0})
    forget_audio = assign λ st. record st { pending_audio = none }

    -- The end of the loop, as the provider's stream ends, and the last clip.
    abbrev pub end_reply : Result (Unit {0}) → Step K (Unit {0})
    end_reply end = (λ st. (ended_as end, st)) >> (drain_audio >> forget_audio)

    -- The `try` of the reply.
    unfoldable pub read_reply : List String × Result (Unit {0}) → Step K (Unit {0})
    unfolding say_all drain_audio
    read_reply (sentences, end) = say_all sentences >> end_reply end

    module _ (cfg : TurnConfig) (now : ℕ) (on_persisted : Option (Callback K)) where
      abbrev pub store : String → Step K (List Message)
      store reply = await_db (persist cfg p reply none now)

      -- The `except` of the reply, before it raises again.
      abbrev pub keep_partial : List String → Step K (Unit {0})
      keep_partial [] = give tt
      keep_partial (s ∷ ss) = do store (join " " (s ∷ ss)); notify on_persisted (join " " (s ∷ ss))

      abbrev pub except_raised : Ending (Unit {0}) × Stage K → Ending (Unit {0}) × Stage K
      except_raised (returned u, st) = (returned u, st)
      except_raised (gone, st) = (gone, st)
      except_raised (raised e, st) = (keep_partial st.parts >> fail e) st

      -- The terminal write of the whole reply: an error of it is logged and goes no further.
      abbrev pub after_store :
          String → Ending (List Message) × Stage K → Ending (Unit {0}) × Stage K
      after_store reply (returned turns, st) = notify on_persisted reply st
      after_store reply (raised e, st) = (returned tt, st)
      after_store reply (gone, st) = (gone, st)

      unfoldable pub keep_reply : Step K (Unit {0})
      unfolding persist_turn
      keep_reply st = after_store (join " " st.parts) (store (join " " st.parts) st)

      abbrev pub emit_correction : Option (Option TurnCorrection) → Step K (Unit {0})
      emit_correction none = give tt
      emit_correction (some none) = give tt
      emit_correction (some (some c)) = emit (correction_ready c)

      abbrev pub deliver_correction : Step K (Unit {0})
      deliver_correction st = emit_correction st.correction_task st

      abbrev pub read_or_keep_partial : Step K (Unit {0})
      read_or_keep_partial st =
          except_raised (read_reply (io.llm_stream p.system_prompt p.history) st)

      unfoldable pub rest_of_stream : Step K (Unit {0})
      unfolding read_reply keep_reply persist_turn
      rest_of_stream = do read_or_keep_partial; keep_reply; deliver_correction

      unfoldable pub stream_prepared : Step K (Unit {0})
      unfolding rest_of_stream
      stream_prepared = await_db (release_connection_for_io cfg) >> rest_of_stream
