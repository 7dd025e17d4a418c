-- ===== src/Conversation/Frames.antt =====
-- What a response of the streaming route (Conversation.Route) tells the reader.
use apm.Shared.{ℕ, ◌≡◌, refl, ap, Bool, List, [], ◌∷◌, ◌++◌, Option, none, some, String}
use apm.Conversation.Stream.{
  TurnStreamEvent, reply_chunk, audio_chunk, correction_ready, Ending, returned, raised, gone,
  Stage,
}
use apm.Database.{Error}
use apm.Conversation.Delivery.{texts_of}
use apm.Conversation.Route.{
  Frame, chunk, audio, correction, done, error, Response, refused, streamed, frames_of, ClaimFaults,
  end_in_error, close_stream,
}
use apm.Idempotency.{Claims}

-- The sentences of a response.
abbrev pub said_in : List Frame → List String
said_in [] = []
said_in (chunk s ∷ fs) = s ∷ said_in fs
said_in (audio a ∷ fs) = said_in fs
said_in (correction c ∷ fs) = said_in fs
said_in (done ∷ fs) = said_in fs
said_in (error m ∷ fs) = said_in fs

abbrev pub said_by : Response → List String
said_by (refused e) = []
said_by (streamed fs) = said_in fs

said_in-frames_of :
    (es : List TurnStreamEvent) (rest : List Frame)
    → said_in rest ≡ []
    → said_in (frames_of es ++ rest) ≡ texts_of es
said_in-frames_of [] rest h = h
said_in-frames_of (reply_chunk s ∷ es) rest h = ap (λ ts. s ∷ ts) (said_in-frames_of es rest h)
said_in-frames_of (audio_chunk a ∷ es) rest h = said_in-frames_of es rest h
said_in-frames_of (correction_ready c ∷ es) rest h = said_in-frames_of es rest h

said_in-frames : (es : List TurnStreamEvent) → said_in (frames_of es) ≡ texts_of es
said_in-frames [] = refl
said_in-frames (reply_chunk s ∷ es) = ap (λ ts. s ∷ ts) (said_in-frames es)
said_in-frames (audio_chunk a ∷ es) = said_in-frames es
said_in-frames (correction_ready c ∷ es) = said_in-frames es

said_in-end_in_error :
    (es : List TurnStreamEvent) (e : Error) (d : Claims) (freed : Option Claims)
    → said_in (end_in_error (frames_of es) e d freed).0 ≡ texts_of es
said_in-end_in_error es e d none = said_in-frames es
said_in-end_in_error es e d (some d') = said_in-frames_of es _ refl

pub said_in-close_stream :
    (f : ClaimFaults) (user_id : ℕ) (key : Option String)
    (res : Ending (Unit {0}) × Stage (Claims × Bool))
    → said_in (close_stream f user_id key res).0 ≡ texts_of res.1.events
said_in-close_stream f user_id key (returned u, st) = said_in-frames_of st.events (done ∷ []) refl
said_in-close_stream f user_id key (raised e, st) = said_in-end_in_error st.events e st.keys.0 _
said_in-close_stream f user_id key (gone, st) = said_in-frames st.events
