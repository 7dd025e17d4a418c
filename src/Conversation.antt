-- ===== src/Conversation.antt =====
-- The terminal write of a turn: `persist_turn` of backend/app/features/conversation/persist.py, with
-- `SqlAlchemyTranscriptRepository.save` of repository.py. The meter is an argument; in the program it is
-- `SessionService.record_turn_activity` on the same database session, which is closed after the call,
-- so that what is not committed by then is dropped.
pub mod Persistence
pub mod Prompt
pub mod Correction
pub mod Prepare
pub mod Stream
pub mod Delivery
pub mod Reading
pub mod Settlement
pub mod Outcome
pub mod Promises
pub mod Preparing
pub mod Continuity
pub mod Route
pub mod Frames
pub mod Stored
pub mod Retries
pub mod Remembered
mod Tests
use apm.Shared.{
  ℕ, ◌-◌, Bool, ◌&&◌, List, [], ◌∷◌, ◌++◌, Option, none, some, String, ◌==◌, ltb, length, drop,
  if◌then◌else◌,
}
use apm.Shared.Table.{find, update_where}
use apm.Clock.{DateTime}
use apm.Database.{Action, ok, err, pure, modify, statement, commit, ◌>>=◌, ◌>>◌}
use apm.Sessions.Activity.{clamp_practiced_at}
use apm.Sessions.Repository.{Tables, Message, Transcript}

abbrev pub is_of : ℕ → Transcript → Bool
is_of n r = r.session_id == n

-- `INSERT ... ON CONFLICT (session_id) DO UPDATE SET turns`
abbrev pub upsert_turns : ℕ → List Message → List Transcript → List Transcript
upsert_turns n turns rows = elim (find (is_of n) rows) [
  | none ↦ rows ++ (record { session_id = n; turns = turns } ∷ [])
  | some r ↦ update_where (is_of n) (λ r. record r { turns = turns }) rows
]

-- `save(..., commit=False)`
unfoldable pub save_turns : ℕ → List Message → Action Tables (Unit {0})
save_turns n turns =
    statement >> modify λ t. record t { transcripts = upsert_turns n turns t.transcripts }

abbrev pub message : String → String → Message
message role content = record { role = role; content = content }

-- The turns with the new exchange, and the last of them if there is a positive cap (`turns[-cap:]`).
abbrev pub extended : List Message → String → String → List Message
extended turns text reply = turns ++ (message "user" text ∷ message "assistant" reply ∷ [])

unfoldable pub bounded_turns : ℕ → List Message → List Message
bounded_turns cap turns =
    if ltb 0 cap && ltb cap (length turns) then drop (length turns - cap) turns else turns

-- A charge that raises is logged, and the transcript is committed all the same.
abbrev pub commit_if_raised : Action Tables (Unit {0}) → Action Tables (Unit {0})
commit_if_raised m db = let (r, db') = m db in elim r [ ok u ↦ (ok tt, db') | err e ↦ commit db' ]

abbrev pub Meter : Type 0
Meter = ℕ → ℕ → ℕ → Action Tables (Unit {0})

abbrev pub charge_turn : Option Meter → ℕ → ℕ → ℕ → Action Tables (Unit {0})
charge_turn none session_id user_id now = commit
charge_turn (some meter) session_id user_id now = commit_if_raised (meter session_id user_id now)

unfoldable pub persist_turn :
    Option Meter
    → (cap : ℕ) → (session_id user_id : ℕ) → List Message
    → (text reply : String) → Option DateTime
    → (now : ℕ) → Action Tables (List Message)
unfolding save_turns bounded_turns
persist_turn meter cap session_id user_id turns text reply practiced_at now = do
  let kept = bounded_turns cap (extended turns text reply)
  save_turns session_id kept
  charge_turn meter session_id user_id (clamp_practiced_at practiced_at now)
  pure kept
