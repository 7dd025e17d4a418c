-- ===== src/VoiceData/Export.antt =====
-- The export of a learner's voice data: the streams of `VoiceDataExportRepository` page by page, in
-- backend/app/features/voice_data/repository.py. The text of an instant is a parameter.
use apm.Shared.{
  ℕ, Bool, List, [], ◌∷◌, ◌++◌, Option, none, some, String, str_eq, ◌==◌, map, if◌then◌else◌,
}
use apm.Shared.Table.{find, select_where}
use apm.Database.Models.{ConversationSession}
use apm.Sessions.Repository.{Message, Transcript}
use apm.VoiceData.{is_session_of}
use apm.VoiceData.Rows.{VoiceTables, Debrief, DebriefError, VocabularyEntry, ReviewItem}
use apm.VoiceData.Pages.{by_id, by_pair, page, order_by, keyset_pages}

abbrev pub export_page_size : ℕ
export_page_size = 200

-- A session joined with the row of another table that belongs to it.
pub record Joined (A : Type 0) : Type 0 where
  pub id : ℕ
  pub started_at : ℕ
  pub row : A

abbrev join_row : {A : Type 0} → ConversationSession → Option A → List (Joined A) → List (Joined A)
join_row s none rest = rest
join_row s (some a) rest = record { id = s.id; started_at = s.started_at; row = a } ∷ rest

-- `JOIN ... ON row.session_id = sessions.id`, where a session has at most one row.
abbrev pub join_on : {A : Type 0} → (A → ℕ) → List A → List ConversationSession → List (Joined A)
join_on session_id rows [] = []
join_on session_id rows (s ∷ rest) =
    join_row s (find (λ a. session_id a == s.id) rows) (join_on session_id rows rest)

abbrev pub session_key : {A : Type 0} → Joined A → ℕ × ℕ
session_key j = (j.started_at, j.id)

pub record Utterance : Type 0 where
  pub session_id : ℕ
  pub started_at : String
  pub text : String

pub record DebriefOut : Type 0 where
  pub session_id : ℕ
  pub started_at : String
  pub cefr_estimate : String
  pub summary : String
  pub errors : List DebriefError

pub record WordOut : Type 0 where
  pub word : String
  pub translation : String
  pub example : String

pub record ReviewOut : Type 0 where
  pub error_type : String
  pub latest_correction : String
  pub stage : ℕ
  pub status : String
  pub next_review_at : Option String

-- The rows of a table that a stream reads, before the order and the pages.
module _ (t : VoiceTables) (user_id : ℕ) where
  abbrev pub transcript_rows : List (Joined Transcript)
  transcript_rows =
      join_on (λ (r : Transcript). r.session_id) t.transcripts
        (select_where (is_session_of user_id) t.sessions)

  abbrev pub debrief_rows : List (Joined Debrief)
  debrief_rows =
      join_on (λ (r : Debrief). r.session_id) t.debriefs
        (select_where (is_session_of user_id) t.sessions)

  abbrev pub vocabulary_rows : List VocabularyEntry
  vocabulary_rows = select_where (λ e. e.user_id == user_id) t.vocabulary

  abbrev pub review_rows : List ReviewItem
  review_rows = select_where (λ r. r.user_id == user_id) t.review_items

module _ (isoformat : ℕ → String) where
  -- The learner's own turns of a session.
  abbrev pub user_turns : ℕ → ℕ → List Message → List Utterance
  user_turns id at [] = []
  user_turns id at (m ∷ rest) =
      if str_eq m.role "user"
      then record { session_id = id; started_at = isoformat at; text = m.content }
        ∷ user_turns id at rest
      else user_turns id at rest

  abbrev pub utterances_of : List (Joined Transcript) → List Utterance
  utterances_of [] = []
  utterances_of (j ∷ rest) = user_turns j.id j.started_at j.row.turns ++ utterances_of rest

  abbrev pub debrief_out : Joined Debrief → DebriefOut
  debrief_out j = record {
    session_id = j.id;
    started_at = isoformat j.started_at;
    cefr_estimate = j.row.cefr_estimate;
    summary = j.row.summary;
    errors = j.row.errors;
  }

  abbrev pub word_out : VocabularyEntry → WordOut
  word_out e = record { word = e.word; translation = e.translation; example = e.example }

  abbrev optional_text : Option ℕ → Option String
  optional_text none = none
  optional_text (some n) = some (isoformat n)

  abbrev pub review_out : ReviewItem → ReviewOut
  review_out r = record {
    error_type = r.error_type;
    latest_correction = r.latest_correction;
    stage = r.stage;
    status = r.status;
    next_review_at = optional_text r.next_review_at;
  }

  -- The streams of `VoiceDataExportRepository`: `at i` are the tables that the i-th session sees. What is
  -- yielded, and whether the stream has ended.
  module _ (fuel : ℕ) (at : ℕ → VoiceTables) (user_id : ℕ) where
    unfoldable pub stream_utterances : List Utterance × Bool
    unfolding keyset_pages order_by
    stream_utterances =
        let pages =
          keyset_pages by_pair session_key fuel
            (λ i cursor.
              page by_pair session_key export_page_size cursor
                (order_by by_pair session_key (transcript_rows (at i) user_id)))
            export_page_size 0 none in
        (utterances_of pages.0, pages.1)

    unfoldable pub stream_debriefs : List DebriefOut × Bool
    unfolding keyset_pages order_by
    stream_debriefs =
        let pages =
          keyset_pages by_pair session_key fuel
            (λ i cursor.
              page by_pair session_key export_page_size cursor
                (order_by by_pair session_key (debrief_rows (at i) user_id)))
            export_page_size 0 none in
        (map debrief_out pages.0, pages.1)

    unfoldable pub stream_vocabulary : List WordOut × Bool
    unfolding keyset_pages order_by
    stream_vocabulary =
        let pages =
          keyset_pages by_id (λ (e : VocabularyEntry). e.id) fuel
            (λ i cursor.
              page by_id (λ (e : VocabularyEntry). e.id) export_page_size cursor
                (order_by by_id (λ (e : VocabularyEntry). e.id) (vocabulary_rows (at i) user_id)))
            export_page_size 0 none in
        (map word_out pages.0, pages.1)

    unfoldable pub stream_review_items : List ReviewOut × Bool
    unfolding keyset_pages order_by
    stream_review_items =
        let pages =
          keyset_pages by_id (λ (r : ReviewItem). r.id) fuel
            (λ i cursor.
              page by_id (λ (r : ReviewItem). r.id) export_page_size cursor
                (order_by by_id (λ (r : ReviewItem). r.id) (review_rows (at i) user_id)))
            export_page_size 0 none in
        (map review_out pages.0, pages.1)
