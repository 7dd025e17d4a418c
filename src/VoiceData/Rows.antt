-- ===== src/VoiceData/Rows.antt =====
-- The rows that are derived from a learner's voice, and the tables that hold them: the models of
-- backend/app/features/debrief, vocabulary, review, analytics and idempotency, next to those of
-- Database.Models and Sessions.Repository.
use apm.Shared.{ℕ, List, Option, String}
use apm.Database.Models.{User, ConversationSession}
use apm.Sessions.Repository.{Transcript, Mission, LearnerProfile}

pub record DebriefError : Type 0 where
  pub original : String
  pub correction : String
  pub rule : String
  pub error_type : String
  pub explanation : String
  pub examples : List String
  pub alternatives : List String

pub record Debrief : Type 0 where
  pub id : ℕ
  pub session_id : ℕ
  pub cefr_estimate : String
  pub summary : String
  pub errors : List DebriefError

pub record VocabularyEntry : Type 0 where
  pub id : ℕ
  pub user_id : ℕ
  pub session_id : Option ℕ
  pub word : String
  pub phonetic : String
  pub translation : String
  pub example : String
  pub status : String

pub record ReviewItem : Type 0 where
  pub id : ℕ
  pub user_id : ℕ
  pub error_type : String
  pub latest_correction : String
  pub stage : ℕ
  pub clean_streak : ℕ
  pub status : String
  pub next_review_at : Option ℕ

pub record AnalyticsEventRow : Type 0 where
  pub id : ℕ
  pub name : String
  pub user_id : ℕ
  pub created_at : ℕ

pub record IdempotencyKey : Type 0 where
  pub user_id : ℕ
  pub key : String
  pub response : Option String
  pub created_at : ℕ

pub record VoiceTables : Type 0 where
  pub users : List User
  pub profiles : List LearnerProfile
  pub sessions : List ConversationSession
  pub transcripts : List Transcript
  pub debriefs : List Debrief
  pub vocabulary : List VocabularyEntry
  pub review_items : List ReviewItem
  pub missions : List Mission
  pub analytics_events : List AnalyticsEventRow
  pub idempotency_keys : List IdempotencyKey
