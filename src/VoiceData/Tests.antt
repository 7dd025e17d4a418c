-- ===== src/VoiceData/Tests.antt =====
-- Two learners with a session, a transcript and a word each.
use apm.Shared.{
  ℕ, ◌≡◌, refl, ap, ◌+◌, lt→ltb, true, false, List, [], ◌∷◌, none, some, Option, String, arith,
}
use apm.Database.{Db}
use apm.Database.Models.{User, ConversationSession, tier_free}
use apm.Sessions.Repository.{Transcript}
use apm.VoiceData.{purge}
use apm.VoiceData.Erasure.{erased}
use apm.VoiceData.Rows.{VoiceTables, VocabularyEntry}
use apm.VoiceData.Promises.{reported, Emptied, purge-Erased, purge-Emptied}
use apm.VoiceData.Others.{SameRows, SameSpeech, purge_others}
use apm.VoiceData.Pages.{by_id, keyset_pages}
use apm.VoiceData.Paging.{Increasing, stable, keyset_pages-all}
use apm.VoiceData.Ordering.{IsPage, keyset_pages-Increasing}
use apm.VoiceData.Export.{stream_utterances}
use apm.VoiceData.Exported.{Uttered, stream_utterances-Uttered}
use apm.Shared.Occurs.{In}
use apm.VoiceData.Export.{Utterance}

abbrev user : ℕ → User
user n = record {
  id = n;
  email = "";
  hashed_password = "";
  native_language = "fr";
  cefr_level = "B1";
  tier = tier_free;
  is_admin = false;
  is_active = some true;
  quota_date = none;
  minutes_used_today = 0;
  current_streak = some 2;
  longest_streak = some 3;
  last_active_date = some 9;
  weekly_goal_minutes = 30;
  reset_token_hash = none;
  reset_token_expires_at = none;
}

abbrev session : ℕ → ℕ → ConversationSession
session n owner = record {
  id = n;
  user_id = owner;
  mode = "free";
  scenario_id = none;
  mission_id = none;
  voice_engine = "native";
  started_at = 10;
  last_activity_at = 10;
  ended_at = none;
  duration_minutes = none;
}

abbrev transcript : ℕ → Transcript
transcript n = record {
  session_id = n;
  turns =
      record { role = "user"; content = "Hi" }
      ∷ record { role = "assistant"; content = "Hello" }
      ∷ [];
}

abbrev word : ℕ → ℕ → VocabularyEntry
word n owner = record {
  id = n;
  user_id = owner;
  session_id = none;
  word = "go";
  phonetic = "";
  translation = "aller";
  example = "";
  status = "review";
}

abbrev tables : VoiceTables
tables = record {
  users = user 1 ∷ user 2 ∷ [];
  profiles = [];
  sessions = session 5 1 ∷ session 4 1 ∷ session 6 2 ∷ [];
  transcripts = transcript 4 ∷ transcript 5 ∷ transcript 6 ∷ [];
  debriefs = [];
  vocabulary = word 1 1 ∷ word 2 2 ∷ [];
  review_items = [];
  missions = [];
  analytics_events = [];
  idempotency_keys = [];
}

abbrev db : Db VoiceTables
db = record { committed = tables; working = tables; faults = [] }

abbrev reported_counts : List (String × ℕ)
reported_counts =
    ("transcripts", 2)
    ∷ ("debriefs", 0)
    ∷ ("vocabulary", 1)
    ∷ ("review_items", 0)
    ∷ ("sessions", 2)
    ∷ ("missions", 0)
    ∷ ("analytics_events", 0)
    ∷ ("memory_summary", 0)
    ∷ ("user_stats", 1)
    ∷ ("idempotency_keys", 0)
    ∷ []

abbrev later : Db VoiceTables
later = record {
  committed = (purge 1 db).1.committed;
  working = (purge 1 db).1.committed;
  faults = [];
}

-- What is left when it does not fail.
abbrev after : VoiceTables
after = (purge 1 db).1.committed

purge-Erased_example : (reported_counts ≡ reported 1 tables after) × (after ≡ erased 1 tables)
unfolding purge
purge-Erased_example = purge-Erased 1 db

purge-Emptied_example : Emptied 1 tables (purge 1 db).1.committed
unfolding purge
purge-Emptied_example = purge-Emptied 1 db reported_counts refl

purge_others_example :
    SameRows 2 tables (purge 1 db).1.committed × SameSpeech 1 tables (purge 1 db).1.committed
unfolding purge
purge_others_example = purge_others 1 2 db reported_counts (λ e. omega (arith, e)) refl

abbrev number : ℕ → ℕ
number n = n

abbrev numbers : List ℕ
numbers = 2 ∷ 5 ∷ 7 ∷ []

keyset_pages-all_example :
    keyset_pages by_id number 4
      (stable by_id number numbers 2 ((refl, (refl, tt)), ((refl, tt), (tt, tt))) (omega arith))
      2
      0
      none
    ≡ (numbers, true)
keyset_pages-all_example =
    keyset_pages-all by_id number numbers 2 ((refl, (refl, tt)), ((refl, tt), (tt, tt)))
      (omega arith) 4 (omega arith)

-- Two rows are in the first page; by the second, a row has been inserted after the last of them.
abbrev changing : ℕ → Option ℕ → List ℕ
changing i none = 2 ∷ 5 ∷ []
changing i (some c) = (c + 1) ∷ []

changing-IsPage : (i : ℕ) (cursor : Option ℕ) → IsPage by_id number cursor (changing i cursor)
changing-IsPage i none = ((refl, tt), (tt, tt))
changing-IsPage i (some c) = ((tt, tt), (lt→ltb c (c + 1) (omega arith), tt))

keyset_pages-Increasing_example :
    Increasing by_id number (keyset_pages by_id number 9 changing 2 0 none).0
keyset_pages-Increasing_example = keyset_pages-Increasing by_id number changing 2 changing-IsPage 9

-- What the learner said in one of the two sessions.
abbrev hello : Utterance
hello = record { session_id = 5; started_at = ""; text = "Hi" }

stream_utterances-Uttered_example :
    let res = stream_utterances (λ n. "") 3 (λ i. tables) 1 in
    (res.1 ≡ true)
    × (In hello res.0 → Uttered (λ n. "") tables 1 hello)
    × (Uttered (λ n. "") tables 1 hello → In hello res.0)
stream_utterances-Uttered_example =
    stream_utterances-Uttered (λ n. "") tables 1 3 hello
      (((λ e. let n : 5 ≡ 4 = ap (λ k. k.1) e in omega arith), tt), (tt, tt)) (omega arith)
