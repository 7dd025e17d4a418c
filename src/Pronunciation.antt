-- ===== src/Pronunciation.antt =====
-- Scores of spoken words: `score_words` of backend/app/features/pronunciation/scorer.py. A probability
-- is a float and a parameter, with the source's clamp and rounding of it; Python's text functions are
-- those of Shadowing.
pub mod Presence
mod Tests
use apm.Shared.{
  ℕ, Bool, true, false, List, [], ◌∷◌, ◌++◌, Option, none, some, String, str_eq, if◌then◌else◌,
  string_eq,
}
use apm.Shared.Dict.{Dict, lookup, insert}
use apm.Shadowing.{Text}

-- The score and its confidence together: `unknown` has neither, `missed` is 0.0, `present` 1.0 and
-- `scored` a probability of the provider, each with the confidence of a presence.
pub data Verdict (F : Type 0) : Type 0 where
  unknown missed present : Verdict F
  scored : F → Verdict F

pub record WordScore (F : Type 0) : Type 0 where
  pub word : String
  pub verdict : Verdict F

pub record TranscriptWord (F : Type 0) : Type 0 where
  pub word : String
  pub probability : Option F

module _ {F : Type 0} where
  abbrev pub queue_of : String → Dict String (List (Option F)) → List (Option F)
  queue_of w h = elim (lookup w h) [ none ↦ [] | some ps ↦ ps ]

  -- The loop that buckets the heard words.
  unfoldable pub bucket_all :
      Text → List (TranscriptWord F) → Dict String (List (Option F)) → Dict String (List (Option F))
  bucket_all text [] h = h
  bucket_all text (tw ∷ tws) h =
      let key = text.normalize tw.word in
      let skipped = bucket_all text tws h in
      let added = bucket_all text tws (insert key (queue_of key h ++ (tw.probability ∷ [])) h) in
      if str_eq key "" then skipped else added

  abbrev pub verdict_of : (F → F) → Option F → Verdict F
  verdict_of clamp none = present
  verdict_of clamp (some p) = scored (clamp p)

  -- `probs = heard.get(key)`, and what is appended for the word.
  abbrev judge :
      (F → F)
      → String
      → List (Option F)
      → List (WordScore F)
      → (List (Option F) → List (WordScore F))
      → List (WordScore F)
  judge clamp raw [] rest popped = record { word = raw; verdict = missed } ∷ rest
  judge clamp raw (p ∷ ps) rest popped =
      record { word = raw; verdict = verdict_of clamp p } ∷ popped ps

  unfoldable pub score_all :
      Text → (F → F) → List String → Dict String (List (Option F)) → List (WordScore F)
  score_all text clamp [] h = []
  score_all text clamp (raw ∷ ws) h =
      let key = text.normalize raw in
      let rest = score_all text clamp ws h in
      let popped = λ (ps : List (Option F)). score_all text clamp ws (insert key ps h) in
      if str_eq key "" then rest else judge clamp raw (queue_of key h) rest popped

  abbrev pub unknown_all : Text → List String → List (WordScore F)
  unknown_all text [] = []
  unknown_all text (raw ∷ ws) =
      if str_eq (text.normalize raw) ""
      then unknown_all text ws
      else record { word = raw; verdict = unknown } ∷ unknown_all text ws

  unfoldable pub score_words :
      Text → (F → F) → String → List (TranscriptWord F) → List (WordScore F)
  unfolding bucket_all score_all
  score_words text clamp target [] = unknown_all text (text.split target)
  score_words text clamp target (tw ∷ tws) =
      score_all text clamp (text.split target) (bucket_all text (tw ∷ tws) [])
