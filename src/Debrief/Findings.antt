-- ===== src/Debrief/Findings.antt =====
-- What an analysis may tell the learner, whatever the language model answers.
use apm.Shared.{
  ℕ, ◌≤◌, ◌≡◌, refl, true, false, Bool-cases, inl, inr, List, [], ◌∷◌, String, arith, length,
  length-take, take, if◌then◌else◌,
}
use mathlib.Core.Path.{subst}
use apm.Shared.Table.{All}
use apm.Database.{Result, ok, err}
use apm.Sessions.Repository.{Message}
use apm.Conversation.Prompt.{is_empty}
use apm.Conversation.Correction.{style_for_intensity}
use apm.VoiceData.Rows.{DebriefError}
use apm.Debrief.Analyzer.{
  AnalyzerText, ErrorItem, VocabularyWord, Analysis, DebriefResult, elem, canonical_error_types,
  valid_cefr, aliased, read_analysis, read_answer, normalize_error_type, keep_errors, keep_words,
  learner_text_of, result_of, analyze, parse_debrief_json,
}

known_or_other :
    (name default : String) (known : List String)
    → elem default known ≡ true
    → elem (if elem name known then name else default) known ≡ true
known_or_other name default known h = elim (Bool-cases (elem name known)) [
  | inl t ↦ rw t t
  | inr f ↦ rw f h
]

module _ (py : AnalyzerText) where
  -- Every error has one of the sixteen types.
  pub normalize_error_type-canonical :
      (value : String) → elem (normalize_error_type py value) canonical_error_types ≡ true
  unfolding normalize_error_type
  normalize_error_type-canonical value =
      known_or_other (aliased py value) "other" canonical_error_types refl

  -- An error quotes the learner and has a canonical type.
  abbrev pub Quotes : String → DebriefError → Type 0
  Quotes learner_text e =
      (is_empty e.original ≡ false)
      × (py.contains learner_text e.original ≡ true)
      × (elem e.error_type canonical_error_types ≡ true)

  keep_errors-Quotes :
      (learner_text : String) (items : List ErrorItem)
      → All (Quotes learner_text) (keep_errors py learner_text items)
        × (length (keep_errors py learner_text items) ≤ length items)
  keep_errors-Quotes learner_text [] = (tt, omega arith)
  keep_errors-Quotes learner_text (item ∷ rest) =
      let (all, few) = keep_errors-Quotes learner_text rest in
      let canonical = normalize_error_type-canonical item.error_type in
      elim (Bool-cases (is_empty item.original)) [
        | inl blank ↦ rw blank (all, omega (arith, few))
        | inr full ↦ elim (Bool-cases (py.contains learner_text item.original)) [
          | inl quoted ↦ rw (full, quoted) (((full, quoted, canonical), all), omega (arith, few))
          | inr made_up ↦ rw (full, made_up) (all, omega (arith, few))
        ]
      ]

  length-keep_words : (words : List VocabularyWord) → length (keep_words py words) ≤ length words
  length-keep_words [] = omega arith
  length-keep_words (w ∷ rest) = ground (arith, length-keep_words rest)

  abbrev pub Grounded : ℕ → String → DebriefResult → Type 0
  Grounded max_errors learner_text r =
      All (Quotes learner_text) r.errors
      × (length r.errors ≤ max_errors)
      × (length r.words ≤ 3)
      × (elem r.cefr_estimate valid_cefr ≡ true)

  result_of-Grounded :
      (max_errors : ℕ) (learner_text fallback_cefr : String) (a : Analysis)
      → elem fallback_cefr valid_cefr ≡ true
      → Grounded max_errors learner_text (result_of py max_errors learner_text fallback_cefr a)
  result_of-Grounded max_errors learner_text fallback_cefr a known =
      let (all, few) = keep_errors-Quotes learner_text (take max_errors a.errors) in
      let most = length-take max_errors a.errors in
      let words = length-keep_words (take 3 a.words) in
      let three = length-take 3 a.words in
      (
        all,
        omega (arith, few, most),
        omega (arith, words, three),
        known_or_other a.cefr_estimate fallback_cefr valid_cefr known,
      )

  read_analysis-Grounded :
      (max_errors : ℕ) (learner_text fallback_cefr : String) (r : DebriefResult)
      (a : Result Analysis)
      → elem fallback_cefr valid_cefr ≡ true
      → read_analysis py max_errors learner_text fallback_cefr a ≡ ok r
      → Grounded max_errors learner_text r
  read_analysis-Grounded max_errors learner_text fallback_cefr r (err x) known e =
      absurd (let y : err x ≡ ok r = e in cc)
  read_analysis-Grounded max_errors learner_text fallback_cefr r (ok a) known e =
      let same : result_of py max_errors learner_text fallback_cefr a ≡ r = cc in
      subst (Grounded max_errors learner_text) same
        (result_of-Grounded max_errors learner_text fallback_cefr a known)

  read_answer-Grounded :
      (max_errors : ℕ) (learner_text fallback_cefr : String) (r : DebriefResult)
      (raw : Result String)
      → elem fallback_cefr valid_cefr ≡ true
      → read_answer py max_errors learner_text fallback_cefr raw ≡ ok r
      → Grounded max_errors learner_text r
  read_answer-Grounded max_errors learner_text fallback_cefr r (err x) known e =
      absurd (let y : err x ≡ ok r = e in cc)
  read_answer-Grounded max_errors learner_text fallback_cefr r (ok raw) known e =
      read_analysis-Grounded max_errors learner_text fallback_cefr r (parse_debrief_json py raw)
        known e

  -- Whatever the language model answers, an analysis that returns reports at most as many errors as the
  -- learner's intensity allows, each quoting the learner's own text and of a canonical type, at most
  -- three words, and a level of the CEFR, when the level to fall back on is one.
  pub analyze-Grounded :
      (nonce : String) (decimal : ℕ → String) (llm : String → List Message → Result String)
      (max_learner_turns : ℕ) (turns : List Message)
      (native_language fallback_cefr intensity : String) (r : DebriefResult)
      → elem fallback_cefr valid_cefr ≡ true
      → analyze py nonce decimal llm max_learner_turns turns native_language fallback_cefr intensity
        ≡ ok r
      → Grounded
          (style_for_intensity intensity).max_errors
          (learner_text_of py max_learner_turns turns)
          r
  unfolding analyze
  analyze-Grounded nonce decimal llm max_learner_turns turns native_language fallback_cefr intensity
        r known e =
      read_answer-Grounded _ _ fallback_cefr r _ known e
