-- ===== src/Debrief/Enrichment.antt =====
-- What follows a debrief: `PostDebriefEnrichment` of backend/app/features/debrief/enrichment.py. The
-- three services are parameters, which act on a world of their own and may raise.
use apm.Shared.{
  not, ◌&&◌, ℕ, ◌≡◌, true, false, List, [], ◌∷◌, Option, none, some, String, str_eq, str_eq_iff,
  arith, if◌then◌else◌, Option-cases, Bool-cases, inl, inr, length, refl, string_eq,
}
use apm.Shared.Dict.{Dict, lookup, insert, contains, lookup-insert}
use apm.Database.{Result}
use apm.Conversation.Prompt.{is_empty}
use apm.VoiceData.Rows.{DebriefError}
use apm.Debrief.Analyzer.{DebriefResult, VocabularyWord}

-- `seen.setdefault(key, value)`
abbrev pub setdefault : String → String → Dict String String → Dict String String
setdefault key value seen = if contains key seen then seen else insert key value seen

-- The loop of `_schedule_review`.
unfoldable pub errors_seen :
    (String → String) → List DebriefError → Dict String String → Dict String String
errors_seen strip [] seen = seen
errors_seen strip (e ∷ es) seen =
    errors_seen strip es
      (if is_empty (strip e.error_type) then seen else setdefault e.error_type e.correction seen)

abbrev pub Effect : Type 0 → Type 0
Effect W = W → Result (Unit {0}) × W

module _ {W : Type 0} where
  -- `try: ... except Exception:` a warning
  abbrev pub swallowed : Effect W → W → W
  swallowed f w = (f w).1

  module _ (vocabulary : Option (ℕ → ℕ → List VocabularyWord → Effect W))
      (review : Option (ℕ → Dict String String → ℕ → Effect W))
      (analytics : Option (ℕ → ℕ → String → ℕ → Effect W)) (strip : String → String) (now : ℕ) where
    abbrev pub capture_vocabulary : ℕ → ℕ → DebriefResult → W → W
    capture_vocabulary user_id session_id r w = elim vocabulary [
      | none ↦ w
      | some capture ↦ elim r.words [
        | [] ↦ w
        | ◌∷◌ x xs ↦ swallowed (capture user_id session_id (x ∷ xs)) w
      ]
    ]

    abbrev pub schedule_review : ℕ → DebriefResult → W → W
    schedule_review user_id r w = elim review [
      | none ↦ w
      | some record_session ↦
          swallowed (record_session user_id (errors_seen strip r.errors []) now) w
    ]

    abbrev pub emit_analytics : ℕ → ℕ → DebriefResult → ℕ → W → W
    emit_analytics user_id session_id r error_count w = elim analytics [
      | none ↦ w
      | some session_completed ↦
          swallowed (session_completed user_id session_id r.cefr_estimate error_count) w
    ]

    -- `run`, which always returns; `errors` are the errors as they are stored.
    unfoldable pub run_enrichment : ℕ → ℕ → DebriefResult → List DebriefError → W → W
    unfolding errors_seen
    run_enrichment user_id session_id r errors w =
        let captured = capture_vocabulary user_id session_id r w in
        let scheduled = schedule_review user_id r captured in
        emit_analytics user_id session_id r (length errors) scheduled

contained :
    (key : String) (seen : Dict String String)
    → contains key seen ≡ elim (lookup key seen) [ none ↦ false | some c ↦ true ]
contained key [] = refl
contained key ((k, v) ∷ seen) = ground (arith, contained key seen)

-- What a key holds, or the new value of the other key.
abbrev or_new : String → String → String → Option String → Option String
or_new k key value none = if str_eq key k then some value else none
or_new k key value (some c) = some c

lookup-setdefault :
    (k key value : String) (seen : Dict String String)
    → lookup k (setdefault key value seen) ≡ or_new k key value (lookup k seen)
lookup-setdefault k key value seen = ground (
  arith,
  contained key seen,
  lookup-insert key k value seen,
  str_eq_iff key k,
  Option-cases (lookup k seen),
)

-- The correction of the first error of a type that is not blank.
abbrev pub first_correction : (String → String) → String → List DebriefError → Option String
first_correction strip k [] = none
first_correction strip k (e ∷ es) =
    let rest = first_correction strip k es in
    if not (is_empty (strip e.error_type)) && str_eq e.error_type k then some e.correction else rest

abbrev or_else : Option String → Option String → Option String
or_else none other = other
or_else (some c) other = some c

errors_seen-lookup :
    (strip : String → String) (k : String) (es : List DebriefError) (seen : Dict String String)
    → lookup k (errors_seen strip es seen) ≡ or_else (lookup k seen) (first_correction strip k es)
unfolding errors_seen
errors_seen-lookup strip k [] seen = ground (arith, Option-cases (lookup k seen))
errors_seen-lookup strip k (e ∷ es) seen = elim (Bool-cases (is_empty (strip e.error_type))) [
  | inl t ↦ rw t (errors_seen-lookup strip k es seen)
  | inr t ↦ rw t (
      ground (
        arith,
        errors_seen-lookup strip k es (setdefault e.error_type e.correction seen),
        lookup-setdefault k e.error_type e.correction seen,
        Option-cases (lookup k seen),
      ))
]

-- The review is handed, for each type of error that is not blank, the correction of the first error of
-- that type, and nothing else.
errors_seen-first :
    (strip : String → String) (k : String) (es : List DebriefError)
    → lookup k (errors_seen strip es []) ≡ first_correction strip k es
errors_seen-first strip k es = errors_seen-lookup strip k es []
