-- ===== src/Conversation/Correction.antt =====
-- The live correction of one utterance: `TurnCorrector.correct` of
-- backend/app/features/conversation/correction.py. The language model, the splitting and cutting of
-- text and the JSON of an answer are parameters.
use apm.Shared.{
  ℕ, Bool, true, false, ◌||◌, not, List, [], ◌∷◌, Option, none, some, String, str_eq, ltb, leb, ◌+◌,
  ◌≡◌, ◌≤◌, length, length-take, arith, Bool-cases, inl, inr, if◌then◌else◌, take, map,
}
use Prim.Native.String.{◌++◌ as ◌+++◌}
use mathlib.Core.Path.{subst}
use apm.Database.{Result, ok, err}
use apm.Sessions.Repository.{Message}

pub record TurnCorrection : Type 0 where
  pub original : String
  pub correction : String
  pub rule : String
  pub alternatives : List String

-- The fields of the object in an answer, each as `str(...)` makes it; `alternatives` is absent when
-- it is not a list.
pub record Answer : Type 0 where
  pub has_error : Bool
  pub original : String
  pub correction : String
  pub rule : String
  pub alternatives : Option (List String)

-- `index_of_open` is `text.find("{")`, `index_of_close` is `text.rfind("}")`; `slice s i j` is `s[i:j]`;
-- `loads` reads a text as JSON: nothing when it is not valid, is no object, or a reading of a field
-- raises. `contains text part` is `part in text`, `is_blank s` is `not s.strip()`.
pub record CorrectorText : Type 0 where
  pub count_words : String → ℕ
  pub strip : String → String
  pub prefix : ℕ → String → String
  pub upper : String → String
  pub is_blank : String → Bool
  pub contains : String → String → Bool
  pub index_of_open : String → Option ℕ
  pub index_of_close : String → Option ℕ
  pub slice : String → ℕ → ℕ → String
  pub loads : String → Option Answer

-- features/profile/correction_style.py
pub record CorrectionStyle : Type 0 where
  pub prompt_directive : String
  pub max_errors : ℕ

abbrev gentle : CorrectionStyle
gentle = record {
  prompt_directive =
      "Correction style: GENTLE. Be warm and encouraging. Surface only the single most useful correction and keep explanations short — do not overwhelm the learner.";
  max_errors = 1;
}

abbrev detailed : CorrectionStyle
detailed = record {
  prompt_directive =
      "Correction style: DETAILED. Be thorough. Point out the most useful mistakes and give fuller explanations, with examples and alternatives, so the learner understands the underlying rules.";
  max_errors = 5;
}

unfoldable pub style_for_intensity : String → CorrectionStyle
style_for_intensity intensity = if str_eq intensity "detailed" then detailed else gentle

abbrev drop_blank : CorrectorText → List String → List String
drop_blank py [] = []
drop_blank py (s ∷ ss) = if py.is_blank s then drop_blank py ss else s ∷ drop_blank py ss

module _ (py : CorrectorText) where
  -- core/llm_json.py
  unfoldable pub clip : ℕ → String → String
  clip max_chars value = py.prefix max_chars (py.strip value)

  abbrev object_text : String → Option ℕ → Option ℕ → Option String
  object_text text none end = none
  object_text text (some start) none = none
  object_text text (some start) (some end) =
      if leb end start then none else some (py.slice text start (end + 1))

  unfoldable pub parse_json_object : String → Option Answer
  parse_json_object text =
      elim (object_text text (py.index_of_open text) (py.index_of_close text)) [
        | none ↦ none
        | some inner ↦ py.loads inner
      ]

  unfoldable pub build_prompt : String → String → String → String
  unfolding style_for_intensity
  build_prompt cefr_level native_language intensity =
      "You are an English tutor. The learner just SAID one utterance during a spoken conversation. Decide whether it contains a clear English mistake worth correcting for a CEFR "
      +++ (py.upper cefr_level
          +++ (" learner. Ignore minor speech-recognition artifacts and acceptable informal speech. "
              +++ ((style_for_intensity intensity).prompt_directive
                  +++ (" Reply with ONLY a JSON object, no prose. If there is NO worthwhile mistake: {\"has_error\": false}. Otherwise: {\"has_error\": true, \"original\": \"<exact fault, verbatim from the utterance>\", \"correction\": \"<the corrected form>\", \"rule\": \"<one short grammar rule, written in the language code '"
                      +++ (native_language
                          +++ "'>\", \"alternatives\": [\"<up to two other natural ways to say it>\"]}. Keep it to the single most useful correction.")))))

  abbrev pub alternatives_of : Option (List String) → List String
  alternatives_of none = []
  alternatives_of (some given) = take 2 (map (clip 400) (drop_blank py given))

  abbrev is_useless : String → String → String → Bool
  is_useless text original correction =
      str_eq original ""
      || (str_eq correction "" || (not (py.contains text original) || str_eq original correction))

  abbrev built : Answer → TurnCorrection
  built answer = record {
    original = clip 400 answer.original;
    correction = clip 400 answer.correction;
    rule = clip 400 answer.rule;
    alternatives = alternatives_of answer.alternatives;
  }

  abbrev checked_answer : String → Answer → Option TurnCorrection
  checked_answer text answer =
      if not answer.has_error
      then none
      else if is_useless text (clip 400 answer.original) (clip 400 answer.correction)
      then none
      else some (built answer)

  unfoldable pub read_correction : String → String → Option TurnCorrection
  unfolding parse_json_object clip
  read_correction text raw = elim (parse_json_object raw) [
    | none ↦ none
    | some answer ↦ checked_answer text answer
  ]

  -- `llm prompt messages` is the completion, or what it raises.
  unfoldable pub correct :
      (llm : String → List Message → Result String)
      → (min_words : ℕ) → (text cefr_level native_language intensity : String)
      → Option TurnCorrection
  unfolding read_correction build_prompt
  correct llm min_words text cefr_level native_language intensity =
      if ltb (py.count_words text) min_words
      then none
      else elim (llm (build_prompt cefr_level native_language intensity)
          (record { role = "user"; content = text } ∷ [])) [
            | err e ↦ none
            | ok raw ↦ read_correction text raw
          ]

-- What a correction promises to the learner who said `text`.
abbrev pub Anchored : CorrectorText → String → TurnCorrection → Type 0
Anchored py text c =
    (str_eq c.original "" ≡ false)
    × (str_eq c.correction "" ≡ false)
    × (py.contains text c.original ≡ true)
    × (str_eq c.original c.correction ≡ false)
    × (length c.alternatives ≤ 2)

length-alternatives_of :
    (py : CorrectorText) (given : Option (List String)) → length (alternatives_of py given) ≤ 2
length-alternatives_of py none = omega arith
length-alternatives_of py (some given) =
    omega (arith, length-take 2 (map (clip py 400) (drop_blank py given)))

useful-cases :
    (py : CorrectorText) (text original correction : String)
    → is_useless py text original correction ≡ false
    → (str_eq original "" ≡ false)
      × (str_eq correction "" ≡ false)
      × (py.contains text original ≡ true)
      × (str_eq original correction ≡ false)
useful-cases py text original correction h = ground arith

checked_answer-Anchored :
    (py : CorrectorText) (text : String) (answer : Answer) (c : TurnCorrection)
    → checked_answer py text answer ≡ some c
    → Anchored py text c
checked_answer-Anchored py text answer c e =
    let original = clip py 400 answer.original in
    let correction = clip py 400 answer.correction in
    let few = length-alternatives_of py answer.alternatives in
    elim (Bool-cases (answer.has_error)) [
      | inr f ↦ absurd (ground arith)
      | inl t ↦ elim (Bool-cases (is_useless py text original correction)) [
        | inl u ↦ absurd (ground arith)
        | inr u ↦
            let q : some (built py answer) ≡ some c = rw (t, u) at e in
            let (a, b, d, f) = useful-cases py text original correction u in
            let eq : built py answer ≡ c = cc in subst (Anchored py text) eq (a, b, d, f, few)
      ]
    ]

-- A correction that is returned quotes what the learner said, changes it, and has at most two
-- alternatives, whatever the language model answers.
pub correct-Anchored :
    (py : CorrectorText) (llm : String → List Message → Result String) (min_words : ℕ)
    (text cefr_level native_language intensity : String) (c : TurnCorrection)
    → correct py llm min_words text cefr_level native_language intensity ≡ some c
    → Anchored py text c
unfolding correct read_correction
correct-Anchored py llm min_words text cefr_level native_language intensity c e =
    ground (arith, checked_answer-Anchored py text)
