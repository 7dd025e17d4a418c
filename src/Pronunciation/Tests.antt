-- ===== src/Pronunciation/Tests.antt =====
-- A phrase of one word that was heard.
use apm.Shared.{◌≡◌, refl, [], ◌∷◌, some, String, map}
use apm.Shadowing.{Text, compare_words}
use apm.Pronunciation.{TranscriptWord, score_words}
use apm.Pronunciation.Presence.{as_comparison, score_words-compare_words}

abbrev text : Text
text = record { tokens = λ s. s ∷ []; split = λ s. s ∷ s ∷ []; normalize = λ s. s }

abbrev clamp : String → String
clamp p = p

abbrev heard : TranscriptWord String
heard = record { word = "no"; probability = some "0.9" }

score_words-compare_words_example :
    map (as_comparison text clamp) (score_words text clamp "no" (heard ∷ []))
    ≡ compare_words text "no" "no"
score_words-compare_words_example = score_words-compare_words text clamp "no" "no" heard [] refl
