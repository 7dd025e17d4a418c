-- ===== src/Shadowing/Tests.antt =====
-- A phrase with a repeated word.
use apm.Shared.{◌≡◌, refl, [], ◌∷◌, min}
use apm.Shadowing.{Text, compare_words}
use apm.Shadowing.Words.{heard_count, occurrences, normalized, compare_words-min}

-- A text is one word, said twice.
abbrev text : Text
text = record { tokens = λ s. s ∷ []; split = λ s. s ∷ s ∷ []; normalize = λ s. s }

compare_words-min_example :
    heard_count text "no" (compare_words text "no" "no")
    ≡ min (occurrences "no" (normalized text ("no" ∷ "no" ∷ []))) (occurrences "no" ("no" ∷ []))
compare_words-min_example = compare_words-min text "no" "no" "no" refl
