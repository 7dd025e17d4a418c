-- ===== src/Shadowing.antt =====
-- Spoken phrases against their target: `compare_words` and `missed_words` of
-- backend/app/features/shadowing/diff.py. The tokens of a text, its words as written and the
-- normalization of a word are Python's `re` and `str`, and parameters.
pub mod Words
mod Tests
use apm.Shared.{
  ℕ, suc, ◌-◌, ◌+◌, Bool, true, false, List, [], ◌∷◌, Option, none, some, String, str_eq, ltb,
  if◌then◌else◌, string_eq,
}
use apm.Shared.Dict.{Dict, lookup, insert}

pub record Text : Type 0 where
  pub tokens : String → List String
  pub split : String → List String
  pub normalize : String → String

pub record WordComparison : Type 0 where
  pub target : String
  pub heard : Bool

-- `available.get(token, 0)`
abbrev pub available_of : String → Dict String ℕ → ℕ
available_of w d = elim (lookup w d) [ none ↦ 0 | some n ↦ n ]

-- The loop that counts the heard tokens.
unfoldable pub count_all : List String → Dict String ℕ → Dict String ℕ
count_all [] d = d
count_all (t ∷ ts) d = count_all ts (insert t (available_of t d + 1) d)

-- The loop over the target's words.
unfoldable pub compare_all : Text → List String → Dict String ℕ → List WordComparison
compare_all text [] d = []
compare_all text (raw ∷ ws) d =
    let w = text.normalize raw in
    let skipped = compare_all text ws d in
    let missed = compare_all text ws d in
    let consumed = compare_all text ws (insert w (available_of w d - 1) d) in
    if str_eq w ""
    then skipped
    else if ltb 0 (available_of w d)
    then record { target = raw; heard = true } ∷ consumed
    else record { target = raw; heard = false } ∷ missed

unfoldable pub compare_words : Text → String → String → List WordComparison
unfolding count_all compare_all
compare_words text target transcript =
    compare_all text (text.split target) (count_all (text.tokens transcript) [])

unfoldable pub missed_words : List WordComparison → List String
missed_words [] = []
missed_words (c ∷ cs) = let rest = missed_words cs in if c.heard then rest else c.target ∷ rest
