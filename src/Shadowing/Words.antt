-- ===== src/Shadowing/Words.antt =====
-- How often a repeated word of the target is satisfied, and which words are reported.
use apm.Shared.{
  ℕ, suc, ◌-◌, ◌+◌, ◌≡◌, refl, false, List, [], ◌∷◌, String, str_eq, str_eq_iff, min, map,
  if◌then◌else◌, string_eq, arith,
}
use apm.Shared.Dict.{Dict, insert, lookup-insert}
use apm.Shadowing.{Text, WordComparison, available_of, count_all, compare_all, compare_words}

-- How often a word stands in a list.
abbrev pub occurrences : String → List String → ℕ
occurrences w [] = 0
occurrences w (t ∷ ts) = if str_eq t w then suc (occurrences w ts) else occurrences w ts

available_of-insert :
    (k w : String) (n : ℕ) (d : Dict String ℕ)
    → available_of w (insert k n d) ≡ (if str_eq k w then n else available_of w d)
available_of-insert k w n d = ground (arith, lookup-insert k w n d)

available_of-count_all :
    (w : String) (ts : List String) (d : Dict String ℕ)
    → available_of w (count_all ts d) ≡ available_of w d + occurrences w ts
unfolding count_all
available_of-count_all w [] d = omega arith
available_of-count_all w (t ∷ ts) d = ground (
  arith,
  available_of-count_all w ts (insert t (available_of t d + 1) d),
  available_of-insert t w (available_of t d + 1) d,
  str_eq_iff t w,
)

module _ (text : Text) where
  -- The comparisons of a word that were satisfied.
  abbrev pub heard_count : String → List WordComparison → ℕ
  heard_count w [] = 0
  heard_count w (c ∷ cs) =
      if c.heard
      then (if str_eq (text.normalize c.target) w then suc (heard_count w cs) else heard_count w cs)
      else heard_count w cs

  abbrev pub normalized : List String → List String
  normalized = map text.normalize

  heard_count-compare_all :
      (w : String) (ws : List String) (d : Dict String ℕ)
      → str_eq w "" ≡ false
      → heard_count w (compare_all text ws d)
        ≡ min (occurrences w (normalized ws)) (available_of w d)
  unfolding compare_all
  heard_count-compare_all w [] d e = omega arith
  heard_count-compare_all w (raw ∷ ws) d e =
      let n = text.normalize raw in
      let used = insert n (available_of n d - 1) d in
      ground (
        arith,
        heard_count-compare_all w ws d e,
        heard_count-compare_all w ws used e,
        available_of-insert n w (available_of n d - 1) d,
        str_eq_iff n w,
        str_eq_iff n "",
      )

  -- For every word but the empty one, as many of its places in the target are satisfied as it was heard times, or all
  -- of them if it was heard more often.
  pub compare_words-min :
      (target transcript w : String)
      → str_eq w "" ≡ false
      → heard_count w (compare_words text target transcript)
        ≡ min
            (occurrences w (normalized (text.split target)))
            (occurrences w (text.tokens transcript))
  unfolding compare_words
  compare_words-min target transcript w e = ground (
    arith,
    heard_count-compare_all w (text.split target) (count_all (text.tokens transcript) []) e,
    available_of-count_all w (text.tokens transcript) [],
  )

  -- The words of the target that are not blank once normalized.
  abbrev pub spoken : List String → List String
  spoken [] = []
  spoken (raw ∷ ws) = if str_eq (text.normalize raw) "" then spoken ws else raw ∷ spoken ws

  targets-compare_all :
      (ws : List String) (d : Dict String ℕ)
      → map (λ c. c.target) (compare_all text ws d) ≡ spoken ws
  unfolding compare_all
  targets-compare_all [] d = refl
  targets-compare_all (raw ∷ ws) d =
      let n = text.normalize raw in
      ground (
        arith,
        targets-compare_all ws d,
        targets-compare_all ws (insert n (available_of n d - 1) d),
      )

  -- The report lists the target's own words in their order, each once, whatever was heard.
  pub targets-compare_words :
      (target transcript : String)
      → map (λ c. c.target) (compare_words text target transcript) ≡ spoken (text.split target)
  unfolding compare_words
  targets-compare_words target transcript =
      targets-compare_all (text.split target) (count_all (text.tokens transcript) [])
