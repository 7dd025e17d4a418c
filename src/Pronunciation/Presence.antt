-- ===== src/Pronunciation/Presence.antt =====
-- The scores and the shadowing comparison follow the same rule.
use apm.Shared.{
  sym, ap, ◌∙◌, ℕ, suc, ◌-◌, ◌+◌, ◌≡◌, refl, Bool, true, false, List, [], ◌∷◌, ◌++◌, Option, none,
  some, String, str_eq, map, length, length-append, if◌then◌else◌, string_eq, arith, Bool-cases,
  inl, inr,
}
use apm.Shared.Dict.{Dict, insert, lookup-insert}
use apm.Shadowing.{Text, WordComparison, available_of, count_all, compare_all, compare_words}
use apm.Pronunciation.{
  Verdict, unknown, missed, present, scored, WordScore, TranscriptWord, queue_of, bucket_all,
  score_all, score_words,
}

module _ {F : Type 0} (text : Text) (clamp : F → F) where
  abbrev pub is_heard : Verdict F → Bool
  is_heard unknown = false
  is_heard missed = false
  is_heard present = true
  is_heard (scored p) = true

  -- A score as a comparison: the word, and whether it was heard.
  abbrev pub as_comparison : WordScore F → WordComparison
  as_comparison s = record { target = s.word; heard = is_heard s.verdict }

  -- The heard words in their normal forms, without the blank ones.
  abbrev pub heard_tokens : List (TranscriptWord F) → List String
  heard_tokens [] = []
  heard_tokens (tw ∷ tws) =
      if str_eq (text.normalize tw.word) ""
      then heard_tokens tws
      else text.normalize tw.word ∷ heard_tokens tws

  -- As many probabilities wait as occurrences are left.
  abbrev Agree : Dict String (List (Option F)) → Dict String ℕ → Type 0
  Agree h d = (w : String) → length (queue_of w h) ≡ available_of w d

  queue_of-insert :
      (k w : String) (ps : List (Option F)) (h : Dict String (List (Option F)))
      → queue_of w (insert k ps h) ≡ (if str_eq k w then ps else queue_of w h)
  queue_of-insert k w ps h = ground (arith, lookup-insert k w ps h)

  available_of-insert :
      (k w : String) (n : ℕ) (d : Dict String ℕ)
      → available_of w (insert k n d) ≡ (if str_eq k w then n else available_of w d)
  available_of-insert k w n d = ground (arith, lookup-insert k w n d)

  Agree-insert :
      (k : String) (ps : List (Option F)) (n : ℕ) (h : Dict String (List (Option F)))
      (d : Dict String ℕ)
      → length ps ≡ n
      → Agree h d
      → Agree (insert k ps h) (insert k n d)
  Agree-insert k ps n h d e a w =
      ground (arith, a w, e, queue_of-insert k w ps h, available_of-insert k w n d)

  Agree-bucket_all :
      (tws : List (TranscriptWord F)) (h : Dict String (List (Option F))) (d : Dict String ℕ)
      → Agree h d
      → Agree (bucket_all text tws h) (count_all (heard_tokens tws) d)
  unfolding bucket_all count_all
  Agree-bucket_all [] h d a = a
  Agree-bucket_all (tw ∷ tws) h d a = elim (Bool-cases (str_eq (text.normalize tw.word) "")) [
    | inl blank ↦ rw (blank, bucket_all) (Agree-bucket_all tws h d a)
    | inr word ↦
        let k = text.normalize tw.word in
        rw (word, bucket_all)
          (Agree-bucket_all tws (insert k (queue_of k h ++ (tw.probability ∷ [])) h)
            (insert k (available_of k d + 1) d)
            (Agree-insert k (queue_of k h ++ (tw.probability ∷ [])) (available_of k d + 1) h d
              (omega (arith, length-append (queue_of k h) (tw.probability ∷ []), a k)) a))
  ]

  -- On buckets that agree with the counts, both loops report the same.
  abbrev SameReport : List String → Type 0
  SameReport ws =
      (h : Dict String (List (Option F))) (d : Dict String ℕ)
      → Agree h d
      → map as_comparison (score_all text clamp ws h) ≡ compare_all text ws d

  SameReport-cons :
      (raw : String) (ws : List String) (h : Dict String (List (Option F))) (d : Dict String ℕ)
      (q : List (Option F))
      → str_eq (text.normalize raw) "" ≡ false
      → queue_of (text.normalize raw) h ≡ q
      → SameReport ws
      → Agree h d
      → map as_comparison (score_all text clamp (raw ∷ ws) h) ≡ compare_all text (raw ∷ ws) d
  unfolding score_all compare_all
  SameReport-cons raw ws h d [] word e ih a =
      let none_left : available_of (text.normalize raw) d ≡ 0 =
        sym (a (text.normalize raw)) ∙ ap length e in
      ground (arith, word, e, none_left, ih h d a)
  SameReport-cons raw ws h d (none ∷ ps) word e ih a =
      let k = text.normalize raw in
      let left : available_of k d ≡ suc (length ps) = sym (a k) ∙ ap length e in
      let agree : Agree (insert k ps h) (insert k (available_of k d - 1) d) =
        Agree-insert k ps (available_of k d - 1) h d (omega arith) a in
      ground (arith, word, e, left, ih (insert k ps h) (insert k (available_of k d - 1) d) agree)
  SameReport-cons raw ws h d (some x ∷ ps) word e ih a =
      let k = text.normalize raw in
      let left : available_of k d ≡ suc (length ps) = sym (a k) ∙ ap length e in
      let agree : Agree (insert k ps h) (insert k (available_of k d - 1) d) =
        Agree-insert k ps (available_of k d - 1) h d (omega arith) a in
      ground (arith, word, e, left, ih (insert k ps h) (insert k (available_of k d - 1) d) agree)

  score_all-compare_all : (ws : List String) → SameReport ws
  unfolding score_all compare_all
  score_all-compare_all [] h d a = refl
  score_all-compare_all (raw ∷ ws) h d a = elim (Bool-cases (str_eq (text.normalize raw) "")) [
    | inl blank ↦ ground (arith, blank, score_all-compare_all ws h d a)
    | inr word ↦
        SameReport-cons raw ws h d (queue_of (text.normalize raw) h) word refl
          (score_all-compare_all ws) a
  ]

  -- With per-word data and a transcript whose tokens are the heard words, the scores report the same
  -- words as the shadowing comparison, in the same order, and a word is scored as heard exactly when
  -- the comparison finds it heard.
  pub score_words-compare_words :
      (target transcript : String) (tw : TranscriptWord F) (tws : List (TranscriptWord F))
      → text.tokens transcript ≡ heard_tokens (tw ∷ tws)
      → map as_comparison (score_words text clamp target (tw ∷ tws))
        ≡ compare_words text target transcript
  unfolding score_words compare_words
  score_words-compare_words target transcript tw tws e = rw e (
      score_all-compare_all (text.split target) (bucket_all text (tw ∷ tws) [])
        (count_all (heard_tokens (tw ∷ tws)) []) (Agree-bucket_all (tw ∷ tws) [] [] (λ w. refl)))
