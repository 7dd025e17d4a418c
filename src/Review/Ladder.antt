-- ===== src/Review/Ladder.antt =====
-- The ladder: J+1, J+3, J+7, and mastery after three clean reviews that were due.
use apm.Shared.{ℕ, ◌+◌, ◌≤◌, ◌<◌, ◌≡◌, refl, false, none, some, String, List, [], ◌∷◌, arith}
use apm.Clock.{days}
use apm.Review.{ReviewState, due, mastered, initial, on_error_seen, on_error_absent, is_early}

-- What every stored state satisfies: the stage is a rung of the ladder and is the streak while the
-- item is being learned, and an item is mastered exactly when it has no review date but a streak.
pub record IsValid (s : ReviewState) : Type 0 where
  pub on_ladder : s.stage ≤ 2
  pub learning : s.status ≡ due → (s.stage ≡ s.clean_streak) × (s.clean_streak ≤ 2)
  pub learned : s.status ≡ mastered → (s.clean_streak ≡ 3) × (s.next_review_at ≡ none)

initial-IsValid : IsValid initial
initial-IsValid = record {
  on_ladder = omega arith;
  learning = λ e. omega arith;
  learned = λ e. absurd (cc);
}

on_error_seen-IsValid :
    (s : ReviewState) (correction : String) (now : ℕ) → IsValid (on_error_seen s correction now)
unfolding on_error_seen
on_error_seen-IsValid s correction now = record {
  on_ladder = omega arith;
  learning = λ e. (omega arith, omega arith);
  learned = λ e. absurd (cc);
}

on_error_absent-IsValid : (s : ReviewState) (now : ℕ) → IsValid s → IsValid (on_error_absent s now)
unfolding on_error_absent
on_error_absent-IsValid s now v = record {
  on_ladder = ground (arith, v.on_ladder);
  learning = λ e. ground (arith, v.learning);
  learned = λ e. ground (arith, v.learned, v.learning);
}

-- A clean session before the review date changes nothing, however many there are.
on_error_absent_early :
    (s : ReviewState) (at now : ℕ)
    → s.next_review_at ≡ some at
    → now < at
    → on_error_absent s now ≡ s
unfolding on_error_absent
on_error_absent_early s at now e h = ground arith

-- The clean sessions of a list of instants, one after another.
abbrev pub absent_all : ReviewState → List ℕ → ReviewState
absent_all s [] = s
absent_all s (t ∷ ts) = absent_all (on_error_absent s t) ts

abbrev pub AllBefore : ℕ → List ℕ → Type 0
AllBefore limit [] = Unit
AllBefore limit (t ∷ ts) = (t < limit) × AllBefore limit ts

-- No number of clean sessions before the review date moves an item.
pub absent_all_early :
    (s : ReviewState) (at : ℕ) (ts : List ℕ)
    → s.next_review_at ≡ some at
    → AllBefore at ts
    → absent_all s ts ≡ s
absent_all_early s at [] e h = refl
absent_all_early s at (t ∷ ts) e h =
    rw (on_error_absent_early s at t e h.0) (absent_all_early s at ts e h.1)

-- From a mistake at `now`, clean sessions at or after the review dates J+1, then J+3, then J+7 climb
-- the ladder and master the item at the third; no clean session then changes it.
pub mastery :
    (s : ReviewState) (correction : String) (now a b c : ℕ)
    → now + days 1 ≤ a
    → a + days 3 ≤ b
    → b + days 7 ≤ c
    → let seen = on_error_seen s correction now in
      let first = on_error_absent seen a in
      let second = on_error_absent first b in
      let third = on_error_absent second c in
      (seen.next_review_at ≡ some (now + days 1))
      × (first.next_review_at ≡ some (a + days 3))
      × (second.next_review_at ≡ some (b + days 7))
      × (second.status ≡ due)
      × (third.status ≡ mastered)
      × (third.next_review_at ≡ none)
      × ((t : ℕ) → on_error_absent third t ≡ third)
unfolding on_error_seen on_error_absent
mastery s correction now a b c ha hb hc = (
  ground arith,
  ground arith,
  ground arith,
  ground arith,
  ground arith,
  ground arith,
  λ t. ground arith,
)

-- An item is mastered by a clean session only if the review was due, and by no fewer than three such
-- sessions since the last mistake.
pub mastered_only :
    (s : ReviewState) (now : ℕ)
    → IsValid s
    → s.status ≡ due
    → (on_error_absent s now).status ≡ mastered
    → (s.clean_streak ≡ 2) × (is_early s.next_review_at now ≡ false)
unfolding on_error_absent
mastered_only s now v e h = ground (arith, v.learning)
