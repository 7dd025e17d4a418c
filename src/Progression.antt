-- ===== src/Progression.antt =====
-- Levels and limits: `next_cefr_level` of backend/app/features/debrief/cefr.py, and `resolve_limit` of
-- backend/app/core/pagination.py.
pub mod Level
pub mod Page
mod Tests
use apm.Shared.{
  ℕ, suc, ◌+◌, ◌-◌, List, [], ◌∷◌, Option, none, some, String, str_eq, ltb, get_or, if◌then◌else◌,
}
use apm.Shared.Int.{ℤ, pos, ltb_ℤ}

abbrev pub cefr_levels : List String
cefr_levels = "A1" ∷ "A2" ∷ "B1" ∷ "B2" ∷ "C1" ∷ "C2" ∷ []

-- `CEFR_LEVELS.index(level)`, for a level that is in the list.
abbrev pub index : List String → String → Option ℕ
index [] level = none
index (l ∷ ls) level =
    if str_eq l level then some 0 else elim (index ls level) [ none ↦ none | some i ↦ some (suc i) ]

abbrev pub rank : String → Option ℕ
rank = index cefr_levels

-- An unknown current level stands for A1.
abbrev pub rank_or_first : String → ℕ
rank_or_first level = elim (rank level) [ none ↦ 0 | some i ↦ i ]

abbrev pub known_or_first : String → String
known_or_first level = elim (rank level) [ none ↦ "A1" | some i ↦ level ]

unfoldable pub next_cefr_level : String → String → String
next_cefr_level current estimate =
    let cur = rank_or_first current in
    elim (rank estimate) [
      | none ↦ known_or_first current
      | some est ↦
          if ltb cur est
          then get_or cefr_levels (cur + 1) ""
          else if ltb est cur
          then get_or cefr_levels (cur - 1) ""
          else known_or_first current
    ]

abbrev pub default_page_size : ℤ
default_page_size = pos 50

abbrev pub max_page_size : ℤ
max_page_size = pos 100

-- Python's `min` and `max` of two integers.
abbrev pub min_ℤ : ℤ → ℤ → ℤ
min_ℤ a b = if ltb_ℤ b a then b else a

abbrev pub max_ℤ : ℤ → ℤ → ℤ
max_ℤ a b = if ltb_ℤ a b then b else a

unfoldable pub resolve_limit : Option ℤ → (default maximum : ℤ) → ℤ
resolve_limit none default maximum = default
resolve_limit (some requested) default maximum = max_ℤ (pos 1) (min_ℤ requested maximum)
