-- ===== src/Streaks/Tests.antt =====
-- A history of days, and what the theorems give on it.
use apm.Shared.{ℕ, ◌≤◌, arith, List, [], ◌∷◌}
use apm.Shared.{nat_eq}
use apm.Shared.Int.{ℤ}
use apm.Shared.Dict.{Dict}
use apm.Streaks.Runs.{replay}
use apm.Streaks.Days.{IsRun, AllActive, replay-IsRun}

abbrev days : List ℕ
days = 12 ∷ 11 ∷ 11 ∷ 10 ∷ 5 ∷ 4 ∷ []

replay-IsRun_example :
    IsRun 12 (replay days).current_streak days
    × ((last : ℕ) × AllActive last (replay days).longest_streak days)
    × ((last n : ℕ) → AllActive last n days → n ≤ (replay days).longest_streak)
replay-IsRun_example =
    replay-IsRun 12 (11 ∷ 11 ∷ 10 ∷ 5 ∷ 4 ∷ [])
      (omega arith, (omega arith, (omega arith, (omega arith, (omega arith, tt)))))

abbrev user : ℕ
user = 1

abbrev other : ℕ
other = 2

abbrev no_goals : Dict ℕ ℤ
no_goals = []
