-- ===== src/Streaks/Runs.antt =====
-- The streak as a recursion over the whole history of active days, from turn to turn; Days says what it
-- is of the set of these days.
use apm.Shared.{
  ℕ, ◌+◌, ◌≤◌, ◌<◌, ◌≡◌, refl, ◌∙◌, List, [], ◌∷◌, some, max, arith, ◌==◌, if◌then◌else◌,
}
use mathlib.Core.Path.{ap₂}
use apm.Streaks.{StreakState, fresh, register_active_day, current_streak_for}

-- A history lists the day of each turn, the latest first.
abbrev pub replay : List ℕ → StreakState
replay [] = fresh
replay (d ∷ ds) = register_active_day (replay ds) d

-- The turns down from the head of a history that are of the same day as the one before them or of the
-- day after it, counted by days.
unfoldable pub run_length : List ℕ → ℕ
run_length [] = 0
run_length (d ∷ []) = 1
run_length (d ∷ e ∷ ds) =
    let rest = run_length (e ∷ ds) in if e == d then rest else if (e + 1) == d then rest + 1 else 1

unfoldable pub longest_run : List ℕ → ℕ
unfolding run_length
longest_run [] = 0
longest_run (d ∷ ds) = max (longest_run ds) (run_length (d ∷ ds))

-- What `register_active_day` keeps: the current streak is never above the longest one.
pub record IsValid (s : StreakState) : Type 0 where
  pub within : s.current_streak ≤ s.longest_streak

pub register_active_day-IsValid :
    (s : StreakState) (today : ℕ) → IsValid s → IsValid (register_active_day s today)
unfolding register_active_day
register_active_day-IsValid s today v = ground arith

-- The head of the replayed state is the head of the history.
replay-last : (d : ℕ) (ds : List ℕ) → (replay (d ∷ ds)).last_active_date ≡ some d
unfolding register_active_day
replay-last d ds = ground arith

run_length-le-longest_run : (ds : List ℕ) → run_length ds ≤ longest_run ds
unfolding longest_run
run_length-le-longest_run [] = omega arith
run_length-le-longest_run (d ∷ ds) = omega arith

-- One more day on a state whose last active day is `e`.
register-step :
    (s : StreakState) (e d : ℕ)
    → s.last_active_date ≡ some e
    → s.current_streak ≤ s.longest_streak
    → ((register_active_day s d).current_streak
        ≡ (if e == d then s.current_streak else if (e + 1) == d then s.current_streak + 1 else 1))
      × ((register_active_day s d).longest_streak
          ≡ max s.longest_streak (register_active_day s d).current_streak)
unfolding register_active_day
register-step s e d last v = ground arith

replay-IsValid : (ds : List ℕ) → (replay ds).current_streak ≤ (replay ds).longest_streak
replay-IsValid [] = omega arith
replay-IsValid (d ∷ ds) =
    (register_active_day-IsValid (replay ds) d (record { within = replay-IsValid ds })).within

-- For every history of active days, the incremental update of the stored fields gives `run_length` and
-- `longest_run`, in whatever order the days come.
pub replay-run_length :
    (ds : List ℕ)
    → ((replay ds).current_streak ≡ run_length ds) × ((replay ds).longest_streak ≡ longest_run ds)
unfolding run_length longest_run
replay-run_length [] = (refl, refl)
replay-run_length (d ∷ []) = unfold register_active_day in (refl, refl)
replay-run_length (d ∷ e ∷ ds) =
    let h = register-step (replay (e ∷ ds)) e d (replay-last e ds) (replay-IsValid (e ∷ ds)) in
    let ih = replay-run_length (e ∷ ds) in
    let c : (replay (d ∷ e ∷ ds)).current_streak ≡ run_length (d ∷ e ∷ ds) = h.0 ∙ rw (ih.0) in
    (c, h.1 ∙ ap₂ max ih.1 c)

-- Registering the same day twice changes nothing.
pub register_active_day_idem :
    (s : StreakState) (d : ℕ)
    → register_active_day (register_active_day s d) d ≡ register_active_day s d
unfolding register_active_day
register_active_day_idem s d = ground arith

-- A day never lowers the longest streak, and a valid state stays valid.
pub longest_streak-register_active_day :
    (s : StreakState) (d : ℕ) → s.longest_streak ≤ (register_active_day s d).longest_streak
unfolding register_active_day
longest_streak-register_active_day s d = ground arith

-- What is displayed on a day: the run that ends at the latest day of the history, if that day is
-- today or yesterday, and 0 otherwise.
pub current_streak_for-replay :
    (d today : ℕ) (ds : List ℕ)
    → current_streak_for (replay (d ∷ ds)) today ≡ (
        if d == today
        then run_length (d ∷ ds)
        else if (d + 1) == today
        then run_length (d ∷ ds)
        else 0)
unfolding current_streak_for
current_streak_for-replay d today ds =
    rw (replay-last d ds, (replay-run_length (d ∷ ds)).0) (ground arith)

-- A turn that is recorded for a day before the last active one restarts the streak at 1 and moves
-- the last active day back.
pub register_active_day_earlier :
    (s : StreakState) (last d : ℕ)
    → s.last_active_date ≡ some last
    → d < last
    → ((register_active_day s d).current_streak ≡ 1)
      × ((register_active_day s d).last_active_date ≡ some d)
unfolding register_active_day
register_active_day_earlier s last d e h = ground arith

-- In every history, a turn that is recorded for a day before the last active one cuts the streak to 1,
-- and the next turn of the last active day brings it to 2 at most, however long the run was.
pub replay_earlier :
    (last d : ℕ) (ds : List ℕ)
    → d < last
    → ((replay (d ∷ last ∷ ds)).current_streak ≡ 1)
      × ((replay (last ∷ d ∷ last ∷ ds)).current_streak ≤ 2)
replay_earlier last d ds h =
    let cut = (register_active_day_earlier (replay (last ∷ ds)) last d (replay-last last ds) h).0 in
    let step =
      register-step (replay (d ∷ last ∷ ds)) d last (replay-last d (last ∷ ds))
        (replay-IsValid (d ∷ last ∷ ds)) in
    (cut, ground (arith, step.0, cut))
