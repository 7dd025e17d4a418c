-- ===== src/Streaks/Days.antt =====
-- The streak as a property of the set of active days, for turns that were recorded in the order of their
-- days.
use apm.Shared.{
  ℕ, zero, suc, ◌+◌, ◌≤◌, ◌<◌, ◌≡◌, sym, Bool, true, false, Bool-cases, inl, inr, List, [], ◌∷◌,
  ◌==◌, ==_iff, if◌then◌else◌, arith, ◌-◌, max, ltb,
}
use mathlib.Core.Path.{subst}
use apm.Streaks.Runs.{replay, run_length, longest_run, replay-run_length}

abbrev pub is_active_on : ℕ → List ℕ → Bool
is_active_on day [] = false
is_active_on day (d ∷ ds) = if d == day then true else is_active_on day ds

-- No turn is of a day before that of the turn before it; the latest comes first.
abbrev pub InOrder : List ℕ → Type 0
InOrder [] = Unit
InOrder (d ∷ []) = Unit
InOrder (d ∷ e ∷ ds) = (e ≤ d) × InOrder (e ∷ ds)

-- The `n` days up to a day are active ones; no more of them than there are.
abbrev pub AllActive : ℕ → ℕ → List ℕ → Type 0
AllActive last n days =
    ((k day : ℕ) → day + k ≡ last → k < n → is_active_on day days ≡ true) × (n ≤ last + 1)

-- These days are active, and the day before them is not.
abbrev pub IsRun : ℕ → ℕ → List ℕ → Type 0
IsRun last n days =
    AllActive last n days × ((day : ℕ) → day + n ≡ last → is_active_on day days ≡ false)

later_inactive :
    (e : ℕ) (ds : List ℕ) (day : ℕ) → InOrder (e ∷ ds) → e < day → is_active_on day (e ∷ ds) ≡ false
later_inactive e [] day o h = ground (arith, ==_iff e day)
later_inactive e (f ∷ ds) day o h =
    ground (arith, ==_iff e day, later_inactive f ds day o.1 (omega (arith, o.0, h)))

first_day : (d : ℕ) → IsRun d 1 (d ∷ [])
first_day d = (
  (λ k day q h. ground (arith, ==_iff d day), omega arith),
  λ day q. ground (arith, ==_iff d day),
)

same_day : (d : ℕ) (ds : List ℕ) (n : ℕ) → IsRun d n (d ∷ ds) → IsRun d n (d ∷ d ∷ ds)
same_day d ds n ((a, l), i) =
    ((λ k day q h. ground (arith, a k day q h), l), λ day q. ground (arith, i day q))

next_day :
    (d e : ℕ) (ds : List ℕ) (n : ℕ) → e + 1 ≡ d → IsRun e n (e ∷ ds) → IsRun d (n + 1) (d ∷ e ∷ ds)
next_day d e ds n next ((a, l), i) = (
  (λ k day q h. go k day q h, omega (arith, next, l)),
  λ day q. ground (arith, ==_iff d day, i day (omega (arith, next, q))),
)
  where
    go : (k day : ℕ) → day + k ≡ d → k < n + 1 → is_active_on day (d ∷ e ∷ ds) ≡ true
    go zero day q h = ground (arith, ==_iff d day)
    go (suc k) day q h = ground (arith, a k day (omega (arith, next, q)) (omega (arith, h)))

after_gap : (d e : ℕ) (ds : List ℕ) → InOrder (e ∷ ds) → e + 1 < d → IsRun d 1 (d ∷ e ∷ ds)
after_gap d e ds o gap = (
  (λ k day q h. ground (arith, ==_iff d day), omega arith),
  λ day q. ground (arith, ==_iff d day, later_inactive e ds day o (omega (arith, gap, q))),
)

run_length-IsRun : (d : ℕ) (ds : List ℕ) → InOrder (d ∷ ds) → IsRun d (run_length (d ∷ ds)) (d ∷ ds)
unfolding run_length
run_length-IsRun d [] o = first_day d
run_length-IsRun d (e ∷ ds) o = elim (Bool-cases (e == d)) [
  | inl same ↦
      let q : e ≡ d = ground (arith, ==_iff e d) in
      rw same (
        subst (λ x. IsRun d (run_length (x ∷ ds)) (d ∷ x ∷ ds)) (sym q)
          (same_day d ds (run_length (d ∷ ds))
            (run_length-IsRun d ds (subst (λ x. InOrder (x ∷ ds)) q o.1))))
  | inr other ↦ elim (Bool-cases ((e + 1) == d)) [
    | inl next ↦
        rw (other, next)
          (next_day d e ds (run_length (e ∷ ds)) (ground (arith, ==_iff (e + 1) d))
            (run_length-IsRun e ds o.1))
    | inr gap ↦
        rw (other, gap) (after_gap d e ds o.1 (ground (arith, o.0, ==_iff e d, ==_iff (e + 1) d)))
  ]
]

InOrder-tail : (d : ℕ) (ds : List ℕ) → InOrder (d ∷ ds) → InOrder ds
InOrder-tail d [] o = tt
InOrder-tail d (e ∷ ds) o = o.1

below_first :
    (d : ℕ) (ds : List ℕ) (day : ℕ) → InOrder (d ∷ ds) → is_active_on day (d ∷ ds) ≡ true → day ≤ d
below_first d ds day o h = elim (Bool-cases (ltb d day)) [
  | inr f ↦ ground arith
  | inl t ↦ absurd (let x = later_inactive d ds day o (ground arith) in cc)
]

-- The latest run is the longest up to its last day.
run_length-most :
    (d : ℕ) (ds : List ℕ) (n : ℕ)
    → InOrder (d ∷ ds)
    → AllActive d n (d ∷ ds)
    → n ≤ run_length (d ∷ ds)
run_length-most d ds n o (a, l) =
    let m = run_length (d ∷ ds) in
    elim (Bool-cases (ltb m n)) [
      | inr f ↦ ground arith
      | inl t ↦
          let more : m < n = ground arith in
          let q : (d - m) + m ≡ d = omega (arith, more, l) in
          absurd
            (let yes = a m (d - m) q more in let no = (run_length-IsRun d ds o).1 (d - m) q in cc)
    ]

-- No days in a row that are all active are more than the longest run.
longest_run-most :
    (ds : List ℕ) (last n : ℕ) → InOrder ds → AllActive last n ds → n ≤ longest_run ds
unfolding longest_run
longest_run-most ds last zero o r = omega arith
longest_run-most [] last (suc n) o (a, l) =
    absurd (let x = a 0 last (omega arith) (omega arith) in cc)
longest_run-most (d ∷ ds) last (suc n) o (a, l) = elim (Bool-cases (d == last)) [
  | inl t ↦
      let q : d ≡ last = ground (arith, ==_iff d last) in
      let most =
        run_length-most d ds (suc n) o (subst (λ x. AllActive x (suc n) (d ∷ ds)) (sym q) (a, l)) in
      omega (arith, most)
  | inr f ↦
      let up : last ≤ d = below_first d ds last o (a 0 last (omega arith) (omega arith)) in
      let before : last < d = ground (arith, ==_iff d last) in
      let most =
        longest_run-most ds last (suc n) (InOrder-tail d ds o)
          ((λ k day q h. ground (arith, a k day q h, ==_iff d day)), l) in
      omega (arith, most)
]

-- There are as many active days in a row as the longest run has.
longest_run-AllActive : (ds : List ℕ) → InOrder ds → (last : ℕ) × AllActive last (longest_run ds) ds
unfolding longest_run
longest_run-AllActive [] o = (0, ((λ k day q h. absurd (omega (arith, h))), omega arith))
longest_run-AllActive (d ∷ ds) o = elim (Bool-cases (ltb (longest_run ds) (run_length (d ∷ ds)))) [
  | inl t ↦
      let e : max (longest_run ds) (run_length (d ∷ ds)) ≡ run_length (d ∷ ds) = ground arith in
      (d, subst (λ n. AllActive d n (d ∷ ds)) (sym e) (run_length-IsRun d ds o).0)
  | inr f ↦
      let e : max (longest_run ds) (run_length (d ∷ ds)) ≡ longest_run ds = ground arith in
      let (last, (a, l)) = longest_run-AllActive ds (InOrder-tail d ds o) in
      (
        last,
        subst (λ n. AllActive last n (d ∷ ds)) (sym e)
            ((λ k day q h. ground (arith, a k day q h)), l),
      )
]

-- When the turns are recorded in the order of their days, the stored current streak is the number of
-- consecutive active days up to the last active one, the day before them not being active, and the
-- stored longest streak is the greatest number of active days in a row.
pub replay-IsRun :
    (d : ℕ) (ds : List ℕ)
    → InOrder (d ∷ ds)
    → IsRun d (replay (d ∷ ds)).current_streak (d ∷ ds)
      × ((last : ℕ) × AllActive last (replay (d ∷ ds)).longest_streak (d ∷ ds))
      × ((last n : ℕ) → AllActive last n (d ∷ ds) → n ≤ (replay (d ∷ ds)).longest_streak)
replay-IsRun d ds o =
    let r = replay-run_length (d ∷ ds) in
    let (last, longest) = longest_run-AllActive (d ∷ ds) o in
    (
      subst (λ n. IsRun d n (d ∷ ds)) (sym r.0) (run_length-IsRun d ds o),
      (last, subst (λ n. AllActive last n (d ∷ ds)) (sym r.1) longest),
      λ day n h. subst (λ m. n ≤ m) (sym r.1) (longest_run-most (d ∷ ds) day n o h),
    )
