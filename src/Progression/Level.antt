-- ===== src/Progression/Level.antt =====
-- The stored level follows the estimates, one step in a session.
use apm.Shared.{
  List, [], ◌∷◌, length, zero, Bool-cases, Option-cases, inl, inr, sym, ℕ, suc, ◌+◌, ◌-◌, ◌≤◌, ◌<◌,
  ◌≡◌, ◌∙◌, ap, refl, some, String, str_eq, str_eq_iff, ltb, get_or, arith, if◌then◌else◌,
}
use apm.Progression.{cefr_levels, index, rank, rank_or_first, known_or_first, next_cefr_level}

-- One step of the ranks.
abbrev pub toward : ℕ → ℕ → ℕ
toward cur est = if ltb cur est then cur + 1 else if ltb est cur then cur - 1 else cur

abbrev name_of : ℕ → String
name_of i = get_or cefr_levels i ""

rank-name_of : (i : ℕ) → i < 6 → rank (name_of i) ≡ some i
rank-name_of zero h = refl
rank-name_of (suc zero) h = refl
rank-name_of (suc (suc zero)) h = refl
rank-name_of (suc (suc (suc zero))) h = refl
rank-name_of (suc (suc (suc (suc zero)))) h = refl
rank-name_of (suc (suc (suc (suc (suc zero))))) h = refl
rank-name_of (suc (suc (suc (suc (suc (suc i)))))) h = absurd (omega arith)

get_or-index :
    (ls : List String) (level : String) (i : ℕ)
    → index ls level ≡ some i
    → (get_or ls i "" ≡ level) × (i < length ls)
get_or-index [] level i e = absurd (cc)
get_or-index (l ∷ ls) level i e = elim (Bool-cases (str_eq l level)) [
  | inl same ↦ (ground (arith, same, str_eq_iff l level), ground (arith, same))
  | inr other ↦ elim (Option-cases (index ls level)) [
    | inl f ↦ absurd (ground (arith, other, f))
    | inr (j, f) ↦
        let ih = get_or-index ls level j f in
        let n : i ≡ suc j = ground (arith, other, f) in (rw n ih.0, omega (arith, n, ih.1))
  ]
]

name_of-rank : (level : String) (i : ℕ) → rank level ≡ some i → (name_of i ≡ level) × (i < 6)
name_of-rank level i e = get_or-index cefr_levels level i e

rank_or_first_bounds : (level : String) → rank_or_first level < 6
rank_or_first_bounds level = elim (Option-cases (rank level)) [
  | inl e ↦ rw (e, rank_or_first) (omega arith)
  | inr (i, e) ↦ rw (e, rank_or_first) (name_of-rank level i e).1
]

known_or_first-name_of : (level : String) → known_or_first level ≡ name_of (rank_or_first level)
known_or_first-name_of level = elim (Option-cases (rank level)) [
  | inl e ↦ rw (e, rank_or_first, known_or_first) refl
  | inr (i, e) ↦ rw (e, rank_or_first, known_or_first) (sym (name_of-rank level i e).0)
]

next_cefr_level-name_of :
    (current estimate : String) (est : ℕ)
    → rank estimate ≡ some est
    → next_cefr_level current estimate ≡ name_of (toward (rank_or_first current) est)
unfolding next_cefr_level
next_cefr_level-name_of current estimate est e =
    elim (Bool-cases (ltb (rank_or_first current) est)) [
      | inl up ↦ rw (e, up, next_cefr_level) refl
      | inr not_up ↦ elim (Bool-cases (ltb est (rank_or_first current))) [
        | inl down ↦ rw (e, not_up, down, next_cefr_level) refl
        | inr level ↦ rw (e, not_up, level, next_cefr_level) (known_or_first-name_of current)
      ]
    ]

abbrev pub distance : ℕ → ℕ → ℕ
distance a b = (a - b) + (b - a)

toward_bounds : (cur est : ℕ) → cur < 6 → est < 6 → toward cur est < 6
toward_bounds cur est c e = ground arith

distance-toward : (cur est n : ℕ) → distance cur est ≤ suc n → distance (toward cur est) est ≤ n
distance-toward cur est n h = ground arith

distance_bounds : (cur est : ℕ) → cur < 6 → est < 6 → distance cur est ≤ 6
distance_bounds cur est c e = omega arith

-- For a level that is known as estimate, the next level is a known one whose rank is one step nearer
-- to that of the estimate, or the same if it is reached.
pub rank-next_cefr_level :
    (current estimate : String) (est : ℕ)
    → rank estimate ≡ some est
    → rank (next_cefr_level current estimate) ≡ some (toward (rank_or_first current) est)
rank-next_cefr_level current estimate est e =
    ap rank (next_cefr_level-name_of current estimate est e)
    ∙ rank-name_of (toward (rank_or_first current) est) (
        toward_bounds (rank_or_first current) est (rank_or_first_bounds current)
          (name_of-rank estimate est e).1)

-- Sessions with the same estimate, one after another.
abbrev pub after_sessions : ℕ → String → String → String
after_sessions zero estimate level = level
after_sessions (suc n) estimate level = after_sessions n estimate (next_cefr_level level estimate)

after_sessions-reached :
    (n : ℕ) (level estimate : String) (cur est : ℕ)
    → rank level ≡ some cur
    → rank estimate ≡ some est
    → distance cur est ≤ n
    → after_sessions n estimate level ≡ estimate
after_sessions-reached zero level estimate cur est c e h =
    let same : cur ≡ est = omega (arith, h) in
    sym (name_of-rank level cur c).0 ∙ ap name_of same ∙ (name_of-rank estimate est e).0
after_sessions-reached (suc n) level estimate cur est c e h =
    after_sessions-reached n (next_cefr_level level estimate) estimate
      (toward (rank_or_first level) est) est (rank-next_cefr_level level estimate est e) e
      (rw (c, rank_or_first) (distance-toward cur est n h))

-- The same known estimate in six sessions makes it the stored level, from whatever was stored.
pub after_sessions-estimate :
    (level estimate : String) (est : ℕ)
    → rank estimate ≡ some est
    → after_sessions 6 estimate level ≡ estimate
after_sessions-estimate level estimate est e =
    after_sessions-reached 5 (next_cefr_level level estimate) estimate
      (toward (rank_or_first level) est) est (rank-next_cefr_level level estimate est e) e
      (distance-toward (rank_or_first level) est 5 (
        distance_bounds (rank_or_first level) est (rank_or_first_bounds level)
          (name_of-rank estimate est e).1))
