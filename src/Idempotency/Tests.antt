-- ===== src/Idempotency/Tests.antt =====
-- One key of one user, and what the theorems give on it.
use apm.Shared.{user_key_instance, ℕ, ◌+◌, ◌++◌, ◌≡◌, refl, [], ◌∷◌, none, some, String, arith}
use apm.Clock.{second}
use apm.Database.{ok, err, provider_error}
use apm.Idempotency.{
  Key, Claims, Work, alone, begin, release, run_once, claimed, in_flight, lookup_response,
}
use apm.Idempotency.Replay.{run_once_once, run_once_releases}
use apm.Idempotency.Exclusive.{begin_all, begin_all-Held, release_drops_answer}

abbrev key : Key
key = (1, "turn-7")

abbrev held : Claims
held = (key, record { response = none; created_at = 0 }) ∷ []

abbrev answered : Claims
answered = (key, record { response = some "hello"; created_at = 5 }) ∷ []

-- The world counts how often the work was done.
abbrev works : Work ℕ
works n = (ok "hello", n + 1)

abbrev fails : Work ℕ
fails n = (err provider_error, n + 1)

-- Another key is claimed while the work runs.
abbrev busy : Claims → Claims
busy d = d ++ (((2, "turn-8"), record { response = none; created_at = 5 }) ∷ [])

run_once_once_example :
    let first = run_once 1 (some "turn-7") works (alone 5 5) busy (0, []) in
    (first.0 ≡ ok "hello")
    × (first.1.0 ≡ 1)
    × (run_once 1 (some "turn-7") fails (alone 9 9) (λ d. d) (4, answered)
        ≡ (ok "hello", (4, answered)))
unfolding begin run_once
run_once_once_example =
    run_once_once 1 "turn-7" "hello" works fails (alone 5 5) (alone 9 9) busy 0 1 4 [] answered refl
      refl refl refl refl

run_once_releases_example :
    let res = run_once 1 (some "turn-7") fails (alone 5 5) (λ d. d) (0, []) in
    (res.0 ≡ err provider_error) × (res.1.0 ≡ 1) × ((begin key (alone 6 6) res.1.1).0 ≡ claimed)
unfolding begin
run_once_releases_example =
    run_once_releases 1 "turn-7" provider_error fails (alone 5 5) 0 1 [] 6 6 refl (refl, tt) refl
      refl

begin_all-Held_example :
    begin_all key ((1, 1) ∷ (second, second) ∷ []) held ≡ (in_flight ∷ in_flight ∷ [], held)
begin_all-Held_example =
    begin_all-Held key 0 ((1, 1) ∷ (second, second) ∷ []) held refl (omega arith, (omega arith, tt))

abbrev lock_key : ℕ → String
lock_key n = "turn-lock:7"

release_drops_answer_example : (begin key (alone 6 6) (release key answered)).0 ≡ claimed
unfolding lookup_response
release_drops_answer_example = release_drops_answer key "hello" 6 6 answered (refl, tt) refl
