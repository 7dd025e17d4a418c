-- ===== src/Idempotency.antt =====
-- Idempotent replay of requests: backend/app/features/idempotency/repository.py and service.py. Each
-- repository call is one committed statement, so that concurrent callers interleave between calls:
-- the `others` arguments are what they do to the table meanwhile.
pub mod Replay
pub mod Keys
pub mod Exclusive
mod Tests
use apm.Shared.{
  ℕ, ◌+◌, ◌-◌, ◌*◌, ◌≡◌, ◌↔◌, refl, Bool, true, false, ◌&&◌, Option, none, some, String, str_eq,
  str_eq_iff, ◌==◌, ==_iff, ltb, arith, if◌then◌else◌, UserKey, user_key_instance,
}
use apm.Shared.Dict.{Dict, lookup, insert, erase}
use apm.Clock.{second}
use apm.Database.{Result, ok, err, Error, conflict}
use apm.Database.Models.{is_none}

-- The unique key of a row: the user and the client's key.
abbrev pub Key : Type 0
Key = UserKey

-- `IdempotencyKey`, behind its unique key.
pub record Claim : Type 0 where
  pub response : Option String
  pub created_at : ℕ

abbrev pub Claims : Type 0
Claims = Dict Key Claim

-- `(exists, response)`
unfoldable pub lookup_response : Key → Claims → Bool × Option String
lookup_response k d = elim (lookup k d) [ none ↦ (false, none) | some c ↦ (true, c.response) ]

-- `response IS NULL AND created_at < stale_before`
abbrev pub is_abandoned : Claim → ℕ → Bool
is_abandoned c stale_before = is_none c.response && ltb c.created_at stale_before

-- `INSERT ... ON CONFLICT DO UPDATE ... WHERE`: `now` is the server's clock.
unfoldable pub claim : Key → ℕ → ℕ → Claims → Bool × Claims
claim k stale_before now d = elim (lookup k d) [
  | none ↦ (true, insert k (record { response = none; created_at = now }) d)
  | some c ↦
      if is_abandoned c stale_before
      then (true, insert k (record c { created_at = now }) d)
      else (false, d)
]

unfoldable pub complete : Key → String → Claims → Claims
complete k response d = elim (lookup k d) [
  | none ↦ d
  | some c ↦ insert k (record c { response = some response }) d
]

unfoldable pub release : Key → Claims → Claims
release k d = erase k d

abbrev pub stale_claim_seconds : ℕ
stale_claim_seconds = 120

-- `self._now() - timedelta(seconds=STALE_CLAIM_SECONDS)`
abbrev pub stale_before : ℕ → ℕ
stale_before now = now - stale_claim_seconds * second

-- `ClaimStatus` with the response that comes with it.
pub data ClaimOutcome : Type 0 where
  claimed in_flight : ClaimOutcome
  completed : String → ClaimOutcome

-- The readings of the two clocks, and what other callers do between the statements.
pub record Moment : Type 0 where
  pub now : ℕ
  pub server_now : ℕ
  pub before_claim : Claims → Claims
  pub before_reread : Claims → Claims

-- A moment in which no one else acts.
abbrev pub alone : ℕ → ℕ → Moment
alone now server_now = record {
  now = now;
  server_now = server_now;
  before_claim = λ d. d;
  before_reread = λ d. d;
}

abbrev outcome_of : Option String → ClaimOutcome
outcome_of none = in_flight
outcome_of (some r) = completed r

abbrev try_claim : Key → Moment → Claims → ClaimOutcome × Claims
try_claim k m d =
    let (won, d') = claim k (stale_before m.now) m.server_now d in
    if won
    then (claimed, d')
    else (let d'' = m.before_reread d' in
        let (_, response) = lookup_response k d'' in (outcome_of response, d''))

unfoldable pub begin : Key → Moment → Claims → ClaimOutcome × Claims
unfolding lookup_response claim
begin k m d =
    let (_, response) = lookup_response k d in
    elim response [ some r ↦ (completed r, d) | none ↦ try_claim k m (m.before_claim d) ]

-- `acquire_turn_lock` and `release_turn_lock`; `lock_key` is the text of the namespaced key.
unfoldable pub acquire_turn_lock :
    (lock_key : ℕ → String) → ℕ → ℕ → (now server_now : ℕ) → Claims → Bool × Claims
unfolding claim
acquire_turn_lock lock_key user_id session_id now server_now d =
    claim (user_id, lock_key session_id) (stale_before now) server_now d

unfoldable pub release_turn_lock : (lock_key : ℕ → String) → ℕ → ℕ → Claims → Claims
unfolding release
release_turn_lock lock_key user_id session_id d = release (user_id, lock_key session_id) d

-- The work of a request acts on a world of its own, and returns or raises.
abbrev pub Work : Type 0 → Type 0
Work W = W → Result String × W

abbrev finish : {W : Type 0} → Key → Result String × W → Claims → Result String × (W × Claims)
finish k (ok r, w) d = (ok r, (w, complete k r d))
finish k (err e, w) d = (err e, (w, release k d))

abbrev after_begin :
    {W : Type 0}
    → Key
    → Work W
    → (others : Claims → Claims) → W
    → ClaimOutcome × Claims
    → Result String × (W × Claims)
after_begin k work others w (completed r, d) = (ok r, (w, d))
after_begin k work others w (in_flight, d) =
    (err (conflict "This request is already being processed; retry shortly"), (w, d))
after_begin k work others w (claimed, d) = finish k (work w) (others d)

-- `run_once`: an absent or empty key runs the work every time; `others` acts while the work runs.
unfoldable pub run_once :
    {W : Type 0}
    → ℕ
    → Option String
    → Work W
    → Moment
    → (others : Claims → Claims) → W × Claims
    → Result String × (W × Claims)
unfolding begin complete release
run_once user_id none work m others (w, d) = let (r, w') = work w in (r, (w', d))
run_once user_id (some key) work m others (w, d) =
    if str_eq key ""
    then (let (r, w') = work w in (r, (w', d)))
    else after_begin (user_id, key) work others w (begin (user_id, key) m d)
