-- ===== src/RateLimit/Redis.antt =====
-- `RedisRateLimiter.check` and the Lua script of backend/app/core/rate_limit.py: one counter for each
-- key and window. The server drops a counter after its window, which no later window reads; the
-- model keeps it. A call finds the server reachable or not.
use apm.Shared.{
  ℕ, suc, ◌+◌, ◌-◌, ◌*◌, ◌/◌, ◌≡◌, Option-cases, inl, inr, Bool, true, false, List, [], ◌∷◌, Option,
  none, some, String, ltb, min, length, if◌then◌else◌, UserKey, user_key_instance, arith,
}
use apm.Shared.Dict.{Dict, lookup, insert, lookup-insert_self}
use apm.Clock.{second}
use apm.Database.{Result, ok, err, rate_limited}

pub record Policy : Type 0 where
  pub max_hits : ℕ
  pub window : ℕ
  pub fail_open : Bool

-- The counters on the server, and what the process keeps: the instant of the last warning, and how
-- many there were.
pub record Limiter : Type 0 where
  pub counters : Dict UserKey ℕ
  pub last_failure_log : ℕ
  pub warnings : ℕ

abbrev after_hit : Option ℕ → ℕ
after_hit none = 1
after_hit (some n) = suc n

-- `redis.call("INCR", KEYS[1])`
unfoldable pub incr : UserKey → Dict UserKey ℕ → ℕ × Dict UserKey ℕ
incr k d = let count = after_hit (lookup k d) in (count, insert k count d)

abbrev pub failure_log_throttle : ℕ
failure_log_throttle = 30 * second

-- `_log_failure_throttled`
unfoldable pub log_failure_throttled : ℕ → Limiter → Limiter
log_failure_throttled now l =
    if ltb (now - l.last_failure_log) failure_log_throttle
    then l
    else record l { last_failure_log = now; warnings = suc l.warnings }

abbrev over : Policy → ℕ → Result (Unit {0})
over p hits =
    if ltb p.max_hits hits
    then err (rate_limited "Too many attempts, please retry later")
    else ok tt

-- `time` is the wall clock, which chooses the window, `now` the monotonic one.
unfoldable pub check_shared :
    Policy → (reachable : Bool) → (time now : ℕ) → String → Limiter → Result (Unit {0}) × Limiter
unfolding incr log_failure_throttled
check_shared p true time now key l =
    let (hits, counters) = incr (time / p.window, key) l.counters in
    (over p hits, record l { counters = counters })
check_shared p false time now key l = (
  if p.fail_open then ok tt else err (rate_limited "Rate limiter unavailable, try again later"),
  log_failure_throttled now l,
)

-- How many of the calls at the given instants are let through.
abbrev pub one_if_ok : Result (Unit {0}) → ℕ
one_if_ok (ok _) = 1
one_if_ok (err _) = 0

pub accepted : Policy → String → List ℕ → Limiter → ℕ
accepted p key [] l = 0
accepted p key (t ∷ ts) l =
    let (r, l') = check_shared p true t t key l in one_if_ok r + accepted p key ts l'

abbrev pub AllIn : ℕ → ℕ → List ℕ → Type 0
AllIn window bucket [] = Unit
AllIn window bucket (t ∷ ts) = (t / window ≡ bucket) × AllIn window bucket ts

abbrev count_of : UserKey → Dict UserKey ℕ → ℕ
count_of k d = elim (lookup k d) [ none ↦ 0 | some n ↦ n ]

check_shared-step :
    (p : Policy) (key : String) (t bucket : ℕ) (l : Limiter)
    → t / p.window ≡ bucket
    → let c = count_of (bucket, key) l.counters in
      (one_if_ok (check_shared p true t t key l).0 ≡ (if ltb p.max_hits (suc c) then 0 else 1))
      × (count_of (bucket, key) (check_shared p true t t key l).1.counters ≡ suc c)
unfolding check_shared
check_shared-step p key t bucket l e = elim (Option-cases (lookup (bucket, key) l.counters)) [
  | inl f ↦ (ground arith, ground (arith, lookup-insert_self (bucket, key) 1 l.counters))
  | inr (n, f) ↦ (ground arith, ground (arith, lookup-insert_self (bucket, key) (suc n) l.counters))
]

accepted-rest :
    (p : Policy) (key : String) (bucket : ℕ) (ts : List ℕ) (l : Limiter)
    → AllIn p.window bucket ts
    → accepted p key ts l ≡ min (length ts) (p.max_hits - count_of (bucket, key) l.counters)
unfolding accepted
accepted-rest p key bucket [] l a = omega arith
accepted-rest p key bucket (t ∷ ts) l a =
    let step = check_shared-step p key t bucket l a.0 in
    let ih = accepted-rest p key bucket ts (check_shared p true t t key l).1 a.1 in
    ground (arith, step.0, step.1, ih)

-- Of any number of calls with one key in one window, by all the processes together, `max_hits` are let
-- through, or all if they are fewer, while the server is reachable and the key is new in the window.
pub accepted-min :
    (p : Policy) (key : String) (bucket : ℕ) (ts : List ℕ) (l : Limiter)
    → AllIn p.window bucket ts
    → lookup (bucket, key) l.counters ≡ none
    → accepted p key ts l ≡ min (length ts) p.max_hits
accepted-min p key bucket ts l a fresh = ground (arith, accepted-rest p key bucket ts l a)

-- With the server out of reach every call is let through if the limiter fails open, and none if it
-- fails closed; no counter changes, and there is at most one warning for it.
pub check_shared_unreachable :
    (p : Policy) (time now : ℕ) (key : String) (l : Limiter)
    → let res = check_shared p false time now key l in
      (one_if_ok res.0 ≡ (if p.fail_open then 1 else 0))
      × (res.1.counters ≡ l.counters)
      × (res.1.warnings ≡ (
          if ltb (now - l.last_failure_log) failure_log_throttle
          then l.warnings
          else suc l.warnings))
unfolding check_shared
check_shared_unreachable p time now key l = (ground arith, ground arith, ground arith)
