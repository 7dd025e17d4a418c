-- ===== src/RateLimit.antt =====
-- `InMemoryRateLimiter.check` of backend/app/core/rate_limit.py: for each key the instants of its
-- accepted hits, the oldest first, in a dict with an insertion order. A reading of the monotonic clock
-- is an argument.
pub mod Window
pub mod Bucket
pub mod Capacity
pub mod Redis
mod Tests
use apm.Shared.{
  ℕ, ◌-◌, Bool, true, false, not, ◌&&◌, List, [], ◌∷◌, ◌++◌, Option, none, some, String, ltb, leb,
  length, if◌then◌else◌, string_eq,
}
use apm.Shared.Dict.{Dict, lookup, insert, erase, contains}
use apm.Database.{Result, ok, err, rate_limited, runtime_error}

pub record Limits : Type 0 where
  pub max_hits : ℕ
  pub window : ℕ
  pub max_keys : ℕ

abbrev pub Hits : Type 0
Hits = Dict String (List ℕ)

-- `while bucket and now - bucket[0] > window: bucket.popleft()`
unfoldable pub prune : ℕ → ℕ → List ℕ → List ℕ
prune window now [] = []
prune window now (t ∷ ts) =
    let rest = prune window now ts in if ltb window (now - t) then rest else t ∷ ts

abbrev pub keep_bucket : String → List ℕ → Hits → Hits
keep_bucket key [] hits = erase key hits
keep_bucket key (t ∷ ts) hits = insert key (t ∷ ts) hits

-- `if key in self._hits: ...`
unfoldable pub expire : Limits → ℕ → String → Hits → Hits
unfolding prune
expire limits now key hits = elim (lookup key hits) [
  | none ↦ hits
  | some bucket ↦ keep_bucket key (prune limits.window now bucket) hits
]

-- `next(iter(self._hits))` of an empty dict ends the coroutine with a `RuntimeError`.
abbrev pub evict_oldest : Hits → Result Hits
evict_oldest [] = err runtime_error
evict_oldest (h ∷ hits) = ok hits

abbrev pub make_room : Limits → String → Hits → Result Hits
make_room limits key hits =
    if not (contains key hits) && leb limits.max_keys (length hits)
    then evict_oldest hits
    else ok hits

-- `self._hits[key]` of a `defaultdict`.
abbrev pub bucket_of : String → Hits → List ℕ
bucket_of key hits = elim (lookup key hits) [ none ↦ [] | some bucket ↦ bucket ]

abbrev pub admit : Limits → ℕ → String → Hits → Result (Unit {0}) × Hits
admit limits now key hits =
    let bucket = bucket_of key hits in
    if leb limits.max_hits (length bucket)
    then (err (rate_limited "Too many attempts, please retry later"), insert key bucket hits)
    else (ok tt, insert key (bucket ++ (now ∷ [])) hits)

unfoldable pub check : Limits → ℕ → String → Hits → Result (Unit {0}) × Hits
unfolding expire
check limits now key hits =
    let expired = expire limits now key hits in
    elim (make_room limits key expired) [
      | ok room ↦ admit limits now key room
      | err e ↦ (err e, expired)
    ]
