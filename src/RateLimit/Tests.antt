-- ===== src/RateLimit/Tests.antt =====
-- Two hits in ten units for at most three keys.
use apm.Shared.{ℕ, ◌≡◌, refl, false, List, [], ◌∷◌, ◌++◌, leb, arith, if◌then◌else◌, string_eq}
use apm.Database.{ok, err, rate_limited}
use apm.RateLimit.{Limits, Hits, check, bucket_of, prune}
use apm.RateLimit.Window.{recent, check-recent}
use apm.RateLimit.Capacity.{IsSound, check-IsSound}
use apm.RateLimit.Redis.{Policy, Limiter}

abbrev limits : Limits
limits = record { max_hits = 2; window = 10; max_keys = 3 }

abbrev hits : Hits
hits = ("ann", 1 ∷ 8 ∷ []) ∷ []

check-recent_example :
    let old : List ℕ = 1 ∷ 8 ∷ [] in
    let full = leb 2 (recent 10 15 old) in
    ((check limits 15 "ann" hits).0
      ≡ (if full then err (rate_limited "Too many attempts, please retry later") else ok tt))
    × (bucket_of "ann" (check limits 15 "ann" hits).1
        ≡ (if full then prune 10 15 old else prune 10 15 old ++ (15 ∷ [])))
check-recent_example =
    check-recent limits 15 "ann" hits (omega arith) (refl, tt) ((omega arith, tt), (tt, tt))

hits-IsSound : IsSound limits 9 hits
hits-IsSound = record {
  distinct = (refl, tt);
  buckets = (
    record {
      ascending = ((omega arith, tt), (tt, tt));
      past = (omega arith, (omega arith, tt));
      allowed = omega arith;
    },
    tt,
  );
  few = omega arith;
}

check-IsSound_example : IsSound limits 15 (check limits 15 "bob" hits).1
check-IsSound_example = check-IsSound limits 9 15 "bob" hits (omega arith) hits-IsSound

abbrev policy : Policy
policy = record { max_hits = 2; window = 10; fail_open = false }

abbrev limiter : Limiter
limiter = record { counters = []; last_failure_log = 0; warnings = 0 }
