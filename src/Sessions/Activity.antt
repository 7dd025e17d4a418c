-- ===== src/Sessions/Activity.antt =====
-- Metering and staleness: backend/app/features/sessions/activity.py, and `clamp_practiced_at` of
-- service.py.
use apm.Shared.{
  ℕ, ◌+◌, ◌-◌, ◌*◌, ◌≤◌, ◌<◌, ◌≡◌, Bool, ◌||◌, Option, none, some, min, ltb, arith, if◌then◌else◌,
}
use apm.Clock.{DateTime, aware, instant, as_utc, hour, instant-as_utc}

abbrev capped : Option ℕ → ℕ → ℕ
capped none m = m
capped (some cap) m = min m cap

-- Subtraction stops at 0, which is the source's `max(0.0, delta)`.
unfoldable pub elapsed_minutes : DateTime → DateTime → Option ℕ → ℕ
elapsed_minutes mark now cap = capped cap (instant (as_utc now) - instant (as_utc mark))

unfoldable pub is_stale : DateTime → DateTime → ℕ → Bool
unfolding elapsed_minutes
is_stale last_activity now timeout = ltb timeout (elapsed_minutes last_activity now none)

abbrev pub max_practice_skew : ℕ
max_practice_skew = 48 * hour

-- `raw > now or now - raw > _MAX_PRACTICE_SKEW`
abbrev is_skewed : ℕ → ℕ → Bool
is_skewed raw now = ltb now raw || ltb max_practice_skew (now - raw)

unfoldable pub clamp_practiced_at : Option DateTime → ℕ → ℕ
clamp_practiced_at none now = now
clamp_practiced_at (some raw) now =
    let at = instant (as_utc raw) in if is_skewed at now then now else at

-- A charge is never more than the cap, never more than the time since the mark, and nothing when the
-- clock has gone back.
pub elapsed_minutes_bounds :
    (mark now cap : ℕ)
    → (elapsed_minutes (aware mark) (aware now) (some cap) ≤ cap)
      × (elapsed_minutes (aware mark) (aware now) (some cap) ≤ now - mark)
      × (now ≤ mark → elapsed_minutes (aware mark) (aware now) (some cap) ≡ 0)
unfolding elapsed_minutes as_utc
elapsed_minutes_bounds mark now cap = omega arith

-- A session is stale exactly when it has been idle for strictly longer than the timeout.
pub is_stale_iff :
    (mark now timeout : ℕ)
    → ((is_stale (aware mark) (aware now) timeout ≡ Bool.true) → mark + timeout < now)
      × (mark + timeout < now → is_stale (aware mark) (aware now) timeout ≡ Bool.true)
unfolding is_stale as_utc
is_stale_iff mark now timeout = (λ h. ground arith, λ h. ground arith)

-- The instant that is used lies in the last 48 hours, whatever the client sent.
pub clamp_practiced_at_bounds :
    (raw : Option DateTime) (now : ℕ)
    → (clamp_practiced_at raw now ≤ now) × (now ≤ clamp_practiced_at raw now + max_practice_skew)
unfolding clamp_practiced_at
clamp_practiced_at_bounds none now = omega arith
clamp_practiced_at_bounds (some raw) now = ground arith

pub clamp_practiced_at_accepts :
    (raw : DateTime) (now : ℕ)
    → instant raw ≤ now
    → now ≤ instant raw + max_practice_skew
    → clamp_practiced_at (some raw) now ≡ instant raw
unfolding clamp_practiced_at
clamp_practiced_at_accepts raw now h k = ground (arith, instant-as_utc raw)
