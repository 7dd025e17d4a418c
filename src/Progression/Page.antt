-- ===== src/Progression/Page.antt =====
-- The size of a page that the service asks the database for.
use apm.Shared.{◌≡◌, some, arith}
use apm.Shared.Int.{ℤ, pos, ◌≤ℤ◌}
use apm.Progression.{resolve_limit}

-- A requested size always ends within 1 and the maximum, also a negative one or zero; a size within
-- these bounds is kept.
pub resolve_limit_bounds :
    (requested default maximum : ℤ)
    → pos 1 ≤ℤ maximum
    → (pos 1 ≤ℤ resolve_limit (some requested) default maximum)
      × (resolve_limit (some requested) default maximum ≤ℤ maximum)
      × (pos 1 ≤ℤ requested
          → requested ≤ℤ maximum
          → resolve_limit (some requested) default maximum ≡ requested)
unfolding resolve_limit
resolve_limit_bounds requested default maximum h =
    (ground arith, ground arith, λ low high. ground arith)
