-- ===== src/RateLimit/Bucket.antt =====
-- The hits of one key: in their order, none in the future, within the allowance.
use apm.Shared.{
  ℕ, ltb, ◌-◌, ◌≤◌, ◌<◌, List, [], ◌∷◌, ◌++◌, length, length-append, arith, string_eq, Bool-cases,
  inl, inr,
}
use apm.RateLimit.{Limits, prune}
use apm.RateLimit.Window.{AllFrom, IsAscending}

abbrev pub AllUpTo : ℕ → List ℕ → Type 0
AllUpTo now [] = Unit
AllUpTo now (t ∷ ts) = (t ≤ now) × AllUpTo now ts

-- A bucket at `now`: ascending, none of its hits later, and within the allowance.
pub record IsBucket (limits : Limits) (now : ℕ) (ts : List ℕ) : Type 0 where
  pub ascending : IsAscending ts
  pub past : AllUpTo now ts
  pub allowed : length ts ≤ limits.max_hits

pub AllUpTo-later : (now later : ℕ) (ts : List ℕ) → now ≤ later → AllUpTo now ts → AllUpTo later ts
AllUpTo-later now later [] h a = tt
AllUpTo-later now later (t ∷ ts) h a = (omega arith, AllUpTo-later now later ts h a.1)

AllFrom-prune :
    (low window now : ℕ) (ts : List ℕ) → AllFrom low ts → AllFrom low (prune window now ts)
unfolding prune
AllFrom-prune low window now [] a = tt
AllFrom-prune low window now (t ∷ ts) a = ground (arith, AllFrom-prune low window now ts a.1)

pub prune-IsBucket :
    (limits : Limits) (window now later : ℕ) (ts : List ℕ)
    → now ≤ later
    → IsBucket limits now ts
    → IsBucket limits later (prune window later ts)
unfolding prune
prune-IsBucket limits window now later ts h b = record {
  ascending = rising ts b.ascending;
  past = upto ts b.past;
  allowed = shorter;
}
  where
    rising : (ts : List ℕ) → IsAscending ts → IsAscending (prune window later ts)
    rising [] a = tt
    rising (t ∷ ts) a = ground (arith, rising ts a.1, AllFrom-prune t window later ts a.0)

    upto : (ts : List ℕ) → AllUpTo now ts → AllUpTo later (prune window later ts)
    upto [] a = tt
    upto (t ∷ ts) a = elim (Bool-cases (ltb window (later - t))) [
      | inl old ↦ rw old (upto ts a.1)
      | inr young ↦ rw young (omega arith, AllUpTo-later now later ts h a.1)
    ]

    below : (ts : List ℕ) → length (prune window later ts) ≤ length ts
    below [] = omega arith
    below (t ∷ ts) = ground (arith, below ts)

    shorter : length (prune window later ts) ≤ limits.max_hits
    shorter = omega (arith, below ts, b.allowed)

AllFrom-snoc :
    (low now : ℕ) (ts : List ℕ) → low ≤ now → AllFrom low ts → AllFrom low (ts ++ (now ∷ []))
AllFrom-snoc low now [] h a = (h, tt)
AllFrom-snoc low now (t ∷ ts) h a = (a.0, AllFrom-snoc low now ts h a.1)

pub snoc-IsBucket :
    (limits : Limits) (now : ℕ) (ts : List ℕ)
    → IsBucket limits now ts
    → length ts < limits.max_hits
    → IsBucket limits now (ts ++ (now ∷ []))
snoc-IsBucket limits now ts b h = record {
  ascending = rising ts b.ascending b.past;
  past = upto ts b.past;
  allowed = omega (arith, length-append ts (now ∷ []));
}
  where
    rising : (ts : List ℕ) → IsAscending ts → AllUpTo now ts → IsAscending (ts ++ (now ∷ []))
    rising [] a p = (tt, tt)
    rising (t ∷ ts) a p = (AllFrom-snoc t now ts p.0 a.0, rising ts a.1 p.1)

    upto : (ts : List ℕ) → AllUpTo now ts → AllUpTo now (ts ++ (now ∷ []))
    upto [] p = (omega arith, tt)
    upto (t ∷ ts) p = (p.0, upto ts p.1)

pub empty-IsBucket : (limits : Limits) (now : ℕ) → IsBucket limits now []
empty-IsBucket limits now = record { ascending = tt; past = tt; allowed = omega arith }
