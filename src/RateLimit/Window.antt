-- ===== src/RateLimit/Window.antt =====
-- The window slides: a hit is accepted exactly when fewer than the allowed number of hits of its key
-- lie in the window that ends now.
use apm.Shared.{
  ◌∙◌, Bool-cases, ℕ, suc, ◌-◌, ◌≤◌, ◌<◌, ◌≡◌, refl, true, false, List, [], ◌∷◌, ◌++◌, none, some,
  String, leb, length, if◌then◌else◌, arith, string_eq, Option-cases, inl, inr,
}
use apm.Shared.Dict.{lookup, contains, lookup-insert_self, lookup-erase_self, IsDistinct}
use apm.Database.{ok, err, rate_limited}
use apm.RateLimit.{Limits, Hits, prune, expire, bucket_of, check, keep_bucket, make_room}

-- The hits that are at most a window old.
abbrev pub recent : ℕ → ℕ → List ℕ → ℕ
recent window now [] = 0
recent window now (t ∷ ts) =
    if leb (now - t) window then suc (recent window now ts) else recent window now ts

-- Instants in their order, none after `now`.
abbrev pub AllFrom : ℕ → List ℕ → Type 0
AllFrom low [] = Unit
AllFrom low (t ∷ ts) = (low ≤ t) × AllFrom low ts

abbrev pub IsAscending : List ℕ → Type 0
IsAscending [] = Unit
IsAscending (t ∷ ts) = AllFrom t ts × IsAscending ts

recent_all :
    (window now low : ℕ) (ts : List ℕ)
    → now - low ≤ window
    → AllFrom low ts
    → recent window now ts ≡ length ts
recent_all window now low [] h a = refl
recent_all window now low (t ∷ ts) h a = ground (arith, recent_all window now low ts h a.1)

pub length-prune :
    (window now : ℕ) (ts : List ℕ)
    → IsAscending ts
    → length (prune window now ts) ≡ recent window now ts
unfolding prune
length-prune window now [] a = refl
length-prune window now (t ∷ ts) a =
    ground (arith, length-prune window now ts a.1, recent_all window now t ts)

pub contains-lookup :
    (key : String) (hits : Hits) (b : List ℕ) → lookup key hits ≡ some b → contains key hits ≡ true
contains-lookup key [] b e = absurd (cc)
contains-lookup key ((j, w) ∷ hits) b e = ground (arith, contains-lookup key hits b)

keep_bucket-lookup :
    (key : String) (kept : List ℕ) (hits : Hits)
    → IsDistinct hits
    → bucket_of key (keep_bucket key kept hits) ≡ kept
keep_bucket-lookup key [] hits d = ground (arith, lookup-erase_self key hits d)
keep_bucket-lookup key (t ∷ ts) hits d = ground (arith, lookup-insert_self key (t ∷ ts) hits)

bucket_of-expire :
    (limits : Limits) (now : ℕ) (key : String) (hits : Hits)
    → IsDistinct hits
    → bucket_of key (expire limits now key hits) ≡ prune limits.window now (bucket_of key hits)
unfolding expire prune
bucket_of-expire limits now key hits d = elim (Option-cases (lookup key hits)) [
  | inl e ↦ ground arith
  | inr (b, e) ↦ ground (arith, keep_bucket-lookup key (prune limits.window now b) hits d)
]

lookup_absent : (key : String) (hits : Hits) → contains key hits ≡ false → lookup key hits ≡ none
lookup_absent key [] e = refl
lookup_absent key ((j, w) ∷ hits) e = ground (arith, lookup_absent key hits)

-- Making room never fails while keys are allowed, and leaves the bucket of the key alone.
make_room-bucket_of :
    (limits : Limits) (key : String) (hits : Hits)
    → 0 < limits.max_keys
    → (room : Hits) × (make_room limits key hits ≡ ok room)
      × (bucket_of key room ≡ bucket_of key hits)
make_room-bucket_of limits key hits positive = elim (Bool-cases (contains key hits)) [
  | inl present ↦ (hits, ground arith, refl)
  | inr absent ↦ elim (Bool-cases (leb limits.max_keys (length hits))) [
    | inr free ↦ (hits, ground arith, refl)
    | inl full ↦ evicted hits absent full
  ]
]
  where
    evicted :
        (d : Hits)
        → contains key d ≡ false
        → leb limits.max_keys (length d) ≡ true
        → (room : Hits) × (make_room limits key d ≡ ok room)
          × (bucket_of key room ≡ bucket_of key d)
    evicted [] absent full = absurd (ground arith)
    evicted ((j, w) ∷ d) absent full =
        let rest : lookup key d ≡ none = lookup_absent key d (ground arith) in
        (d, ground arith, ground arith)

-- Keys are distinct and the hits of the key stand in their order. Then `check` accepts exactly when
-- fewer than `max_hits` of them lie in the window that ends now; a hit that is accepted is kept, one
-- that is refused is not, and hits that have left the window are dropped on both ways.
pub check-recent :
    (limits : Limits) (now : ℕ) (key : String) (hits : Hits)
    → 0 < limits.max_keys
    → IsDistinct hits
    → IsAscending (bucket_of key hits)
    → let old = bucket_of key hits in
      let full = leb limits.max_hits (recent limits.window now old) in
      ((check limits now key hits).0
        ≡ (if full then err (rate_limited "Too many attempts, please retry later") else ok tt))
      × (bucket_of key (check limits now key hits).1 ≡ (
          if full then prune limits.window now old else prune limits.window now old ++ (now ∷ [])))
unfolding check
check-recent limits now key hits positive distinct ascending =
    let room = make_room-bucket_of limits key (expire limits now key hits) positive in
    let same = room.2 ∙ bucket_of-expire limits now key hits distinct in
    let size = length-prune limits.window now (bucket_of key hits) ascending in
    let kept = lookup-insert_self key (prune limits.window now (bucket_of key hits)) room.0 in
    let grown =
      lookup-insert_self key (prune limits.window now (bucket_of key hits) ++ (now ∷ [])) room.0 in
    (ground (arith, room.1, same, size), ground (arith, room.1, same, size, kept, grown))
