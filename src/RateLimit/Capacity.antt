-- ===== src/RateLimit/Capacity.antt =====
-- What every reachable state of the limiter satisfies: at most `max_keys` keys, each once, each with at
-- most `max_hits` hits in their order.
use apm.Shared.{
  ℕ, ◌⊎◌, suc, ◌≤◌, ◌≡◌, true, List, [], ◌∷◌, ◌++◌, some, String, length, leb, arith, string_eq,
  Option-cases, Bool-cases, inl, inr,
}
use apm.Shared.Dict.{
  lookup, insert, erase, contains, IsDistinct, insert-IsDistinct, erase-IsDistinct,
}
use apm.Shared.Table.{All}
use apm.Database.{Result, ok, err}
use apm.RateLimit.{Limits, Hits, prune, expire, bucket_of, check, keep_bucket, make_room, admit}
use apm.RateLimit.Window.{contains-lookup}
use apm.RateLimit.Bucket.{IsBucket, AllUpTo-later, prune-IsBucket, snoc-IsBucket, empty-IsBucket}

pub record IsSound (limits : Limits) (now : ℕ) (hits : Hits) : Type 0 where
  pub distinct : IsDistinct hits
  pub buckets : All (λ h. IsBucket limits now h.1) hits
  pub few : length hits ≤ limits.max_keys

module _ (limits : Limits) where
  abbrev Buckets : ℕ → Hits → Type 0
  Buckets now = All (λ h. IsBucket limits now h.1)

  Buckets-later :
      (now later : ℕ) (hits : Hits) → now ≤ later → Buckets now hits → Buckets later hits
  Buckets-later now later [] h a = tt
  Buckets-later now later ((k, b) ∷ hits) h a = (
    record {
      ascending = a.0.ascending;
      past = AllUpTo-later now later b h a.0.past;
      allowed = a.0.allowed;
    },
    Buckets-later now later hits h a.1,
  )

  Buckets-insert :
      (now : ℕ) (key : String) (b : List ℕ) (hits : Hits)
      → IsBucket limits now b
      → Buckets now hits
      → Buckets now (insert key b hits)
  Buckets-insert now key b [] v a = (v, tt)
  Buckets-insert now key b ((k, w) ∷ hits) v a = ground (arith, Buckets-insert now key b hits v a.1)

  Buckets-erase :
      (now : ℕ) (key : String) (hits : Hits) → Buckets now hits → Buckets now (erase key hits)
  Buckets-erase now key [] a = tt
  Buckets-erase now key ((k, w) ∷ hits) a = ground (arith, Buckets-erase now key hits a.1)

  Buckets-lookup :
      (now : ℕ) (key : String) (b : List ℕ) (hits : Hits)
      → Buckets now hits
      → lookup key hits ≡ some b
      → IsBucket limits now b
  Buckets-lookup now key b [] a e = absurd (cc)
  Buckets-lookup now key b ((k, w) ∷ hits) a e = ground (arith, Buckets-lookup now key b hits a.1)

  length-erase : (key : String) (hits : Hits) → length (erase key hits) ≤ length hits
  length-erase key [] = omega arith
  length-erase key ((k, w) ∷ hits) = ground (arith, length-erase key hits)

  -- A new key adds one entry, an old one none.
  length-insert :
      (key : String) (b : List ℕ) (hits : Hits)
      → (length (insert key b hits) ≤ suc (length hits))
        × (contains key hits ≡ true → length (insert key b hits) ≡ length hits)
  length-insert key b [] = (omega arith, λ e. absurd (cc))
  length-insert key b ((k, w) ∷ hits) =
      let ih = length-insert key b hits in (ground (arith, ih.0), λ e. ground (arith, ih.1))

  keep_bucket-IsSound :
      (now : ℕ) (key : String) (kept : List ℕ) (hits : Hits)
      → IsSound limits now hits
      → contains key hits ≡ true
      → IsBucket limits now kept
      → IsSound limits now (keep_bucket key kept hits)
  keep_bucket-IsSound now key [] hits s e v = record {
    distinct = erase-IsDistinct key hits s.distinct;
    buckets = Buckets-erase now key hits s.buckets;
    few = omega (arith, length-erase key hits, s.few);
  }
  keep_bucket-IsSound now key (t ∷ ts) hits s e v = record {
    distinct = insert-IsDistinct key (t ∷ ts) hits s.distinct;
    buckets = Buckets-insert now key (t ∷ ts) hits v s.buckets;
    few = omega (arith, (length-insert key (t ∷ ts) hits).1 e, s.few);
  }

  expire-IsSound :
      (now later : ℕ) (key : String) (hits : Hits)
      → now ≤ later
      → IsSound limits now hits
      → IsSound limits later (expire limits later key hits)
  unfolding expire
  expire-IsSound now later key hits h s = elim (Option-cases (lookup key hits)) [
    | inl e ↦ rw (e, expire) moved
    | inr (b, e) ↦
        rw (e, expire)
          (keep_bucket-IsSound later key (prune limits.window later b) hits moved
            (contains-lookup key hits b e)
            (prune-IsBucket limits limits.window now later b h
              (Buckets-lookup now key b hits s.buckets e)))
  ]
    where
      moved : IsSound limits later hits
      moved = record {
        distinct = s.distinct;
        buckets = Buckets-later now later hits h s.buckets;
        few = s.few;
      }

  -- There is room for the key: it is there, or fewer keys than allowed are.
  abbrev HasRoom : String → Hits → Type 0
  HasRoom key hits = (contains key hits ≡ true) ⊎ (suc (length hits) ≤ limits.max_keys)

  abbrev RoomMade : ℕ → String → Hits → Result Hits → Type 0
  RoomMade now key hits (ok room) = IsSound limits now room × HasRoom key room
  RoomMade now key hits (err e) = IsSound limits now hits

  make_room-RoomMade :
      (now : ℕ) (key : String) (hits : Hits)
      → IsSound limits now hits
      → RoomMade now key hits (make_room limits key hits)
  make_room-RoomMade now key [] s = elim (Bool-cases (leb limits.max_keys 0)) [
    | inl full ↦ rw full s
    | inr free ↦ rw free (s, inr (ground arith))
  ]
  make_room-RoomMade now key ((k, b) ∷ hits) s = elim (Bool-cases (contains key ((k, b) ∷ hits))) [
    | inl present ↦ rw present (s, inl present)
    | inr absent ↦ elim (Bool-cases (leb limits.max_keys (suc (length hits)))) [
      | inl full ↦
          rw (absent, full)
            (
              record { distinct = s.distinct.1; buckets = s.buckets.1; few = omega (arith, s.few) },
              inr (omega (arith, s.few)),
            )
      | inr free ↦ rw (absent, free) (s, inr (ground arith))
    ]
  ]

  insert-IsSound :
      (now : ℕ) (key : String) (b : List ℕ) (hits : Hits)
      → IsSound limits now hits
      → HasRoom key hits
      → IsBucket limits now b
      → IsSound limits now (insert key b hits)
  insert-IsSound now key b hits s room v = record {
    distinct = insert-IsDistinct key b hits s.distinct;
    buckets = Buckets-insert now key b hits v s.buckets;
    few = ground (arith, length-insert key b hits, s.few);
  }

  bucket_of-IsBucket :
      (now : ℕ) (key : String) (hits : Hits)
      → IsSound limits now hits
      → IsBucket limits now (bucket_of key hits)
  bucket_of-IsBucket now key hits s = elim (Option-cases (lookup key hits)) [
    | inl e ↦ rw (e, bucket_of) (empty-IsBucket limits now)
    | inr (b, e) ↦ rw (e, bucket_of) (Buckets-lookup now key b hits s.buckets e)
  ]

  admit-IsSound :
      (now : ℕ) (key : String) (hits : Hits)
      → IsSound limits now hits
      → HasRoom key hits
      → IsSound limits now (admit limits now key hits).1
  admit-IsSound now key hits s room =
      let v = bucket_of-IsBucket now key hits s in
      elim (Bool-cases (leb limits.max_hits (length (bucket_of key hits)))) [
        | inl full ↦ rw full (insert-IsSound now key (bucket_of key hits) hits s room v)
        | inr free ↦ rw free (
            insert-IsSound now key (bucket_of key hits ++ (now ∷ [])) hits s room
              (snoc-IsBucket limits now (bucket_of key hits) v (ground arith)))
      ]

  -- `check` keeps the state sound while the clock does not go back: however many keys callers make
  -- up, the limiter never holds more than `max_keys` of them, nor more than `max_hits` hits of one.
  pub check-IsSound :
      (now later : ℕ) (key : String) (hits : Hits)
      → now ≤ later
      → IsSound limits now hits
      → IsSound limits later (check limits later key hits).1
  unfolding check
  check-IsSound now later key hits h s =
      settle (make_room limits key expired) (make_room-RoomMade later key expired sound)
    where
      expired : Hits
      expired = expire limits later key hits

      sound : IsSound limits later expired
      sound = expire-IsSound now later key hits h s

      settle :
          (r : Result Hits)
          → RoomMade later key expired r
          → IsSound limits later
              (elim r as (λ x. Result (Unit {0}) × Hits) [
                | ok room ↦ admit limits later key room
                | err e ↦ (err e, expired)
              ]).1
      settle (ok room) (made, room') = admit-IsSound later key room made room'
      settle (err e) made = made
