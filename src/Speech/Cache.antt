-- ===== src/Speech/Cache.antt =====
-- The cache as a bounded map in the order of use.
use apm.Shared.{
  ◌⊎◌, ℕ, suc, ◌≤◌, ◌<◌, ◌≡◌, ◌≢◌, refl, true, false, [], ◌∷◌, ◌++◌, none, some, String, str_eq,
  str_eq_iff, ltb, length, length-append, arith, string_eq, Bool-cases, Option-cases, inl, inr,
  if◌then◌else◌,
}
use apm.Shared.Dict.{
  lookup, insert, erase, IsDistinct, lookup-insert, lookup-insert_self, lookup-erase_ne,
  lookup-erase_self, insert-IsDistinct, erase-IsDistinct,
}
use apm.Speech.{Entries, move_to_end, get, set, pop_first}

lookup-append :
    (j : String) (d e : Entries)
    → lookup j (d ++ e) ≡ elim (lookup j d) [ none ↦ lookup j e | some v ↦ some v ]
lookup-append j [] e = refl
lookup-append j ((k, v) ∷ d) e = ground (arith, lookup-append j d e)

snoc-IsDistinct :
    (k v : String) (d : Entries)
    → IsDistinct d
    → lookup k d ≡ none
    → IsDistinct (d ++ ((k, v) ∷ []))
snoc-IsDistinct k v [] h e = (refl, tt)
snoc-IsDistinct k v ((j, w) ∷ d) h e = (
  ground (arith, lookup-append j d ((k, v) ∷ []), h.0, str_eq_iff j k, str_eq_iff k j),
  snoc-IsDistinct k v d h.1 (ground (arith, e)),
)

pub move_to_end-IsDistinct :
    (k v : String) (d : Entries) → IsDistinct d → IsDistinct (move_to_end k v d)
move_to_end-IsDistinct k v d h =
    snoc-IsDistinct k v (erase k d) (erase-IsDistinct k d h) (lookup-erase_self k d h)

-- Moving an entry to the end is a write of it.
pub lookup-move_to_end :
    (j k v : String) (d : Entries)
    → IsDistinct d
    → lookup j (move_to_end k v d) ≡ (if str_eq k j then some v else lookup j d)
lookup-move_to_end j k v d h = elim (Bool-cases (str_eq k j)) [
  | inl same ↦ ground (
    arith,
    same,
    str_eq_iff k j,
    lookup-append j (erase k d) ((k, v) ∷ []),
    lookup-erase_self k d h,
  )
  | inr other ↦ ground (
    arith,
    other,
    str_eq_iff k j,
    lookup-append j (erase k d) ((k, v) ∷ []),
    lookup-erase_ne k j d,
  )
]

length-erase :
    (k : String) (d : Entries)
    → (length (erase k d) ≤ length d) × (lookup k d ≢ none → suc (length (erase k d)) ≡ length d)
length-erase k [] = (omega arith, λ e. absurd (e refl))
length-erase k ((j, w) ∷ d) =
    let ih = length-erase k d in (ground (arith, ih.0), λ e. ground (arith, ih.1))

length-insert : (k v : String) (d : Entries) → length (insert k v d) ≤ suc (length d)
length-insert k v [] = omega arith
length-insert k v ((j, w) ∷ d) = ground (arith, length-insert k v d)

-- What holds of the cache: each text once, and at most `max_entries` of them.
pub record IsCache (max_entries : ℕ) (d : Entries) : Type 0 where
  pub distinct : IsDistinct d
  pub bounded : length d ≤ max_entries

length-move_to_end :
    (k v : String) (d : Entries) → lookup k d ≢ none → length (move_to_end k v d) ≡ length d
length-move_to_end k v d h =
    omega (arith, length-append (erase k d) ((k, v) ∷ []), (length-erase k d).1 h)

pop_first-IsDistinct : (d : Entries) → IsDistinct d → IsDistinct (pop_first d)
pop_first-IsDistinct [] h = tt
pop_first-IsDistinct (e ∷ d) h = h.1

length-pop_first : (d : Entries) (n : ℕ) → length d ≤ suc n → length (pop_first d) ≤ n
length-pop_first [] n h = omega arith
length-pop_first (e ∷ d) n h = omega arith

-- Without its first entry, a cache finds what it found, or nothing for the one key that is gone.
lookup-pop_first :
    (j : String) (d : Entries)
    → IsDistinct d
    → (lookup j (pop_first d) ≡ lookup j d) ⊎ (lookup j (pop_first d) ≡ none)
lookup-pop_first j [] h = inl refl
lookup-pop_first j ((k, v) ∷ d) h = elim (Bool-cases (str_eq k j)) [
  | inl same ↦ inr (ground (arith, h.0, str_eq_iff k j, same))
  | inr other ↦ inl (ground (arith, other))
]

-- The last of two or more entries is not the first.
lookup-pop_first_last :
    (k v : String) (d : Entries)
    → lookup k d ≡ none
    → 1 < length (d ++ ((k, v) ∷ []))
    → lookup k (pop_first (d ++ ((k, v) ∷ []))) ≡ some v
lookup-pop_first_last k v [] e h = absurd (omega arith)
lookup-pop_first_last k v ((j, w) ∷ d) e h =
    ground (arith, lookup-append k d ((k, v) ∷ []), str_eq_iff k k, e)

pub get-IsCache :
    (max_entries : ℕ) (text : String) (d : Entries)
    → IsCache max_entries d
    → IsCache max_entries (get text d).1
unfolding get
get-IsCache max_entries text d c = elim (Option-cases (lookup text d)) [
  | inl e ↦ rw (e, get) c
  | inr (audio, e) ↦
      rw (e, get)
        (record {
          distinct = move_to_end-IsDistinct text audio d c.distinct;
          bounded = omega (arith, length-move_to_end text audio d (λ n. cc), c.bounded);
        })
]

module _ (max_entries : ℕ) (text audio : String) (d : Entries) where
  abbrev written : Entries
  written = move_to_end text audio (insert text audio d)

  written-bounded : length d ≤ max_entries → length written ≤ suc max_entries
  written-bounded h = omega (
    arith,
    length-move_to_end text audio (insert text audio d)
        (λ n. ground (arith, lookup-insert_self text audio d)),
    length-insert text audio d,
  )

  written-IsDistinct : IsDistinct d → IsDistinct written
  written-IsDistinct h =
      move_to_end-IsDistinct text audio (insert text audio d) (insert-IsDistinct text audio d h)

  pub set-IsCache : IsCache max_entries d → IsCache max_entries (set max_entries text audio d)
  unfolding set
  set-IsCache c = elim (Bool-cases (ltb max_entries (length written))) [
    | inl full ↦ rw full (record {
      distinct = pop_first-IsDistinct written (written-IsDistinct c.distinct);
      bounded = length-pop_first written max_entries (written-bounded c.bounded);
    })
    | inr free ↦
        rw free (record { distinct = written-IsDistinct c.distinct; bounded = ground arith })
  ]

  lookup-written :
      (j : String)
      → IsDistinct d
      → lookup j written ≡ (if str_eq text j then some audio else lookup j d)
  lookup-written j h = ground (
    arith,
    lookup-move_to_end j text audio (insert text audio d) (insert-IsDistinct text audio d h),
    lookup-insert text j audio d,
  )

  -- After `set` with a positive capacity the text is found, and every other text as before, or no
  -- more; none is lost while the cache is not full.
  pub lookup-set :
      0 < max_entries
      → IsDistinct d
      → (lookup text (set max_entries text audio d) ≡ some audio)
        × ((j : String)
            → str_eq text j ≡ false
            → (lookup j (set max_entries text audio d) ≡ lookup j d)
              ⊎ (lookup j (set max_entries text audio d) ≡ none))
        × ((j : String)
            → length d < max_entries
            → str_eq text j ≡ false
            → lookup j (set max_entries text audio d) ≡ lookup j d)
  unfolding set
  lookup-set positive h = elim (Bool-cases (ltb max_entries (length written))) [
    | inl full ↦
        let last =
          lookup-pop_first_last text audio (erase text (insert text audio d))
            (lookup-erase_self text (insert text audio d) (insert-IsDistinct text audio d h))
            (ground arith) in
        (
          ground (arith, full, last),
          λ j other.
              ground (
                arith,
                full,
                lookup-pop_first j written (written-IsDistinct h),
                lookup-written j h,
              ),
          λ j below other. absurd (fits full below),
        )
    | inr free ↦ (
      ground (arith, free, lookup-written text h, str_eq_iff text text),
      λ j other. inl (ground (arith, free, lookup-written j h)),
      λ j below other. ground (arith, free, lookup-written j h),
    )
  ]
    where
      grown : length written ≤ suc (length d)
      grown = omega (
        arith,
        length-move_to_end text audio (insert text audio d)
            (λ n. ground (arith, lookup-insert_self text audio d)),
        length-insert text audio d,
      )

      fits : ltb max_entries (length written) ≡ true → length d < max_entries → ⊥
      fits full below = ground (arith, grown)
