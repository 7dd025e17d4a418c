-- ===== src/Speech/Provider.antt =====
-- The caching provider against the provider that it wraps.
use apm.Shared.{
  ℕ, ◌<◌, ◌≡◌, inl, inr, refl, sym, true, false, none, some, String, str_eq, str_eq_iff, arith,
  string_eq, Bool-cases, Option-cases, if◌then◌else◌,
}
use apm.Shared.Dict.{lookup}
use mathlib.Core.Path.{subst}
use apm.Database.{Result, ok, err, Error}
use apm.Speech.{Entries, get, set, synthesize}
use apm.Speech.Cache.{IsCache, get-IsCache, set-IsCache, lookup-set, lookup-move_to_end}

module _ (max_entries : ℕ) (inner : String → Result String) where
  -- Every entry is what the wrapped provider gives.
  abbrev pub IsTrue : Entries → Type 0
  IsTrue d = (text audio : String) → lookup text d ≡ some audio → inner text ≡ ok audio

  set-IsTrue :
      (text audio : String) (d : Entries)
      → 0 < max_entries
      → IsCache max_entries d
      → IsTrue d
      → inner text ≡ ok audio
      → IsTrue (set max_entries text audio d)
  set-IsTrue text audio d positive c h e j v found =
      let look = lookup-set max_entries text audio d positive c.distinct in
      elim (Bool-cases (str_eq text j)) [
        | inl same ↦ ground (arith, look.0, str_eq_iff text j, same)
        | inr other ↦ ground (arith, look.1 j other, h j v)
      ]

  get-IsTrue :
      (text : String) (d : Entries) → IsCache max_entries d → IsTrue d → IsTrue (get text d).1
  unfolding get
  get-IsTrue text d c h j v = elim (Option-cases (lookup text d)) [
    | inl e ↦ ground (arith, h j v)
    | inr (audio, e) ↦
        ground (arith, e, lookup-move_to_end j text audio d c.distinct, str_eq_iff text j, h j v)
  ]

  synthesize_empty :
      (text : String) (d : Entries)
      → str_eq text "" ≡ true
      → synthesize max_entries inner text d ≡ (ok "", d)
  unfolding synthesize
  synthesize_empty text d e = ground arith

  synthesize_hit :
      (text audio : String) (d : Entries)
      → str_eq text "" ≡ false
      → lookup text d ≡ some audio
      → synthesize max_entries inner text d ≡ (ok audio, (get text d).1)
  unfolding synthesize
  synthesize_hit text audio d e f = ground arith

  synthesize_miss :
      (text : String) (d : Entries)
      → str_eq text "" ≡ false
      → lookup text d ≡ none
      → ((audio : String)
          → inner text ≡ ok audio
          → synthesize max_entries inner text d ≡ (ok audio, set max_entries text audio d))
        × ((x : Error) → inner text ≡ err x → synthesize max_entries inner text d ≡ (err x, d))
  unfolding synthesize
  synthesize_miss text d e f = (λ audio g. ground arith, λ x g. ground arith)

  -- The answer of the wrapped provider, with a cache that is still bounded and true.
  abbrev pub IsTransparent : String → Result String × Entries → Type 0
  IsTransparent text res =
      (res.0 ≡ (if str_eq text "" then ok "" else inner text))
      × IsCache max_entries res.1
      × IsTrue res.1

  missed :
      (text : String) (d : Entries) (r : Result String)
      → 0 < max_entries
      → IsCache max_entries d
      → IsTrue d
      → str_eq text "" ≡ false
      → lookup text d ≡ none
      → inner text ≡ r
      → IsTransparent text (synthesize max_entries inner text d)
  missed text d (ok audio) positive c h spoken e f =
      subst (IsTransparent text) (sym ((synthesize_miss text d spoken e).0 audio f)) (
        ground arith,
        set-IsCache max_entries text audio d c,
        set-IsTrue text audio d positive c h f,
      )
  missed text d (err x) positive c h spoken e f =
      subst (IsTransparent text) (sym ((synthesize_miss text d spoken e).1 x f))
        (ground arith, c, h)

  -- A wrapped provider that gives the same answer for the same text cannot be told from the cached
  -- one: on a cache of true entries `synthesize` gives for every text but the empty one what the
  -- wrapped provider gives, failures included, and the cache stays bounded and true.
  pub synthesize-inner :
      (text : String) (d : Entries)
      → 0 < max_entries
      → IsCache max_entries d
      → IsTrue d
      → IsTransparent text (synthesize max_entries inner text d)
  synthesize-inner text d positive c h = elim (Bool-cases (str_eq text "")) [
    | inl empty ↦
        subst (IsTransparent text) (sym (synthesize_empty text d empty)) (ground arith, c, h)
    | inr spoken ↦ elim (Option-cases (lookup text d)) [
      | inr (audio, e) ↦
          let true_ = h text audio e in
          subst (IsTransparent text) (sym (synthesize_hit text audio d spoken e))
            (ground arith, get-IsCache max_entries text d c, get-IsTrue text d c h)
      | inl e ↦ missed text d (inner text) positive c h spoken e refl
    ]
  ]
