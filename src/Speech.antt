-- ===== src/Speech.antt =====
-- Synthesized speech: `InMemoryTtsCache` of backend/app/features/conversation/providers/tts_cache.py
-- and `CachingTtsProvider` of caching_tts.py. An `OrderedDict` is a list of entries, the least
-- recently used first; audio is a text of bytes. The wrapped provider is a parameter.
pub mod Cache
pub mod Provider
mod Tests
use apm.Shared.{
  ℕ, ◌≡◌, Bool, List, [], ◌∷◌, ◌++◌, Option, none, some, String, str_eq, ltb, length, if◌then◌else◌,
  string_eq,
}
use apm.Shared.Dict.{Dict, lookup, insert, erase}
use apm.Database.{Result, ok, err}

abbrev pub Entries : Type 0
Entries = Dict String String

-- `move_to_end`, of a key that is there with the given value.
abbrev pub move_to_end : String → String → Entries → Entries
move_to_end text audio d = erase text d ++ ((text, audio) ∷ [])

-- `get`
unfoldable pub get : String → Entries → Option String × Entries
get text d = elim (lookup text d) [
  | none ↦ (none, d)
  | some audio ↦ (some audio, move_to_end text audio d)
]

-- `popitem(last=False)`
abbrev pub pop_first : Entries → Entries
pop_first [] = []
pop_first (e ∷ d) = d

-- `set`; the constructor has made sure that `max_entries` is at least 1.
unfoldable pub set : ℕ → String → String → Entries → Entries
set max_entries text audio d =
    let d' = move_to_end text audio (insert text audio d) in
    if ltb max_entries (length d') then pop_first d' else d'

abbrev store : ℕ → String → Entries → Result String → Result String × Entries
store max_entries text d (ok audio) = (ok audio, set max_entries text audio d)
store max_entries text d (err e) = (err e, d)

abbrev cached_or :
    ℕ → (String → Result String) → String → Option String × Entries → Result String × Entries
cached_or max_entries inner text (some audio, d) = (ok audio, d)
cached_or max_entries inner text (none, d) = store max_entries text d (inner text)

-- `CachingTtsProvider.synthesize`
unfoldable pub synthesize :
    ℕ → (inner : String → Result String) → String → Entries → Result String × Entries
unfolding get set
synthesize max_entries inner text d =
    if str_eq text "" then (ok "", d) else cached_or max_entries inner text (get text d)
