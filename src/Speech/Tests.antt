-- ===== src/Speech/Tests.antt =====
-- A cache of two entries.
use apm.Shared.{refl, [], ◌∷◌, String, str_eq_iff, arith, string_eq}
use apm.Database.{Result, ok}
use apm.Speech.{Entries, synthesize}
use apm.Speech.Cache.{IsCache}
use apm.Speech.Provider.{IsTrue, IsTransparent, synthesize-inner}

abbrev spoken : Entries
spoken = ("hi", "hi") ∷ ("bye", "bye") ∷ []

spoken-IsCache : IsCache 2 spoken
spoken-IsCache = record { distinct = (refl, (refl, tt)); bounded = omega arith }

-- A provider whose audio of a text is the text.
abbrev echo : String → Result String
echo text = ok text

spoken-IsTrue : IsTrue 2 echo spoken
spoken-IsTrue text audio e = ground (arith, str_eq_iff "hi" text, str_eq_iff "bye" text)

synthesize-inner_example : IsTransparent 2 echo "bye" (synthesize 2 echo "bye" spoken)
synthesize-inner_example =
    synthesize-inner 2 echo "bye" spoken (omega arith) spoken-IsCache spoken-IsTrue
