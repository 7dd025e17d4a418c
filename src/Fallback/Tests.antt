-- ===== src/Fallback/Tests.antt =====
-- A provider that fails, and one that answers.
use apm.Shared.{refl, [], ◌∷◌, none, some}
use apm.Database.{ok, err, provider_error}
use apm.Fallback.{Attempt, Stream, complete}
use apm.Fallback.Chain.{Served, complete-Served}

abbrev down : Attempt
down = record { takes = 4; result = err provider_error }

abbrev up : Attempt
up = record { takes = 5; result = ok "hello" }

complete-Served_example : Served 15 0 (down ∷ up ∷ []) "hello"
unfolding complete
complete-Served_example = complete-Served 15 (down ∷ up ∷ []) "hello" refl

abbrev broken : Stream
broken = record { first_after = 2; chunks = "he" ∷ []; failure = some provider_error }

abbrev whole : Stream
whole = record { first_after = 2; chunks = "hel" ∷ "lo" ∷ []; failure = none }
