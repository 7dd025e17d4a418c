-- ===== src/Review/Tests.antt =====
-- One user's error types, and what the theorems give on them.
use apm.Shared.{refl, Bool, false, List, [], ◌∷◌, some, String, arith}
use apm.Shared.Dict.{Dict}
use apm.Clock.{days, day}
use apm.Database.{Db}
use apm.Review.{ReviewState, due}
use apm.Review.Ladder.{IsValid}
use apm.Review.Service.{Items, record_session}
use apm.Review.Schedule.{Scheduled, record_session-Scheduled}

abbrev learned : ReviewState
learned = record {
  stage = 2;
  clean_streak = 2;
  status = due;
  next_review_at = some day;
  latest_correction = "He goes";
}

learned-IsValid : IsValid learned
learned-IsValid = record {
  on_ladder = omega arith;
  learning = λ e. (refl, omega arith);
  learned = λ e. absurd (cc);
}

abbrev items : Items
items = ((1, "tense"), learned) ∷ ((2, "tense"), learned) ∷ []

abbrev db : Db Items
db = record { committed = items; working = items; faults = [] }

abbrev corrections : Dict String String
corrections = ("article", "an apple") ∷ []

-- No text is blank, and the set is run through as it was built.
abbrev is_blank : String → Bool
is_blank t = false

abbrev order : List String → List String
order ts = ts

record_session-Scheduled_example :
    Scheduled is_blank order 1 corrections
      (days 2)
      db
      (record_session is_blank order 1 corrections (days 2) db)
record_session-Scheduled_example =
    record_session-Scheduled is_blank order 1 corrections (days 2) db (λ t xs. refl) refl
