-- ===== src/Review/Service.antt =====
-- `ReviewService` of backend/app/features/review/service.py over the statements of repository.py.
-- The rows stand under their unique key, the user and the error type. `is_blank` is Python's
-- `not text.strip()`, and `order` the order in which Python runs through a set.
use apm.Shared.{
  ℕ, Bool, true, not, ◌&&◌, List, [], ◌∷◌, ◌++◌, Option, none, some, String, ◌==◌, leb,
  if◌then◌else◌, UserKey, user_key_instance, string_eq,
}
use apm.Shared.Dict.{Dict, lookup, insert}
use apm.Database.{Action, pure, gets, modify, statement, commit, rollback_on_error, ◌>>=◌, ◌>>◌}
use apm.Review.{ReviewState, initial, on_error_seen, on_error_absent, is_mastered}

abbrev pub Items : Type 0
Items = Dict UserKey ReviewState

-- The error types of a user's rows.
abbrev pub types_of : ℕ → Items → List String
types_of user [] = []
types_of user (((u, t), s) ∷ d) = if u == user then t ∷ types_of user d else types_of user d

abbrev pub keys : Dict String String → List String
keys [] = []
keys ((k, v) ∷ d) = k ∷ keys d

-- `_to_state`
unfoldable pub to_state : Option ReviewState → ReviewState
to_state none = initial
to_state (some s) = s

-- `upsert`: staged, not committed.
unfoldable pub upsert : ℕ → String → ReviewState → Action Items (Unit {0})
upsert user error_type s = statement >> modify (insert (user, error_type) s)

-- The new state of one type, from the state read at the start.
unfoldable pub new_state : ℕ → Items → Dict String String → ℕ → String → ReviewState
unfolding to_state
new_state user existing seen now t =
    let state = to_state (lookup (user, t) existing) in
    elim (lookup t seen) [
      | none ↦ on_error_absent state now
      | some correction ↦ on_error_seen state correction now
    ]

module _ (is_blank : String → Bool) where
  abbrev pub record_one : ℕ → Items → Dict String String → ℕ → String → Action Items (Unit {0})
  record_one user existing seen now t =
      if is_blank t then pure tt else upsert user t (new_state user existing seen now t)

  -- `for error_type in all_types`
  unfoldable pub record_all :
      ℕ → Items → Dict String String → ℕ → List String → Action Items (Unit {0})
  unfolding upsert
  record_all user existing seen now [] = pure tt
  record_all user existing seen now (t ∷ ts) =
      record_one user existing seen now t >> record_all user existing seen now ts

  module _ (order : List String → List String) where
    -- The advisory lock is one statement; under it this user's rows do not change.
    unfoldable pub record_session : ℕ → Dict String String → ℕ → Action Items (Unit {0})
    record_session user seen now = do
      statement
      existing ← gets (λ d. d)
      rollback_on_error (
          record_all user existing seen now (order (types_of user existing ++ keys seen)) >> commit)

-- `list_due`: not mastered, and never scheduled or due. The model gives the rows that the query
-- selects, in the order of the table.
abbrev pub is_due : ReviewState → ℕ → Bool
is_due s now =
    not (is_mastered s.status) && elim s.next_review_at [ none ↦ true | some at ↦ leb at now ]

unfoldable pub due_types : ℕ → ℕ → Items → List String
due_types user now [] = []
due_types user now (((u, t), s) ∷ d) =
    let rest = due_types user now d in if (u == user) && is_due s now then t ∷ rest else rest
