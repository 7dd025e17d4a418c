-- ===== src/Idempotency/Keys.antt =====
-- The rows of the idempotency table under `complete` and `release`.
use apm.Shared.{◌≡◌, ◌≢◌, sym, inl, inr, none, some, String, arith, user_key_instance, Option-cases}
use mathlib.Core.Path.{subst}
use apm.Shared.Dict.{lookup, insert, erase, IsDistinct, lookup-erase_ne, insert-IsDistinct}
use apm.Idempotency.{Key, Claims, Claim, lookup_response, complete}

complete_absent : (k : Key) (r : String) (d : Claims) → lookup k d ≡ none → complete k r d ≡ d
unfolding complete
complete_absent k r d e = ground arith

complete_present :
    (k : Key) (r : String) (d : Claims) (c : Claim)
    → lookup k d ≡ some c
    → complete k r d ≡ insert k (record c { response = some r }) d
unfolding complete
complete_present k r d c e = ground arith

pub complete-IsDistinct :
    (k : Key) (r : String) (d : Claims) → IsDistinct d → IsDistinct (complete k r d)
complete-IsDistinct k r d h = elim (Option-cases (lookup k d)) [
  | inl e ↦ subst IsDistinct (sym (complete_absent k r d e)) h
  | inr (c, e) ↦ subst IsDistinct (sym (complete_present k r d c e)) (insert-IsDistinct k _ d h)
]

pub lookup_response-erase_ne :
    (k j : Key) (d : Claims) → k ≢ j → lookup_response j (erase k d) ≡ lookup_response j d
unfolding lookup_response
lookup_response-erase_ne k j d h = ground (arith, lookup-erase_ne k j d h)
