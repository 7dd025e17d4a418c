-- ===== src/Idempotency/Exclusive.antt =====
-- A claim has one owner: who wins while a claim is held, and what a late release does.
use apm.Shared.{
  user_key_instance, ℕ, ◌+◌, ◌*◌, ◌≤◌, ◌<◌, ◌≡◌, refl, true, false, List, [], ◌∷◌, none, some,
  String, arith,
}
use apm.Shared.Dict.{lookup, lookup-insert_self, lookup-erase_self, IsDistinct}
use apm.Clock.{second}
use apm.Idempotency.{
  Key, Claim, Claims, ClaimOutcome, claimed, in_flight, begin, release, alone, lookup_response,
  claim, stale_claim_seconds, acquire_turn_lock, release_turn_lock,
}

-- A claim in flight, made at `at`.
abbrev pub Held : Key → ℕ → Claims → Type 0
Held k at d = lookup k d ≡ some (record { response = none; created_at = at })

claim-Held :
    (k : Key) (stale now : ℕ) (d : Claims)
    → lookup k d ≡ none
    → (claim k stale now d).0 ≡ true × Held k now (claim k stale now d).1
unfolding claim
claim-Held k stale now d e =
    ground (arith, lookup-insert_self k (record { response = none; created_at = now }) d)

-- For two minutes after a claim was made, every other call finds it in flight and leaves the table
-- as it is.
begin-Held :
    (k : Key) (at now server_now : ℕ) (d : Claims)
    → Held k at d
    → now ≤ at + stale_claim_seconds * second
    → begin k (alone now server_now) d ≡ (in_flight, d)
unfolding begin
begin-Held k at now server_now d h recent = ground arith

-- The calls with one key at the given pairs of clock readings, one after another.
abbrev pub begin_all : Key → List (ℕ × ℕ) → Claims → List ClaimOutcome × Claims
begin_all k [] d = ([], d)
begin_all k ((now, server_now) ∷ ts) d =
    let (o, d') = begin k (alone now server_now) d in
    let (os, d'') = begin_all k ts d' in (o ∷ os, d'')

abbrev pub AllWithin : ℕ → List (ℕ × ℕ) → Type 0
AllWithin limit [] = Unit
AllWithin limit ((now, server_now) ∷ ts) = (now ≤ limit) × AllWithin limit ts

abbrev pub all_in_flight : List (ℕ × ℕ) → List ClaimOutcome
all_in_flight [] = []
all_in_flight (t ∷ ts) = in_flight ∷ all_in_flight ts

-- Of all the calls with one key that arrive after the claim was made and before it is two minutes
-- old, none becomes a second owner.
pub begin_all-Held :
    (k : Key) (at : ℕ) (ts : List (ℕ × ℕ)) (d : Claims)
    → Held k at d
    → AllWithin (at + stale_claim_seconds * second) ts
    → begin_all k ts d ≡ (all_in_flight ts, d)
begin_all-Held k at [] d h w = refl
begin_all-Held k at ((now, server_now) ∷ ts) d h w =
    rw (begin-Held k at now server_now d h w.0) (rw (begin_all-Held k at ts d h w.1) refl)

-- A claim that is older than two minutes and has no response goes to the next caller.
pub begin_stale :
    (k : Key) (at now server_now : ℕ) (d : Claims)
    → Held k at d
    → at + stale_claim_seconds * second < now
    → ((begin k (alone now server_now) d).0 ≡ claimed)
      × Held k server_now (begin k (alone now server_now) d).1
unfolding begin
begin_stale k at now server_now d h old =
    ground (arith, lookup-insert_self k (record { response = none; created_at = server_now }) d)

-- The turn lock of a session: if it is free a turn gets it, and no second turn that asks for it up to
-- two minutes after that does.
pub turn_lock_exclusive :
    (lock_key : ℕ → String) (user_id session_id : ℕ) (now1 server1 now2 server2 : ℕ) (d : Claims)
    → lookup (user_id, lock_key session_id) d ≡ none
    → now2 ≤ server1 + stale_claim_seconds * second
    → let first = acquire_turn_lock lock_key user_id session_id now1 server1 d in
      (first.0 ≡ true)
      × (acquire_turn_lock lock_key user_id session_id now2 server2 first.1 ≡ (false, first.1))
unfolding acquire_turn_lock
turn_lock_exclusive lock_key user_id session_id now1 server1 now2 server2 d free recent =
    let k : Key = (user_id, lock_key session_id) in
    let row : Claim = record { response = none; created_at = server1 } in
    (ground arith, ground (arith, lookup-insert_self k row d))

pub turn_lock_released :
    (lock_key : ℕ → String) (user_id session_id now server_now : ℕ) (d : Claims)
    → IsDistinct d
    → (acquire_turn_lock lock_key user_id session_id now server_now
        (release_turn_lock lock_key user_id session_id d)).0
      ≡ true
unfolding acquire_turn_lock release_turn_lock
turn_lock_released lock_key user_id session_id now server_now d distinct =
    ground (arith, lookup-erase_self (user_id, lock_key session_id) d distinct)

-- A release drops the row of a key also if it holds an answer, as it may by then when the releasing
-- owner was taken for crashed: the next call with the key becomes its owner again instead of getting
-- the answer. Keys are distinct in the table.
pub release_drops_answer :
    (k : Key) (r : String) (now server_now : ℕ) (d : Claims)
    → IsDistinct d
    → lookup_response k d ≡ (true, some r)
    → (begin k (alone now server_now) (release k d)).0 ≡ claimed
unfolding begin release
release_drops_answer k r now server_now d distinct answered =
    ground (arith, lookup-erase_self k d distinct)
