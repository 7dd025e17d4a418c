-- ===== src/Idempotency/Replay.antt =====
-- A key's work is done once: what a later call with the same key does.
use apm.Shared.{
  user_key_instance, ℕ, ◌≡◌, true, false, none, some, String, str_eq, arith, Option-cases, inl, inr,
  Option,
}
use apm.Shared.Dict.{lookup, erase, lookup-insert_self, lookup-erase_self, IsDistinct}
use apm.Database.{ok, err, Error}
use apm.Idempotency.{
  Key, Claims, Work, Moment, claimed, begin, complete, release, run_once, alone, lookup_response,
  claim, stale_before,
}

-- What is stored for a key that was processed.
abbrev pub Answered : Key → String → Claims → Type 0
Answered k r d = (lookup_response k d) ≡ (true, some r)

-- Once a key is answered, every call with it returns that answer, does no work and changes nothing.
pub run_once_replays :
    {W : Type 0} (user_id : ℕ) (key r : String) (work : Work W) (m : Moment)
    (others : Claims → Claims) (w : W) (d : Claims)
    → str_eq key "" ≡ false
    → Answered (user_id, key) r d
    → run_once user_id (some key) work m others (w, d) ≡ (ok r, (w, d))
unfolding run_once lookup_response
run_once_replays user_id key r work m others w d nonempty h = ground arith

-- A claim in flight.
abbrev pub Pending : Key → Claims → Type 0
Pending k d = (lookup_response k d) ≡ (true, none)

pub claim-Pending :
    (k : Key) (stale now : ℕ) (d : Claims)
    → (claim k stale now d).0 ≡ true
    → Pending k (claim k stale now d).1
unfolding claim lookup_response
claim-Pending k stale now d h = elim (Option-cases (lookup k d)) [
  | inl e ↦ ground (arith, lookup-insert_self k (record { response = none; created_at = now }) d)
  | inr (c, e) ↦ ground (arith, lookup-insert_self k (record c { created_at = now }) d)
]

begin-Pending :
    (k : Key) (m : Moment) (d : Claims) → (begin k m d).0 ≡ claimed → Pending k (begin k m d).1
unfolding begin
begin-Pending k m d h =
    ground (arith, claim-Pending k (stale_before m.now) m.server_now (m.before_claim d))

pub complete-Answered :
    (k : Key) (r : String) (d : Claims) → Pending k d → Answered k r (complete k r d)
unfolding complete lookup_response
complete-Answered k r d h = elim (Option-cases (lookup k d)) [
  | inl e ↦ ground arith
  | inr (c, e) ↦ ground (arith, lookup-insert_self k (record c { response = some r }) d)
]

-- Whether a key has a row, and its answer, are read off that row.
same_row :
    (k : Key) (r : Option String) (d d' : Claims)
    → lookup k d' ≡ lookup k d
    → lookup_response k d ≡ (true, r)
    → lookup_response k d' ≡ (true, r)
unfolding lookup_response
same_row k r d d' e h = ground (arith, Option-cases (lookup k d))

-- A call that owns its key and whose work returns hands back the work's result and leaves the key
-- answered with it, if no one else has touched the row of the key meanwhile.
pub run_once_answers :
    {W : Type 0} (user_id : ℕ) (key r : String) (work : Work W) (m : Moment)
    (others : Claims → Claims) (w w' : W) (d : Claims)
    → str_eq key "" ≡ false
    → (begin (user_id, key) m d).0 ≡ claimed
    → lookup (user_id, key) (others (begin (user_id, key) m d).1)
      ≡ lookup (user_id, key) (begin (user_id, key) m d).1
    → work w ≡ (ok r, w')
    → let res = run_once user_id (some key) work m others (w, d) in
      (res.0 ≡ ok r) × (res.1.0 ≡ w') × Answered (user_id, key) r res.1.1
unfolding run_once
run_once_answers user_id key r work m others w w' d nonempty owned apart e =
    let k : Key = (user_id, key) in
    let claimed_at = (begin k m d).1 in
    let a =
      complete-Answered k r (others claimed_at)
        (same_row k none claimed_at (others claimed_at) apart (begin-Pending k m d owned)) in
    (ground arith, ground arith, ground (arith, a))

-- Once a call that owns its key, which is not empty, has returned, with no one else touching the row of
-- the key while its work ran, every later call with the same key that finds this row as it was left,
-- whatever else the table and the world are by then and whatever its work is, returns the first
-- result, does no work and leaves the table as it is.
pub run_once_once :
    {W : Type 0} (user_id : ℕ) (key r : String) (work again : Work W) (m later : Moment)
    (others : Claims → Claims) (w w' now : W) (d d' : Claims)
    → str_eq key "" ≡ false
    → (begin (user_id, key) m d).0 ≡ claimed
    → lookup (user_id, key) (others (begin (user_id, key) m d).1)
      ≡ lookup (user_id, key) (begin (user_id, key) m d).1
    → work w ≡ (ok r, w')
    → lookup (user_id, key) d'
      ≡ lookup (user_id, key) (run_once user_id (some key) work m others (w, d)).1.1
    → ((run_once user_id (some key) work m others (w, d)).0 ≡ ok r)
      × ((run_once user_id (some key) work m others (w, d)).1.0 ≡ w')
      × (run_once user_id (some key) again later (λ e. e) (now, d') ≡ (ok r, (now, d')))
run_once_once user_id key r work again m later others w w' now d d' nonempty owned apart e kept =
    let done = run_once_answers user_id key r work m others w w' d nonempty owned apart e in
    (
      done.0,
      done.1,
      run_once_replays user_id key r again later (λ x. x) now d' nonempty
          (same_row (user_id, key) (some r) _ d' kept done.2),
    )

begin-free :
    (k : Key) (now server_now : ℕ) (d : Claims)
    → lookup k d ≡ none
    → (begin k (alone now server_now) d).0 ≡ claimed
unfolding begin
begin-free k now server_now d e = ground arith

-- Work that raises under a key that is not empty releases the claim: a later call owns the key again, so a failure is never cached
-- and never blocks the key. Keys are distinct in the table.
pub run_once_releases :
    {W : Type 0} (user_id : ℕ) (key : String) (x : Error) (work : Work W) (m : Moment) (w w' : W)
    (d : Claims) (now server_now : ℕ)
    → str_eq key "" ≡ false
    → IsDistinct (begin (user_id, key) m d).1
    → (begin (user_id, key) m d).0 ≡ claimed
    → work w ≡ (err x, w')
    → let res = run_once user_id (some key) work m (λ e. e) (w, d) in
      (res.0 ≡ err x)
      × (res.1.0 ≡ w')
      × ((begin (user_id, key) (alone now server_now) res.1.1).0 ≡ claimed)
unfolding run_once release
run_once_releases user_id key x work m w w' d now server_now nonempty distinct owned e =
    let k : Key = (user_id, key) in
    let gone = lookup-erase_self k (begin k m d).1 distinct in
    (
      ground arith,
      ground arith,
      ground (arith, begin-free k now server_now (erase k (begin k m d).1) gone),
    )
