-- ===== src/Auth/Rotation.antt =====
-- Refresh-token rotation: what one call of `refresh` does to the stored data, on every path and with
-- any statement failing.
use apm.Shared.{
  ℕ, ◌+◌, ◌*◌, ◌≤◌, ◌<◌, ◌≡◌, ◌⊎◌, inl, inr, Option, none, some, String, arith, Option-cases,
}
use native.Mathlib.Decide.{dec_lt}
use apm.Clock.{second}
use apm.Database.{Db, Result, ok, err, IsClean}
use apm.Database.Models.{RefreshToken}
use apm.Shared.Table.{find}
use apm.Auth.Repository.{
  Tables, has_hash, revoke_live, lock_by_hash, get_by_id, revoke, create_token, revoke_all_for_user,
}
use apm.Auth.Service.{Security, Config, AuthResult, refresh, issue_tokens}

module _ (sec : Security) (cfg : Config) where
  -- A stored token that was rotated longer ago than the grace period.
  pub record IsReuse (raw : String) (now : ℕ) (t : Tables) (token : RefreshToken) : Type 0 where
    pub at : ℕ
    pub stored : find (has_hash (sec.hash_token raw)) t.refresh_tokens ≡ some token
    pub revoked : token.revoked_at ≡ some at
    pub late : at + cfg.reuse_grace_seconds * second < now

  -- What is committed after a refused call.
  abbrev pub Refused : String → ℕ → Db Tables → Db Tables → Type 0
  Refused raw now db db' =
      (db'.committed ≡ db.committed)
      ⊎ ((token : RefreshToken) × IsReuse raw now db.committed token
          × (db'.committed ≡ revoke_live token.user_id now db.committed))

  abbrev pub Outcome : String → ℕ → Db Tables → Result AuthResult × Db Tables → Type 0
  Outcome raw now db (ok _, db') = Unit
  Outcome raw now db (err _, db') = Refused raw now db db'

  -- A token that was rotated long ago: the call is refused, and either nothing is committed or the
  -- whole family of its owner is revoked.
  refresh-reuse :
      (old : String) (now issued : ℕ) (raw : String) (db : Db Tables) (token : RefreshToken)
      → IsClean db
      → IsReuse old now db.committed token
      → let (r, db') = refresh sec cfg old now issued raw db in
        IsClean db'
        × ((db'.committed ≡ db.committed)
            ⊎ (db'.committed ≡ revoke_live token.user_id now db.committed))
  unfolding refresh lock_by_hash revoke_all_for_user
  refresh-reuse old now issued raw db token clean reuse = ground arith

  Outcome-of_reuse :
      (old : String) (now : ℕ) (db : Db Tables) (token : RefreshToken)
      → IsReuse old now db.committed token
      → (res : Result AuthResult × Db Tables)
      → (res.1.committed ≡ db.committed)
        ⊎ (res.1.committed ≡ revoke_live token.user_id now db.committed)
      → Outcome old now db res
  Outcome-of_reuse old now db token reuse (ok a, db') h = tt
  Outcome-of_reuse old now db token reuse (err x, db') (inl h) = inl h
  Outcome-of_reuse old now db token reuse (err x, db') (inr h) = inr (token, reuse, h)

  refresh_unknown :
      (old : String) (now issued : ℕ) (raw : String) (db : Db Tables)
      → IsClean db
      → find (has_hash (sec.hash_token old)) db.committed.refresh_tokens ≡ none
      → let (r, db') = refresh sec cfg old now issued raw db in
        IsClean db' × (db'.committed ≡ db.committed)
  unfolding refresh lock_by_hash
  refresh_unknown old now issued raw db clean e = ground arith

  refresh_early_reuse :
      (old : String) (now issued : ℕ) (raw : String) (db : Db Tables) (token : RefreshToken)
      (at : ℕ)
      → IsClean db
      → find (has_hash (sec.hash_token old)) db.committed.refresh_tokens ≡ some token
      → token.revoked_at ≡ some at
      → now ≤ at + cfg.reuse_grace_seconds * second
      → let (r, db') = refresh sec cfg old now issued raw db in
        IsClean db' × (db'.committed ≡ db.committed)
  unfolding refresh lock_by_hash
  refresh_early_reuse old now issued raw db token at clean e r h = ground arith

  -- A live token: on an error nothing is committed.
  abbrev UnchangedIfErr : Db Tables → Result AuthResult × Db Tables → Type 0
  UnchangedIfErr db (ok _, db') = IsClean db'
  UnchangedIfErr db (err _, db') = IsClean db' × (db'.committed ≡ db.committed)

  refresh_live :
      (old : String) (now issued : ℕ) (raw : String) (db : Db Tables) (token : RefreshToken)
      → IsClean db
      → find (has_hash (sec.hash_token old)) db.committed.refresh_tokens ≡ some token
      → token.revoked_at ≡ none
      → UnchangedIfErr db (refresh sec cfg old now issued raw db)
  unfolding refresh lock_by_hash get_by_id revoke create_token issue_tokens
  refresh_live old now issued raw db token clean e r = ground arith

  Outcome-of_unchanged :
      (old : String) (now : ℕ) (db : Db Tables) (res : Result AuthResult × Db Tables)
      → res.1.committed ≡ db.committed
      → Outcome old now db res
  Outcome-of_unchanged old now db (ok a, db') h = tt
  Outcome-of_unchanged old now db (err x, db') h = inl h

  Outcome-of_live :
      (old : String) (now : ℕ) (db : Db Tables) (res : Result AuthResult × Db Tables)
      → UnchangedIfErr db res
      → IsClean res.1 × Outcome old now db res
  Outcome-of_live old now db (ok a, db') h = (h, tt)
  Outcome-of_live old now db (err x, db') h = (h.0, inl h.1)

  -- Whatever statement fails, a call of `refresh` leaves nothing pending. If it raises, then either
  -- nothing was committed, or the presented token is stored, was rotated longer ago than the grace
  -- period, and exactly the live tokens of its owner were revoked.
  pub refresh_atomic :
      (old : String) (now issued : ℕ) (raw : String) (db : Db Tables)
      → IsClean db
      → IsClean (refresh sec cfg old now issued raw db).1
        × Outcome old now db (refresh sec cfg old now issued raw db)
  refresh_atomic old now issued raw db clean = elim (Option-cases found) [
    | inl e ↦
        let u = refresh_unknown old now issued raw db clean e in
        (u.0, Outcome-of_unchanged old now db result u.1)
    | inr (token, e) ↦ elim (Option-cases token.revoked_at) [
      | inl r ↦
          Outcome-of_live old now db result (refresh_live old now issued raw db token clean e r)
      | inr (at, r) ↦ elim (dec_lt (at + cfg.reuse_grace_seconds * second) now) [
        | yes l ↦
            let reuse : IsReuse old now db.committed token = record {
              at = at;
              stored = e;
              revoked = r;
              late = l;
            } in
            let u = refresh-reuse old now issued raw db token clean reuse in
            (u.0, Outcome-of_reuse old now db token reuse result u.1)
        | no early ↦
            let u = refresh_early_reuse old now issued raw db token at clean e r (omega arith) in
            (u.0, Outcome-of_unchanged old now db result u.1)
      ]
    ]
  ]
    where
      found : Option RefreshToken
      found = find (has_hash (sec.hash_token old)) db.committed.refresh_tokens

      result : Result AuthResult × Db Tables
      result = refresh sec cfg old now issued raw db
