-- ===== src/Auth/Passwords.antt =====
-- Passwords, resets and deactivation: the change and the end of every session are one transaction.
use apm.Shared.{
  ℕ, ◌≡◌, ◌≢◌, refl, sym, true, false, List, [], ◌∷◌, none, some, String, arith, ◌⊎◌, inl, inr,
  Option-cases,
}
use mathlib.Core.Path.{subst}
use apm.Shared.Table.{find, update_where, update_where-NoRow, NoRow}
use apm.Database.{Db, Result, ok, err, IsClean, invalid_credentials}
use apm.Database.Models.{User}
use apm.Auth.Repository.{
  Tables, has_id, has_reset_hash, is_live_of, set_revoked, revoke_live, save, revoke_all_for_user,
  get_by_id, get_by_reset_hash,
}
use apm.Auth.Service.{Security, Config, is_inactive}
use apm.Auth.Account.{
  save_and_revoke_all, change_password, reset_password, set_active, with_password, is_reset_over,
}

module _ (sec : Security) (cfg : Config) where
  -- What a call that changes `user` has committed: all of it, or nothing.
  abbrev pub AllOrNothing : User → ℕ → Db Tables → Result (Unit {0}) × Db Tables → Type 0
  AllOrNothing user now db (ok _, db') =
      IsClean db'
      × (db'.committed
          ≡ revoke_live user.id now (record (db.committed) {
            users = update_where (has_id user.id) (λ _. user) db.committed.users;
          }))
  AllOrNothing user now db (err _, db') = IsClean db' × (db'.committed ≡ db.committed)

  save_and_revoke_all_atomic :
      (user : User) (now : ℕ) (db : Db Tables)
      → IsClean db
      → AllOrNothing user now db (save_and_revoke_all sec cfg user now db)
  unfolding save_and_revoke_all save revoke_all_for_user
  save_and_revoke_all_atomic user now db clean = ground arith

  -- Whatever statement fails, `change_password` commits the new hash, no pending reset and the
  -- revocation of every live token together, or commits nothing.
  change_password_atomic :
      (user : User) (old new salt : String) (now : ℕ) (db : Db Tables)
      → IsClean db
      → AllOrNothing
          (with_password sec cfg user (sec.hash_password salt new))
          now
          db
          (change_password sec cfg user old new salt now db)
  unfolding change_password save revoke_all_for_user
  change_password_atomic user old new salt now db clean = ground arith

  -- After a committed change no token of the user is live.
  AllOrNothing-NoRow :
      (user : User) (now : ℕ) (db db' : Db Tables)
      → AllOrNothing user now db (ok tt, db')
      → NoRow (is_live_of user.id) db'.committed.refresh_tokens
  AllOrNothing-NoRow user now db db' h =
      subst (λ t. NoRow (is_live_of user.id) t.refresh_tokens) (sym h.1)
        (update_where-NoRow (is_live_of user.id) (set_revoked now) (is_live_of user.id)
          db.committed.refresh_tokens (λ r e. ground arith) (λ r e. e))

  -- The row that an update by key has written.
  find-put :
      (user : User) (n : ℕ) (users : List User)
      → user.id ≡ n
      → find (has_id n) users ≢ none
      → find (has_id n) (update_where (has_id n) (λ _. user) users) ≡ some user
  find-put user n [] e h = absurd (h refl)
  find-put user n (u ∷ us) e h = ground (arith, find-put user n us e)

  committed_of_ok :
      (user : User) (now : ℕ) (db : Db Tables) (res : Result (Unit {0}) × Db Tables)
      → res.0 ≡ ok tt
      → AllOrNothing user now db res
      → AllOrNothing user now db (ok tt, res.1)
  committed_of_ok user now db (ok tt, db') h a = a
  committed_of_ok user now db (err x, db') h a = absurd (cc)

  -- With a reset token that is stored for a user: whatever statement fails, `reset_password` commits the
  -- new hash, the end of the reset and the revocation of every live token of that user together and
  -- returns, or raises and commits nothing.
  pub reset_password_atomic :
      (raw new salt : String) (now : ℕ) (db : Db Tables) (user : User)
      → IsClean db
      → find (has_reset_hash (sec.hash_token raw)) db.committed.users ≡ some user
      → AllOrNothing
          (with_password sec cfg user (sec.hash_password salt new))
          now
          db
          (reset_password sec cfg raw new salt now db)
  unfolding reset_password save revoke_all_for_user get_by_reset_hash
  reset_password_atomic raw new salt now db user clean e = ground arith

  -- A reset token that is unknown, has no expiry, has expired or belongs to a deactivated account is
  -- refused, and every stored row stays as it was.
  pub reset_password_refused :
      (raw new salt : String) (now : ℕ) (db : Db Tables)
      → ((user : User)
          → find (has_reset_hash (sec.hash_token raw)) db.working.users ≡ some user
          → (is_reset_over sec cfg user now ≡ true) ⊎ (is_inactive (some user) ≡ true))
      → reset_password sec cfg raw new salt now db
        ≡ (err (invalid_credentials "Invalid reset token"), db)
  unfolding reset_password get_by_reset_hash
  reset_password_refused raw new salt now db h =
      elim (Option-cases (find (has_reset_hash (sec.hash_token raw)) db.working.users)) [
        | inl e ↦ ground arith
        | inr (user, e) ↦ ground (arith, h user e)
      ]

  set_active_atomic :
      (user_id now : ℕ) (db : Db Tables) (user : User)
      → IsClean db
      → find (has_id user_id) db.committed.users ≡ some user
      → AllOrNothing
          (record user { is_active = some false })
          now
          db
          (set_active sec cfg user_id false now db)
  unfolding set_active save revoke_all_for_user get_by_id
  set_active_atomic user_id now db user clean e = ground arith

  -- Deactivation that returns: the stored account is inactive and none of its tokens is live.
  pub set_active-is_inactive :
      (now : ℕ) (db : Db Tables) (user : User)
      → IsClean db
      → find (has_id user.id) db.committed.users ≡ some user
      → (set_active sec cfg user.id false now db).0 ≡ ok tt
      → (is_inactive
            (find (has_id user.id) (set_active sec cfg user.id false now db).1.committed.users)
          ≡ true)
        × NoRow
            (is_live_of user.id)
            (set_active sec cfg user.id false now db).1.committed.refresh_tokens
  unfolding is_inactive
  set_active-is_inactive now db user clean e h =
      let res = set_active sec cfg user.id false now db in
      let changed = record user { is_active = some false } in
      let a =
        committed_of_ok changed now db res h (set_active_atomic user.id now db user clean e) in
      (
        rw (a.1) (rw (find-put changed user.id db.committed.users refl (λ n. cc)) refl),
        AllOrNothing-NoRow changed now db res.1 a,
      )
