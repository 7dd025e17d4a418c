-- ===== src/Auth/Tokens.antt =====
-- What the holder of a refresh token gets: a successful rotation, the end of the family after a
-- theft, and the refusal of deactivated accounts.
use apm.Shared.{
  ℕ, ◌+◌, ◌*◌, ◌<◌, ◌≡◌, ◌≢◌, refl, true, false, [], ◌∷◌, ◌++◌, none, some, String, str_eq_iff,
  arith, ◌==◌, ==_iff, Option-cases, inl, inr, sym,
}
use apm.Shared.Table.{find, update_where, find-update_where, find-append, update_where-NoRow, NoRow}
use mathlib.Core.Path.{subst}
use apm.Clock.{day}
use apm.Database.{Db, ok, err, IsClean, invalid_refresh_token}
use apm.Database.Models.{User, RefreshToken}
use apm.Auth.Repository.{
  Tables, has_hash, has_id, is_live_of, set_revoked, revoke_live, lock_by_hash, get_by_id, revoke,
  create_token, revoke_all_for_user, get_by_email,
}
use apm.Auth.Service.{
  Security, Config, AuthResult, refresh, issue_tokens, is_inactive, login, get_authenticated_user,
}
use apm.Auth.Rotation.{IsReuse}

module _ (sec : Security) (cfg : Config) where
  -- The row that a rotation adds.
  abbrev pub replacement : ℕ → ℕ → String → Tables → RefreshToken
  replacement owner issued raw t = record {
    id = t.next_token_id;
    user_id = owner;
    token_hash = sec.hash_token raw;
    expires_at = issued + cfg.refresh_ttl_days * day;
    revoked_at = none;
  }

  -- What a successful rotation of `token` found, and what it committed.
  pub record Rotated (old : String) (now issued : ℕ) (raw : String) (t : Tables)
      (result : AuthResult) (t' : Tables) : Type 0 where
    pub token : RefreshToken
    pub stored : find (has_hash (sec.hash_token old)) t.refresh_tokens ≡ some token
    pub live : token.revoked_at ≡ none
    pub unexpired : now < token.expires_at
    pub owner : find (has_id token.user_id) t.users ≡ some result.user
    pub active : is_inactive (some result.user) ≡ false
    pub handed_out : result.refresh_token ≡ raw
    pub unused : find (has_hash (sec.hash_token raw)) t.refresh_tokens ≡ none
    pub rotated :
        t'.refresh_tokens
        ≡ update_where (λ r. r.id == token.id) (set_revoked now) t.refresh_tokens
          ++ (replacement result.user.id issued raw t ∷ [])

  refresh-Rotated_of_found :
      (old : String) (now issued : ℕ) (raw : String) (db : Db Tables) (result : AuthResult)
      (token : RefreshToken)
      → IsClean db
      → find (has_hash (sec.hash_token old)) db.committed.refresh_tokens ≡ some token
      → (refresh sec cfg old now issued raw db).0 ≡ ok result
      → Rotated old now issued raw db.committed result
          (refresh sec cfg old now issued raw db).1.committed
  unfolding refresh lock_by_hash get_by_id revoke create_token issue_tokens
  refresh-Rotated_of_found old now issued raw db result token clean e h = record {
    token = token;
    stored = e;
    live = ground arith;
    unexpired = ground arith;
    owner = ground arith;
    active = ground arith;
    handed_out = ground arith;
    unused = ground (
      arith,
      find-update_where (has_hash (sec.hash_token raw)) (λ r. r.id == token.id) (set_revoked now)
          db.committed.refresh_tokens (λ r. refl),
    );
    rotated = ground arith;
  }

  refresh-found :
      (old : String) (now issued : ℕ) (raw : String) (db : Db Tables) (result : AuthResult)
      → IsClean db
      → (refresh sec cfg old now issued raw db).0 ≡ ok result
      → find (has_hash (sec.hash_token old)) db.committed.refresh_tokens ≢ none
  unfolding refresh lock_by_hash
  refresh-found old now issued raw db result clean h = ground arith

  -- A call of `refresh` that returns was given a stored, live and unexpired token of an active user;
  -- it commits that this token is revoked and one new row, for the token that it hands out, whose
  -- hash was not in use.
  pub refresh-Rotated :
      (old : String) (now issued : ℕ) (raw : String) (db : Db Tables) (result : AuthResult)
      → IsClean db
      → (refresh sec cfg old now issued raw db).0 ≡ ok result
      → Rotated old now issued raw db.committed result
          (refresh sec cfg old now issued raw db).1.committed
  refresh-Rotated old now issued raw db result clean h =
      elim (Option-cases (find (has_hash (sec.hash_token old)) db.committed.refresh_tokens)) [
        | inl e ↦ absurd (refresh-found old now issued raw db result clean h e)
        | inr (token, e) ↦ refresh-Rotated_of_found old now issued raw db result token clean e h
      ]

  -- After a rotation the old token is stored as revoked and the new one as live.
  pub Rotated-lookup :
      (old : String) (now issued : ℕ) (raw : String) (t : Tables) (result : AuthResult)
      (t' : Tables) (x : Rotated old now issued raw t result t')
      → (find (has_hash (sec.hash_token old)) t'.refresh_tokens ≡ some (set_revoked now x.token))
        × (find (has_hash (sec.hash_token raw)) t'.refresh_tokens
            ≡ some (replacement result.user.id issued raw t))
  Rotated-lookup old now issued raw t result t' x =
      let rows = update_where (λ r. r.id == x.token.id) (set_revoked now) t.refresh_tokens in
      let row = replacement result.user.id issued raw t in
      let added = λ (h : String). find-append (has_hash h) rows (row ∷ []) in
      let kept = λ (h : String).
        find-update_where (has_hash h) (λ r. r.id == x.token.id) (set_revoked now) t.refresh_tokens
          (λ r. refl) in
      (
        rw (x.rotated) (
            ground (
              arith,
              added (sec.hash_token old),
              kept (sec.hash_token old),
              ==_iff x.token.id x.token.id,
            )),
        rw (x.rotated) (
            ground (
              arith,
              added (sec.hash_token raw),
              kept (sec.hash_token raw),
              str_eq_iff (sec.hash_token raw) (sec.hash_token raw),
            )),
      )

  refresh_family :
      (old : String) (now issued : ℕ) (raw : String) (db : Db Tables) (token : RefreshToken)
      → IsClean db
      → db.faults ≡ []
      → IsReuse sec cfg old now db.committed token
      → ((refresh sec cfg old now issued raw db).0
          ≡ err (invalid_refresh_token "Invalid refresh token"))
        × ((refresh sec cfg old now issued raw db).1.committed
            ≡ revoke_live token.user_id now db.committed)
  unfolding refresh lock_by_hash revoke_all_for_user
  refresh_family old now issued raw db token clean sound reuse = ground arith

  -- With no statement failing, the reuse of a token rotated longer ago than the grace period is
  -- refused and leaves its owner without any live token.
  pub refresh_theft :
      (old : String) (now issued : ℕ) (raw : String) (db : Db Tables) (token : RefreshToken)
      → IsClean db
      → db.faults ≡ []
      → IsReuse sec cfg old now db.committed token
      → ((refresh sec cfg old now issued raw db).0
          ≡ err (invalid_refresh_token "Invalid refresh token"))
        × NoRow
            (is_live_of token.user_id)
            (refresh sec cfg old now issued raw db).1.committed.refresh_tokens
  refresh_theft old now issued raw db token clean sound reuse =
      let h = refresh_family old now issued raw db token clean sound reuse in
      (
        h.0,
        subst (λ t. NoRow (is_live_of token.user_id) t.refresh_tokens) (sym h.1)
            (update_where-NoRow (is_live_of token.user_id) (set_revoked now)
              (is_live_of token.user_id) db.committed.refresh_tokens (λ r e. ground arith)
              (λ r e. e)),
      )

  -- A login that returns is that of an account which is not deactivated and whose stored hash accepts
  -- the password.
  pub login-is_inactive :
      (email password dummy : String) (now : ℕ) (raw : String) (db : Db Tables) {a : AuthResult}
      → (login sec cfg email password dummy now raw db).0 ≡ ok a
      → (is_inactive (some a.user) ≡ false)
        × (sec.verify_password password a.user.hashed_password ≡ true)
  unfolding login get_by_email issue_tokens create_token is_inactive
  login-is_inactive email password dummy now raw db h = ground arith

  pub get_authenticated_user-is_inactive :
      (token : String) (db : Db Tables) {u : User}
      → (get_authenticated_user sec cfg token db).0 ≡ ok u
      → is_inactive (some u) ≡ false
  unfolding get_authenticated_user get_by_id
  get_authenticated_user-is_inactive token db h = ground arith

  refresh_revoked :
      (old : String) (now issued : ℕ) (raw : String) (db : Db Tables) (token : RefreshToken)
      (at : ℕ) (a : AuthResult)
      → IsClean db
      → find (has_hash (sec.hash_token old)) db.committed.refresh_tokens ≡ some token
      → token.revoked_at ≡ some at
      → (refresh sec cfg old now issued raw db).0 ≢ ok a
  unfolding refresh lock_by_hash revoke_all_for_user
  refresh_revoked old now issued raw db token at a clean e r h = ground arith

  -- A refresh token is good for one rotation: once a call with it has returned, no later call with
  -- it returns, in any request that starts from the data then committed.
  pub refresh_single_use :
      (old : String) (now issued : ℕ) (raw : String) (db : Db Tables) (result : AuthResult)
      (later issued' : ℕ) (raw' : String) (db' : Db Tables) (again : AuthResult)
      → IsClean db
      → (refresh sec cfg old now issued raw db).0 ≡ ok result
      → IsClean db'
      → db'.committed ≡ (refresh sec cfg old now issued raw db).1.committed
      → (refresh sec cfg old later issued' raw' db').0 ≢ ok again
  refresh_single_use old now issued raw db result later issued' raw' db' again clean h clean' e =
      let x = refresh-Rotated old now issued raw db result clean h in
      let found = (Rotated-lookup old now issued raw db.committed result _ x).0 in
      refresh_revoked old later issued' raw' db' (set_revoked now x.token) now again clean'
        (rw e found) refl

  -- With no statement failing, a stored, live and unexpired token of an active user is rotated if
  -- the hash of the new token is not in use.
  refresh_returns :
      (old : String) (now issued : ℕ) (raw : String) (db : Db Tables) (token : RefreshToken)
      (user : User)
      → IsClean db
      → db.faults ≡ []
      → find (has_hash (sec.hash_token old)) db.committed.refresh_tokens ≡ some token
      → token.revoked_at ≡ none
      → now < token.expires_at
      → find (has_id token.user_id) db.committed.users ≡ some user
      → is_inactive (some user) ≡ false
      → find (has_hash (sec.hash_token raw)) db.committed.refresh_tokens ≡ none
      → (refresh sec cfg old now issued raw db).0
        ≡ ok (record {
          user = user;
          access_token = sec.jwt_encode user.id issued;
          refresh_token = raw;
        })
  unfolding refresh lock_by_hash get_by_id revoke create_token issue_tokens
  refresh_returns old now issued raw db token user clean sound e live unexpired owner active
        unused =
      ground (
        arith,
        find-update_where (has_hash (sec.hash_token raw)) (λ r. r.id == token.id) (set_revoked now)
            db.committed.refresh_tokens (λ r. refl),
      )
