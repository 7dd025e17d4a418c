-- ===== src/Auth/Repository.antt =====
-- `SqlAlchemyUserRepository` and `SqlAlchemyRefreshTokenRepository` of
-- backend/app/features/auth/repository.py. A row lock (`SELECT ... FOR UPDATE`) reads the row: the
-- model runs one transaction at a time, which is what the lock brings about.
use apm.Shared.{
  ℕ, suc, Bool, true, false, ◌&&◌, List, [], ◌∷◌, ◌++◌, Option, none, some, String, str_eq, ◌==◌,
  ltb, if◌then◌else◌, length, ◌-◌,
}
use apm.Shared.Table.{find, update_where, delete_where}
use apm.Database.{
  Action, ok, err, integrity_error, email_already_exists, pure, raise, gets, modify, statement,
  rollback, commit_or_flush, ◌>>=◌, ◌>>◌,
}
use apm.Database.Models.{User, RefreshToken, is_none}

-- The two tables, and the next keys that the server will hand out.
pub record Tables : Type 0 where
  pub users : List User
  pub refresh_tokens : List RefreshToken
  pub next_user_id : ℕ
  pub next_token_id : ℕ

abbrev pub has_id : ℕ → User → Bool
has_id n u = u.id == n

abbrev pub has_email : String → User → Bool
has_email e u = str_eq u.email e

abbrev pub has_hash : String → RefreshToken → Bool
has_hash h t = str_eq t.token_hash h

abbrev pub has_reset_hash : String → User → Bool
has_reset_hash h u = elim u.reset_token_hash [ none ↦ false | some r ↦ str_eq r h ]

-- A token that still works: not revoked.
abbrev pub is_live_of : ℕ → RefreshToken → Bool
is_live_of n t = (t.user_id == n) && is_none t.revoked_at

unfoldable pub get_by_id : ℕ → Action Tables (Option User)
get_by_id n = gets (λ t. find (has_id n) t.users)

unfoldable pub get_by_email : String → Action Tables (Option User)
get_by_email e = gets (λ t. find (has_email e) t.users)

unfoldable pub get_by_reset_hash : String → Action Tables (Option User)
get_by_reset_hash h = gets (λ t. find (has_reset_hash h) t.users)

-- `UserRepository.lock`
unfoldable pub lock : ℕ → Action Tables (Option User)
lock n = gets (λ t. find (has_id n) t.users)

-- `uq_users_email_lower`, which is at least as strict as the unique column; a new user has no reset token
-- for the third unique index.
abbrev is_taken : (String → String) → String → Tables → Bool
is_taken lower e t = elim (find (λ u. str_eq (lower u.email) (lower e)) t.users) [
  | none ↦ false
  | some _ ↦ true
]

abbrev insert_user : User → Action Tables User
insert_user u db =
    let row = record u { id = db.working.next_user_id } in
    (
      ok row,
      record db {
        working = record (db.working) {
          users = db.working.users ++ (row ∷ []);
          next_user_id = suc db.working.next_user_id;
        };
      },
    )

-- `UserRepository.create`: a violated uniqueness constraint becomes a clean domain error. `lower` is that
-- of the database.
unfoldable pub create_user : (String → String) → User → Bool → Action Tables User
create_user lower u commits = do
  taken ← gets (is_taken lower u.email)
  if taken
      then (rollback >> raise (email_already_exists "Email already registered"))
      else (do row ← insert_user u; commit_or_flush commits; pure row)

-- The write of a loaded and changed user: the row with its key.
unfoldable pub put_user : User → Action Tables (Unit {0})
put_user u = modify λ t. record t { users = update_where (has_id u.id) (λ _. u) t.users }

-- `UserRepository.save`, with the change of the object that comes before it.
unfoldable pub save : User → Bool → Action Tables (Unit {0})
unfolding put_user
save u commits = put_user u >> commit_or_flush commits

abbrev is_hash_taken : String → Tables → Bool
is_hash_taken h t = elim (find (has_hash h) t.refresh_tokens) [ none ↦ false | some _ ↦ true ]

abbrev insert_token : ℕ → String → ℕ → Action Tables RefreshToken
insert_token owner h expires db =
    let row : RefreshToken = record {
      id = db.working.next_token_id;
      user_id = owner;
      token_hash = h;
      expires_at = expires;
      revoked_at = none;
    } in
    (
      ok row,
      record db {
        working = record (db.working) {
          refresh_tokens = db.working.refresh_tokens ++ (row ∷ []);
          next_token_id = suc db.working.next_token_id;
        };
      },
    )

-- `RefreshTokenRepository.create`; `token_hash` is unique.
unfoldable pub create_token : ℕ → String → ℕ → Bool → Action Tables RefreshToken
create_token owner h expires commits = do
  taken ← gets (is_hash_taken h)
  if taken
      then raise integrity_error
      else (do row ← insert_token owner h expires; commit_or_flush commits; pure row)

unfoldable pub get_by_hash : String → Action Tables (Option RefreshToken)
get_by_hash h = gets (λ t. find (has_hash h) t.refresh_tokens)

unfoldable pub lock_by_hash : String → Action Tables (Option RefreshToken)
lock_by_hash h = gets (λ t. find (has_hash h) t.refresh_tokens)

abbrev pub set_revoked : ℕ → RefreshToken → RefreshToken
set_revoked now t = record t { revoked_at = some now }

unfoldable pub revoke : RefreshToken → ℕ → Bool → Action Tables (Unit {0})
revoke token now commits =
    modify (λ t. record t {
      refresh_tokens = update_where (λ r. r.id == token.id) (set_revoked now) t.refresh_tokens;
    })
    >> commit_or_flush commits

abbrev pub revoke_live : ℕ → ℕ → Tables → Tables
revoke_live owner now t = record t {
  refresh_tokens = update_where (is_live_of owner) (set_revoked now) t.refresh_tokens;
}

-- `execute(UPDATE refresh_tokens ...)`, then the commit or flush.
unfoldable pub revoke_all_for_user : ℕ → ℕ → Bool → Action Tables (Unit {0})
revoke_all_for_user owner now commits =
    statement >> modify (revoke_live owner now) >> commit_or_flush commits

abbrev is_expired : ℕ → RefreshToken → Bool
is_expired now t = ltb t.expires_at now

abbrev delete_expired : ℕ → Action Tables ℕ
delete_expired now db =
    let kept = delete_where (is_expired now) db.working.refresh_tokens in
    (
      ok (length db.working.refresh_tokens - length kept),
      record db { working = record (db.working) { refresh_tokens = kept } },
    )

-- `except Exception: return 0`
abbrev zero_on_error : Action Tables ℕ → Action Tables ℕ
zero_on_error m db = let (r, db') = m db in elim r [ ok n ↦ (ok n, db') | err e ↦ (ok 0, db') ]

-- `purge_expired`: best effort, and how many rows went.
unfoldable pub purge_expired : ℕ → Bool → Action Tables ℕ
purge_expired now commits =
    zero_on_error (do statement; n ← delete_expired now; commit_or_flush commits; pure n)
