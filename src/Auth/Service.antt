-- ===== src/Auth/Service.antt =====
-- `AuthService` of backend/app/features/auth/service.py and the token decoding of
-- backend/app/core/security.py. Hashing, signing, Python's text functions and the random tokens are
-- parameters; every reading of the clock is an argument.
use apm.Shared.{
  ℕ, ◌+◌, ◌*◌, Bool, true, false, not, ◌||◌, List, [], ◌∷◌, Option, none, some, String, ltb, leb,
  if◌then◌else◌,
}
use apm.Clock.{second, day}
use apm.Database.{
  Action, invalid_credentials, invalid_refresh_token, email_already_exists, authentication,
  value_error, pure, raise, raise_if, or_raise, commit, rollback_on_error, ◌>>=◌, ◌>>◌,
}
use apm.Database.Models.{User, RefreshToken, is_none, tier_free}
use apm.Auth.Repository.{
  Tables, get_by_id, get_by_email, create_user, create_token, get_by_hash, lock_by_hash, revoke,
  revoke_all_for_user,
}

-- pwdlib, hashlib, PyJWT and `str`: what the service calls. `hash_password` takes the salt that it
-- draws. `jwt_decode` gives the subject of a valid token, if the token has one.
pub record Security : Type 0 where
  pub hash_token : String → String
  pub hash_password : String → String → String
  pub verify_password : String → String → Bool
  pub jwt_encode : ℕ → ℕ → String
  pub jwt_decode : String → Option (Option String)
  pub int_of : String → Option ℕ
  pub strip : String → String
  pub lower : String → String

pub record Config : Type 0 where
  pub refresh_ttl_days : ℕ
  pub reuse_grace_seconds : ℕ
  pub has_mailer : Bool

pub record AuthResult : Type 0 where
  pub user : User
  pub access_token : String
  pub refresh_token : String

pub record Mail : Type 0 where
  pub to : String
  pub subject : String
  pub text : String

-- `_is_inactive`: only an account that is stored as deactivated.
unfoldable pub is_inactive : Option User → Bool
is_inactive none = false
is_inactive (some u) = elim u.is_active [ none ↦ false | some a ↦ not a ]

module _ (sec : Security) (cfg : Config) where
  unfoldable pub normalize_email : String → String
  normalize_email e = sec.lower (sec.strip e)

  -- What is handed to the mailer; a failed delivery is logged and changes nothing.
  unfoldable pub send_mail : Mail → List Mail
  send_mail m = if cfg.has_mailer then m ∷ [] else []

  -- `now` is the clock at the call, `raw` the random token drawn.
  unfoldable pub issue_tokens : User → ℕ → String → Bool → Action Tables AuthResult
  issue_tokens user now raw commits = do
    create_token user.id (sec.hash_token raw) (now + cfg.refresh_ttl_days * day) commits
    pure (record { user = user; access_token = sec.jwt_encode user.id now; refresh_token = raw })

  abbrev pub new_user : String → String → String → User
  new_user email hashed language = record {
    id = 0;
    email = email;
    hashed_password = hashed;
    native_language = language;
    cefr_level = "A1";
    tier = tier_free;
    is_admin = false;
    is_active = some true;
    quota_date = none;
    minutes_used_today = 0;
    current_streak = some 0;
    longest_streak = some 0;
    last_active_date = none;
    weekly_goal_minutes = 30;
    reset_token_hash = none;
    reset_token_expires_at = none;
  }

  abbrev pub welcome : String → Mail
  welcome email = record {
    to = email;
    subject = "Bienvenue sur APM";
    text = "Ton compte Anglais Pour Moi est prêt. Tu peux te connecter et parler.";
  }

  unfoldable pub register :
      String
      → String
      → String
      → (salt : String) (now : ℕ) (raw : String) → Action Tables (AuthResult × List Mail)
  unfolding normalize_email send_mail
  register email password language salt now raw = do
    let address = normalize_email email
    known ← get_by_email address
    raise_if (not (is_none known)) (email_already_exists "Email already registered")
    result ← rollback_on_error (do
      user ←
          create_user sec.lower (new_user address (sec.hash_password salt password) language) false
      issue_tokens user now raw true)
    pure (result, send_mail (welcome address))

  -- The stored hash, or the stable dummy hash of `dummy_password_hash`.
  abbrev pub hash_or_dummy : String → Option User → String
  hash_or_dummy dummy none = dummy
  hash_or_dummy dummy (some u) = u.hashed_password

  -- `user is None or not password_ok or _is_inactive(user)`
  abbrev pub is_refused : Option User → Bool → Bool
  is_refused user password_ok = is_none user || not password_ok || is_inactive user

  unfoldable pub login :
      String → String → (dummy : String) (now : ℕ) (raw : String) → Action Tables AuthResult
  unfolding normalize_email is_inactive
  login email password dummy now raw = do
    user ← get_by_email (normalize_email email)
    let password_ok = sec.verify_password password (hash_or_dummy dummy user)
    raise_if (is_refused user password_ok) (invalid_credentials "Invalid credentials")
    found ← or_raise user (invalid_credentials "Invalid credentials")
    issue_tokens found now raw true

  -- `(now - revoked_at).total_seconds() > self._reuse_grace_seconds`
  abbrev pub is_late_reuse : ℕ → ℕ → Bool
  is_late_reuse now revoked_at = ltb (revoked_at + cfg.reuse_grace_seconds * second) now

  -- The branch of `refresh` for a token that was already rotated.
  unfoldable pub reject_reuse : RefreshToken → ℕ → ℕ → Action Tables (Unit {0})
  reject_reuse record_ now revoked_at =
      (if is_late_reuse now revoked_at
        then revoke_all_for_user record_.user_id now true
        else pure tt)
      >> raise (invalid_refresh_token "Invalid refresh token")

  -- `if record.revoked_at is not None: ...`
  unfoldable pub check_not_revoked : RefreshToken → ℕ → Action Tables (Unit {0})
  unfolding reject_reuse
  check_not_revoked token now = elim token.revoked_at [
    | none ↦ pure tt
    | some at ↦ reject_reuse token now at
  ]

  abbrev pub check_active : Option User → Action Tables User
  check_active user =
      raise_if (is_none user || is_inactive user) (invalid_refresh_token "Invalid refresh token")
      >> or_raise user (invalid_refresh_token "Invalid refresh token")

  -- The body of the `try`: `now` is read after the lock, `issued` when the new token is made.
  unfoldable pub rotate : String → (now issued : ℕ) (raw : String) → Action Tables AuthResult
  unfolding check_not_revoked is_inactive
  rotate raw_refresh_token now issued raw = do
    found ← lock_by_hash (sec.hash_token raw_refresh_token)
    token ← or_raise found (invalid_refresh_token "Invalid refresh token")
    check_not_revoked token now
    raise_if (leb token.expires_at now) (invalid_refresh_token "Refresh token expired")
    owner ← get_by_id token.user_id
    user ← check_active owner
    revoke token now false
    result ← issue_tokens user issued raw false
    commit
    pure result

  unfoldable pub refresh : String → (now issued : ℕ) (raw : String) → Action Tables AuthResult
  unfolding rotate
  refresh raw_refresh_token now issued raw =
      rollback_on_error (rotate raw_refresh_token now issued raw)

  unfoldable pub logout : String → ℕ → Action Tables (Unit {0})
  logout raw_refresh_token now = do
    found ← get_by_hash (sec.hash_token raw_refresh_token)
    elim found [
      | none ↦ pure tt
      | some token ↦ if is_none token.revoked_at then revoke token now true else pure tt
    ]

  -- `decode_access_token`; an invalid token is an `InvalidTokenError`, which the caller maps.
  unfoldable pub decode_access_token : String → Option String
  decode_access_token token = elim (sec.jwt_decode token) [ none ↦ none | some subject ↦ subject ]

  unfoldable pub get_authenticated_user : String → Action Tables User
  unfolding decode_access_token is_inactive
  get_authenticated_user token = do
    subject ← or_raise (decode_access_token token) (authentication "Invalid token")
    number ← or_raise (sec.int_of subject) value_error
    found ← get_by_id number
    user ← or_raise found (authentication "User not found")
    raise_if (is_inactive (some user)) (authentication "Account is deactivated")
    pure user
