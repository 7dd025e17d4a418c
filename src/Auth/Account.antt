-- ===== src/Auth/Account.antt =====
-- Passwords, their reset, and the activation of accounts: the rest of `AuthService` of
-- backend/app/features/auth/service.py.
use apm.Shared.{
  ℕ, ◌+◌, Bool, true, false, not, ◌||◌, [], Option, none, some, String, ltb, if◌then◌else◌,
}
use apm.Clock.{hour}
use apm.Database.{
  Action, invalid_credentials, not_found, pure, raise_if, or_raise, commit, rollback_on_error,
  ◌>>=◌, ◌>>◌,
}
use apm.Database.Models.{User}
use apm.Auth.Repository.{
  Tables, get_by_id, get_by_email, get_by_reset_hash, save, revoke_all_for_user,
}
use apm.Auth.Service.{Security, Config, Mail, is_inactive, normalize_email, send_mail}
use mathlib.Core.List.{List}
use Prim.Native.String.{◌++◌}

module _ (sec : Security) (cfg : Config) where
  abbrev pub with_password : User → String → User
  with_password u hashed = record u {
    hashed_password = hashed;
    reset_token_hash = none;
    reset_token_expires_at = none;
  }

  -- A changed user and the end of all its sessions, in one transaction.
  unfoldable pub save_and_revoke_all : User → ℕ → Action Tables (Unit {0})
  save_and_revoke_all user now =
      rollback_on_error (do save user false; revoke_all_for_user user.id now false; commit)

  unfoldable pub change_password :
      User → String → String → (salt : String) (now : ℕ) → Action Tables (Unit {0})
  unfolding save_and_revoke_all
  change_password user old_password new_password salt now = do
    raise_if (not (sec.verify_password old_password user.hashed_password))
        (invalid_credentials "Current password is incorrect")
    save_and_revoke_all (with_password user (sec.hash_password salt new_password)) now

  abbrev pub reset_text : String → String
  reset_text raw =
      "Voici ton jeton de réinitialisation (valide 1 heure).\n\n" ++ raw
      ++ "\n\nColle-le dans l'écran Nouveau mot de passe. Ne le partage pas."

  abbrev pub reset_mail : String → String → Mail
  reset_mail address raw = record {
    to = address;
    subject = "Réinitialise ton mot de passe APM";
    text = reset_text raw;
  }

  abbrev pub with_reset_token : User → String → ℕ → User
  with_reset_token u hashed now = record u {
    reset_token_hash = some hashed;
    reset_token_expires_at = some (now + hour);
  }

  abbrev pub issue_reset : User → ℕ → String → Action Tables (Option String × List Mail)
  issue_reset user now raw = do
    save (with_reset_token user (sec.hash_token raw) now) true
    pure (some raw, send_mail sec cfg (reset_mail user.email raw))

  unfoldable pub request_password_reset :
      String → (now : ℕ) (raw : String) → Action Tables (Option String × List Mail)
  unfolding normalize_email send_mail is_inactive
  request_password_reset email now raw = do
    found ← get_by_email (normalize_email sec cfg email)
    elim found [
      | none ↦ pure (none, [])
      | some user ↦ if is_inactive (some user) then pure (none, []) else issue_reset user now raw
    ]

  -- `user.reset_token_expires_at is None or user.reset_token_expires_at < now`
  abbrev pub is_reset_over : User → ℕ → Bool
  is_reset_over u now = elim u.reset_token_expires_at [ none ↦ true | some at ↦ ltb at now ]

  unfoldable pub reset_password :
      String → String → (salt : String) (now : ℕ) → Action Tables (Unit {0})
  unfolding save_and_revoke_all is_inactive
  reset_password raw_token new_password salt now = do
    found ← get_by_reset_hash (sec.hash_token raw_token)
    user ← or_raise found (invalid_credentials "Invalid reset token")
    raise_if (is_reset_over user now || is_inactive (some user))
        (invalid_credentials "Invalid reset token")
    save_and_revoke_all (with_password user (sec.hash_password salt new_password)) now

  unfoldable pub set_active : ℕ → Bool → ℕ → Action Tables (Unit {0})
  unfolding save_and_revoke_all
  set_active user_id active now = do
    found ← get_by_id user_id
    user ← or_raise found (not_found "User not found")
    let changed = record user { is_active = some active }
    if active then save changed true else save_and_revoke_all changed now
