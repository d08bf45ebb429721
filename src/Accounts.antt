-- ===== src/Accounts.antt =====
-- Users and their refresh sessions: the rows of backend/saz/db/models.py, with their repositories in
-- backend/saz/repositories/write/user_repository.py and auth_session_repository.py. Left out: the
-- columns that no decision reads. The hashes of passwords and secrets are parameters.
pub mod Sessions
pub mod Admin
pub mod Requests
pub mod Distinct
pub mod Admins
pub mod Changes
pub mod Revoked
pub mod Ended
pub mod Replay
pub mod Theft
mod Tests
use saz.Prelude.{
  ℕ, suc, zero, ◌+◌, String, Bool, true, false, not, ◌&&◌, ◌||◌, Option, none, some, List, [], ◌∷◌,
  ◌++◌, ◌==◌, string_eq, ltb, if◌then◌else◌, length, keep,
}
use saz.Prelude.Table.{Entity, get, modify, first}
use saz.Runs.{Role, admin, operator, viewer}

pub record UserRow : Type 0 where
  pub id : String
  pub username : String
  pub email : String
  pub password_hash : String
  pub is_active : Bool
  pub role : Role
  pub must_change_password : Bool
  pub last_login_at : Option ℕ

pub record AuthSession : Type 0 where
  pub id : String
  pub user_id : String
  pub refresh_secret_hash : String
  pub previous_refresh_secret_hash : Option String
  pub last_used_at : ℕ
  pub idle_expires_at : ℕ
  pub absolute_expires_at : ℕ
  pub revoked_at : Option ℕ
  pub revoked_reason : Option String

instance abbrev pub user_entity : Entity UserRow
user_entity = record { key = λ u. u.id }

instance abbrev pub session_entity : Entity AuthSession
session_entity = record { key = λ s. s.id }

pub record Accounts : Type 0 where
  pub users : List UserRow
  pub sessions : List AuthSession

-- `AuthSession.is_active`
abbrev pub is_revoked : AuthSession → Bool
is_revoked s = elim s.revoked_at [ none ↦ false | some t ↦ true ]

abbrev pub is_usable : ℕ → AuthSession → Bool
is_usable now s = not (is_revoked s) && ltb now s.idle_expires_at && ltb now s.absolute_expires_at

abbrev pub is_admin : Role → Bool
is_admin admin = true
is_admin _ = false

abbrev pub same_role : Role → Role → Bool
same_role admin admin = true
same_role operator operator = true
same_role viewer viewer = true
same_role _ _ = false

abbrev pub is_active_admin : UserRow → Bool
is_active_admin u = is_admin u.role && u.is_active

unfoldable pub count_active_admins : List UserRow → ℕ
count_active_admins users = length (keep is_active_admin users)

abbrev pub is_named : String → UserRow → Bool
is_named identifier u = u.username == identifier || u.email == identifier

-- `AuthSessionRepository.revoke`: the first reason stays.
abbrev pub revoke : String → ℕ → AuthSession → AuthSession
revoke reason now s =
    if is_revoked s then s else record s { revoked_at = some now; revoked_reason = some reason }

abbrev pub keeps_session : Option String → AuthSession → Bool
keeps_session none s = false
keeps_session (some id) s = s.id == id

-- `revoke_all_for_user`
abbrev pub revoke_all_for_user :
    String → String → Option String → ℕ → List AuthSession → List AuthSession
revoke_all_for_user user_id reason except now [] = []
revoke_all_for_user user_id reason except now (s ∷ sessions) =
    (if s.user_id == user_id && not (keeps_session except s) then revoke reason now s else s)
    ∷ revoke_all_for_user user_id reason except now sessions

abbrev pub has_hash : String → AuthSession → Bool
has_hash h s = s.refresh_secret_hash == h

abbrev pub had_hash : String → AuthSession → Bool
had_hash h s = elim s.previous_refresh_secret_hash [ none ↦ false | some p ↦ p == h ]

-- What the services raise.
pub data Refusal : Type 0 where
  invalid_credentials account_disabled invalid_refresh_token session_inactive : Refusal
  account_unavailable user_gone wrong_password short_password same_password : Refusal
  user_not_found last_admin own_account own_role session_not_found conflict duplicate_key : Refusal

-- The hashes of `saz.security`, with the salt of bcrypt as an argument, `str.strip`, and the
-- settings, in microseconds.
pub record Security : Type 0 where
  pub hash_refresh_secret : String → String
  pub hash_password : String → String → String
  pub verify_password : String → String → Bool
  pub strip : String → String
  pub size : String → ℕ
  pub idle_timeout : ℕ
  pub absolute_timeout : ℕ

-- The claims of an access token. `sid` is the session that it was made for.
pub record Claims : Type 0 where
  pub sub : String
  pub sid : Option String
