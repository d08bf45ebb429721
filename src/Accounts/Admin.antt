-- ===== src/Accounts/Admin.antt =====
-- backend/saz/services/admin_service.py: what an admin may change of users and their sessions. The
-- audit events and the reads are left out. A refused operation changes nothing.
use saz.Prelude.{
  ℕ, String, Bool, true, false, not, ◌&&◌, Option, none, some, List, [], ◌∷◌, ◌++◌, ◌==◌, string_eq,
  if◌then◌else◌, Result, ok, err, ltb, leb, guard, ◌>>◌,
}
use saz.Prelude.Table.{get, modify, first}
use saz.Runs.{Role}
use saz.Accounts.{
  UserRow, AuthSession, Accounts, Security, Refusal, user_not_found, last_admin, own_account,
  own_role, short_password, session_not_found, conflict, duplicate_key, is_admin, same_role,
  is_active_admin, count_active_admins, revoke, revoke_all_for_user, user_entity, session_entity,
}

-- `_guard_last_admin`
unfoldable pub guard_last_admin : Accounts → UserRow → Result Refusal (Unit {0})
unfolding count_active_admins
guard_last_admin a target =
    guard (not (is_active_admin target && leb (count_active_admins a.users) 1)) last_admin

-- A change of one user's row and of that user's sessions, unless a check refuses it.
abbrev pub applied :
    (UserRow → UserRow)
    → (List AuthSession → List AuthSession)
    → Accounts
    → UserRow
    → Result Refusal (Unit {0})
    → Accounts × Result Refusal (Unit {0})
applied f g a u (err e) = (a, err e)
applied f g a u (ok t) = (record a { users = modify u.id f a.users; sessions = g a.sessions }, ok t)

abbrev pub activate : Bool → UserRow → UserRow
activate b u = record u { is_active = b }

abbrev pub disabling : String → Accounts → UserRow → Result Refusal (Unit {0})
disabling actor a u = guard_last_admin a u >> guard (not (actor == u.id)) own_account

-- `set_active`; a disabled user loses every session.
abbrev pub activated :
    String → Bool → ℕ → Accounts → Option UserRow → Accounts × Result Refusal (Unit {0})
activated actor b now a none = (a, err user_not_found)
activated actor true now a (some u) =
    if u.is_active then (a, ok tt) else applied (activate true) (λ s. s) a u (ok tt)
activated actor false now a (some u) =
    if not u.is_active
    then (a, ok tt)
    else applied (activate false) (revoke_all_for_user u.id "user_disabled" none now) a u
        (disabling actor a u)

unfoldable pub set_active :
    String → String → Bool → ℕ → Accounts → Accounts × Result Refusal (Unit {0})
set_active actor user_id b now a = activated actor b now a (get user_id a.users)

abbrev pub with_role : Role → UserRow → UserRow
with_role r u = record u { role = r }

-- Only a step down from the admins is guarded.
abbrev pub demoting : String → Role → Accounts → UserRow → Result Refusal (Unit {0})
demoting actor r a u =
    if is_admin u.role && not (is_admin r)
    then guard_last_admin a u >> guard (not (actor == u.id)) own_role
    else ok tt

abbrev pub role_changed :
    String → Role → Accounts → Option UserRow → Accounts × Result Refusal (Unit {0})
role_changed actor r a none = (a, err user_not_found)
role_changed actor r a (some u) =
    if same_role u.role r
    then (a, ok tt)
    else applied (with_role r) (λ s. s) a u (demoting actor r a u)

unfoldable pub set_role : String → String → Role → Accounts → Accounts × Result Refusal (Unit {0})
set_role actor user_id r a = role_changed actor r a (get user_id a.users)

module _ (sec : Security) where
  abbrev pub temporary : String → String → UserRow → UserRow
  temporary password salt u = record u {
    password_hash = sec.hash_password salt password;
    must_change_password = true;
  }

  abbrev pub reset_for :
      String → String → ℕ → Accounts → Option UserRow → Accounts × Result Refusal (Unit {0})
  reset_for password salt now a none = (a, err user_not_found)
  reset_for password salt now a (some u) =
      applied (temporary password salt) (revoke_all_for_user u.id "password_reset" none now) a u
        (guard (not (ltb (sec.size password) 8)) short_password)

  unfoldable pub reset_password :
      String → String → String → ℕ → Accounts → Accounts × Result Refusal (Unit {0})
  reset_password user_id password salt now a = reset_for password salt now a (get user_id a.users)

  -- `AuthService.create_user`, behind the checks of the forms of its texts. The insertion fails on
  -- an id that is taken.
  abbrev pub free : Option UserRow → Bool
  free none = true
  free (some u) = false

  abbrev pub created :
      UserRow → Accounts → Result Refusal (Unit {0}) → Accounts × Result Refusal (Unit {0})
  created u a (err e) = (a, err e)
  created u a (ok t) = (record a { users = a.users ++ u ∷ [] }, ok t)

  abbrev pub acceptable : String → UserRow → Accounts → Result Refusal (Unit {0})
  acceptable password u a =
      guard (not (ltb (sec.size password) 8)) short_password
      >> guard (free (first (λ v. v.username == u.username) a.users)) conflict
      >> guard (free (first (λ v. v.email == u.email) a.users)) conflict

  abbrev pub may_create : String → UserRow → Accounts → Result Refusal (Unit {0})
  may_create password u a = acceptable password u a >> guard (free (get u.id a.users)) duplicate_key

  abbrev pub new_user : String → String → String → String → String → Role → Bool → Bool → UserRow
  new_user id username email password salt r b must_change = record {
    id = id;
    username = username;
    email = email;
    password_hash = sec.hash_password salt password;
    is_active = b;
    role = r;
    must_change_password = must_change;
    last_login_at = none;
  }

  unfoldable pub create_user :
      String
      → String
      → String
      → String
      → String
      → Role
      → Bool
      → Bool
      → Accounts
      → Accounts × Result Refusal (Unit {0})
  create_user id username email password salt r b must_change a =
      let u = new_user id username email password salt r b must_change in
      created u a (may_create password u a)

-- `revoke_user_session`
abbrev pub session_revoked :
    String → ℕ → Accounts → Option AuthSession → Accounts × Result Refusal (Unit {0})
session_revoked user_id now a none = (a, err session_not_found)
session_revoked user_id now a (some s) =
    if s.user_id == user_id
    then (record a { sessions = modify s.id (revoke "admin_revoked" now) a.sessions }, ok tt)
    else (a, err session_not_found)

unfoldable pub revoke_user_session :
    String → String → ℕ → Accounts → Accounts × Result Refusal (Unit {0})
revoke_user_session user_id session_id now a =
    session_revoked user_id now a (get session_id a.sessions)

abbrev pub all_revoked :
    String → ℕ → Accounts → Option UserRow → Accounts × Result Refusal (Unit {0})
all_revoked user_id now a none = (a, err user_not_found)
all_revoked user_id now a (some u) =
    (record a { sessions = revoke_all_for_user user_id "admin_revoked" none now a.sessions }, ok tt)

unfoldable pub revoke_all_user_sessions :
    String → ℕ → Accounts → Accounts × Result Refusal (Unit {0})
revoke_all_user_sessions user_id now a = all_revoked user_id now a (get user_id a.users)
