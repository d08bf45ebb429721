-- ===== src/Accounts/Admins.antt =====
-- There is always an active admin: the guard of backend/saz/services/admin_service.py.
use saz.Prelude.{
  ℕ, ◌+◌, ◌≤◌, String, ◌≡◌, refl, ◌∙◌, sym, ap, Bool, true, false, not, ◌&&◌, Option, none, some,
  List, [], ◌∷◌, ◌==◌, string_eq, if◌then◌else◌, Result, ok, err, guard, ◌>>◌, arith, if-holds,
}
use mathlib.Core.Path.{subst}
use saz.Prelude.Table.{get, modify, first, get-key}
use saz.Runs.{Role}
use saz.Accounts.{
  UserRow, AuthSession, Accounts, Security, Refusal, is_active_admin, count_active_admins, is_admin,
  same_role, revoke_all_for_user, user_entity, session_entity, own_role, is_usable, had_hash,
  duplicate_key,
}
use saz.Accounts.Sessions.{
  Grant, record_login, authenticated, authenticate, start_session, inserted, login, replayed, owned,
  resolved, refresh_session, log_out, revoke_session_by_secret, change_password, changed,
  password_changed, password_checked, new_password, revoke_session, own_session,
  revoke_all_sessions,
}
use saz.Accounts.Admin.{
  guard_last_admin, applied, activate, disabling, activated, set_active, with_role, demoting,
  role_changed, set_role, temporary, reset_for, reset_password, free, created, acceptable,
  may_create, new_user, create_user, session_revoked, revoke_user_session, all_revoked,
  revoke_all_user_sessions,
}
use saz.Accounts.Requests.{
  Request, log_in, refresh, log_out as log_out_request, log_out_all, revoke_own,
  new_password as new_password_request, create, activation, promotion, reset, revoke_one,
  revoke_every, serve, serve_all,
}
use saz.Accounts.Distinct.{
  IsDistinct, modify-IsDistinct, append-IsDistinct, weight, count-modify, count-modify-same,
  count-append,
}

-- No two users have the same id, and some admin is active.
abbrev pub HasAdmin : List UserRow → Type 0
HasAdmin users = IsDistinct users × (1 ≤ count_active_admins users)

same-HasAdmin :
    (k : String) (f : UserRow → UserRow) (users : List UserRow)
    → ((u : UserRow) → (f u).id ≡ u.id)
    → ((u : UserRow) → is_active_admin (f u) ≡ is_active_admin u)
    → HasAdmin users
    → HasAdmin (modify k f users)
same-HasAdmin k f users keeps same h =
    (modify-IsDistinct k f keeps users h.0, omega (arith, count-modify-same k f users same, h.1))

-- An admin is left if the row is changed so.
abbrev pub Spares : (UserRow → UserRow) → Accounts → UserRow → Type 0
Spares f a u = weight u + 1 ≤ count_active_admins a.users + weight (f u)

applied-HasAdmin :
    (f : UserRow → UserRow) (g : List AuthSession → List AuthSession) (a : Accounts) (u : UserRow)
    (r : Result Refusal (Unit {0}))
    → ((v : UserRow) → (f v).id ≡ v.id)
    → get u.id a.users ≡ some u
    → (r ≡ ok tt → Spares f a u)
    → HasAdmin a.users
    → HasAdmin (applied f g a u r).0.users
applied-HasAdmin f g a u (err e) keeps found spares h = h
applied-HasAdmin f g a u (ok t) keeps found spares h = (
  modify-IsDistinct u.id f keeps a.users h.0,
  omega (arith, count-modify u.id f a.users u h.0 found, spares refl),
)

found_row :
    (k : String) (users : List UserRow) (u : UserRow)
    → get k users ≡ some u
    → get u.id users ≡ some u
found_row k users u e = ap (λ j. get j users) (get-key k users u e) ∙ e

guard_last_admin-Spares :
    (f : UserRow → UserRow) (a : Accounts) (u : UserRow) (r : Result Refusal (Unit {0}))
    → 1 ≤ count_active_admins a.users
    → (guard_last_admin a u >> r) ≡ ok tt
    → Spares f a u
unfolding guard_last_admin
guard_last_admin-Spares f a u r h e = ground (arith, e, h)

-- An admin is left behind an operation.
abbrev Left {ℓ} : {R : Type ℓ} → Accounts × R → Type 0
Left x = HasAdmin x.0.users

-- The row of a user is in the table.
abbrev pub Found : Accounts → Option UserRow → Type 0
Found a o = (u : UserRow) → o ≡ some u → get u.id a.users ≡ some u

activated-HasAdmin :
    (actor : String) (b : Bool) (now : ℕ) (a : Accounts) (o : Option UserRow)
    → Found a o
    → HasAdmin a.users
    → HasAdmin (activated actor b now a o).0.users
activated-HasAdmin actor b now a none e h = h
activated-HasAdmin actor true now a (some u) e h =
    if-holds Left u.is_active _ _ (λ on. h)
      λ off.
        applied-HasAdmin (activate true) (λ s. s) a u (ok tt) (λ v. refl) (e u refl)
          (λ r. ground (arith, off)) h
activated-HasAdmin actor false now a (some u) e h =
    if-holds Left (not u.is_active) _ _ (λ off. h)
      λ on.
        applied-HasAdmin (activate false) (revoke_all_for_user u.id "user_disabled" none now) a u
          (disabling actor a u) (λ v. refl) (e u refl)
          (λ r. guard_last_admin-Spares (activate false) a u _ h.1 r) h

demoting-Spares :
    (actor : String) (r : Role) (a : Accounts) (u : UserRow)
    → 1 ≤ count_active_admins a.users
    → demoting actor r a u ≡ ok tt
    → Spares (with_role r) a u
demoting-Spares actor r a u h e = by_test (is_admin u.role && not (is_admin r)) refl e
  where
    by_test :
        (b : Bool)
        → (is_admin u.role && not (is_admin r)) ≡ b
        → (if b then guard_last_admin a u >> guard (not (actor == u.id)) own_role else ok tt)
          ≡ ok tt
        → Spares (with_role r) a u
    by_test true t e = guard_last_admin-Spares (with_role r) a u _ h e
    by_test false t e = ground (arith, t)

role_changed-HasAdmin :
    (actor : String) (r : Role) (a : Accounts) (o : Option UserRow)
    → Found a o
    → HasAdmin a.users
    → HasAdmin (role_changed actor r a o).0.users
role_changed-HasAdmin actor r a none e h = h
role_changed-HasAdmin actor r a (some u) e h =
    if-holds Left (same_role u.role r) _ _ (λ s. h)
      λ s.
        applied-HasAdmin (with_role r) (λ s. s) a u (demoting actor r a u) (λ v. refl) (e u refl)
          (demoting-Spares actor r a u h.1) h

module _ (sec : Security) where
  reset_for-HasAdmin :
      (password salt : String) (now : ℕ) (a : Accounts) (o : Option UserRow)
      → Found a o
      → HasAdmin a.users
      → HasAdmin (reset_for sec password salt now a o).0.users
  reset_for-HasAdmin password salt now a none e h = h
  reset_for-HasAdmin password salt now a (some u) e h =
      applied-HasAdmin (temporary sec password salt)
        (revoke_all_for_user u.id "password_reset" none now) a u _ (λ v. refl) (e u refl)
        (λ r. ground (arith, h.1)) h

  created-HasAdmin :
      (u : UserRow) (a : Accounts) (r : Result Refusal (Unit {0}))
      → (r ≡ ok tt → get u.id a.users ≡ none)
      → HasAdmin a.users
      → HasAdmin (created sec u a r).0.users
  created-HasAdmin u a (err e) fresh h = h
  created-HasAdmin u a (ok t) fresh h =
      (append-IsDistinct a.users u h.0 (fresh refl), omega (arith, count-append a.users u, h.1))

  may_create-fresh :
      (password : String) (u : UserRow) (a : Accounts)
      → may_create sec password u a ≡ ok tt
      → get u.id a.users ≡ none
  may_create-fresh password u a e = last_guard (acceptable sec password u a) (get u.id a.users) e
    where
      last_guard :
          (r : Result Refusal (Unit {0})) (o : Option UserRow)
          → (r >> guard (free sec o) duplicate_key) ≡ ok tt
          → o ≡ none
      last_guard r none e = refl
      last_guard (ok t) (some u) e = ground (arith, e)
      last_guard (err f) (some u) e = ground (arith, e)

  changed-HasAdmin :
      (current next salt : String) (keep_id : Option String) (now : ℕ) (a : Accounts)
      (o : Option UserRow)
      → HasAdmin a.users
      → HasAdmin (changed sec current next salt keep_id now a o).0.users
  changed-HasAdmin current next salt keep_id now a none h = h
  changed-HasAdmin current next salt keep_id now a (some u) h =
      checked (password_checked sec current next u)
    where
      checked :
          (r : Result Refusal (Unit {0}))
          → HasAdmin (password_changed sec next salt keep_id now a u r).0.users
      checked (err e) = h
      checked (ok t) =
          same-HasAdmin u.id (new_password sec next salt) a.users (λ v. refl) (λ v. refl) h

  authenticated-HasAdmin :
      (id secret : String) (now : ℕ) (a : Accounts) (r : Result Refusal UserRow)
      → HasAdmin a.users
      → HasAdmin (authenticated sec id secret now a r).0.users
  unfolding start_session
  authenticated-HasAdmin id secret now a (err e) h = h
  authenticated-HasAdmin id secret now a (ok u) h = started (get id a.sessions)
    where
      once : HasAdmin (record_login u.id now a).users
      once = same-HasAdmin u.id _ a.users (λ v. refl) (λ v. refl) h

      started :
          (o : Option AuthSession)
          → HasAdmin (inserted sec u id secret now (record_login u.id now a) o).0.users
      started none =
          same-HasAdmin u.id _ (record_login u.id now a).users (λ v. refl) (λ v. refl) once
      started (some s) = once

  -- These leave the users as they are.
  resolved-users :
      (h new_secret : String) (now : ℕ) (a : Accounts) (o : Option AuthSession)
      → (resolved sec h new_secret now a o).0.users ≡ a.users
  resolved-users h new_secret now a none = missing (first (had_hash h) a.sessions)
    where
      missing : (o : Option AuthSession) → (replayed sec now a o).0.users ≡ a.users
      missing none = refl
      missing (some s) = refl
  resolved-users h new_secret now a (some s) =
      if-holds Same (is_usable now s) _ _ (λ e. of_owner (get s.user_id a.users)) (λ e. refl)
    where
      Same : Accounts × Result Refusal Grant → Type 0
      Same x = x.0.users ≡ a.users

      of_owner : (o : Option UserRow) → Same (owned sec new_secret now a s o)
      of_owner none = refl
      of_owner (some u) = if-holds Same u.is_active _ _ (λ e. refl) (λ e. refl)

  log_out-users :
      (now : ℕ) (a : Accounts) (o : Option AuthSession) → (log_out sec now a o).users ≡ a.users
  log_out-users now a none = refl
  log_out-users now a (some s) = refl

own_session-users :
    (user_id : String) (now : ℕ) (a : Accounts) (o : Option AuthSession)
    → (own_session user_id now a o).0.users ≡ a.users
own_session-users user_id now a none = refl
own_session-users user_id now a (some s) = ground arith

session_revoked-users :
    (user_id : String) (now : ℕ) (a : Accounts) (o : Option AuthSession)
    → (session_revoked user_id now a o).0.users ≡ a.users
session_revoked-users user_id now a none = refl
session_revoked-users user_id now a (some s) = ground arith

all_revoked-users :
    (user_id : String) (now : ℕ) (a : Accounts) (o : Option UserRow)
    → (all_revoked user_id now a o).0.users ≡ a.users
all_revoked-users user_id now a none = refl
all_revoked-users user_id now a (some s) = refl

module _ (sec : Security) (now : ℕ) where
  serve-HasAdmin :
      (q : Request) (a : Accounts) → HasAdmin a.users → HasAdmin (serve sec now q a).users
  unfolding serve login refresh_session revoke_session_by_secret change_password revoke_session
      revoke_all_sessions set_active set_role reset_password create_user revoke_user_session
      revoke_all_user_sessions
  serve-HasAdmin (log_in identifier password id secret) a h =
      authenticated-HasAdmin sec id secret now a (authenticate sec identifier password a) h
  serve-HasAdmin (refresh secret new_secret) a h =
      subst HasAdmin (sym (resolved-users sec (sec.hash_refresh_secret secret) new_secret now a _))
        h
  serve-HasAdmin (log_out_request secret) a h = subst HasAdmin (sym (log_out-users sec now a _)) h
  serve-HasAdmin (log_out_all user_id) a h = h
  serve-HasAdmin (revoke_own user_id session_id) a h =
      subst HasAdmin (sym (own_session-users user_id now a _)) h
  serve-HasAdmin (new_password_request user_id current next salt keep_id) a h =
      changed-HasAdmin sec current next salt keep_id now a (get user_id a.users) h
  serve-HasAdmin (create id username email password salt r b must_change) a h =
      let u = new_user sec id username email password salt r b must_change in
      created-HasAdmin sec u a (may_create sec password u a) (may_create-fresh sec password u a) h
  serve-HasAdmin (activation actor user_id b) a h =
      activated-HasAdmin actor b now a (get user_id a.users) (found_row user_id a.users) h
  serve-HasAdmin (promotion actor user_id r) a h =
      role_changed-HasAdmin actor r a (get user_id a.users) (found_row user_id a.users) h
  serve-HasAdmin (reset user_id password salt) a h =
      reset_for-HasAdmin sec password salt now a (get user_id a.users) (found_row user_id a.users) h
  serve-HasAdmin (revoke_one user_id session_id) a h =
      subst HasAdmin (sym (session_revoked-users user_id now a _)) h
  serve-HasAdmin (revoke_every user_id) a h =
      subst HasAdmin (sym (all_revoked-users user_id now a _)) h

-- However users are created, disabled, demoted and changed, and whoever asks for it, some admin
-- stays active, if one was and no two users had the same id.
pub admin_remains :
    (sec : Security) (requests : List (ℕ × Request)) (a : Accounts)
    → HasAdmin a.users
    → HasAdmin (serve_all sec requests a).users
unfolding serve_all
admin_remains sec [] a h = h
admin_remains sec ((now, q) ∷ requests) a h =
    admin_remains sec requests (serve sec now q a) (serve-HasAdmin sec now q a h)
