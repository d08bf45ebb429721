-- ===== src/Accounts/Requests.antt =====
-- The requests that change users and sessions, of backend/saz/services/auth_service.py and
-- admin_service.py, each with what it generates; and sequences of them.
use saz.Prelude.{ℕ, String, Bool, Option, List, [], ◌∷◌}
use saz.Runs.{Role}
use saz.Accounts.{Accounts, Security}
use saz.Accounts.Sessions.{
  login, refresh_session, revoke_session_by_secret, change_password, revoke_session,
  revoke_all_sessions,
}
use saz.Accounts.Admin.{
  set_active, set_role, reset_password, create_user, revoke_user_session, revoke_all_user_sessions,
}

pub data Request : Type 0 where
  log_in : (identifier password id secret : String) → Request
  refresh : (secret new_secret : String) → Request
  log_out : (secret : String) → Request
  log_out_all : (user_id : String) → Request
  revoke_own : (user_id session_id : String) → Request
  new_password : (user_id current next salt : String) → Option String → Request
  create :
      (id username email password salt : String) → Role → (is_active must_change : Bool) → Request
  activation : (actor user_id : String) → Bool → Request
  promotion : (actor user_id : String) → Role → Request
  reset : (user_id password salt : String) → Request
  revoke_one : (user_id session_id : String) → Request
  revoke_every : (user_id : String) → Request

unfoldable pub serve : Security → ℕ → Request → Accounts → Accounts
unfolding login refresh_session revoke_session_by_secret change_password revoke_session
    revoke_all_sessions set_active set_role reset_password create_user revoke_user_session
    revoke_all_user_sessions
serve sec now (log_in identifier password id secret) a =
    (login sec identifier password id secret now a).0
serve sec now (refresh secret new_secret) a = (refresh_session sec secret new_secret now a).0
serve sec now (log_out secret) a = revoke_session_by_secret sec secret now a
serve sec now (log_out_all user_id) a = revoke_all_sessions user_id now a
serve sec now (revoke_own user_id session_id) a = (revoke_session user_id session_id now a).0
serve sec now (new_password user_id current next salt keep_id) a =
    (change_password sec user_id current next salt keep_id now a).0
serve sec now (create id username email password salt r b must_change) a =
    (create_user sec id username email password salt r b must_change a).0
serve sec now (activation actor user_id b) a = (set_active actor user_id b now a).0
serve sec now (promotion actor user_id r) a = (set_role actor user_id r a).0
serve sec now (reset user_id password salt) a = (reset_password sec user_id password salt now a).0
serve sec now (revoke_one user_id session_id) a = (revoke_user_session user_id session_id now a).0
serve sec now (revoke_every user_id) a = (revoke_all_user_sessions user_id now a).0

-- Requests at their times.
unfoldable pub serve_all : Security → List (ℕ × Request) → Accounts → Accounts
unfolding serve
serve_all sec [] a = a
serve_all sec ((now, q) ∷ requests) a = serve_all sec requests (serve sec now q a)
