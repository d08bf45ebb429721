-- ===== src/Accounts/Ended.antt =====
-- What ends the sessions of a user: an admin of backend/saz/services/admin_service.py disables the user
-- or sets a temporary password.
use saz.Prelude.{
  ℕ, String, ◌≡◌, refl, ◌∙◌, sym, ap, Bool, true, false, not, ◌&&◌, Option, none, some, List, [],
  ◌∷◌, ◌==◌, string_eq, if◌then◌else◌, Result, ok, err, guard, ltb, arith, eq_iff, if-holds,
  Bool-cases, inl, inr,
}
use mathlib.Core.Path.{subst}
use saz.Prelude.Table.{get, get-key}
use saz.Accounts.{
  UserRow, AuthSession, Accounts, Security, Claims, Refusal, short_password, is_revoked, revoke,
  revoke_all_for_user, keeps_session, user_entity, session_entity,
}
use saz.Accounts.Sessions.{user_from_token}
use saz.Accounts.Admin.{
  applied, activate, disabling, activated, set_active, temporary, reset_for, reset_password,
}
use saz.Accounts.Requests.{Request, serve_all}
use saz.Accounts.Distinct.{get-here, get-there}
use saz.Accounts.Revoked.{
  IsRevoked, is_accepted, is_dead, is_dead-head, revoke-key, revoke-is_revoked,
  revoked_token_refused,
}

-- The sessions of a user are revoked all but one.
revoke_all-revokes :
    (sid user_id reason : String) (except : Option String) (now : ℕ) (rows : List AuthSession)
    (s : AuthSession)
    → get sid rows ≡ some s
    → s.user_id ≡ user_id
    → keeps_session except s ≡ false
    → IsRevoked sid (revoke_all_for_user user_id reason except now rows)
revoke_all-revokes sid user_id reason except now [] s h u k = ground arith
revoke_all-revokes sid user_id reason except now (t ∷ rows) s h u k =
    elim (Bool-cases (t.id == sid)) [
      | inl e ↦ here e (get-here sid t s rows e h)
      | inr e ↦ there e (
          revoke_all-revokes sid user_id reason except now rows s (sym (get-there sid t rows e) ∙ h)
            u k)
    ]
  where
    test : Bool
    test = t.user_id == user_id && not (keeps_session except t)

    changed_row : AuthSession
    changed_row = if test then revoke reason now t else t

    key : changed_row.id ≡ t.id
    key =
        if-holds (λ (x : AuthSession). x.id ≡ t.id) test _ _ (λ e. revoke-key reason now t)
          (λ e. refl)

    is_met : t ≡ s → test ≡ true
    is_met same = ground (
      arith,
      eq_iff t.user_id user_id,
      ap (λ (x : AuthSession). x.user_id) same,
      u,
      ap (keeps_session except) same,
      k,
    )

    here :
        (t.id == sid) ≡ true
        → t ≡ s
        → IsRevoked sid (revoke_all_for_user user_id reason except now (t ∷ rows))
    here e same =
        is_dead-head sid changed_row (revoke_all_for_user user_id reason except now rows)
          (ap (λ i. i == sid) key ∙ e)
          (if-holds (λ (x : AuthSession). is_revoked x ≡ true) test (revoke reason now t) t
            (λ i. revoke-is_revoked reason now t) (λ i. ground (arith, is_met same, i)))

    there :
        (t.id == sid) ≡ false
        → IsRevoked sid (revoke_all_for_user user_id reason except now rows)
        → IsRevoked sid (revoke_all_for_user user_id reason except now (t ∷ rows))
    there e rest =
        ap is_dead (
          get-there sid changed_row (revoke_all_for_user user_id reason except now rows)
            (ap (λ i. i == sid) key ∙ e))
        ∙ rest

-- Behind an operation that was not refused the session is revoked.
abbrev pub EndsSession : String → Accounts × Result Refusal (Unit {0}) → Type 0
EndsSession sid x = x.1 ≡ ok tt → IsRevoked sid x.0.sessions

applied-EndsSession :
    (sid reason : String) (now : ℕ) (f : UserRow → UserRow) (a : Accounts) (v : UserRow)
    (s : AuthSession) (r : Result Refusal (Unit {0}))
    → get sid a.sessions ≡ some s
    → s.user_id ≡ v.id
    → EndsSession sid (applied f (revoke_all_for_user v.id reason none now) a v r)
applied-EndsSession sid reason now f a v s (err e) found owner = λ d. ground (arith, d)
applied-EndsSession sid reason now f a v s (ok t) found owner =
    λ d. revoke_all-revokes sid v.id reason none now a.sessions s found owner refl

-- An active user is disabled: each of the user's sessions is revoked.
pub set_active-EndsSession :
    (sid actor k : String) (now : ℕ) (a : Accounts) (u : UserRow) (s : AuthSession)
    → get k a.users ≡ some u
    → u.is_active ≡ true
    → get sid a.sessions ≡ some s
    → s.user_id ≡ k
    → EndsSession sid (set_active actor k false now a)
unfolding set_active
set_active-EndsSession sid actor k now a u s e on found owner =
    subst (λ o. EndsSession sid (activated actor false now a o)) (sym e)
      (if-holds (EndsSession sid) (not u.is_active) _ _ (λ off. ground (arith, on, off))
        λ i.
          applied-EndsSession sid "user_disabled" now (activate false) a u s (disabling actor a u)
            found (owner ∙ sym (get-key k a.users u e)))

-- Once a user was disabled, the access tokens of the sessions that the user had are refused, also
-- after the user is enabled again: after any requests, and at any time.
pub disabled_tokens_refused :
    (sec : Security) (requests : List (ℕ × Request)) (a : Accounts) (u : UserRow) (s : AuthSession)
    (c : Claims) (sid actor k : String) (now later : ℕ)
    → get k a.users ≡ some u
    → u.is_active ≡ true
    → get sid a.sessions ≡ some s
    → s.user_id ≡ k
    → c.sid ≡ some sid
    → (set_active actor k false now a).1 ≡ ok tt
    → is_accepted
        (user_from_token sec c later (serve_all sec requests (set_active actor k false now a).0))
      ≡ false
disabled_tokens_refused sec requests a u s c sid actor k now later e on found owner i done =
    revoked_token_refused sec requests (set_active actor k false now a).0 c sid later i
      (set_active-EndsSession sid actor k now a u s e on found owner done)

-- Once an admin has set a temporary password for a user, the access tokens of the sessions that the
-- user had are refused: after any requests, and at any time.
pub reset_tokens_refused :
    (sec : Security) (requests : List (ℕ × Request)) (a : Accounts) (u : UserRow) (s : AuthSession)
    (c : Claims) (sid k password salt : String) (now later : ℕ)
    → get k a.users ≡ some u
    → get sid a.sessions ≡ some s
    → s.user_id ≡ k
    → c.sid ≡ some sid
    → (reset_password sec k password salt now a).1 ≡ ok tt
    → is_accepted (
        user_from_token sec c later
          (serve_all sec requests (reset_password sec k password salt now a).0))
      ≡ false
unfolding reset_password
reset_tokens_refused sec requests a u s c sid k password salt now later e found owner i done =
    revoked_token_refused sec requests (reset_password sec k password salt now a).0 c sid later i (
      subst (λ o. EndsSession sid (reset_for sec password salt now a o)) (sym e)
        (applied-EndsSession sid "password_reset" now (temporary sec password salt) a u s
          (guard (not (ltb (sec.size password) 8)) short_password) found
          (owner ∙ sym (get-key k a.users u e)))
        done)
