-- ===== src/Accounts/Revoked.antt =====
-- A session of backend/saz/services/auth_service.py that was revoked stays so, and its tokens with it.
use saz.Prelude.{
  ℕ, String, ◌≡◌, refl, ◌∙◌, ap, Bool, true, false, not, ◌&&◌, Option, none, some, List, [], ◌∷◌,
  ◌++◌, ◌==◌, string_eq, if◌then◌else◌, Result, ok, err, arith, if-holds,
}
use saz.Prelude.Table.{get, modify}
use saz.Accounts.{
  UserRow, AuthSession, Accounts, Security, Claims, Refusal, is_revoked, revoke,
  revoke_all_for_user, keeps_session, user_entity, session_entity,
}
use saz.Accounts.Sessions.{
  rotate, new_session, user_from_token, by_user, by_session, session_checked,
}
use saz.Accounts.Requests.{Request, log_in, refresh, serve_all}
use saz.Accounts.Changes.{IsKept, IsGood, AllGood, serve_all-keeps}

abbrev pub is_dead : Option AuthSession → Bool
is_dead none = false
is_dead (some s) = is_revoked s

-- The session of the id is there and revoked.
abbrev pub IsRevoked : String → List AuthSession → Type 0
IsRevoked sid rows = is_dead (get sid rows) ≡ true

abbrev Anything : String → Type 0
Anything s = Unit

pub revoke-key : (reason : String) (now : ℕ) (s : AuthSession) → (revoke reason now s).id ≡ s.id
revoke-key reason now s =
    if-holds (λ (x : AuthSession). x.id ≡ s.id) (is_revoked s) _ _ (λ e. refl) (λ e. refl)

pub revoke-is_revoked :
    (reason : String) (now : ℕ) (s : AuthSession) → is_revoked (revoke reason now s) ≡ true
revoke-is_revoked reason now s =
    if-holds (λ (x : AuthSession). is_revoked x ≡ true) (is_revoked s) _ _ (λ e. e) (λ e. refl)

get-head :
    (sid : String) (s : AuthSession) (rows : List AuthSession)
    → is_dead (get sid (s ∷ rows)) ≡ (if s.id == sid then is_revoked s else is_dead (get sid rows))
get-head sid s rows = ground arith

pub is_dead-head :
    (sid : String) (s : AuthSession) (rows : List AuthSession)
    → (s.id == sid) ≡ true
    → is_revoked s ≡ true
    → IsRevoked sid (s ∷ rows)
is_dead-head sid s rows e r = ground (arith, get-head sid s rows, e, r)

-- `t` stands for `s`.
abbrev Stands : AuthSession → AuthSession → Type 0
Stands s t = (t.id ≡ s.id) × (is_revoked s ≡ true → is_revoked t ≡ true)

cons-IsRevoked :
    (sid : String) (s t : AuthSession) (rows rows' : List AuthSession)
    → Stands s t
    → (IsRevoked sid rows → IsRevoked sid rows')
    → IsRevoked sid (s ∷ rows)
    → IsRevoked sid (t ∷ rows')
cons-IsRevoked sid s t rows rows' stands rest h =
    ground (arith, stands.0, stands.1, rest, get-head sid s rows, get-head sid t rows', h)

revoke-Stands : (reason : String) (now : ℕ) (s : AuthSession) → Stands s (revoke reason now s)
revoke-Stands reason now s = (revoke-key reason now s, λ e. revoke-is_revoked reason now s)

-- A change of rows that keeps the revoked ones.
modify-IsRevoked :
    (k sid : String) (f : AuthSession → AuthSession) (rows : List AuthSession)
    → ((s : AuthSession) → Stands s (f s))
    → IsRevoked sid rows
    → IsRevoked sid (modify k f rows)
modify-IsRevoked k sid f [] stands h = h
modify-IsRevoked k sid f (s ∷ rows) stands h =
    cons-IsRevoked sid s (if s.id == k then f s else s) rows (modify k f rows)
      (if-holds (Stands s) (s.id == k) (f s) s (λ e. stands s) (λ e. (refl, λ r. r)))
      (modify-IsRevoked k sid f rows stands) h

revoke_all-IsRevoked :
    (sid user_id reason : String) (except : Option String) (now : ℕ) (rows : List AuthSession)
    → IsRevoked sid rows
    → IsRevoked sid (revoke_all_for_user user_id reason except now rows)
revoke_all-IsRevoked sid user_id reason except now [] h = h
revoke_all-IsRevoked sid user_id reason except now (s ∷ rows) h =
    cons-IsRevoked sid s
      (if s.user_id == user_id && not (keeps_session except s) then revoke reason now s else s) rows
      _
      (if-holds (Stands s) (s.user_id == user_id && not (keeps_session except s))
        (revoke reason now s) s (λ e. revoke-Stands reason now s) (λ e. (refl, λ r. r)))
      (revoke_all-IsRevoked sid user_id reason except now rows) h

append-IsRevoked :
    (sid : String) (rows : List AuthSession) (s : AuthSession)
    → IsRevoked sid rows
    → IsRevoked sid (rows ++ s ∷ [])
append-IsRevoked sid [] s h = ground (arith, h)
append-IsRevoked sid (a ∷ rows) s h = ground (arith, h, append-IsRevoked sid rows s)

IsRevoked-kept : (sec : Security) (sid : String) → IsKept sec Anything (IsRevoked sid)
IsRevoked-kept sec sid = record {
  by_revoke = λ k reason now rows h.
      modify-IsRevoked k sid (revoke reason now) rows (revoke-Stands reason now) h;
  by_revoke_all =
      λ user_id reason except now rows h. revoke_all-IsRevoked sid user_id reason except now rows h;
  by_rotate = λ k secret now rows good h.
      modify-IsRevoked k sid (rotate sec secret now) rows (λ s. (refl, λ e. e)) h;
  by_insert = λ user_id id secret now rows good h.
      append-IsRevoked sid rows (new_session sec user_id id secret now) h;
}

abbrev pub is_accepted {ℓ} : {A : Type ℓ} → Result Refusal A → Bool
is_accepted (ok a) = true
is_accepted (err e) = false

dead-refused :
    (sec : Security) (c : Claims) (sid : String) (now : ℕ) (a : Accounts)
    → c.sid ≡ some sid
    → IsRevoked sid a.sessions
    → is_accepted (user_from_token sec c now a) ≡ false
unfolding user_from_token
dead-refused sec c sid now a e h = of_user (get c.sub a.users)
  where
    of_session :
        (u : UserRow) (o : Option AuthSession)
        → is_dead o ≡ true
        → is_accepted (session_checked sec u now o) ≡ false
    of_session u none d = refl
    of_session u (some s) d = ground (arith, d)

    of_user : (o : Option UserRow) → is_accepted (by_user sec c now a o) ≡ false
    of_user none = refl
    of_user (some u) =
        if-holds (λ (r : Result Refusal UserRow). is_accepted r ≡ false) u.is_active _ _
          (λ on.
            ap (λ i. is_accepted (by_session sec u now a i)) e
            ∙ of_session u (get sid a.sessions) h)
          (λ off. refl)

anything : (q : Request) → IsGood Anything q
anything (log_in identifier password id secret) = tt
anything (refresh secret new_secret) = tt
anything q = tt

-- A revoked session stays revoked: after any requests, an access token that was made for it is
-- refused at any time.
pub revoked_token_refused :
    (sec : Security) (requests : List (ℕ × Request)) (a : Accounts) (c : Claims) (sid : String)
    (now : ℕ)
    → c.sid ≡ some sid
    → IsRevoked sid a.sessions
    → is_accepted (user_from_token sec c now (serve_all sec requests a)) ≡ false
revoked_token_refused sec requests a c sid now e h =
    dead-refused sec c sid now (serve_all sec requests a) e (
      serve_all-keeps sec Anything (IsRevoked sid) (IsRevoked-kept sec sid) requests a
        (all_anything requests) h)
  where
    all_anything : (requests : List (ℕ × Request)) → AllGood Anything requests
    all_anything [] = tt
    all_anything ((n, q) ∷ requests) = (anything q, all_anything requests)
