-- ===== src/Accounts/Replay.antt =====
-- The rotation of refresh secrets in backend/saz/services/auth_service.py: a secret that was rotated
-- away is refused, and its use revokes the session.
use saz.Prelude.{
  ℕ, ◌≤◌, String, ◌≡◌, refl, ◌∙◌, sym, ap, Bool, true, false, not, ◌&&◌, Option, none, some, List,
  [], ◌∷◌, ◌++◌, ◌==◌, string_eq, if◌then◌else◌, Result, ok, length, keep, all, arith, eq_iff,
  if-holds, Bool-cases, inl, inr,
}
use mathlib.Core.Path.{subst}
use mathlib.Core.Option.{some-injective}
use saz.Prelude.Table.{get, modify, first}
use saz.Accounts.{
  UserRow, AuthSession, Accounts, Security, Refusal, is_revoked, is_usable, revoke,
  revoke_all_for_user, keeps_session, user_entity, session_entity, has_hash, had_hash,
}
use saz.Accounts.Sessions.{Grant, rotate, new_session, replayed, owned, resolved, refresh_session}
use saz.Accounts.Requests.{Request, serve_all}
use saz.Accounts.Changes.{IsKept, AllGood, serve_all-keeps}
use saz.Accounts.Revoked.{is_accepted}

pub first-here :
    (p : AuthSession → Bool) (a s : AuthSession) (rows : List AuthSession)
    → p a ≡ true
    → first p (a ∷ rows) ≡ some s
    → a ≡ s
first-here p a s rows e f =
    some-injective a s (sym (ap (λ b. if b then some a else first p rows) e) ∙ f)

pub first-there :
    (p : AuthSession → Bool) (a : AuthSession) (rows : List AuthSession)
    → p a ≡ false
    → first p (a ∷ rows) ≡ first p rows
first-there p a rows e = ap (λ b. if b then some a else first p rows) e

-- The row's secret has another hash.
abbrev pub lacks : String → AuthSession → Bool
lacks h s = not (has_hash h s)

module _ (sec : Security) (h : String) where
  abbrev pub IsOther : String → Type 0
  IsOther secret = (sec.hash_refresh_secret secret == h) ≡ false

  abbrev pub Lacks : List AuthSession → Type 0
  Lacks rows = all (lacks h) rows ≡ true

  cons-Lacks :
      (t : AuthSession) (rest : List AuthSession) → lacks h t ≡ true → Lacks rest → Lacks (t ∷ rest)
  cons-Lacks t rest e r = ground (arith, e, r)

  modify-Lacks :
      (k : String) (f : AuthSession → AuthSession) (rows : List AuthSession)
      → ((s : AuthSession) → lacks h s ≡ true → lacks h (f s) ≡ true)
      → Lacks rows
      → Lacks (modify k f rows)
  modify-Lacks k f [] keeps l = l
  modify-Lacks k f (s ∷ rows) keeps l =
      cons-Lacks (if s.id == k then f s else s) (modify k f rows)
        (if-holds (λ (x : AuthSession). lacks h x ≡ true) (s.id == k) (f s) s
          (λ e. keeps s (ground (arith, l))) (λ e. ground (arith, l)))
        (modify-Lacks k f rows keeps (ground (arith, l)))

  revoke-lacks :
      (reason : String) (now : ℕ) (s : AuthSession)
      → lacks h s ≡ true
      → lacks h (revoke reason now s) ≡ true
  revoke-lacks reason now s l =
      if-holds (λ (x : AuthSession). lacks h x ≡ true) (is_revoked s) _ _ (λ e. l) (λ e. l)

  revoke_all-Lacks :
      (user_id reason : String) (except : Option String) (now : ℕ) (rows : List AuthSession)
      → Lacks rows
      → Lacks (revoke_all_for_user user_id reason except now rows)
  revoke_all-Lacks user_id reason except now [] l = l
  revoke_all-Lacks user_id reason except now (s ∷ rows) l =
      cons-Lacks
        (if s.user_id == user_id && not (keeps_session except s) then revoke reason now s else s) _
        (if-holds (λ (x : AuthSession). lacks h x ≡ true)
          (s.user_id == user_id && not (keeps_session except s)) (revoke reason now s) s
          (λ e. revoke-lacks reason now s (ground (arith, l))) (λ e. ground (arith, l)))
        (revoke_all-Lacks user_id reason except now rows (ground (arith, l)))

  append-Lacks :
      (rows : List AuthSession) (s : AuthSession)
      → lacks h s ≡ true
      → Lacks rows
      → Lacks (rows ++ s ∷ [])
  append-Lacks [] s e l = ground (arith, e)
  append-Lacks (t ∷ rows) s e l = ground (arith, l, append-Lacks rows s e)

  Lacks-kept : IsKept sec IsOther Lacks
  Lacks-kept = record {
    by_revoke =
        λ k reason now rows l. modify-Lacks k (revoke reason now) rows (revoke-lacks reason now) l;
    by_revoke_all =
        λ user_id reason except now rows l. revoke_all-Lacks user_id reason except now rows l;
    by_rotate = λ k secret now rows other l.
        modify-Lacks k (rotate sec secret now) rows (λ s e. ground (arith, other)) l;
    by_insert = λ user_id id secret now rows other l.
        append-Lacks rows (new_session sec user_id id secret now) (ground (arith, other)) l;
  }

  -- The session of the hash is the only one.
  abbrev pub uses : List AuthSession → ℕ
  uses rows = length (keep (has_hash h) rows)

  uses-none : (rows : List AuthSession) → uses rows ≤ 0 → Lacks rows
  uses-none [] l = refl
  uses-none (s ∷ rows) l = ground (arith, l, uses-none rows)

  pub rotate-Lacks :
      (secret : String) (now : ℕ) (rows : List AuthSession) (s : AuthSession)
      → IsOther secret
      → uses rows ≤ 1
      → first (has_hash h) rows ≡ some s
      → Lacks (modify s.id (rotate sec secret now) rows)
  rotate-Lacks secret now [] s other l e = refl
  rotate-Lacks secret now (t ∷ rows) s other l e = elim (Bool-cases (has_hash h t)) [
    | inl i ↦
        let same = first-here (has_hash h) t s rows i e in
        cons-Lacks (if t.id == s.id then rotate sec secret now t else t)
          (modify s.id (rotate sec secret now) rows)
          (if-holds (λ (x : AuthSession). lacks h x ≡ true) (t.id == s.id) (rotate sec secret now t)
            t (λ j. ground (arith, other))
            (λ j. ground (arith, eq_iff t.id s.id, j, ap (λ (x : AuthSession). x.id) same)))
          (modify-Lacks s.id (rotate sec secret now) rows (λ r k. ground (arith, other))
            (uses-none rows (ground (arith, l, i))))
    | inr i ↦
        cons-Lacks (if t.id == s.id then rotate sec secret now t else t)
          (modify s.id (rotate sec secret now) rows)
          (if-holds (λ (x : AuthSession). lacks h x ≡ true) (t.id == s.id) (rotate sec secret now t)
            t (λ j. ground (arith, other)) (λ j. ground (arith, i)))
          (rotate-Lacks secret now rows s other (ground (arith, l, i))
            (sym (first-there (has_hash h) t rows i) ∙ e))
  ]

  pub first-Lacks : (rows : List AuthSession) → Lacks rows → first (has_hash h) rows ≡ none
  first-Lacks [] l = refl
  first-Lacks (s ∷ rows) l = ground (arith, l, first-Lacks rows)

-- A refresh that is answered with tokens has rotated the secret of a session.
abbrev pub Rotated :
    Security → String → String → ℕ → Accounts → Accounts × Result Refusal Grant → Type 0
Rotated sec h secret now a x =
    (g : Grant)
    → x.1 ≡ ok g
    → (s : AuthSession) × (first (has_hash h) a.sessions ≡ some s)
      × (x.0.sessions ≡ modify s.id (rotate sec secret now) a.sessions)
      × (g.claims.sid ≡ some s.id)

owned-Rotated :
    (sec : Security) (h secret : String) (now : ℕ) (a : Accounts) (s : AuthSession)
    (o : Option UserRow)
    → first (has_hash h) a.sessions ≡ some s
    → Rotated sec h secret now a (owned sec secret now a s o)
owned-Rotated sec h secret now a s none found = λ g e. ground (arith, e)
owned-Rotated sec h secret now a s (some u) found =
    if-holds (Rotated sec h secret now a) u.is_active _ _
      (λ on. λ g e. (s, found, refl, ground (arith, e))) (λ off. λ g e. ground (arith, e))

replayed-refused :
    (sec : Security) (now : ℕ) (a : Accounts) (o : Option AuthSession)
    → is_accepted (replayed sec now a o).1 ≡ false
replayed-refused sec now a none = refl
replayed-refused sec now a (some s) = refl

pub resolved-Rotated :
    (sec : Security) (h secret : String) (now : ℕ) (a : Accounts) (o : Option AuthSession)
    → first (has_hash h) a.sessions ≡ o
    → Rotated sec h secret now a (resolved sec h secret now a o)
resolved-Rotated sec h secret now a none found =
    λ g e. ground (arith, e, replayed-refused sec now a (first (had_hash h) a.sessions))
resolved-Rotated sec h secret now a (some s) found =
    if-holds (Rotated sec h secret now a) (is_usable now s) _ _
      (λ i. owned-Rotated sec h secret now a s (get s.user_id a.users) found)
      (λ i. λ g e. ground (arith, e))

-- A secret that was rotated away is refused for ever: let at most one session have its hash, and
-- let the secrets that are generated from then on have other hashes; once it was used to refresh,
-- it is refused after any requests, and at any time.
pub rotated_secret_refused :
    (sec : Security) (requests : List (ℕ × Request)) (a : Accounts) (g : Grant)
    (secret new_secret newer : String) (now later : ℕ)
    → uses sec (sec.hash_refresh_secret secret) a.sessions ≤ 1
    → IsOther sec (sec.hash_refresh_secret secret) new_secret
    → AllGood (IsOther sec (sec.hash_refresh_secret secret)) requests
    → (refresh_session sec secret new_secret now a).1 ≡ ok g
    → is_accepted
        (refresh_session sec secret newer later
          (serve_all sec requests (refresh_session sec secret new_secret now a).0)).1
      ≡ false
unfolding refresh_session
rotated_secret_refused sec requests a g secret new_secret newer now later one other good e =
    let h = sec.hash_refresh_secret secret in
    let (s, found, same, sid) =
      resolved-Rotated sec h new_secret now a (first (has_hash h) a.sessions) refl g e in
    let before =
      subst (Lacks sec h) (sym same)
        (rotate-Lacks sec h new_secret now a.sessions s other one found) in
    let a' = serve_all sec requests (refresh_session sec secret new_secret now a).0 in
    let after =
      serve_all-keeps sec (IsOther sec h) (Lacks sec h) (Lacks-kept sec h) requests
        (refresh_session sec secret new_secret now a).0 good before in
    ap (λ o. is_accepted (resolved sec h newer later a' o).1) (first-Lacks sec h a'.sessions after)
    ∙ replayed-refused sec later a' (first (had_hash h) a'.sessions)
