-- ===== src/Accounts/Theft.antt =====
-- A replayed refresh secret, as `refresh_session` of backend/saz/services/auth_service.py meets it.
use saz.Prelude.{
  ℕ, ◌≤◌, String, ◌≡◌, refl, ◌∙◌, sym, ap, Bool, true, false, not, none, some, List, [], ◌∷◌, ◌==◌,
  string_eq, if◌then◌else◌, ok, all, arith, eq_iff, if-holds, Bool-cases, inl, inr,
}
use mathlib.Core.Path.{subst}
use saz.Prelude.Table.{modify, first}
use saz.Accounts.{AuthSession, Accounts, Security, revoke, session_entity, has_hash, had_hash}
use saz.Accounts.Sessions.{Grant, rotate, replayed, resolved, refresh_session, user_from_token}
use saz.Accounts.Distinct.{get-there}
use saz.Accounts.Requests.{Request, serve_all}
use saz.Accounts.Revoked.{
  is_accepted, is_dead, is_dead-head, IsRevoked, revoke-key, revoke-is_revoked,
  revoked_token_refused,
}
use saz.Accounts.Replay.{
  uses, IsOther, rotate-Lacks, first-Lacks, Lacks, first-here, first-there, resolved-Rotated,
}

-- No row had the hash before its last rotation.
abbrev pub NeverHad : String → List AuthSession → Type 0
NeverHad h rows = all (λ s. not (had_hash h s)) rows ≡ true

-- The first row that passes a test, and has a given id.
abbrev Finds : (AuthSession → Bool) → String → List AuthSession → Type 0
Finds p id rows = (t : AuthSession) × (first p rows ≡ some t) × (t.id ≡ id)

cons-Finds :
    (p : AuthSession → Bool) (id : String) (t : AuthSession) (rows : List AuthSession)
    → p t ≡ false
    → Finds p id rows
    → Finds p id (t ∷ rows)
cons-Finds p id t rows e f = (f.0, first-there p t rows e ∙ f.1, f.2)

head-Finds :
    (p : AuthSession → Bool) (id : String) (t : AuthSession) (rows : List AuthSession)
    → p t ≡ true
    → t.id ≡ id
    → Finds p id (t ∷ rows)
head-Finds p id t rows e i = (t, ap (λ b. if b then some t else first p rows) e, i)

rotate-Finds :
    (sec : Security) (h secret : String) (now : ℕ) (rows : List AuthSession) (s : AuthSession)
    → NeverHad h rows
    → first (has_hash h) rows ≡ some s
    → Finds (had_hash h) s.id (modify s.id (rotate sec secret now) rows)
rotate-Finds sec h secret now [] s never e = ground (arith, e)
rotate-Finds sec h secret now (t ∷ rows) s never e = elim (Bool-cases (has_hash h t)) [
  | inl i ↦
      let same = first-here (has_hash h) t s rows i e in
      let key = ap (λ (x : AuthSession). x.id) same in
      if-holds
        (λ (x : AuthSession).
          Finds (had_hash h) s.id (x ∷ modify s.id (rotate sec secret now) rows))
        (t.id == s.id) _ _
        (λ j.
          head-Finds (had_hash h) s.id (rotate sec secret now t)
            (modify s.id (rotate sec secret now) rows) i key)
        (λ j. ground (arith, eq_iff t.id s.id, j, key))
  | inr i ↦
      let rest =
        rotate-Finds sec h secret now rows s (ground (arith, never))
          (sym (first-there (has_hash h) t rows i) ∙ e) in
      if-holds
        (λ (x : AuthSession).
          Finds (had_hash h) s.id (x ∷ modify s.id (rotate sec secret now) rows))
        (t.id == s.id) _ _
        (λ j.
          cons-Finds (had_hash h) s.id (rotate sec secret now t)
            (modify s.id (rotate sec secret now) rows) i rest)
        (λ j.
          cons-Finds (had_hash h) s.id t (modify s.id (rotate sec secret now) rows)
            (ground (arith, never)) rest)
]

-- A row that is there is revoked.
revoke-IsRevoked :
    (p : AuthSession → Bool) (reason : String) (now : ℕ) (rows : List AuthSession) (t : AuthSession)
    → first p rows ≡ some t
    → IsRevoked t.id (modify t.id (revoke reason now) rows)
revoke-IsRevoked p reason now [] t e = ground (arith, e)
revoke-IsRevoked p reason now (r ∷ rows) t e =
    let rest = modify t.id (revoke reason now) rows in
    if-holds (λ (x : AuthSession). IsRevoked t.id (x ∷ rest)) (r.id == t.id) (revoke reason now r) r
      (λ j.
        is_dead-head t.id (revoke reason now r) rest
          (ap (λ i. i == t.id) (revoke-key reason now r) ∙ j) (revoke-is_revoked reason now r))
      (λ j. elim (Bool-cases (p r)) [
        | inl i ↦
            ground (
              arith,
              eq_iff r.id t.id,
              j,
              ap (λ (x : AuthSession). x.id) (first-here p r t rows i e),
            )
        | inr i ↦
            ap is_dead (get-there t.id r rest j)
            ∙ revoke-IsRevoked p reason now rows t (sym (first-there p r rows i) ∙ e)
      ])

replayed-IsRevoked :
    (sec : Security) (h newer : String) (now : ℕ) (a : Accounts) (t : AuthSession)
    → first (has_hash h) a.sessions ≡ none
    → first (had_hash h) a.sessions ≡ some t
    → IsRevoked t.id (resolved sec h newer now a (first (has_hash h) a.sessions)).0.sessions
replayed-IsRevoked sec h newer now a t gone old =
    subst (λ o. IsRevoked t.id (resolved sec h newer now a o).0.sessions) (sym gone)
      (subst (λ o. IsRevoked t.id (replayed sec now a o).0.sessions) (sym old)
        (revoke-IsRevoked (had_hash h) "refresh_replay" now a.sessions t old))

-- Let at most one session have the hash of a secret, let none have had it before the last rotation,
-- and let the secret be used to refresh and directly afterwards, with no request between, be used
-- again: from then on the access token that the first use gave is refused, after any requests and at
-- any time.
pub replay_revokes :
    (sec : Security) (requests : List (ℕ × Request)) (a : Accounts) (g : Grant)
    (secret new_secret newer : String) (first_use second_use later : ℕ)
    → uses sec (sec.hash_refresh_secret secret) a.sessions ≤ 1
    → NeverHad (sec.hash_refresh_secret secret) a.sessions
    → IsOther sec (sec.hash_refresh_secret secret) new_secret
    → (refresh_session sec secret new_secret first_use a).1 ≡ ok g
    → is_accepted (
        user_from_token sec g.claims later (
          serve_all sec requests
            (refresh_session sec secret newer second_use
              (refresh_session sec secret new_secret first_use a).0).0))
      ≡ false
unfolding refresh_session
replay_revokes sec requests a g secret new_secret newer first_use second_use later one never other
      e =
    let h = sec.hash_refresh_secret secret in
    let a1 = (refresh_session sec secret new_secret first_use a).0 in
    let (s, found, same, sid) =
      resolved-Rotated sec h new_secret first_use a (first (has_hash h) a.sessions) refl g e in
    let gone = first-Lacks sec h a1.sessions (
      subst (Lacks sec h) (sym same)
        (rotate-Lacks sec h new_secret first_use a.sessions s other one found)) in
    let (t, old, key) = rotate-Finds sec h new_secret first_use a.sessions s never found in
    revoked_token_refused sec requests (refresh_session sec secret newer second_use a1).0 g.claims
      s.id later sid
      (subst (λ i. IsRevoked i (refresh_session sec secret newer second_use a1).0.sessions) key
        (replayed-IsRevoked sec h newer second_use a1 t gone (ap (first (had_hash h)) same ∙ old)))
