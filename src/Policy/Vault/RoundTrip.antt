-- ===== src/Policy/Vault/RoundTrip.antt =====
-- Tokens of backend/saz/policies/pii_token_vault.py stand for the values that they were made for.
use mathlib.Core.Path.{subst}
use saz.Prelude.{
  ℕ, ◌+◌, ◌≤◌, String, true, ◌&&◌, ◌≡◌, refl, sym, ◌∙◌, Option, none, some, Option-cases, inl, inr,
  Bool-cases, List, [], ◌∷◌, All, Map, insert, get_or, contains, ◌==◌, string_eq, nat_eq,
  if◌then◌else◌, arith, eq_iff, nat_beq_iff, text_refl,
}
use saz.Policy.Vault.{
  PiiToken, Vault, fresh_vault, next_token, add_token, tokenize, tokenize_all, detokenize,
}

get_or-insert :
    (k j : String) (n : ℕ) (c : Map ℕ)
    → get_or (insert k n c) j 0 ≡ (if k == j then n else get_or c j 0)
get_or-insert k j n c = elim (Bool-cases (k == j)) [
  | inl e ↦ rw (e, get_or) refl
  | inr e ↦ rw (e, get_or) refl
]

-- A counter that goes up still counts what it counted.
grown :
    (j k : String) (n : ℕ) (c : Map ℕ)
    → n ≤ get_or c j 0
    → n ≤ get_or (insert k (get_or c k 0 + 1) c) j 0
grown j k n c h =
    let next = get_or c k 0 + 1 in
    subst (λ (x : ℕ). n ≤ x) (sym (get_or-insert k j next c))
      (elim (Bool-cases (k == j)) [
        | inl same ↦
            let below : n ≤ get_or c k 0 =
              subst (λ (x : String). n ≤ get_or c x 0) (sym ((eq_iff k j).0 same)) h in
            rw same (omega (arith, below))
        | inr other ↦ rw other h
      ])

module _ (upper : String → String) (kinds : List String) where
  -- The kinds in use are told apart by their capitals.
  abbrev pub AreApart : Type 0
  AreApart =
      (a b : String) → contains a kinds ≡ true → contains b kinds ≡ true → upper a ≡ upper b → a ≡ b

  -- A token that was given out for a value leads back to it, and was counted.
  pub record IsEntry (s : Vault) (k v : String) (t : PiiToken) : Type 0 where
    pub known : contains k kinds ≡ true
    pub capital : t.kind ≡ upper k
    pub back : s.token_to_value t.kind t.number ≡ some (k, v)
    pub counted : t.number ≤ get_or s.counters k 0

  abbrev pub IsVault : Vault → Type 0
  IsVault s = (k v : String) (t : PiiToken) → s.value_to_token k v ≡ some t → IsEntry s k v t

  module _ (apart : AreApart) where
    add_token-IsEntry :
        (s : Vault) (k v : String) (j w : String) (t : PiiToken)
        → contains k kinds ≡ true
        → IsEntry s j w t
        → IsEntry (add_token upper k v (next_token upper k s) s) j w t
    add_token-IsEntry s k v j w t here e = record {
      known = e.known;
      capital = e.capital;
      back = elim (Bool-cases (upper k == t.kind)) [
        | inl same ↦
            let k_j = apart k j here e.known ((eq_iff (upper k) t.kind).0 same ∙ e.capital) in
            let below : t.number ≤ get_or s.counters k 0 =
              subst (λ (x : String). t.number ≤ get_or s.counters x 0) (sym k_j) e.counted in
            ground (arith, e.back, below)
        | inr other ↦ ground (arith, e.back, other)
      ];
      counted = grown j k t.number s.counters e.counted;
    }

    tokenize-IsVault :
        (k v : String) (s : Vault)
        → contains k kinds ≡ true
        → IsVault s
        → IsVault (tokenize upper k v s).0
    unfolding tokenize
    tokenize-IsVault k v s here h = elim (Option-cases (s.value_to_token k v)) [
      | inl e ↦ rw e (added e)
      | inr e ↦ rw e.1 h
    ]
      where
        new : PiiToken
        new = next_token upper k s

        the_new : IsEntry (add_token upper k v new s) k v new
        the_new = record {
          known = here;
          capital = refl;
          back = rw (text_refl (upper k), (nat_beq_iff new.number new.number).1 refl) refl;
          counted =
              let there : get_or (insert k new.number s.counters) k 0 ≡ new.number =
                rw (get_or-insert k k new.number s.counters, text_refl k) refl in
              subst (λ (x : ℕ). new.number ≤ x) (sym there) (omega arith);
        }

        added : s.value_to_token k v ≡ none → IsVault (add_token upper k v new s)
        added e j w t g = elim (Bool-cases (k == j && v == w)) [
          | inl same ↦
              let same_token : new ≡ t = ground (arith, g, same) in
              let same_k : k ≡ j = (eq_iff k j).0 (ground (arith, same)) in
              let same_v : v ≡ w = (eq_iff v w).0 (ground (arith, same)) in
              subst (λ (x : PiiToken). IsEntry (add_token upper k v new s) j w x) same_token
                (subst (λ (x : String). IsEntry (add_token upper k v new s) j x new) same_v
                  (subst (λ (x : String). IsEntry (add_token upper k v new s) x v new) same_k
                    the_new))
          | inr other ↦ add_token-IsEntry s k v j w t here (h j w t (ground (arith, g, other)))
        ]

    -- What was given out stays.
    tokenize-keeps :
        (k v j w : String) (t : PiiToken) (s : Vault)
        → s.value_to_token j w ≡ some t
        → (tokenize upper k v s).0.value_to_token j w ≡ some t
    unfolding tokenize
    tokenize-keeps k v j w t s h = elim (Option-cases (s.value_to_token k v)) [
      | inl e ↦ rw e (ground (arith, e, h, eq_iff k j, eq_iff v w))
      | inr e ↦ rw e.1 h
    ]

    tokenize-there :
        (k v : String) (s : Vault)
        → (tokenize upper k v s).0.value_to_token k v ≡ some (tokenize upper k v s).1
    unfolding tokenize
    tokenize-there k v s = elim (Option-cases (s.value_to_token k v)) [
      | inl e ↦ rw (e, text_refl k, text_refl v) refl
      | inr e ↦ rw e.1 e.1
    ]

    tokenize_all-IsVault :
        (values : List (String × String)) (s : Vault)
        → All (λ (p : String × String). contains p.0 kinds ≡ true) values
        → IsVault s
        → IsVault (tokenize_all upper values s)
    unfolding tokenize_all
    tokenize_all-IsVault [] s known h = h
    tokenize_all-IsVault ((k, v) ∷ values) s (here, known) h =
        tokenize_all-IsVault values (tokenize upper k v s).0 known (tokenize-IsVault k v s here h)

    tokenize_all-keeps :
        (values : List (String × String)) (j w : String) (t : PiiToken) (s : Vault)
        → s.value_to_token j w ≡ some t
        → (tokenize_all upper values s).value_to_token j w ≡ some t
    unfolding tokenize_all
    tokenize_all-keeps [] j w t s h = h
    tokenize_all-keeps ((k, v) ∷ values) j w t s h =
        tokenize_all-keeps values j w t (tokenize upper k v s).0 (tokenize-keeps k v j w t s h)

-- A value that has a token gets it again, and nothing changes.
tokenize-again :
    (upper : String → String) (k v : String) (t : PiiToken) (s : Vault)
    → s.value_to_token k v ≡ some t
    → tokenize upper k v s ≡ (s, t)
unfolding tokenize
tokenize-again upper k v t s h = rw h refl

-- A token leads back to the type and the value that it was made for, and the same value gets the same
-- token again, whatever the run has tokenized before and tokenizes after, provided that all types
-- are among some whose capitals differ.
pub detokenize-tokenize :
    (upper : String → String) (kinds : List String)
    → AreApart upper kinds
    → (before after : List (String × String)) (k v : String)
    → All (λ (p : String × String). contains p.0 kinds ≡ true) before
    → contains k kinds ≡ true
    → All (λ (p : String × String). contains p.0 kinds ≡ true) after
    → let (s, t) = tokenize upper k v (tokenize_all upper before fresh_vault) in
      let later = tokenize_all upper after s in
      (detokenize t later ≡ some (k, v)) × (tokenize upper k v later ≡ (later, t))
unfolding detokenize
detokenize-tokenize upper kinds apart before after k v known_before known known_after =
    let start = tokenize_all upper before fresh_vault in
    let ready =
      tokenize_all-IsVault upper kinds apart before fresh_vault known_before
        (λ j w t h. elim (false_some t h) [ ]) in
    let s = (tokenize upper k v start).0 in
    let t = (tokenize upper k v start).1 in
    let valid =
      tokenize_all-IsVault upper kinds apart after s known_after
        (tokenize-IsVault upper kinds apart k v start known ready) in
    let there =
      tokenize_all-keeps upper kinds apart after k v t s
        (tokenize-there upper kinds apart k v start) in
    ((valid k v t there).back, tokenize-again upper k v t (tokenize_all upper after s) there)
  where
    false_some : (t : PiiToken) → ◌≡◌ {A = Option PiiToken} none (some t) → ⊥
    false_some t h = cc
