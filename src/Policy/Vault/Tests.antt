-- ===== src/Policy/Vault/Tests.antt =====
-- A vault of a run.
use saz.Prelude.{
  String, true, ◌≡◌, refl, ap, some, List, [], ◌∷◌, ◌==◌, string_eq, if◌then◌else◌, arith, eq_iff,
  contains, sym, ◌∙◌, ◌⊎◌, inl, inr, Bool-cases,
}
use saz.Policy.Vault.{fresh_vault, tokenize, tokenize_all, detokenize}
use saz.Policy.Vault.RoundTrip.{detokenize-tokenize}

abbrev kinds : List String
kinds = "email" ∷ "ssn" ∷ []

-- The capitals of two kinds.
abbrev upper : String → String
upper k = if k == "email" then "EMAIL" else if k == "ssn" then "SSN" else k

one_of_two : (a : String) → contains a kinds ≡ true → (a ≡ "email") ⊎ (a ≡ "ssn")
one_of_two a h = elim (Bool-cases ("email" == a)) [
  | inl e ↦ inl (sym ((eq_iff "email" a).0 e))
  | inr e ↦ inr (sym ((eq_iff "ssn" a).0 (ground (arith, h, e))))
]

capitals_differ : (upper "email" ≡ upper "ssn") → ⊥
capitals_differ h =
    let e : ◌==◌ {A = String} "EMAIL" "SSN" ≡ true = (eq_iff "EMAIL" "SSN").1 h in cc e

two_apart :
    (a b : String) → contains a kinds ≡ true → contains b kinds ≡ true → upper a ≡ upper b → a ≡ b
two_apart a b ha hb h = by_cases (one_of_two a ha) (one_of_two b hb)
  where
    by_cases : (a ≡ "email") ⊎ (a ≡ "ssn") → (b ≡ "email") ⊎ (b ≡ "ssn") → a ≡ b
    by_cases (inl p) (inl q) = p ∙ sym q
    by_cases (inr p) (inr q) = p ∙ sym q
    by_cases (inl p) (inr q) = elim (capitals_differ (ap upper (sym p) ∙ h ∙ ap upper q)) [ ]
    by_cases (inr p) (inl q) = elim (capitals_differ (ap upper (sym q) ∙ sym h ∙ ap upper p)) [ ]

abbrev before : List (String × String)
before = ("email", "ann@example.com") ∷ ("ssn", "123-45-6789") ∷ []

abbrev after : List (String × String)
after = ("email", "cid@example.com") ∷ ("email", "bob@example.com") ∷ []

second_email :
    (tokenize upper "email" "bob@example.com" (tokenize_all upper before fresh_vault)).1
    ≡ record { kind = "EMAIL"; number = 2 }
unfolding tokenize_all
second_email = refl

detokenize-tokenize_example :
    let (s, t) = tokenize upper "email" "bob@example.com" (tokenize_all upper before fresh_vault) in
    let later = tokenize_all upper after s in
    (detokenize t later ≡ some ("email", "bob@example.com"))
    × (tokenize upper "email" "bob@example.com" later ≡ (later, t))
detokenize-tokenize_example =
    detokenize-tokenize upper kinds two_apart before after "email" "bob@example.com"
      (refl, (refl, tt)) refl (refl, (refl, tt))
