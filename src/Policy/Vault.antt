-- ===== src/Policy/Vault.antt =====
-- The token vault of backend/saz/policies/pii_token_vault.py. A token `__PII_<kind>_<number>__` is
-- kept by its two parts; `str.upper` is a parameter. Texts that hold several tokens are left out.
pub mod RoundTrip
mod Tests
use saz.Prelude.{
  ℕ, ◌+◌, String, Bool, ◌&&◌, Option, none, some, List, [], ◌∷◌, Map, empty, insert, get_or, ◌==◌,
  string_eq, nat_eq, if◌then◌else◌,
}

pub record PiiToken : Type 0 where
  pub kind : String
  pub number : ℕ

-- The dicts, with a key that is a pair given in two parts.
pub record Vault : Type 0 where
  pub value_to_token : String → String → Option PiiToken
  pub token_to_value : String → ℕ → Option (String × String)
  pub counters : Map ℕ

abbrev pub fresh_vault : Vault
fresh_vault = record {
  value_to_token = λ k v. none;
  token_to_value = λ k n. none;
  counters = empty;
}

-- `self._value_to_token[(k, v)] = t`
abbrev pub set_token : String → String → PiiToken → Vault → String → String → Option PiiToken
set_token k v t s k' v' = if k == k' && v == v' then some t else s.value_to_token k' v'

-- `self._token_to_value[t] = (k, v)`
abbrev pub set_value : PiiToken → String → String → Vault → String → ℕ → Option (String × String)
set_value t k v s kind n =
    if t.kind == kind && t.number == n then some (k, v) else s.token_to_value kind n

module _ (upper : String → String) where
  abbrev pub next_token : String → Vault → PiiToken
  next_token pii_type s = record {
    kind = upper pii_type;
    number = get_or s.counters pii_type 0 + 1;
  }

  abbrev pub add_token : String → String → PiiToken → Vault → Vault
  add_token pii_type pii_value t s = record {
    value_to_token = set_token pii_type pii_value t s;
    token_to_value = set_value t pii_type pii_value s;
    counters = insert pii_type t.number s.counters;
  }

  abbrev pub tokenize_by : String → String → Option PiiToken → Vault → Vault × PiiToken
  tokenize_by pii_type pii_value (some t) s = (s, t)
  tokenize_by pii_type pii_value none s =
      let t = next_token pii_type s in (add_token pii_type pii_value t s, t)

  unfoldable pub tokenize : String → String → Vault → Vault × PiiToken
  tokenize pii_type pii_value s =
      tokenize_by pii_type pii_value (s.value_to_token pii_type pii_value) s

  -- The values that a run has tokenized, one after another.
  unfoldable pub tokenize_all : List (String × String) → Vault → Vault
  unfolding tokenize
  tokenize_all [] s = s
  tokenize_all ((k, v) ∷ rest) s = tokenize_all rest (tokenize k v s).0

unfoldable pub detokenize : PiiToken → Vault → Option (String × String)
detokenize t s = s.token_to_value t.kind t.number

-- `clear`, when the run has ended
unfoldable pub clear : Vault → Vault
clear s = fresh_vault
