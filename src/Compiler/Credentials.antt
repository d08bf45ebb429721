-- ===== src/Compiler/Credentials.antt =====
-- The credentials that a step of backend/saz/compiler/dsl.py may use.
use saz.Prelude.{
  String, ◌≡◌, true, Option, none, some, List, contains, ok, Bool-cases, inl, inr, string_eq, arith,
}
use saz.Prelude.Json.{
  Value, null, bool, str, num, time, obj, arr, Fields, Items, no_item, item, lookup,
}
use saz.Compiler.{Library, texts, cons_text}
use saz.Compiler.Steps.{
  check_when, check_by_type, check_names, check_credentials, check_retry, check_step,
}
use saz.Compiler.Checks.{>>-ok}

-- Every item is a text, and the name of a declared credential.
abbrev pub AllDeclared : List String → Items → Type 0
AllDeclared known no_item = Unit {0}
AllDeclared known (item (str c) xs) = (contains c known ≡ true) × AllDeclared known xs
AllDeclared known (item _ xs) = ⊥

-- A step without `uses_credentials`, or with null there, uses none.
abbrev pub UsesDeclared : List String → Option Value → Type 0
UsesDeclared known none = Unit {0}
UsesDeclared known (some null) = Unit {0}
UsesDeclared known (some (arr xs)) = AllDeclared known xs
UsesDeclared known (some _) = ⊥

check_names-cons :
    (known : List String) (c : String) (names : Option (List String))
    → check_names known (cons_text c names) ≡ ok tt
    → (contains c known ≡ true) × (check_names known names ≡ ok tt)
check_names-cons known c none h = cc
check_names-cons known c (some names) h = elim (Bool-cases (contains c known)) [
  | inl e ↦ (e, ground (arith, h, e))
  | inr e ↦ ground (arith, h, e)
]

check_names-AllDeclared :
    (known : List String) (xs : Items) → check_names known (texts xs) ≡ ok tt → AllDeclared known xs
check_names-AllDeclared known no_item h = tt
check_names-AllDeclared known (item (str c) xs) h =
    let (there, rest) = check_names-cons known c (texts xs) h in
    (there, check_names-AllDeclared known xs rest)
check_names-AllDeclared known (item null xs) h = cc
check_names-AllDeclared known (item (bool b) xs) h = cc
check_names-AllDeclared known (item (num n k) xs) h = cc
check_names-AllDeclared known (item (time n) xs) h = cc
check_names-AllDeclared known (item (obj d) xs) h = cc
check_names-AllDeclared known (item (arr d) xs) h = cc

check_credentials-UsesDeclared :
    (known : List String) (v : Option Value)
    → check_credentials known v ≡ ok tt
    → UsesDeclared known v
check_credentials-UsesDeclared known none h = tt
check_credentials-UsesDeclared known (some null) h = tt
check_credentials-UsesDeclared known (some (arr xs)) h = check_names-AllDeclared known xs h
check_credentials-UsesDeclared known (some (str c)) h = cc
check_credentials-UsesDeclared known (some (bool b)) h = cc
check_credentials-UsesDeclared known (some (num n k)) h = cc
check_credentials-UsesDeclared known (some (time n)) h = cc
check_credentials-UsesDeclared known (some (obj d)) h = cc

pub check_step-UsesDeclared :
    (lib : Library) (known : List String) (t : String) (s : Fields)
    → check_step lib known t s ≡ ok tt
    → UsesDeclared known (lookup "uses_credentials" s)
unfolding check_step
check_step-UsesDeclared lib known t s h =
    let (w, h1) = >>-ok (check_when (lookup "when" s)) _ h in
    let (b, h2) = >>-ok (check_by_type lib t s) _ h1 in
    let (c, r) =
      >>-ok (check_credentials known (lookup "uses_credentials" s))
        (check_retry lib (lookup "retry" s)) h2 in
    check_credentials-UsesDeclared known (lookup "uses_credentials" s) c
