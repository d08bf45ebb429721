-- ===== src/Policy/Pii/Tests.antt =====
-- Paths and allow-lists.
use saz.Prelude.{◌≡◌, refl, true, false, [], ◌∷◌}
use saz.Prelude.Json.{str, num, obj, arr, field, end, item, no_item}
use saz.Prelude.Int.{pos}
use saz.Prelude.Texts.{decimal}
use saz.Policy.Pii.{strip_indices, path_matches_allowed, scan_dict}

stripped : strip_indices "" "a[10].b[x][2]]c[" ≡ "a.b[x]]c["
unfolding strip_indices
stripped = refl

nested : path_matches_allowed "headers.x[0]" ("to" ∷ "headers" ∷ []) ≡ true
unfolding path_matches_allowed
nested = refl

sibling : path_matches_allowed "headersx" ("headers" ∷ []) ≡ false
unfolding path_matches_allowed
sibling = refl

paths :
    scan_dict
      (λ v. true)
      (field "to"
        (arr (item (str "a") (item (str "b") no_item)))
        (field "n" (num (pos 1) 0) (field "m" (obj (field "k" (str "c") end)) end)))
    ≡ "to[0]" ∷ "to[1]" ∷ "m.k" ∷ []
unfolding scan_dict decimal
paths = refl
