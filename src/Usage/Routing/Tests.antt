-- ===== src/Usage/Routing/Tests.antt =====
-- The request inspection on concrete inputs.
use grok_search_mcp.Base.{ℕ, ◌≡◌, refl, String, Bool, true, false, List, [], ◌∷◌, ◌&&◌, ◌||◌}
use grok_search_mcp.Base.Keys.{◌==◌, string_key, beq_self}
use grok_search_mcp.Usage.Routing.{scan_member, scan_members, scan_field}
use grok_search_mcp.Usage.Routing.Agreement.{first_member, last_member, Matches, scan_field-agrees}

-- "NAME" folds to "name".
abbrev folds : String → String → Bool
folds a b = (a == b) || (a == "NAME") && (b == "name")

abbrev exactly : String → String → Bool
exactly a b = a == b

exactly-Matches : Matches folds exactly
exactly-Matches = record {
  exact = λ name. beq_self name;
  folds = λ name canonical same. rw same refl;
}

abbrev members : List (String × List ℕ)
members = ("arguments", 123 ∷ 125 ∷ []) ∷ ("name", 34 ∷ 97 ∷ 34 ∷ []) ∷ []

abbrev aliased : List (String × List ℕ)
aliased = ("NAME", 34 ∷ 98 ∷ 34 ∷ []) ∷ members

aliased_is_ambiguous : (scan_field folds "name" aliased).ambiguous ≡ true
unfolding scan_field scan_members scan_member
aliased_is_ambiguous = refl

members_are_clear : (scan_field folds "name" members).ambiguous ≡ false
unfolding scan_field scan_members scan_member
members_are_clear = refl

scan_field-agrees_example :
    (first_member exactly "name" members ≡ (scan_field folds "name" members).exact_value)
    × (last_member exactly "name" members ≡ (scan_field folds "name" members).exact_value)
scan_field-agrees_example =
    scan_field-agrees folds exactly exactly-Matches "name" members members_are_clear
