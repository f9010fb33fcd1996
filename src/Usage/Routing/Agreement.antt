-- ===== src/Usage/Routing/Agreement.antt =====
-- middleware.go: every decoder of a request that passes finds the tool name that the limits use.
use grok_search_mcp.Base.{
  ℕ, ◌≡◌, refl, inl, inr, String, Bool, true, false, not, ◌||◌, Option, none, some, List, [], ◌∷◌,
  if◌then◌else◌, Bool-cases, arith, sym, Option-cases,
}
use grok_search_mcp.Base.Keys.{◌==◌, string_key}
use grok_search_mcp.Usage.Routing.{FieldScan, new_scan, scan_member, scan_members, scan_field}

-- A decoder that takes the value of the first member whose name matches.
unfoldable pub first_member :
    (String → String → Bool) → String → List (String × List ℕ) → Option (List ℕ)
first_member matches canonical [] = none
first_member matches canonical ((name, value) ∷ members) =
    let rest = first_member matches canonical members in
    if matches name canonical then some value else rest

-- A decoder that takes the last one.
unfoldable pub last_member :
    (String → String → Bool) → String → List (String × List ℕ) → Option (List ℕ)
last_member matches canonical [] = none
last_member matches canonical ((name, value) ∷ members) =
    elim (last_member matches canonical members) [
      | some later ↦ some later
      | none ↦ if matches name canonical then some value else none
    ]

-- A decoder matches the exact name, and no name that does not fold to it.
pub record Matches (equal_fold matches : String → String → Bool) : Type 0 where
  pub exact : (name : String) → matches name name ≡ true
  pub folds :
      (name canonical : String) → matches name canonical ≡ true → equal_fold name canonical ≡ true

-- Both decoders find the value, or both find none.
abbrev Finds : (String → String → Bool) → String → List (String × List ℕ) → Option (List ℕ) → Type 0
Finds matches canonical members value =
    (first_member matches canonical members ≡ value)
    × (last_member matches canonical members ≡ value)

seen-ambiguous : (a b seen : Bool) → seen ≡ true → (a || b || seen) ≡ false → ⊥
seen-ambiguous a b true h w = ground arith
seen-ambiguous a b false h w = cc

module _ (equal_fold matches : String → String → Bool) (m : Matches equal_fold matches) where
  no-match :
      (name canonical : String) → equal_fold name canonical ≡ false → matches name canonical ≡ false
  no-match name canonical miss = elim (Bool-cases (matches name canonical)) [
    | inl hit ↦ let folded = m.folds name canonical hit in absurd (cc)
    | inr other ↦ other
  ]

  -- A member that does not match changes nothing.
  skip-Finds :
      (name canonical : String) (value : List ℕ) (members : List (String × List ℕ))
      (found : Option (List ℕ))
      → equal_fold name canonical ≡ false
      → Finds matches canonical members found
      → Finds matches canonical ((name, value) ∷ members) found
  unfolding first_member last_member
  skip-Finds name canonical value members found miss finds =
      let other = no-match name canonical miss in
      elim (Option-cases (last_member matches canonical members)) [
        | inl absent ↦
            let nothing : none ≡ found = rw absent at finds.1 in
            (rw other finds.0, rw (absent, other) nothing)
        | inr (later, there) ↦
            let same : some later ≡ found = rw there at finds.1 in (rw other finds.0, rw there same)
      ]

  skip-scan :
      (name canonical : String) (value : List ℕ) (members : List (String × List ℕ))
      (scan : FieldScan)
      → equal_fold name canonical ≡ false
      → scan_members equal_fold canonical ((name, value) ∷ members) scan
        ≡ scan_members equal_fold canonical members scan
  unfolding scan_members scan_member
  skip-scan name canonical value members scan miss = rw (miss, scan_members) refl

  hit-scan :
      (name canonical : String) (value : List ℕ) (members : List (String × List ℕ))
      (scan : FieldScan)
      → equal_fold name canonical ≡ true
      → scan_members equal_fold canonical ((name, value) ∷ members) scan
        ≡ scan_members equal_fold canonical members (record {
          exact_value = if name == canonical then some value else scan.exact_value;
          seen = true;
          ambiguous = scan.ambiguous || not (name == canonical) || scan.seen;
        })
  unfolding scan_members scan_member
  hit-scan name canonical value members scan hit = rw (hit, scan_members) refl

  -- An ambiguity stays.
  scan_members-ambiguous :
      (canonical : String) (members : List (String × List ℕ)) (scan : FieldScan)
      → scan.ambiguous ≡ true
      → (scan_members equal_fold canonical members scan).ambiguous ≡ true
  unfolding scan_members
  scan_members-ambiguous canonical [] scan h = h
  scan_members-ambiguous canonical ((name, value) ∷ members) scan h =
      elim (Bool-cases (equal_fold name canonical)) [
        | inl hit ↦ rw (hit-scan name canonical value members scan hit) (
            scan_members-ambiguous canonical members
              (record {
                exact_value = if name == canonical then some value else scan.exact_value;
                seen = true;
                ambiguous = scan.ambiguous || not (name == canonical) || scan.seen;
              })
              (rw h refl))
        | inr miss ↦
            rw (skip-scan name canonical value members scan miss)
              (scan_members-ambiguous canonical members scan h)
      ]

  clear-before :
      (canonical : String) (members : List (String × List ℕ)) (scan : FieldScan)
      → (scan_members equal_fold canonical members scan).ambiguous ≡ false
      → scan.ambiguous ≡ false
  clear-before canonical members scan clear = elim (Bool-cases scan.ambiguous) [
    | inr before ↦ before
    | inl ambiguous ↦
        let wrong = scan_members-ambiguous canonical members scan ambiguous in absurd (cc)
  ]

  -- After a first match, no other member matches.
  scan_members-seen :
      (canonical : String) (members : List (String × List ℕ)) (scan : FieldScan)
      → scan.seen ≡ true
      → (scan_members equal_fold canonical members scan).ambiguous ≡ false
      → Finds matches canonical members none
        × ((scan_members equal_fold canonical members scan).exact_value ≡ scan.exact_value)
  unfolding scan_members first_member last_member
  scan_members-seen canonical [] scan seen clear = ((refl, refl), refl)
  scan_members-seen canonical ((name, value) ∷ members) scan seen clear =
      elim (Bool-cases (equal_fold name canonical)) [
        | inr miss ↦
            let left = rw (skip-scan name canonical value members scan miss) at clear in
            let rest = scan_members-seen canonical members scan seen left in
            (
              skip-Finds name canonical value members none miss rest.0,
              rw (skip-scan name canonical value members scan miss) rest.1,
            )
        | inl hit ↦
            let left = rw (hit-scan name canonical value members scan hit) at clear in
            let before =
              clear-before canonical members
                (record {
                  exact_value = if name == canonical then some value else scan.exact_value;
                  seen = true;
                  ambiguous = scan.ambiguous || not (name == canonical) || scan.seen;
                })
                left in
            absurd (seen-ambiguous scan.ambiguous (not (name == canonical)) scan.seen seen before)
      ]

  exact-Finds :
      (name canonical : String) (value : List ℕ) (members : List (String × List ℕ))
      {found : Option (List ℕ)}
      → (name == canonical) ≡ true
      → Finds matches canonical members none
        × (found ≡ (if name == canonical then some value else none))
      → Finds matches canonical ((name, value) ∷ members) found
  unfolding first_member last_member
  exact-Finds name canonical value members same rest =
      let equal : name ≡ canonical = (string_key.equal_iff name canonical).0 same in
      let matched : matches name canonical ≡ true = rw equal (m.exact canonical) in
      let value_found = rw same at rest.1 in
      (rw matched (sym value_found), rw (rest.0.1, matched) (sym value_found))

  -- Until a first match.
  scan_members-new :
      (canonical : String) (members : List (String × List ℕ))
      → (scan_members equal_fold canonical members new_scan).ambiguous ≡ false
      → Finds matches canonical members
          (scan_members equal_fold canonical members new_scan).exact_value
  unfolding scan_members first_member last_member
  scan_members-new canonical [] clear = (refl, refl)
  scan_members-new canonical ((name, value) ∷ members) clear =
      elim (Bool-cases (equal_fold name canonical)) [
        | inr miss ↦
            let left = rw (skip-scan name canonical value members new_scan miss) at clear in
            rw (skip-scan name canonical value members new_scan miss) (
              skip-Finds name canonical value members
                (scan_members equal_fold canonical members new_scan).exact_value miss
                (scan_members-new canonical members left))
        | inl hit ↦
            let left = rw (hit-scan name canonical value members new_scan hit) at clear in
            elim (Bool-cases (name == canonical)) [
              | inr alias ↦
                  let before =
                    clear-before canonical members
                      (record {
                        exact_value = if name == canonical then some value else none;
                        seen = true;
                        ambiguous = false || not (name == canonical) || false;
                      })
                      left in
                  let wrong : true ≡ false = rw alias at before in absurd (cc)
              | inl same ↦ rw (hit-scan name canonical value members new_scan hit) (
                  exact-Finds name canonical value members same (
                    scan_members-seen canonical members
                      (record {
                        exact_value = if name == canonical then some value else none;
                        seen = true;
                        ambiguous = false || not (name == canonical) || false;
                      })
                      refl left))
            ]
      ]

  -- Where the scan for a routing field finds no ambiguity, every decoder agrees with it on the field's
  -- value: one that takes the first member whose name matches and one that takes the last, where a name
  -- matches itself and only names that fold to it.
  pub scan_field-agrees :
      (canonical : String) (members : List (String × List ℕ))
      → (scan_field equal_fold canonical members).ambiguous ≡ false
      → (first_member matches canonical members
          ≡ (scan_field equal_fold canonical members).exact_value)
        × (last_member matches canonical members
            ≡ (scan_field equal_fold canonical members).exact_value)
  unfolding scan_field
  scan_field-agrees canonical members clear = scan_members-new canonical members clear
