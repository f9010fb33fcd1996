-- ===== src/RateLimit/ClientIp/Headers.antt =====
-- client_ip.go: what the two header parsers accept.
use grok_search_mcp.Base.{
  ℕ, zero, suc, ◌≡◌, refl, ◌⊎◌, inl, inr, Bool, true, false, not, ◌&&◌, ◌||◌, Option, none, some,
  List, [], ◌∷◌, arith, leb, eqb, if◌then◌else◌, length, Bool-cases, Option-cases,
}
use grok_search_mcp.Base.Results.{Result, ok, error}
use grok_search_mcp.RateLimit.ClientIp.{
  Bytes, Header, Netip, ClientIpError, invalid_forwarded_headers, comma, cut_hop,
  read_header_values, is_empty, parse_forms, canonical, first_or, parse_forwarded_address,
  parse_hops, parse_forwarded_for_addresses,
}

-- The headers that a name matches, in the order of the map's walk.
unfoldable pub matching : (Bytes → Bytes → Bool) → Header → Bytes → List (List Bytes)
matching equal_fold [] target = []
matching equal_fold ((name, values) ∷ rest) target =
    let found = matching equal_fold rest target in
    if equal_fold name target then values ∷ found else found

-- What the matching headers mean: at most one, with a single value.
unfoldable pub single_value : List (List Bytes) → Result ClientIpError (Option Bytes)
single_value [] = ok none
single_value ((v ∷ []) ∷ []) = ok (some v)
single_value ([] ∷ more) = error invalid_forwarded_headers
single_value ((v ∷ []) ∷ w ∷ more) = error invalid_forwarded_headers
single_value ((v ∷ u ∷ us) ∷ more) = error invalid_forwarded_headers

unfoldable pub no_more : Bytes → List (List Bytes) → Result ClientIpError (Option Bytes)
no_more v [] = ok (some v)
no_more v (w ∷ more) = error invalid_forwarded_headers

single_value-no_more :
    (v : Bytes) (more : List (List Bytes)) → single_value ((v ∷ []) ∷ more) ≡ no_more v more
unfolding single_value no_more
single_value-no_more v [] = refl
single_value-no_more v (w ∷ more) = refl

read_header_values-found :
    (equal_fold : Bytes → Bytes → Bool) (h : Header) (target v : Bytes)
    → read_header_values equal_fold h target (some v) ≡ no_more v (matching equal_fold h target)
unfolding read_header_values matching no_more
read_header_values-found equal_fold [] target v = refl
read_header_values-found equal_fold ((name, values) ∷ h) target v =
    elim (Bool-cases (equal_fold name target)) [
      | inl same ↦ rw (same, read_header_values, matching, no_more) refl
      | inr other ↦
          rw (other, read_header_values, matching) (read_header_values-found equal_fold h target v)
    ]

-- A header is read as: missing, its one value where exactly one entry of the map matches the name
-- and carries one value, and an error otherwise, whatever the order of the map's walk.
pub read_header_values_exact :
    (equal_fold : Bytes → Bytes → Bool) (h : Header) (target : Bytes)
    → read_header_values equal_fold h target none ≡ single_value (matching equal_fold h target)
unfolding read_header_values matching single_value no_more
read_header_values_exact equal_fold [] target = refl
read_header_values_exact equal_fold ((name, []) ∷ h) target =
    elim (Bool-cases (equal_fold name target)) [
      | inr other ↦
          rw (other, read_header_values, matching) (read_header_values_exact equal_fold h target)
      | inl same ↦ rw (same, read_header_values, matching, single_value) refl
    ]
read_header_values_exact equal_fold ((name, v ∷ []) ∷ h) target =
    elim (Bool-cases (equal_fold name target)) [
      | inr other ↦
          rw (other, read_header_values, matching) (read_header_values_exact equal_fold h target)
      | inl same ↦
          rw
            (
              same,
              read_header_values,
              matching,
              single_value-no_more,
              read_header_values-found equal_fold h target v,
            )
            refl
    ]
read_header_values_exact equal_fold ((name, v ∷ u ∷ us) ∷ h) target =
    elim (Bool-cases (equal_fold name target)) [
      | inr other ↦
          rw (other, read_header_values, matching) (read_header_values_exact equal_fold h target)
      | inl same ↦
          let several : eqb (suc (length us)) 0 ≡ false = ground arith in
          rw (same, read_header_values, matching, several, single_value) refl
    ]

abbrev pub onto_first : ℕ → List Bytes → List Bytes
onto_first b [] = (b ∷ []) ∷ []
onto_first b (hop ∷ hops) = (b ∷ hop) ∷ hops

-- A value split at every comma.
unfoldable pub split_hops : Bytes → List Bytes
split_hops [] = [] ∷ []
split_hops (b ∷ bs) =
    let rest = split_hops bs in if eqb b comma then [] ∷ rest else onto_first b rest

unfoldable pub later_hops : Option Bytes → List Bytes
later_hops none = []
later_hops (some rest) = split_hops rest

split_hops-cut :
    (value : Bytes) → split_hops value ≡ (cut_hop value).0 ∷ later_hops (cut_hop value).1
unfolding split_hops cut_hop later_hops
split_hops-cut [] = refl
split_hops-cut (b ∷ bs) = elim (Bool-cases (eqb b comma)) [
  | inl here ↦ rw here refl
  | inr further ↦ rw (further, split_hops-cut bs) refl
]

module _ (n : Netip) where
  open n use {Addr}

  unfoldable pub is_ok : Result ClientIpError Addr → Bool
  is_ok (ok a) = true
  is_ok (error e) = false

  unfoldable pub all_addresses : List Bytes → Bool
  all_addresses [] = true
  all_addresses (hop ∷ hops) = is_ok (parse_forwarded_address n hop) && all_addresses hops

  unfoldable pub first_address : Option Addr → List Bytes → Result ClientIpError Addr
  first_address (some a) hops = ok a
  first_address none [] = error invalid_forwarded_headers
  first_address none (hop ∷ hops) = parse_forwarded_address n hop

  unfoldable pub forwarded_spec : ℕ → Option Addr → List Bytes → Result ClientIpError Addr
  forwarded_spec limit first hops =
      if leb (length hops) limit && all_addresses hops
      then first_address first hops
      else error invalid_forwarded_headers

  canonical-cases :
      (found : Option Addr)
      → ((a : Addr) × (canonical n invalid_forwarded_headers found ≡ ok a))
        ⊎ (canonical n invalid_forwarded_headers found ≡ error invalid_forwarded_headers)
  unfolding canonical
  canonical-cases none = inr refl
  canonical-cases (some a) = elim (Bool-cases (not (n.is_valid a) || not (is_empty (n.zone a)))) [
    | inl refused ↦ rw refused (inr refl)
    | inr accepted ↦ rw accepted (inl (n.unmap a, refl))
  ]

  -- Parsing gives an address or the one error.
  parse_forwarded_address-cases :
      (raw : Bytes)
      → ((a : Addr) × (parse_forwarded_address n raw ≡ ok a))
        ⊎ (parse_forwarded_address n raw ≡ error invalid_forwarded_headers)
  unfolding parse_forwarded_address
  parse_forwarded_address-cases raw = elim (Bool-cases (is_empty (n.trim_space raw))) [
    | inl empty ↦ rw empty (inr refl)
    | inr text ↦ rw text (canonical-cases (parse_forms n (n.trim_space raw)))
  ]

  first_address-first_or :
      (first : Option Addr) (a : Addr) (hop : Bytes) (hops : List Bytes)
      → parse_forwarded_address n hop ≡ ok a
      → first_address first (hop ∷ hops) ≡ ok (first_or n a first)
  unfolding first_address first_or
  first_address-first_or none a hop hops h = h
  first_address-first_or (some b) a hop hops h = refl

  parse_hops-split :
      (limit : ℕ) (first : Option Addr) (value : Bytes)
      → parse_hops n limit first value ≡ forwarded_spec limit first (split_hops value)
  unfolding parse_hops forwarded_spec all_addresses is_ok later_hops first_address
  parse_hops-split zero first value =
      let none_left : leb (suc (length (later_hops (cut_hop value).1))) 0 ≡ false = ground arith in
      rw (split_hops-cut value, none_left) refl
  parse_hops-split (suc limit) first value =
      elim (parse_forwarded_address-cases (cut_hop value).0) [
        | inr refused ↦
            rw (split_hops-cut value, refused, parse_hops, all_addresses, is_ok) (ground arith)
        | inl (a, accepted) ↦
            let chosen =
              first_address-first_or first a (cut_hop value).0 (later_hops (cut_hop value).1)
                accepted in
            rw (split_hops-cut value, accepted, parse_hops, all_addresses, is_ok, chosen)
              (elim (Option-cases (cut_hop value).1) [
                | inl last ↦ rw last (ground arith)
                | inr (rest, more) ↦
                    let ih = parse_hops-split limit (some (first_or n a first)) rest in
                    rw (more, ih, first_address) (ground arith)
              ])
      ]

  -- An X-Forwarded-For value is accepted exactly when, split at its commas, it has at most the maximum
  -- number of hops and every hop is an address, and then it gives the address of the first hop.
  pub parse_forwarded_for_addresses_exact :
      (value : Bytes) (maximum_hops : ℕ)
      → parse_forwarded_for_addresses n value maximum_hops
        ≡ forwarded_spec maximum_hops none (split_hops value)
  unfolding parse_forwarded_for_addresses
  parse_forwarded_for_addresses_exact value maximum_hops = parse_hops-split maximum_hops none value
