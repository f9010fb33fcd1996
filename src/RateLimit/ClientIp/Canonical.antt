-- ===== src/RateLimit/ClientIp/Canonical.antt =====
-- client_ip.go: what the address parsers give.
use grok_search_mcp.Base.{
  ℕ, zero, suc, ◌≡◌, refl, inl, inr, true, Option, none, some, arith, Bool-cases, Option-cases,
}
use grok_search_mcp.Base.Results.{ok, error, Result-cases}
use grok_search_mcp.RateLimit.ClientIp.{
  Bytes, Netip, ClientIpError, invalid_identity, invalid_forwarded_headers, ClientIpResolver,
  canonical, is_empty, parse_remote_address, parse_forwarded_address, parse_hops, first_or, cut_hop,
  parse_forwarded_for_addresses,
}

module _ (n : Netip) where
  open n use {Addr}

  -- A valid address without a zone, unmapped.
  abbrev pub IsCanonical : Addr → Type 0
  IsCanonical x =
      (a : Addr) × (n.is_valid a ≡ true) × (is_empty (n.zone a) ≡ true) × (n.unmap a ≡ x)

  canonical-IsCanonical :
      (e : ClientIpError) (found : Option Addr) (x : Addr)
      → canonical n e found ≡ ok x
      → IsCanonical x
  unfolding canonical
  canonical-IsCanonical e none x h = cc
  canonical-IsCanonical e (some a) x h = (a, ground arith, ground arith, ground arith)

  pub parse_remote_address-IsCanonical :
      (text : Bytes) (x : Addr) → parse_remote_address n text ≡ ok x → IsCanonical x
  unfolding parse_remote_address
  parse_remote_address-IsCanonical text x h = elim (Bool-cases (is_empty (n.trim_space text))) [
    | inl empty ↦ let wrong : error invalid_identity ≡ ok x = rw empty at h in cc
    | inr filled ↦ canonical-IsCanonical invalid_identity _ x (rw filled at h)
  ]

  pub parse_forwarded_address-IsCanonical :
      (text : Bytes) (x : Addr) → parse_forwarded_address n text ≡ ok x → IsCanonical x
  unfolding parse_forwarded_address
  parse_forwarded_address-IsCanonical text x h = elim (Bool-cases (is_empty (n.trim_space text))) [
    | inl empty ↦ let wrong : error invalid_forwarded_headers ≡ ok x = rw empty at h in cc
    | inr filled ↦ canonical-IsCanonical invalid_forwarded_headers _ x (rw filled at h)
  ]

  first_or-IsCanonical :
      (a : Addr) (first : Option Addr)
      → IsCanonical a
      → ((b : Addr) → first ≡ some b → IsCanonical b)
      → IsCanonical (first_or n a first)
  unfolding first_or
  first_or-IsCanonical a none c known = c
  first_or-IsCanonical a (some b) c known = known b refl

  parse_hops-IsCanonical :
      (limit : ℕ) (first : Option Addr) (value : Bytes) (x : Addr)
      → ((a : Addr) → first ≡ some a → IsCanonical a)
      → parse_hops n limit first value ≡ ok x
      → IsCanonical x
  unfolding parse_hops
  parse_hops-IsCanonical zero first value x known h = cc
  parse_hops-IsCanonical (suc limit) first value x known h =
      elim (Result-cases (parse_forwarded_address n (cut_hop value).0)) [
        | inr (e, refused) ↦ let wrong : error e ≡ ok x = rw refused at h in cc
        | inl (a, parsed) ↦
            let chosen =
              first_or-IsCanonical a first
                (parse_forwarded_address-IsCanonical (cut_hop value).0 a parsed) known in
            elim (Option-cases (cut_hop value).1) [
              | inl last ↦
                  let done : ok (first_or n a first) ≡ ok x = rw (parsed, last) at h in
                  let same : first_or n a first ≡ x = cc in rw same at chosen
              | inr (rest, more) ↦
                  parse_hops-IsCanonical limit (some (first_or n a first)) rest x
                    (λ b same. let s : first_or n a first ≡ b = cc in rw s at chosen)
                    (rw (parsed, more) at h)
            ]
      ]

  pub parse_forwarded_for_addresses-IsCanonical :
      (r : ClientIpResolver n) (value : Bytes) (x : Addr)
      → parse_forwarded_for_addresses n value r.maximum_forwarded_hops ≡ ok x
      → IsCanonical x
  unfolding parse_forwarded_for_addresses
  parse_forwarded_for_addresses-IsCanonical r value x h =
      parse_hops-IsCanonical r.maximum_forwarded_hops none value x (λ a e. cc) h
