-- ===== src/RateLimit/ClientIp/Identity.antt =====
-- client_ip.go: whose word the resolver takes.
use grok_search_mcp.Base.{
  ◌≡◌, ◌≢◌, refl, ◌⊎◌, inl, inr, false, Option, none, some, ltb, length, Bool-cases,
}
use grok_search_mcp.Base.{List, [], ◌∷◌}
use grok_search_mcp.Base.Every.{Every}
use grok_search_mcp.Base.Results.{Result, ok, error, Result-cases}
use grok_search_mcp.RateLimit.ClientIp.{
  Bytes, Header, Request, Netip, ClientIpError, invalid_forwarded_headers, untrusted_peer, direct,
  trusted_proxy, ClientIpMode, ClientIpResolver, is_trusted_proxy, parse_remote_address,
  parse_forwarded_address, parse_forwarded_for_addresses, read_header_values, real_ip_address,
  real_ip_name, forwarded_for_name, first_forwarded_address, choose_address, resolve_forwarded,
  resolve_from_peer, resolve_address,
}
use grok_search_mcp.RateLimit.ClientIp.Canonical.{
  IsCanonical, parse_remote_address-IsCanonical, parse_forwarded_address-IsCanonical,
  parse_forwarded_for_addresses-IsCanonical,
}

module _ (n : Netip) where
  open n use {Addr}

  from_peer :
      (r : ClientIpResolver n) (mode : ClientIpMode) (peer : Addr) (h h' : Header)
      → (mode ≡ direct) ⊎ (is_trusted_proxy n r.trusted_proxy_prefixes peer ≡ false)
      → resolve_from_peer n r mode peer h ≡ resolve_from_peer n r mode peer h'
  unfolding resolve_from_peer
  from_peer r direct peer h h' why = refl
  from_peer r trusted_proxy peer h h' (inl off) = cc
  from_peer r trusted_proxy peer h h' (inr stranger) = rw stranger refl

  no_prefix :
      (peer : Addr) (prefixes : List n.Prefix)
      → Every (λ p. n.contains p peer ≡ false) prefixes
      → is_trusted_proxy n prefixes peer ≡ false
  unfolding is_trusted_proxy
  no_prefix peer [] e = refl
  no_prefix peer (p ∷ ps) e = rw (e.0, no_prefix peer ps e.1) refl

  -- Where forwarding is off, or no trusted prefix contains the immediate peer, the headers change
  -- nothing.
  pub forwarding_needs_trust :
      (r : ClientIpResolver n) (remote : Bytes) (h h' : Header)
      → ((peer : Addr)
          → parse_remote_address n remote ≡ ok peer
          → (r.mode ≡ direct) ⊎ Every (λ p. n.contains p peer ≡ false) r.trusted_proxy_prefixes)
      → resolve_address n (some r) (some (record { remote_addr = remote; header = h }))
        ≡ resolve_address n (some r) (some (record { remote_addr = remote; header = h' }))
  unfolding resolve_address
  forwarding_needs_trust r remote h h' untrusted =
      elim (Result-cases (parse_remote_address n remote)) [
        | inr (e, refused) ↦ rw (refused, resolve_address) refl
        | inl (peer, parsed) ↦
            rw (parsed, resolve_address)
              (from_peer r r.mode peer h h' (elim (untrusted peer parsed) [
                | inl off ↦ inl off
                | inr outside ↦ inr (no_prefix peer r.trusted_proxy_prefixes outside)
              ]))
      ]

  -- The header is missing, or its value has the property.
  abbrev pub Names : Option Bytes → (Bytes → Type 0) → Type 0
  Names header P = (v : Bytes) → header ≡ some v → P v

  -- A header and its address: both are missing, or the value parses to the address.
  abbrev Gives : Option Bytes → (Bytes → Result ClientIpError Addr) → Option Addr → Type 0
  Gives header parse address =
      ((header ≡ none) × (address ≡ none))
      ⊎ ((v : Bytes) × (a : Addr) × (header ≡ some v) × (address ≡ some a) × (parse v ≡ ok a))

  real_ip_address-Gives :
      (r : ClientIpResolver n) (header : Option Bytes) (address : Option Addr)
      → real_ip_address n r header ≡ ok address
      → Gives header (parse_forwarded_address n) address
  unfolding real_ip_address
  real_ip_address-Gives r none address h = inl (refl, cc)
  real_ip_address-Gives r (some v) address h =
      elim (Bool-cases (ltb r.maximum_real_ip_header_bytes (length v))) [
        | inl long ↦ let wrong : error invalid_forwarded_headers ≡ ok address = rw long at h in cc
        | inr fits ↦ elim (Result-cases (parse_forwarded_address n v)) [
          | inr (e, refused) ↦ let wrong : error e ≡ ok address = rw (fits, refused) at h in cc
          | inl (a, parsed) ↦
              let same : ok (some a) ≡ ok address = rw (fits, parsed) at h in
              inr (v, a, refl, cc, parsed)
        ]
      ]

  first_forwarded_address-Gives :
      (r : ClientIpResolver n) (header : Option Bytes) (address : Option Addr)
      → first_forwarded_address n r header ≡ ok address
      → Gives header (λ v. parse_forwarded_for_addresses n v r.maximum_forwarded_hops) address
  unfolding first_forwarded_address
  first_forwarded_address-Gives r none address h = inl (refl, cc)
  first_forwarded_address-Gives r (some v) address h =
      elim (Bool-cases (ltb r.maximum_forwarded_for_header_bytes (length v))) [
        | inl long ↦ let wrong : error invalid_forwarded_headers ≡ ok address = rw long at h in cc
        | inr fits ↦
            elim (Result-cases (parse_forwarded_for_addresses n v r.maximum_forwarded_hops)) [
              | inr (e, refused) ↦ let wrong : error e ≡ ok address = rw (fits, refused) at h in cc
              | inl (a, parsed) ↦
                  let same : ok (some a) ≡ ok address = rw (fits, parsed) at h in
                  inr (v, a, refl, cc, parsed)
            ]
      ]

  choose_address-agrees :
      (a b : Option Addr) (x : Addr)
      → choose_address n a b ≡ ok x
      → ((y : Addr) → a ≡ some y → y ≡ x)
        × ((y : Addr) → b ≡ some y → y ≡ x)
        × ((a ≢ none) ⊎ (b ≢ none))
  unfolding choose_address
  choose_address-agrees none none x h = cc
  choose_address-agrees none (some b) x h = (λ y e. cc, λ y e. cc, inr (λ e. cc))
  choose_address-agrees (some a) none x h = (λ y e. cc, λ y e. cc, inl (λ e. cc))
  choose_address-agrees (some a) (some b) x h = elim (Bool-cases (n.addr_eq.equal a b)) [
    | inr differ ↦ let wrong : error invalid_forwarded_headers ≡ ok x = rw differ at h in cc
    | inl agree ↦
        let same : a ≡ b = (n.addr_eq.equal_iff a b).0 agree in
        let chosen : ok a ≡ ok x = rw agree at h in (λ y e. cc, λ y e. cc, inl (λ e. cc))
  ]

  Gives-named :
      (header : Option Bytes) (parse : Bytes → Result ClientIpError Addr) (address : Option Addr)
      (x : Addr)
      → Gives header parse address
      → ((y : Addr) → address ≡ some y → y ≡ x)
      → Names header (λ v. parse v ≡ ok x)
  Gives-named header parse address x (inl (gone, none_given)) same v e = cc
  Gives-named header parse address x (inr (w, a, present, given, parsed)) same v e =
      let s : a ≡ x = same a given in let t : w ≡ v = cc in cc

  Gives-present :
      (header : Option Bytes) (parse : Bytes → Result ClientIpError Addr) (address : Option Addr)
      → Gives header parse address
      → address ≢ none
      → header ≢ none
  Gives-present header parse address (inl (gone, none_given)) given e = given none_given
  Gives-present header parse address (inr (w, a, present, given, parsed)) given' e = cc

  -- The address that forwarding gives is the one in every forwarding header that is there.
  pub forwarded_headers_agree :
      (r : ClientIpResolver n) (h : Header) (x : Addr)
      → resolve_forwarded n r h ≡ ok x
      → (real forwarded : Option Bytes)
      → read_header_values n.equal_fold h real_ip_name none ≡ ok real
      → read_header_values n.equal_fold h forwarded_for_name none ≡ ok forwarded
      → Names real (λ v. parse_forwarded_address n v ≡ ok x)
        × Names forwarded (λ v. parse_forwarded_for_addresses n v r.maximum_forwarded_hops ≡ ok x)
        × ((real ≢ none) ⊎ (forwarded ≢ none))
  unfolding resolve_forwarded
  forwarded_headers_agree r h x resolved real forwarded a b =
      elim (Result-cases (real_ip_address n r real)) [
        | inr (e, refused) ↦ let wrong : error e ≡ ok x = rw (a, b, refused) at resolved in cc
        | inl (p, real_ok) ↦ elim (Result-cases (first_forwarded_address n r forwarded)) [
          | inr (e, refused) ↦
              let wrong : error e ≡ ok x = rw (a, b, real_ok, refused) at resolved in cc
          | inl (q, forwarded_ok) ↦
              let chosen : choose_address n p q ≡ ok x =
                rw (a, b, real_ok, forwarded_ok) at resolved in
              let (same_real, same_forwarded, one) = choose_address-agrees p q x chosen in
              let g = real_ip_address-Gives r real p real_ok in
              let k = first_forwarded_address-Gives r forwarded q forwarded_ok in
              let parse_all : Bytes → Result ClientIpError Addr =
                λ v. parse_forwarded_for_addresses n v r.maximum_forwarded_hops in
              (
                Gives-named real (parse_forwarded_address n) p x g same_real,
                Gives-named forwarded parse_all q x k same_forwarded,
                elim one [
                  | inl left ↦ inl (Gives-present real (parse_forwarded_address n) p g left)
                  | inr right ↦ inr (Gives-present forwarded parse_all q k right)
                ],
              )
        ]
      ]

  named : (header : Option Bytes) → header ≢ none → (v : Bytes) × (header ≡ some v)
  named none h = elim (h refl) [ ]
  named (some v) h = (v, refl)

  resolve_forwarded-IsCanonical :
      (r : ClientIpResolver n) (h : Header) (x : Addr)
      → resolve_forwarded n r h ≡ ok x
      → IsCanonical n x
  unfolding resolve_forwarded
  resolve_forwarded-IsCanonical r h x resolved =
      elim (Result-cases (read_header_values n.equal_fold h real_ip_name none)) [
        | inr (e, bad) ↦ let wrong : error e ≡ ok x = rw bad at resolved in cc
        | inl (real, a) ↦
            elim (Result-cases (read_header_values n.equal_fold h forwarded_for_name none)) [
              | inr (e, bad) ↦ let wrong : error e ≡ ok x = rw (a, bad) at resolved in cc
              | inl (forwarded, b) ↦
                  let (from_real, from_forwarded, one) =
                    forwarded_headers_agree r h x resolved real forwarded a b in
                  elim one [
                    | inl left ↦
                        let (v, present) = named real left in
                        parse_forwarded_address-IsCanonical n v x (from_real v present)
                    | inr right ↦
                        let (v, present) = named forwarded right in
                        parse_forwarded_for_addresses-IsCanonical n r v x (from_forwarded v present)
                  ]
            ]
      ]

  from_peer-IsCanonical :
      (r : ClientIpResolver n) (mode : ClientIpMode) (peer x : Addr) (h : Header)
      → IsCanonical n peer
      → resolve_from_peer n r mode peer h ≡ ok x
      → IsCanonical n x
  unfolding resolve_from_peer
  from_peer-IsCanonical r direct peer x h c e = let same : peer ≡ x = cc in rw same at c
  from_peer-IsCanonical r trusted_proxy peer x h c e =
      elim (Bool-cases (is_trusted_proxy n r.trusted_proxy_prefixes peer)) [
        | inr stranger ↦ let wrong : error untrusted_peer ≡ ok x = rw stranger at e in cc
        | inl trusted ↦ resolve_forwarded-IsCanonical r h x (rw trusted at e)
      ]

  -- An address that the resolver gives, in either mode and whatever the headers, is a valid one
  -- without a zone, unmapped.
  pub resolve_address-IsCanonical :
      (resolver : Option (ClientIpResolver n)) (request : Option Request) (x : Addr)
      → resolve_address n resolver request ≡ ok x
      → IsCanonical n x
  unfolding resolve_address
  resolve_address-IsCanonical resolver none x h = cc
  resolve_address-IsCanonical none (some request) x h =
      parse_remote_address-IsCanonical n request.remote_addr x h
  resolve_address-IsCanonical (some r) (some request) x h =
      elim (Result-cases (parse_remote_address n request.remote_addr)) [
        | inr (e, bad) ↦ let wrong : error e ≡ ok x = rw bad at h in cc
        | inl (peer, parsed) ↦
            from_peer-IsCanonical r r.mode peer x request.header
              (parse_remote_address-IsCanonical n request.remote_addr peer parsed) (rw parsed at h)
      ]
