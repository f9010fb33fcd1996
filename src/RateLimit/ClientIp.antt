-- ===== src/RateLimit/ClientIp.antt =====
-- internal/ratelimit/client_ip.go: the address that a request is charged to. Go strings are lists of
-- bytes. net/netip and the functions of package strings are a parameter.

pub mod Headers
pub mod Canonical
pub mod Identity
pub mod Tests
use grok_search_mcp.Base.{
  ℕ, zero, suc, ◌-◌, Bool, true, false, ◌&&◌, ◌||◌, not, Option, none, some, List, [], ◌∷◌, ltb,
  leb, eqb, if◌then◌else◌, length, take, drop,
}
use grok_search_mcp.Base.Int.{ℤ, positive_or}
use grok_search_mcp.Base.Keys.{MapKey}
use grok_search_mcp.Base.Results.{Result, ok, error, ◌>>=◌, ◌>>◌}

abbrev pub Bytes : Type 0
Bytes = List ℕ

pub record Netip : Type 1 where
  pub Addr : Type 0
  pub Prefix : Type 0
  pub addr_eq : MapKey Addr
  -- `netip.ParseAddr`, and `netip.ParseAddrPort` with its `Addr()`; `none` is an error.
  pub parse_addr : Bytes → Option Addr
  pub parse_addr_port : Bytes → Option Addr
  pub is_valid : Addr → Bool
  pub zone : Addr → Bytes
  pub unmap : Addr → Addr
  pub contains : Prefix → Addr → Bool
  -- `strings.TrimSpace` and `strings.EqualFold`
  pub trim_space : Bytes → Bytes
  pub equal_fold : Bytes → Bytes → Bool

-- The three errors of the package.
pub data ClientIpError : Type 0 where
  invalid_identity invalid_forwarded_headers untrusted_peer : ClientIpError

pub data ClientIpMode : Type 0 where
  direct trusted_proxy : ClientIpMode

-- `http.Header`: a map from names to their values.
abbrev pub Header : Type 0
Header = List (Bytes × List Bytes)

pub record Request : Type 0 where
  pub remote_addr : Bytes
  pub header : Header

-- "X-Real-IP" and "X-Forwarded-For"
abbrev pub real_ip_name : Bytes
real_ip_name = 88 ∷ 45 ∷ 82 ∷ 101 ∷ 97 ∷ 108 ∷ 45 ∷ 73 ∷ 80 ∷ []

abbrev pub forwarded_for_name : Bytes
forwarded_for_name =
    88 ∷ 45 ∷ 70 ∷ 111 ∷ 114 ∷ 119 ∷ 97 ∷ 114 ∷ 100 ∷ 101 ∷ 100 ∷ 45 ∷ 70 ∷ 111 ∷ 114 ∷ []

abbrev pub comma : ℕ
comma = 44

abbrev pub is_empty : Bytes → Bool
is_empty [] = true
is_empty (b ∷ bs) = false

-- The bytes before the first comma, and those after it where there is one: `strings.IndexByte` and
-- the two slices.
unfoldable pub cut_hop : Bytes → Bytes × Option Bytes
cut_hop [] = ([], none)
cut_hop (b ∷ bs) =
    let (hop, rest) = cut_hop bs in if eqb b comma then ([], some bs) else (b ∷ hop, rest)

-- `strings.HasPrefix(text, "[")` and `strings.HasSuffix(text, "]")`
unfoldable pub has_bracket : Bytes → Bool
has_bracket [] = false
has_bracket (b ∷ bs) = eqb b 91

unfoldable pub ends_with_bracket : Bytes → Bool
ends_with_bracket [] = false
ends_with_bracket (b ∷ bs) = if is_empty bs then eqb b 93 else ends_with_bracket bs

-- `readSingleHeaderValue`, from the loop's `found` and `value`: the value of the header, if it is
-- there.
unfoldable pub read_header_values :
    (Bytes → Bytes → Bool) → Header → Bytes → Option Bytes → Result ClientIpError (Option Bytes)
read_header_values equal_fold [] target found = ok found
read_header_values equal_fold ((name, values) ∷ rest) target found =
    if not (equal_fold name target)
    then read_header_values equal_fold rest target found
    else elim found [
      | some v ↦ error invalid_forwarded_headers
      | none ↦ elim values [
        | [] ↦ error invalid_forwarded_headers
        | v ∷ more ↦
            if eqb (length more) 0
            then read_header_values equal_fold rest target (some v)
            else error invalid_forwarded_headers
      ]
    ]

-- The second parser runs where the first has failed.
abbrev pub or_else : {A : Type 0} → Option A → Option A → Option A
or_else (some a) b = some a
or_else none b = b

module _ (n : Netip) where
  open n use {Addr, Prefix, parse_addr, parse_addr_port, is_valid, zone, unmap, trim_space}

  pub record ClientIpResolverConfig : Type 0 where
    pub mode : ClientIpMode
    pub trusted_proxy_prefixes : List Prefix
    pub maximum_real_ip_header_bytes : ℤ
    pub maximum_forwarded_for_header_bytes : ℤ
    pub maximum_forwarded_hops : ℤ

  pub record ClientIpResolver : Type 0 where
    pub mode : ClientIpMode
    pub trusted_proxy_prefixes : List Prefix
    pub maximum_real_ip_header_bytes : ℕ
    pub maximum_forwarded_for_header_bytes : ℕ
    pub maximum_forwarded_hops : ℕ

  -- `NewClientIPResolverWithConfig`
  unfoldable pub new_client_ip_resolver : ClientIpResolverConfig → ClientIpResolver
  new_client_ip_resolver c = record {
    mode = c.mode;
    trusted_proxy_prefixes = c.trusted_proxy_prefixes;
    maximum_real_ip_header_bytes = positive_or c.maximum_real_ip_header_bytes 64;
    maximum_forwarded_for_header_bytes = positive_or c.maximum_forwarded_for_header_bytes 512;
    maximum_forwarded_hops = positive_or c.maximum_forwarded_hops 16;
  }

  unfoldable pub is_trusted_proxy : List Prefix → Addr → Bool
  is_trusted_proxy [] a = false
  is_trusted_proxy (p ∷ ps) a = n.contains p a || is_trusted_proxy ps a

  -- The test of all parsers: a valid address without a zone, unmapped.
  unfoldable pub canonical : ClientIpError → Option Addr → Result ClientIpError Addr
  canonical e none = error e
  canonical e (some a) =
      if not (is_valid a) || not (is_empty (zone a)) then error e else ok (unmap a)

  -- `parseRemoteAddress`
  unfoldable pub parse_remote_address : Bytes → Result ClientIpError Addr
  parse_remote_address remote_address =
      let text = trim_space remote_address in
      if is_empty text
      then error invalid_identity
      else canonical invalid_identity (or_else (parse_addr_port text) (parse_addr text))

  -- The three forms in which `parseForwardedAddress` accepts an address.
  unfoldable pub parse_forms : Bytes → Option Addr
  parse_forms text =
      let unbracketed =
        if has_bracket text && ends_with_bracket text
        then parse_addr (take (length text - 2) (drop 1 text))
        else none in
      or_else (parse_addr text) (or_else (parse_addr_port text) unbracketed)

  -- `parseForwardedAddress`
  unfoldable pub parse_forwarded_address : Bytes → Result ClientIpError Addr
  parse_forwarded_address raw =
      let text = trim_space raw in
      if is_empty text
      then error invalid_forwarded_headers
      else canonical invalid_forwarded_headers (parse_forms text)

  unfoldable pub first_or : Addr → Option Addr → Addr
  first_or address none = address
  first_or address (some a) = a

  -- `parseForwardedForAddresses`, with the hops that are left and the first address once it is known.
  unfoldable pub parse_hops : ℕ → Option Addr → Bytes → Result ClientIpError Addr
  parse_hops zero first value = error invalid_forwarded_headers
  parse_hops (suc hops) first value = do
    address ← parse_forwarded_address (cut_hop value).0
    let chosen = first_or address first
    elim (cut_hop value).1 [ none ↦ ok chosen | some rest ↦ parse_hops hops (some chosen) rest ]

  unfoldable pub parse_forwarded_for_addresses : Bytes → ℕ → Result ClientIpError Addr
  parse_forwarded_for_addresses value maximum_hops = parse_hops maximum_hops none value

  -- A header's address: `none` where the header is missing.
  unfoldable pub real_ip_address :
      ClientIpResolver → Option Bytes → Result ClientIpError (Option Addr)
  real_ip_address r none = ok none
  real_ip_address r (some value) =
      if ltb r.maximum_real_ip_header_bytes (length value)
      then error invalid_forwarded_headers
      else do a ← parse_forwarded_address value; ok (some a)

  unfoldable pub first_forwarded_address :
      ClientIpResolver → Option Bytes → Result ClientIpError (Option Addr)
  first_forwarded_address r none = ok none
  first_forwarded_address r (some value) =
      if ltb r.maximum_forwarded_for_header_bytes (length value)
      then error invalid_forwarded_headers
      else do a ← parse_forwarded_for_addresses value r.maximum_forwarded_hops; ok (some a)

  -- The choice between the two headers. Where both are missing, the two steps before it do nothing.
  unfoldable pub choose_address : Option Addr → Option Addr → Result ClientIpError Addr
  choose_address none none = error invalid_forwarded_headers
  choose_address none (some b) = ok b
  choose_address (some a) none = ok a
  choose_address (some a) (some b) =
      if n.addr_eq.equal a b then ok a else error invalid_forwarded_headers

  -- `ResolveAddress` behind the check of the immediate peer.
  unfoldable pub resolve_forwarded : ClientIpResolver → Header → Result ClientIpError Addr
  resolve_forwarded r h = do
    real_ip ← read_header_values n.equal_fold h real_ip_name none
    forwarded_for ← read_header_values n.equal_fold h forwarded_for_name none
    real ← real_ip_address r real_ip
    forwarded ← first_forwarded_address r forwarded_for
    choose_address real forwarded

  -- `ResolveAddress` once the immediate peer is known.
  unfoldable pub resolve_from_peer :
      ClientIpResolver → ClientIpMode → Addr → Header → Result ClientIpError Addr
  resolve_from_peer r direct peer h = ok peer
  resolve_from_peer r trusted_proxy peer h =
      if not (is_trusted_proxy r.trusted_proxy_prefixes peer)
      then error untrusted_peer
      else resolve_forwarded r h

  -- `ResolveAddress`; a request or a resolver that is nil is `none`.
  unfoldable pub resolve_address :
      Option ClientIpResolver → Option Request → Result ClientIpError Addr
  resolve_address resolver none = error invalid_identity
  resolve_address none (some request) = parse_remote_address request.remote_addr
  resolve_address (some r) (some request) = do
    peer ← parse_remote_address request.remote_addr
    resolve_from_peer r r.mode peer request.header
