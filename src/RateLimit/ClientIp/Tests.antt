-- ===== src/RateLimit/ClientIp/Tests.antt =====
-- The client address resolver on concrete inputs: an address is one byte.
use grok_search_mcp.Base.{
  ℕ, ◌≡◌, refl, ◌≢◌, ◌⊎◌, inr, Bool, true, false, ◌&&◌, Option, none, some, [], ◌∷◌, eqb,
}
use grok_search_mcp.Base.Every.{Every}
use grok_search_mcp.Base.Int.{pos, positive_or}
use grok_search_mcp.Base.Keys.{nat_key}
use grok_search_mcp.Base.Results.{ok}
use grok_search_mcp.RateLimit.ClientIp.{
  Bytes, Header, Request, Netip, direct, trusted_proxy, ClientIpResolver, new_client_ip_resolver,
  resolve_address, resolve_forwarded, real_ip_name, forwarded_for_name, read_header_values,
  parse_remote_address, parse_forwarded_address, parse_forwarded_for_addresses, parse_forms,
  parse_hops, canonical, cut_hop, is_trusted_proxy, first_forwarded_address, real_ip_address,
  choose_address, resolve_from_peer, first_or,
}
use grok_search_mcp.RateLimit.ClientIp.Headers.{
  matching, single_value, read_header_values_exact, forwarded_spec, split_hops,
  parse_forwarded_for_addresses_exact,
}
use grok_search_mcp.RateLimit.ClientIp.Canonical.{IsCanonical}
use grok_search_mcp.RateLimit.ClientIp.Identity.{
  Names, forwarding_needs_trust, forwarded_headers_agree, resolve_address-IsCanonical,
}

abbrev same_bytes : Bytes → Bytes → Bool
same_bytes [] [] = true
same_bytes [] (b ∷ bs) = false
same_bytes (a ∷ as') [] = false
same_bytes (a ∷ as') (b ∷ bs) = eqb a b && same_bytes as' bs

abbrev one_byte : Bytes → Option ℕ
one_byte [] = none
one_byte (b ∷ []) = some b
one_byte (b ∷ c ∷ bs) = none

abbrev pub bytes_netip : Netip
bytes_netip = record {
  Addr = ℕ;
  Prefix = ℕ;
  addr_eq = nat_key;
  parse_addr = one_byte;
  parse_addr_port = λ text. none;
  is_valid = λ a. true;
  zone = λ a. [];
  unmap = λ a. a;
  contains = λ p a. eqb p a;
  trim_space = λ text. text;
  equal_fold = same_bytes;
}

-- The proxy 7 is trusted.
abbrev pub behind_proxy : ClientIpResolver bytes_netip
behind_proxy = new_client_ip_resolver bytes_netip (record {
  mode = trusted_proxy;
  trusted_proxy_prefixes = 7 ∷ [];
  maximum_real_ip_header_bytes = pos 0;
  maximum_forwarded_for_header_bytes = pos 0;
  maximum_forwarded_hops = pos 2;
})

-- X-Forwarded-For: 5,9 and X-Real-IP: 5
abbrev forwarded_header : Header
forwarded_header = (forwarded_for_name, (5 ∷ 44 ∷ 9 ∷ []) ∷ []) ∷ (real_ip_name, (5 ∷ []) ∷ []) ∷ []

abbrev pub proxied : Request
proxied = record { remote_addr = 7 ∷ []; header = forwarded_header }

proxied_address : resolve_address bytes_netip (some behind_proxy) (some proxied) ≡ ok 5
unfolding new_client_ip_resolver resolve_address resolve_from_peer resolve_forwarded
    parse_remote_address canonical is_trusted_proxy read_header_values real_ip_address
    first_forwarded_address parse_forwarded_for_addresses parse_hops cut_hop choose_address
    parse_forwarded_address parse_forms first_or positive_or
proxied_address = refl

resolve_address-IsCanonical_example : IsCanonical bytes_netip 5
resolve_address-IsCanonical_example =
    resolve_address-IsCanonical bytes_netip (some behind_proxy) (some proxied) 5 proxied_address

-- The peer 8 is no proxy: its headers are not read.
stranger_untrusted :
    (peer : ℕ)
    → parse_remote_address bytes_netip (8 ∷ []) ≡ ok peer
    → (behind_proxy.mode ≡ direct)
      ⊎ Every (λ p. bytes_netip.contains p peer ≡ false) behind_proxy.trusted_proxy_prefixes
unfolding new_client_ip_resolver parse_remote_address canonical
stranger_untrusted peer h = let same : 8 ≡ peer = cc in rw (← same) (inr (refl, tt))

forwarding_needs_trust_example :
    resolve_address bytes_netip
      (some behind_proxy)
      (some (record { remote_addr = 8 ∷ []; header = forwarded_header }))
    ≡ resolve_address bytes_netip
        (some behind_proxy)
        (some (record { remote_addr = 8 ∷ []; header = [] }))
forwarding_needs_trust_example =
    forwarding_needs_trust bytes_netip behind_proxy (8 ∷ []) forwarded_header [] stranger_untrusted

forwarded_headers_agree_example :
    Names bytes_netip (some (5 ∷ [])) (λ v. parse_forwarded_address bytes_netip v ≡ ok 5)
    × Names bytes_netip (some (5 ∷ 44 ∷ 9 ∷ [])) (λ v.
      parse_forwarded_for_addresses bytes_netip v behind_proxy.maximum_forwarded_hops ≡ ok 5)
    × (◌≢◌ {A = Option Bytes} (some (5 ∷ [])) none
        ⊎ ◌≢◌ {A = Option Bytes} (some (5 ∷ 44 ∷ 9 ∷ [])) none)
unfolding resolve_forwarded read_header_values real_ip_address first_forwarded_address
    parse_forwarded_for_addresses parse_hops cut_hop choose_address parse_forwarded_address
    parse_forms canonical first_or new_client_ip_resolver positive_or
forwarded_headers_agree_example =
    forwarded_headers_agree bytes_netip behind_proxy forwarded_header 5 refl (some (5 ∷ []))
      (some (5 ∷ 44 ∷ 9 ∷ [])) refl refl

read_header_values_exact_example :
    read_header_values same_bytes forwarded_header real_ip_name none
    ≡ single_value (matching same_bytes forwarded_header real_ip_name)
read_header_values_exact_example = read_header_values_exact same_bytes forwarded_header real_ip_name

parse_forwarded_for_addresses_exact_example :
    parse_forwarded_for_addresses bytes_netip (5 ∷ 44 ∷ 9 ∷ []) 2
    ≡ forwarded_spec bytes_netip 2 none (split_hops (5 ∷ 44 ∷ 9 ∷ []))
parse_forwarded_for_addresses_exact_example =
    parse_forwarded_for_addresses_exact bytes_netip (5 ∷ 44 ∷ 9 ∷ []) 2
