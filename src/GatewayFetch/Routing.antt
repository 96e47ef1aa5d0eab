-- ===== src/GatewayFetch/Routing.antt =====
-- client/src/main/gatewayFetch.ts: no request to an onion host takes the clear network.
use umbra_gateway.Prelude.{
  ℕ, String, Option, some, true, false, ◌≡◌, ◌⊎◌, refl, Bool-cases, Option-cases, inl, inr, get_or,
  if◌then◌else◌,
}
use umbra_gateway.Prelude.Text.{append, ends_with, ◌===◌, truthy}
use umbra_gateway.GatewayFetch.{
  Url, RequestInit, SocksRequest, clearnet, via_socks, socks_url, is_onion_url, request_via_socks,
  gateway_fetch,
}

module _ (parse_url : String → Option Url) (socks_port : ℕ) (url : String)
    (init : RequestInit) where
  -- The request goes through the proxy on the configured port, for the URL's host and path.
  pub record Tunnelled (u : Url) : Type 0 where
    pub request : SocksRequest
    pub routed : gateway_fetch parse_url socks_port url init ≡ via_socks request
    pub agent : request.agent ≡ socks_url socks_port
    pub hostname : request.hostname ≡ u.hostname
    pub path : request.path ≡ append u.pathname u.search
    pub body : request.body ≡ init.body

  pub onion_request :
      (u : Url) → parse_url url ≡ some u → ends_with u.hostname ".onion" ≡ true → Tunnelled u
  unfolding gateway_fetch is_onion_url request_via_socks
  onion_request u good onion = record {
    request = record {
      agent = socks_url socks_port;
      is_https = u.protocol === "https:";
      hostname = u.hostname;
      port = get_or (truthy (some u.port)) (if u.protocol === "https:" then "443" else "80");
      path = append u.pathname u.search;
      method = get_or init.method "GET";
      headers = init.headers;
      body = init.body;
    };
    routed = rw (good, is_onion_url) (rw onion (rw (good, request_via_socks) refl));
    agent = refl;
    hostname = refl;
    path = refl;
    body = refl;
  }

  -- the cases of the code's own test
  pub route-cases :
      ((u : Url) × (parse_url url ≡ some u) × (ends_with u.hostname ".onion" ≡ true) × Tunnelled u)
      ⊎ ((is_onion_url parse_url url ≡ false)
          × (gateway_fetch parse_url socks_port url init ≡ clearnet url init))
  unfolding is_onion_url gateway_fetch
  route-cases = elim (Option-cases (parse_url url)) [
    | inl bad ↦ inr (rw (bad, is_onion_url) refl, rw (bad, gateway_fetch, is_onion_url) refl)
    | inr (u, good) ↦ elim (Bool-cases (ends_with u.hostname ".onion")) [
      | inl onion ↦ inl (u, good, onion, onion_request u good onion)
      | inr other ↦
          inr
            (rw (good, is_onion_url) other, rw (good, gateway_fetch, is_onion_url) (rw other refl))
    ]
  ]

  other_host :
      (u : Url)
      → is_onion_url parse_url url ≡ false
      → parse_url url ≡ some u
      → ends_with u.hostname ".onion" ≡ false
  unfolding is_onion_url
  other_host u e good = rw (good, is_onion_url) at e

  -- A request goes to the Tor proxy exactly if the URL parses to a host that ends in `.onion`. It
  -- then goes through the proxy on the configured port, which also resolves the host's name, to
  -- that host and to the URL's own path. If the URL does not parse, or parses to a host that does not
  -- end so, it goes to the plain `fetch`; no call fails before a request is made.
  pub onion_routing :
      ((u : Url) × (parse_url url ≡ some u) × (ends_with u.hostname ".onion" ≡ true) × Tunnelled u)
      ⊎ (((u : Url) → parse_url url ≡ some u → ends_with u.hostname ".onion" ≡ false)
          × (gateway_fetch parse_url socks_port url init ≡ clearnet url init))
  onion_routing = elim route-cases [
    | inl onion ↦ inl onion
    | inr (test, direct) ↦ inr ((λ u good. other_host u test good), direct)
  ]
