-- ===== src/GatewayFetch.antt =====
-- client/src/main/gatewayFetch.ts: which way a request to a URL takes. The URL parser of the
-- runtime (`new URL`) is the argument `parse_url`; what `fetch` and node's `http` do with the
-- request is outside the model.
pub mod Routing
pub mod Examples
use umbra_gateway.Prelude.{ℕ, String, List, Option, none, some, Bool, false, get_or, if◌then◌else◌}
use umbra_gateway.Prelude.Text.{append, ends_with, show_ℕ, ◌===◌, truthy}

-- The fields of a parsed URL that the module reads.
pub record Url : Type 0 where
  pub protocol : String
  pub hostname : String
  pub port : String
  pub pathname : String
  pub search : String

pub record RequestInit : Type 0 where
  pub method : Option String
  pub headers : List (String × String)
  pub body : Option String

-- The request that goes to the agent of the Tor proxy.
pub record SocksRequest : Type 0 where
  pub agent : String
  pub is_https : Bool
  pub hostname : String
  pub port : String
  pub path : String
  pub method : String
  pub headers : List (String × String)
  pub body : Option String

pub data Route : Type 0 where
  clearnet : String → RequestInit → Route
  via_socks : SocksRequest → Route
  fails : Route

abbrev pub default_socks_port : ℕ
default_socks_port = 9050

unfoldable pub socks_url : ℕ → String
socks_url port = append "socks5h://127.0.0.1:" (show_ℕ port)

module _ (parse_url : String → Option Url) where
  unfoldable pub is_onion_url : String → Bool
  is_onion_url url = elim (parse_url url) [ none ↦ false | some u ↦ ends_with u.hostname ".onion" ]

  -- `requestViaSocks`, up to the request that it makes
  unfoldable pub request_via_socks : ℕ → String → RequestInit → Route
  request_via_socks socks_port url init = elim (parse_url url) [
    | none ↦ fails
    | some u ↦
        let is_https = u.protocol === "https:" in
        via_socks (record {
          agent = socks_url socks_port;
          is_https = is_https;
          hostname = u.hostname;
          port = get_or (truthy (some u.port)) (if is_https then "443" else "80");
          path = append u.pathname u.search;
          method = get_or init.method "GET";
          headers = init.headers;
          body = init.body;
        })
  ]

  unfoldable pub gateway_fetch : ℕ → String → RequestInit → Route
  gateway_fetch socks_port url init =
      if is_onion_url url then request_via_socks socks_port url init else clearnet url init
