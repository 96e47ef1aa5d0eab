-- ===== src/Panels/Tokens.antt =====
-- client/src/renderer/tokens.ts: the tokens that the wallet shows.
use umbra_gateway.Prelude.{ℕ, String, List, [], ◌∷◌, Option, none, some}

-- `address` is `none` for native ETH.
pub record Token : Type 0 where
  pub symbol : String
  pub name : String
  pub decimals : ℕ
  pub address : Option String
  pub logo_char : String
  pub logo_bg : String

-- TOKENS
abbrev pub tokens : List Token
tokens =
    record {
      symbol = "ETH";
      name = "Ether";
      decimals = 18;
      address = none;
      logo_char = "Ξ";
      logo_bg = "bg-blue-500";
    }
    ∷ record {
      symbol = "USDC";
      name = "USD Coin";
      decimals = 6;
      address = some "0x036CbD53842c5426634e7929541eC2318f3dCF7e";
      logo_char = "$";
      logo_bg = "bg-emerald-500";
    }
    ∷ []
