-- ===== src/Resources/Runtime.antt =====
-- What packages/resources calls of the JavaScript runtime and does not implement: regular
-- expressions, lower case, and the web's URL, Base64 and UTF-8 functions.
use deliberum.Prelude.{ℕ, String, Option, List, Bool}

-- The parts of a parsed `URL` that the planner reads.
pub record Url : Type 0 where
  pub protocol : String
  pub username : String
  pub password : String
  pub hostname : String
  pub pathname : String
  pub search_params : List (String × String)
  pub href : String

-- A function that may throw gives none where it does.
pub record Runtime : Type 0 where
  pub parse_url : String → Option Url
  pub decode_uri_component : String → Option String
  -- `pattern.test(value)`, the pattern as the source writes it
  pub matches : String → String → Bool
  pub to_lower_case : String → String
  -- `atob` and `btoa`, the binary text as the codes of its characters
  pub atob : String → Option (List ℕ)
  pub btoa : List ℕ → String
  -- `TextDecoder` with `fatal` and `TextEncoder`
  pub decode_utf8 : List ℕ → Option String
  pub encode_utf8 : String → List ℕ
