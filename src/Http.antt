-- ===== src/Http.antt =====
-- What the HTTP sessions of src/mexc_http_spot_session.cpp and src/mexc_http_futures_session.cpp share:
-- the requests that they hand to Boost.Beast, and the parameters that stand for OpenSSL, the clock and
-- the network.
pub mod Query
pub mod Spot
pub mod Futures
pub mod Signing
pub mod Sample
mod Tests
use mexc_cpp_api.Base.{
  ℕ, List, [], ◌∷◌, ◌++◌, String, Option, some, none, Outcome, ok, throw, fault, if◌then◌else◌,
}
use mexc_cpp_api.Base.Text.{Text}
use mexc_cpp_api.Base.Int.{ℤ}
use text.Mathlib.Text.{◌==◌ as str_eq}

pub data Verb : Type 0 where
  get post put delete : Verb

-- A request as the code builds it: `headers` are the calls of `set`, the last call in front.
pub record Request : Type 0 where
  pub verb : Verb
  pub target : Text
  pub headers : List (String × Text)
  pub body : Text

pub record Response : Type 0 where
  pub status : ℤ
  pub body : Text

-- `req.set(name, value)`: it replaces what was set before under the name.
abbrev pub set_header : String → Text → Request → Request
set_header name value req = record req { headers = (name, value) ∷ req.headers }

abbrev pub header_in : String → List (String × Text) → Option Text
header_in name [] = none
header_in name ((n, v) ∷ hs) = if str_eq n name then some v else header_in name hs

abbrev pub header : String → Request → Option Text
header name req = header_in name req.headers

-- OpenSSL, and `stringToHex` of vk_cpp_common: the digests of a message.
pub record Crypto : Type 0 where
  -- The key, then the message.
  pub hmac_sha256 : Text → Text → Text
  pub md5 : Text → Text
  pub string_to_hex : Text → Text

-- The clock and the network, which change with every use.
pub record Environment : Type 1 where
  pub World : Type 0
  pub current_time_ms : World → ℕ × World
  pub sleep_for_ms : ℕ → World → World
  -- BOOST_BEAST_VERSION_STRING.
  pub version_string : Text
  -- The TLS connection to a host, the request and the response.
  pub exchange : Text → Request → World → Outcome Response × World
