-- ===== src/Http.antt =====
-- net/http and net/url of the standard library: the parts of requests, responses and URLs that the
-- gateway reads. url.Parse is a parameter of the code that calls it.
use ecommerce_gateway.Common.{ℕ, Text, Header, Option}

pub record Request : Type 0 where
  pub method : Text
  pub host : Text
  pub path : Text
  pub header : Header
  pub remote_addr : Text
  pub body : Text

pub record Response : Type 0 where
  pub status_code : ℕ
  pub header : Header
  pub trailer : Header
  pub body : Text

-- url.URL; the value of isSecure in the query is a field of its own.
pub record Url : Type 0 where
  pub scheme : Text
  pub host : Text
  pub path : Text
  pub is_secure_value : Text

-- url.Parse; `none` is its error.
abbrev pub Parse : Type 0
Parse = Text → Option Url
