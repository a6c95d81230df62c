-- ===== src/Config/Types.antt =====
-- The messages of api/gateway/config/v1/gateway.proto that the gateway reads.
use ecommerce_gateway.Common.{ℕ, ℤ, Bool, Option, List, Text, Map}
use ecommerce_gateway.Client.Node.{Protocol}

-- Condition, with the branch for a kind that is not known.
pub data RawCondition : Type 0 where
  by_status_code : Text → RawCondition
  by_header : Text → Text → RawCondition
  unknown_condition : RawCondition

-- Retry; a duration is a number of nanoseconds.
pub record RetryConfig : Type 0 where
  pub attempts : ℕ
  pub per_try_timeout : Option ℤ
  pub conditions : List RawCondition

pub record FilterRule : Type 0 where
  pub path : Text
  pub methods : List Text

-- Middleware; the bytes of its options are decoded by the middleware itself.
pub record MiddlewareConfig : Type 0 where
  pub name : Text
  pub required : Bool
  pub options : Option Text
  pub router_filter : Option (List FilterRule)

pub record Backend : Type 0 where
  pub target : Text
  pub weight : Option ℤ

pub record Endpoint : Type 0 where
  pub path : Text
  pub method : Text
  pub protocol : Protocol
  pub timeout : Option ℤ
  pub middlewares : List MiddlewareConfig
  pub backends : List Backend
  pub retry : Option RetryConfig
  pub metadata : Map Text
  pub host : Text

pub record Gateway : Type 0 where
  pub endpoints : List Endpoint
  pub middlewares : List MiddlewareConfig
  pub envs : Map Text
