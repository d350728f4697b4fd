-- ===== src/Json.antt =====
-- The JSON libraries that the parsers call (boost::json and simdjson), which are no part of this
-- repository: a document type and the operations that the code uses, as a parameter.
use exchange_connectivity.Base.{ℕ, Bool, List, Option, Fallible}
use exchange_connectivity.Base.Int.{ℤ}
use exchange_connectivity.Base.Text.{Bytes}

pub record Json : Type 1 where
  pub Value : Type 0
  -- `json::parse`; the error is the text of the exception, or of the error code.
  pub parse : Bytes → Fallible Bytes Value
  pub is_object : Value → Bool
  -- `object.if_contains(key)`, or `element[key]`.
  pub member : Value → Bytes → Option Value
  -- The content where the value is of that kind: `is_uint64()` with `as_uint64()`, or `get_uint64()`.
  pub as_uint64 : Value → Option ℕ
  pub as_int64 : Value → Option ℤ
  pub as_string : Value → Option Bytes
  pub as_bool : Value → Option Bool
  pub as_array : Value → Option (List Value)
