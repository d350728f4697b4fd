-- ===== src/Failure.antt =====
-- The exceptions that binance_connector/binance/parser.cpp throws, one constructor for each text.
use exchange_connectivity.Base.{◌++◌}
use exchange_connectivity.Base.Text.{Bytes, codes}

-- `std::invalid_argument` and `std::out_of_range` by their messages, and what `json::parse` throws.
pub data Exception : Type 0 where
  missing_field : Bytes → Exception
  not_unsigned not_string not_array not_object not_bool : Exception
  empty_decimal invalid_decimal invalid_digit out_of_range excessive_precision : Exception
  invalid_level : Exception
  malformed_json : Bytes → Exception

-- `exception.what()`.
pub what : Exception → Bytes
what (missing_field key) = codes "Missing JSON field: " ++ key
what not_unsigned = codes "Expected a non-negative integer"
what not_string = codes "Expected a JSON string"
what not_array = codes "Expected an array of order book levels"
what not_object = codes "Expected a JSON object"
what not_bool = codes "Expected a boolean for field: m"
what empty_decimal = codes "Empty decimal value"
what invalid_decimal = codes "Invalid decimal value"
what invalid_digit = codes "Invalid decimal digit"
what out_of_range = codes "Decimal value is out of range"
what excessive_precision = codes "Decimal value has excessive precision"
what invalid_level = codes "Invalid order book level"
what (malformed_json text) = text
