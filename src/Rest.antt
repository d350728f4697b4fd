-- ===== src/Rest.antt =====
-- binance_order_client/rest_client.hpp and rest_client.cpp (the files of the same name in rest_client,
-- binance_spot_client and binance_order_execution_module/networking repeat them): the values of the
-- HTTP client; `RestSession` is in the children.
pub mod Session
use exchange_connectivity.Base.{ℕ, List, Fallible}
use exchange_connectivity.Base.Text.{Bytes}

pub data RestError : Type 0 where
  resolve_failed connect_failed tls_handshake_failed write_failed read_failed : RestError
  timeout invalid_request http_status invalid_response : RestError

pub record RestFailure : Type 0 where
  pub error : RestError
  pub message : Bytes

-- The methods that the callers use.
pub data Verb : Type 0 where
  get post delete : Verb

pub record HttpRequest : Type 0 where
  pub host : Bytes
  pub port : Bytes
  pub target : Bytes
  pub method : Verb
  pub headers : List (Bytes × Bytes)
  pub body : Bytes

pub record HttpResponse : Type 0 where
  pub status : ℕ
  pub headers : List (Bytes × Bytes)
  pub body : Bytes

abbrev pub Response : Type 0
Response = Fallible RestFailure HttpResponse
