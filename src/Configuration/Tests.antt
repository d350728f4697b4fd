-- ===== src/Configuration/Tests.antt =====
-- Values from the environment, and a document with one connector.
use exchange_connectivity.Base.{◌≡◌, refl, List, [], ◌∷◌, Option, some, ok, ◌>>=◌}
use exchange_connectivity.Base.Int.{pos}
use exchange_connectivity.Base.Text.{Bytes, codes}
use exchange_connectivity.Configuration.{
  Document, Connector, connector, resolve_environment_variable, parse_file,
}
use exchange_connectivity.Configuration.Sound.{member, parsed_member, parse_file_finds}

abbrev environment : Bytes → Option Bytes
environment name = some (codes "k")

from_environment : resolve_environment_variable environment (codes "${KEY}") ≡ codes "k"
unfolding resolve_environment_variable
from_environment = refl

as_it_stands : resolve_environment_variable environment (codes "$KEY") ≡ codes "$KEY"
unfolding resolve_environment_variable
as_it_stands = refl

-- A document of one value, which every member is.
abbrev document : Document
document = record {
  Value = Unit {0};
  parse = λ (s : Bytes). ok tt;
  at = λ (v : Unit {0}) (key : Bytes). ok tt;
  get_string = λ (v : Unit {0}). ok (codes "x");
  get_uint16 = λ (v : Unit {0}). ok 443;
  get_int = λ (v : Unit {0}). ok (pos 1);
  get_strings = λ (v : Unit {0}). ok [];
  items = λ (v : Unit {0}). ok ((codes "binance", tt) ∷ []);
}

abbrev only : Connector
only = record {
  kind = codes "x";
  market_data = record {
    transport = codes "x";
    endpoint = record { host = codes "x"; port = 443 };
    channels = [];
  };
  order_entry = record {
    transport = codes "x";
    endpoint = record { host = codes "x"; port = 443 };
  };
  credentials = record { api_key = codes "x"; secret = codes "x" };
  instruments = [];
}

accepted_file :
    parse_file environment document (codes "f") (some (codes "{}"))
    ≡ ok ((codes "binance", only) ∷ [])
unfolding parse_file
accepted_file = refl

parse_file_finds_example :
    (json : Unit {0}) × (items : List (Bytes × Unit {0})) × (document.parse (codes "{}") ≡ ok json)
    × ((document.at json (codes "version") >>= document.get_int) ≡ ok (pos 1))
    × ((document.at json (codes "connectors") >>= document.items) ≡ ok items)
    × (connector ((codes "binance", only) ∷ []) (codes "binance")
        ≡ parsed_member document environment (member document items (codes "binance")))
parse_file_finds_example =
    parse_file_finds document environment (codes "f") (codes "{}") (codes "binance")
      ((codes "binance", only) ∷ []) accepted_file
