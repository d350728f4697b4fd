-- ===== src/Configuration.antt =====
-- configuration/configuration.hpp and configuration_parser.cpp. The JSON library (nlohmann) and `std::getenv` are
-- parameters; an exception of the library is its text. What is written to the error stream is left out.
pub mod Sound
pub mod Tests
use exchange_connectivity.Base.{
  ℕ, ◌+◌, ◌-◌, Bool, true, false, ◌||◌, not, List, [], ◌∷◌, ◌++◌, Option, none, some, Fallible, ok,
  err, ◌>>=◌, ◌>>◌, guard, map_err, length, take, drop, ◌==◌, if◌then◌else◌,
}
use exchange_connectivity.Base.Int.{ℤ, pos, eqb_ℤ}
use exchange_connectivity.Base.Text.{Bytes, codes, beq, starts_with}

pub record Document : Type 1 where
  pub Value : Type 0
  pub parse : Bytes → Fallible Bytes Value
  pub at : Value → Bytes → Fallible Bytes Value
  pub get_string : Value → Fallible Bytes Bytes
  pub get_uint16 : Value → Fallible Bytes ℕ
  pub get_int : Value → Fallible Bytes ℤ
  pub get_strings : Value → Fallible Bytes (List Bytes)
  pub items : Value → Fallible Bytes (List (Bytes × Value))

pub record Endpoint : Type 0 where
  pub host : Bytes
  pub port : ℕ

pub record Credentials : Type 0 where
  pub api_key : Bytes
  pub secret : Bytes

pub record MarketData : Type 0 where
  pub transport : Bytes
  pub endpoint : Endpoint
  pub channels : List Bytes

pub record OrderEntry : Type 0 where
  pub transport : Bytes
  pub endpoint : Endpoint

pub record Connector : Type 0 where
  pub kind : Bytes
  pub market_data : MarketData
  pub order_entry : OrderEntry
  pub credentials : Credentials
  pub instruments : List Bytes

-- `Connectors`, without the order of an `unordered_map`.
abbrev pub Configuration : Type 0
Configuration = List (Bytes × Connector)

-- `connectors_.at(name)`, and nothing where it throws.
pub connector : Configuration → Bytes → Option Connector
connector [] name = none
connector ((key, value) ∷ others) name = if beq key name then some value else connector others name

-- `connectors_.emplace`, which keeps a connector that is there.
abbrev pub emplace : Bytes → Connector → Configuration → Configuration
emplace name value [] = (name, value) ∷ []
emplace name value ((key, old) ∷ others) =
    if beq key name then (key, old) ∷ others else (key, old) ∷ emplace name value others

pub ends_with : ℕ → Bytes → Bool
ends_with c [] = false
ends_with c (d ∷ []) = d == c
ends_with c (d ∷ e ∷ s) = ends_with c (e ∷ s)

abbrev or_empty : Option Bytes → Bytes
or_empty none = []
or_empty (some value) = value

module _ (getenv : Bytes → Option Bytes) where
  unfoldable pub resolve_environment_variable : Bytes → Bytes
  unfolding ends_with
  resolve_environment_variable value =
      if not (starts_with (codes "${") value) || not (ends_with b'}' value)
      then value
      else or_empty (getenv (take (length value - 3) (drop 2 value)))

  module _ (J : Document) where
    abbrev string_at : J.Value → Bytes → Fallible Bytes Bytes
    string_at json key = J.at json key >>= J.get_string

    pub parse_endpoint : J.Value → Fallible Bytes Endpoint
    parse_endpoint json = do
      host ← string_at json (codes "host")
      port ← J.at json (codes "port") >>= J.get_uint16
      ok (record { host = host; port = port })

    pub parse_credentials : J.Value → Fallible Bytes Credentials
    unfolding resolve_environment_variable
    parse_credentials json = do
      api_key ← string_at json (codes "apiKey")
      secret ← string_at json (codes "secret")
      ok (record {
        api_key = resolve_environment_variable api_key;
        secret = resolve_environment_variable secret;
      })

    pub parse_market_data : J.Value → Fallible Bytes MarketData
    unfolding parse_endpoint
    parse_market_data json = do
      transport ← string_at json (codes "transport")
      endpoint ← parse_endpoint json
      channels ← J.at json (codes "channels") >>= J.get_strings
      ok (record { transport = transport; endpoint = endpoint; channels = channels })

    pub parse_order_entry : J.Value → Fallible Bytes OrderEntry
    unfolding parse_endpoint
    parse_order_entry json = do
      transport ← string_at json (codes "transport")
      endpoint ← parse_endpoint json
      ok (record { transport = transport; endpoint = endpoint })

    pub parse_connector : J.Value → Fallible Bytes Connector
    unfolding parse_market_data parse_order_entry parse_credentials
    parse_connector json = do
      kind ← string_at json (codes "type")
      market_data ← J.at json (codes "marketData") >>= parse_market_data
      order_entry ← J.at json (codes "orderEntry") >>= parse_order_entry
      credentials ← J.at json (codes "credentials") >>= parse_credentials
      instruments ← J.at json (codes "instruments") >>= J.get_strings
      ok (record {
        kind = kind;
        market_data = market_data;
        order_entry = order_entry;
        credentials = credentials;
        instruments = instruments;
      })

    -- The loop over the connectors.
    unfoldable pub parse_connectors :
        List (Bytes × J.Value) → Configuration → Fallible Bytes Configuration
    unfolding parse_connector
    parse_connectors [] configuration = ok configuration
    parse_connectors ((name, json) ∷ others) configuration =
        parse_connector json >>= λ value. parse_connectors others (emplace name value configuration)

    -- Nothing for another version; the first argument is whether it is 1.
    abbrev pub of_version : Bool → J.Value → Fallible Bytes (Option Configuration)
    of_version false json = ok none
    of_version true json = do
      items ← J.at json (codes "connectors") >>= J.items
      configuration ← parse_connectors items []
      ok (some configuration)

    abbrev pub parse_document : J.Value → Fallible Bytes (Option Configuration)
    parse_document json = do
      version ← J.at json (codes "version") >>= J.get_int
      of_version (eqb_ℤ version (pos 1)) json

    abbrev pub reported : Fallible Bytes (Option Configuration) → Fallible Bytes Configuration
    reported (err text) = err (codes "Invalid configuration: " ++ text)
    reported (ok none) = err (codes "Unsupported configuration version")
    reported (ok (some configuration)) = ok configuration

    -- The contents of the file, if it could be opened.
    unfoldable pub parse_file : Bytes → Option Bytes → Fallible Bytes Configuration
    unfolding parse_connectors
    parse_file path none = err (codes "Unable to open configuration file: " ++ path)
    parse_file path (some contents) = reported (J.parse contents >>= parse_document)
