-- ===== src/Lib.antt =====
-- ExchangeConnectivity: C++ components that connect a trading program to the Binance exchange. Market
-- data comes in over WebSocket streams and REST snapshots and is parsed into 64-bit decimals; orders
-- go out as signed REST requests; updates travel between threads in pooled objects.
--
-- The parts and the files that model them, with paths from the root of the repository:
--   Base       lists, Booleans, integers, texts and results that the parts share. Numbers are ℕ; an
--              unsigned 64-bit operation is taken modulo 2 ^ 64; `ℤ` holds the signed ones. A text is
--              the list of its bytes. An exception or an `std::expected` is a value of `Fallible`.
--   Failure    the exceptions of binance_connector/binance/parser.cpp.
--   Json       the operations of the JSON libraries that the code calls, as a parameter.
--   Decimal    `parseDecimal` of binance_connector/binance/parser.cpp (Decimal.antt: the loop is
--              `scan`, its body `scan_character`, what follows it `finish`), and `toDecimalString` of
--              binance_order_client/binance_order_gateway.cpp (Decimal/Print.antt). The children
--              Digits, Literal, Scan, Finish, Sound, Complete and Print/RoundTrip carry the proofs.
--   Market     binance_connector/binance/types.hpp, and in Market/Parser.antt the rest of parser.cpp:
--              `parseDepthUpdate`, `parseTrade`, `parseSnapshot` and their helpers.
--   Connector  `Connector` of binance_connector/binance/connector.cpp: its streams and handlers. A
--              method returns the new state and its effects in order. It calls the parser on each
--              message that a stream delivers.
--   Rest       `RestSession` of binance_order_client/rest_client.cpp, which rest_client,
--              binance_spot_client and binance_order_execution_module/networking repeat: one
--              function for each completion handler, in Rest/Session.antt.
--   RestAsync  `RestClientAsync` of rest_client_async: in RestAsync/Redirect.antt where a redirect leads,
--              and in RestAsync/Engine.antt the requests in flight and the pool of idle connections, one
--              function for each completion handler. RestAsync/Engine/Schedule.antt runs any number of
--              requests in any order.
--   Orders     the orders of binance_order_client (order.hpp, order.cpp, types.hpp, utilities.cpp) and
--              in Orders/Gateway.antt `BinanceOrderGateway`, which sends a request through Rest and
--              reads the answer. Orders/Gateway/Signed.antt describes a signed request by its
--              parameters; the theorems on the gateway and the spot client compare with that.
--   Spot       `BinanceSpotClient` of binance_spot_client/binance_spot_client.cpp: orders, cancellations and
--              balances. It uses Rest, Orders and Decimal as Orders/Gateway.antt does.
--   Feed       binance_data_parser, which binance/binance_market_data_parser.cpp repeats: the types of
--              MarketData.hpp, `parseDecimal` (Feed/Decimal.antt), the map of the levels of a snapshot
--              (Feed/Book.antt), and the parsers (Feed/Parser.antt, Feed/Parser/Tickers.antt).
--              Feed/Decimal/Agreement.antt compares its decimals with those of Decimal.
--   WebSocket  `WebSocketSession` of web_socket_client/web_socket_client.cpp, which
--              binance_order_execution_module/networking repeats; and in WebSocket/Client.antt the
--              `WebSocketClient` that posts calls to its session.
--   Pools      pools/main.cpp: the book updates, the `RingBuffer` in Pools/Ring.antt (its calls whole) and
--              Pools/Ring/Threads.antt (its calls as the accesses of two threads, interleaved), and in
--              Pools/Shared.antt the `BookUpdatePool` that a mutex guards, with its `Lease`;
--              in Pools/Bounded.antt the one whose free indices are in a ring buffer. Pools/Benchmark.antt
--              has the blocking `Queue` of perf_tests and the two threads of `runBaseline`, which share
--              it alone.
--   Utilities  of utilities: HexConverter.cpp (Utilities/Hex.antt), `base64Encode` of Base64.cpp
--              (Utilities/Base64.antt), and of StringUtilities.cpp the `split` at a text (Utilities/Split.antt)
--              and at a set of characters (Utilities/Words.antt), `trim_1` and `trim_2`
--              (Utilities/Trim.antt), `remove_chars_from_string` (Utilities/Erase.antt).
--   Stream     `WebSocketSession` of binance_connector/networking/websocket_client.cpp, which
--              web_socket_client_old repeats: one function for each completion handler. In
--              Stream/Network.antt it runs on a socket that `stop` closes; Stream/Client.antt is the
--              `WebSocketClient` that replaces one session by the next.
--   Snapshots  `SnapshotRequest` and `RestClient` of binance_connector/networking/rest_client.cpp, and in
--              Snapshots/Asked.antt the way from a method of Connector to the user's handler.
--   RestSync   the blocking `RestClient` of rest_client_2. It uses the values and the redirects of RestAsync,
--              which the source repeats; RestSync/Agreement.antt compares the two clients.
--   BinanceSocket  `BinanceWebSocketClient` of binance/binance_web_socket_client.cpp, and in
--              BinanceSocket/Connection.antt one connection of it, from `connect` on.
--   Configuration  `ConfigurationParser::parse` of configuration/configuration_parser.cpp, and the lookup
--              of configuration.hpp. nlohmann::json and the environment are parameters.
--
-- Events. The sessions run on one strand, so a run is a list of events: a posted call or the completion
-- handler of an operation that is under way. Boost.Asio promises that such a handler is called at most
-- once, and the step functions of Rest/Session/Completion.antt, WebSocket/Order.antt,
-- RestAsync/Engine/Schedule.antt, Stream/Network.antt, Snapshots/Runs.antt and
-- BinanceSocket/Connection.antt hold it to that. RestSync blocks instead: what the clock, the resolver
-- and the network give to each of its exchanges is a list of turns.
--
-- Bounds. `stream << n` emits at most 20 digits (`emit 20`), and every number below 2 ^ 64 has no
-- more. The turns of a blocking call are its fuel: one for each redirect that it may follow, and
-- one more. `split` at a set of characters has more fuel than its text has characters. `intToHex`
-- has at most 8 digits (`push_digits 8`), as its number is below 2 ^ 32. `split` has one round more
-- than its text has characters at most (`split_loop`), for a delimiter that is not empty.
-- Arithmetic of Feed/Decimal.antt that leaves `std::int64_t` is an error, since its result is
-- undefined in C++. All other loops are over a list or a count. The cursors of the ring are
-- unbounded, where the source has `int64_t`: they count elements, and 2 ^ 63 of them do not pass.
-- Release stores and acquire loads are taken as steps that see all those before them. In
-- Pools/Benchmark.antt a turn is a call of the queue under its mutex, or work of one thread on what
-- is its own.
--
-- Not modelled: sockets, TLS, timers and the JSON and OpenSSL libraries, which are parameters or
-- effects; `double` and `std::stod`, which are parameters; of utilities `trim`, `strip`,
-- `strip_fast`, `base64Encode2` and the files that call the system; the benchmarks with a pool,
-- which use its objects without a lock; web_socket_client_old; the programs that print.
pub mod Base
pub mod Failure
pub mod Decimal
pub mod Json
pub mod Market
pub mod Connector
pub mod Rest
pub mod RestAsync
pub mod Orders
pub mod Spot
pub mod Feed
pub mod WebSocket
pub mod Pools
pub mod Utilities
pub mod Stream
pub mod Snapshots
pub mod RestSync
pub mod BinanceSocket
pub mod Configuration
