-- ===== src/Orders/Gateway/Signed.antt =====
-- A signed request, described without the code that builds it: its parameters, name and value, and the
-- signature of their text.
use exchange_connectivity.Base.{
  ℕ, subst, ◌≡◌, ◌≢◌, ◌↔◌, refl, sym, ap, ◌∙◌, inl, inr, List, [], ◌∷◌, ◌++◌, Option, none, some,
  append_assoc, Option-cases,
}
use exchange_connectivity.Base.Int.{ℤ}
use exchange_connectivity.Base.Text.{Bytes, codes}
use exchange_connectivity.Decimal.Print.{format_unsigned}
use exchange_connectivity.Rest.{Verb, HttpRequest}
use exchange_connectivity.Orders.Text.{url_encode, to_hex}
use exchange_connectivity.Orders.{OrderType, market, limit, OrderRequest, side_text, type_text}
use exchange_connectivity.Orders.Gateway.{decimal_text, create_signature}

abbrev pub Parameter : Type 0
Parameter = Bytes × Bytes

-- `name=value&name=value`.
abbrev pub query_text : List Parameter → Bytes
query_text [] = []
query_text ((name, value) ∷ []) = name ++ b'=' ∷ value
query_text ((name, value) ∷ (p ∷ ps)) = name ++ b'=' ∷ (value ++ b'&' ∷ query_text (p ∷ ps))

pub query_text-append :
    (p : Parameter) (ps : List Parameter) (q : Parameter) (qs : List Parameter)
    → query_text ((p ∷ ps) ++ q ∷ qs) ≡ query_text (p ∷ ps) ++ b'&' ∷ query_text (q ∷ qs)
query_text-append (name, value) [] q qs =
    sym (append_assoc name (b'=' ∷ value) (b'&' ∷ query_text (q ∷ qs)))
query_text-append (name, value) (p ∷ ps) q qs =
    let rest = query_text (p ∷ ps) in
    let more = b'&' ∷ query_text (q ∷ qs) in
    ap (λ t. name ++ b'=' ∷ (value ++ b'&' ∷ t)) (query_text-append p ps q qs)
    ∙ ap (λ t. name ++ b'=' ∷ t) (sym (append_assoc value (b'&' ∷ rest) more))
    ∙ sym (append_assoc name (b'=' ∷ (value ++ b'&' ∷ rest)) more)

abbrev pub price_parameters : OrderType → ℤ → List Parameter
price_parameters market price = []
price_parameters limit price =
    (codes "price", decimal_text price) ∷ (codes "timeInForce", codes "GTC") ∷ []

abbrev pub symbol_parameter : Bytes → Parameter
symbol_parameter symbol = (codes "symbol", url_encode symbol)

-- The price is that of an order of the given type.
abbrev pub order_details : OrderRequest → OrderType → ℕ → List Parameter → List Parameter
order_details r order_type client_order_id rest =
    (codes "side", side_text r.side)
    ∷ (codes "type", type_text r.order_type)
    ∷ (codes "quantity", decimal_text r.quantity)
    ∷ (codes "newClientOrderId", format_unsigned client_order_id)
    ∷ (price_parameters order_type r.price ++ rest)

-- The parameters of an order, with those that follow them.
abbrev pub order_parameters : OrderRequest → ℕ → Bytes → List Parameter → List Parameter
order_parameters r client_order_id symbol rest =
    symbol_parameter symbol ∷ order_details r r.order_type client_order_id rest

abbrev pub time_parameters : ℕ → ℕ → List Parameter
time_parameters window now =
    (codes "recvWindow", format_unsigned window) ∷ (codes "timestamp", format_unsigned now) ∷ []

-- The signature is the digest of the text under the secret, which is not empty, in hexadecimal.
pub record IsSigned (hmac : Bytes → Bytes → Option Bytes) (secret_key text signature : Bytes)
    : Type 0 where
  pub digest : Bytes
  pub digested : hmac secret_key text ≡ some digest
  pub some_byte : digest ≢ []
  pub in_hex : signature ≡ to_hex digest

-- The parameters and, as the last of them, the signature of their text; the key is a header.
abbrev pub request_with : Bytes → ℕ → Bytes → Verb → Bytes → List Parameter → Bytes → HttpRequest
request_with host port api_key method endpoint parameters signature = record {
  host = host;
  port = format_unsigned port;
  target = endpoint ++ b'?' ∷ query_text (parameters ++ (codes "signature", signature) ∷ []);
  method = method;
  headers = (codes "X-MBX-APIKEY", api_key) ∷ [];
  body = [];
}

-- A request with these parameters that carries a signature of them.
pub record IsRequest (hmac : Bytes → Bytes → Option Bytes) (secret_key : Bytes)
    (parameters : List Parameter) (with_signature : Bytes → HttpRequest) (q : HttpRequest)
    : Type 0 where
  pub signature : Bytes
  pub signed : IsSigned hmac secret_key (query_text parameters) signature
  pub built : q ≡ with_signature signature

to_hex-some : (digest : Bytes) → (to_hex digest ≢ []) ↔ (digest ≢ [])
unfolding to_hex
to_hex-some [] = (λ h e. h refl, λ h e. h refl)
to_hex-some (c ∷ digest) = (λ h e. cc, λ h e. cc)

module _ (hmac : Bytes → Bytes → Option Bytes) (secret_key text : Bytes) where
  create_signature-none : hmac secret_key text ≡ none → create_signature hmac text secret_key ≡ []
  unfolding create_signature
  create_signature-none e = rw (create_signature, e) refl

  create_signature-some :
      (digest : Bytes)
      → hmac secret_key text ≡ some digest
      → create_signature hmac text secret_key ≡ to_hex digest
  unfolding create_signature
  create_signature-some digest e = rw (create_signature, e) refl

  -- What `create_signature` gives, where it is not empty.
  pub create_signature-IsSigned :
      create_signature hmac text secret_key ≢ []
      → IsSigned hmac secret_key text (create_signature hmac text secret_key)
  create_signature-IsSigned h = elim (Option-cases (hmac secret_key text)) [
    | inl failed ↦ absurd (h (create_signature-none failed))
    | inr (digest, e) ↦ record {
      digest = digest;
      digested = e;
      some_byte = (to_hex-some digest).0 (λ d. h (create_signature-some digest e ∙ d));
      in_hex = create_signature-some digest e;
    }
  ]

  pub IsSigned-create_signature :
      (signature : Bytes)
      → IsSigned hmac secret_key text signature
      → (signature ≡ create_signature hmac text secret_key)
        × (create_signature hmac text secret_key ≢ [])
  IsSigned-create_signature signature v =
      let same = create_signature-some v.digest v.digested in
      (v.in_hex ∙ sym same, λ e. (to_hex-some v.digest).1 v.some_byte (sym same ∙ e))

  module _ (p : Parameter) (ps : List Parameter) (same_text : text ≡ query_text (p ∷ ps)) where
    pub signed_target :
        (endpoint signature : Bytes)
        → endpoint ++ (codes "?" ++ (text ++ (codes "&signature=" ++ signature)))
          ≡ endpoint ++ b'?' ∷ query_text ((p ∷ ps) ++ (codes "signature", signature) ∷ [])
    signed_target endpoint signature =
        ap (λ t. endpoint ++ b'?' ∷ (t ++ (codes "&signature=" ++ signature))) same_text
        ∙ ap (λ t. endpoint ++ b'?' ∷ t)
            (sym (query_text-append p ps (codes "signature", signature) []))

    -- What the code builds from its signature of the text is a signed request.
    pub signed_iff :
        (build with_signature : Bytes → HttpRequest) (q : HttpRequest)
        → ((s : Bytes) → build s ≡ with_signature s)
        → ((create_signature hmac text secret_key ≢ [])
            × (q ≡ build (create_signature hmac text secret_key)))
          ↔ IsRequest hmac secret_key (p ∷ ps) with_signature q
    signed_iff build with_signature q same = (
      λ (some_text, e). record {
        signature = create_signature hmac text secret_key;
        signed =
            subst (λ t. IsSigned hmac secret_key t (create_signature hmac text secret_key))
              same_text (create_signature-IsSigned some_text);
        built = e ∙ same (create_signature hmac text secret_key);
      },
      λ v.
          let (found, some_text) =
            IsSigned-create_signature v.signature
              (subst (λ t. IsSigned hmac secret_key t v.signature) (sym same_text) v.signed) in
          (some_text, v.built ∙ sym (same v.signature) ∙ ap build found),
    )
