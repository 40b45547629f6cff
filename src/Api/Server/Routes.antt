-- ===== src/Api/Server/Routes.antt =====
-- The request listener of bifrostd/src/api/server.ts, and `ENDPOINTS` of bifrostd/src/api/contract.ts.
-- The query of a URL is given as its parameters.
pub mod Reading
use Prim.Native.Char.{code}
use Prim.Native.String.{◌++◌ as append}
use bitfrost.Base.{
  ℕ, ◌==◌, String, Bool, true, false, ◌&&◌, Option, none, some, List, [], ◌∷◌, str_eq, truthy,
  if◌then◌else◌,
}
use bitfrost.Base.Codes.{codes}
use bitfrost.Base.Decimal.{big_int}
use bitfrost.Base.Int.{ℤ, pos, negsuc}
use bitfrost.Sdk.Types.{
  Network, fiber, lightning, Order, QuoteRequest, Thrown, bifrost, ProtocolError, internal,
  amount_out_of_bounds, invoice_invalid,
}
use bitfrost.Sdk.Invoice.{Decoders}
use bitfrost.Orders.Store
use bitfrost.Orders.Ports.{Result, ok, err}
use bitfrost.Orders.World.{Host}
use bitfrost.Rfq.Fallible.{◌>>=◌}
use bitfrost.Rfq.Service.{QuoteServiceConfig}
use bitfrost.Api.Inventory.{NetworkLiquidity}
use bitfrost.Api.Quotes.{QuoteCache, snapshot}
use bitfrost.Api.Server.{
  Hub, Response, Body, Balances, NodeInfo, NodeHealth, HealthReport, answer, envelope, order_body,
  balances_body, health_body, stats_body, empty_body, error_body, invoice_body, paid_body,
  as_bifrost,
}
use bitfrost.Api.Server.Quoting.{Channels, liquidity_of, handle_quotes}
use bitfrost.Orders.History.Jobs.{Job}
use bitfrost.Api.Server.Ordering.{OrderCreate, handle_create_order}
use bitfrost.Api.Server.Cancelling.{handle_cancel}
use bitfrost.Api.Server.Paging.{list_orders}

pub data Route : Type 0 where
  preflight post_quotes post_orders demo_invoice demo_pay list_route : Route
  order_route cancel_route : String → Route
  inventory_route health_route stats_route no_route : Route

-- `orderById` and `cancelOrder` of `ENDPOINTS`.
abbrev pub order_by_id : String → String
order_by_id id = append "/v1/orders/" id

abbrev pub cancel_order_path : String → String
cancel_order_path id = append "/v1/orders/" (append id "/cancel")

-- What follows a prefix.
abbrev after : List ℕ → String → Option String
after [] s = some s
after (p ∷ ps) String.[] = none
after (p ∷ ps) (String.◌∷◌ c s) = if p == code c then after ps s else none

-- A text cut before its first slash.
abbrev cut_slash : String → String × String
cut_slash String.[] = ("", "")
cut_slash (String.◌∷◌ c s) =
    let (name, rest) = cut_slash s in
    if code c == b'/' then ("", String.◌∷◌ c s) else (String.◌∷◌ c name, rest)

abbrev matched : String → String × String → Option String
matched end (name, rest) = if str_eq rest end then truthy (some name) else none

abbrev segment : String → Option String → Option String
segment end none = none
segment end (some rest) = matched end (cut_slash rest)

-- The two regular expressions, by what follows `([^/]+)`.
unfoldable pub order_match : String → String → Option String
order_match end path = segment end (after (codes "/v1/orders/") path)

abbrev fixed_get : String → Route
fixed_get path =
    if str_eq path "/v1/inventory"
    then inventory_route
    else if str_eq path "/v1/health"
    then health_route
    else if str_eq path "/v1/quotes/stats"
    then stats_route
    else no_route

abbrev or_route : (String → Route) → Option String → Route → Route
or_route f none r = r
or_route f (some id) r = f id

abbrev route_get : String → Route
route_get path =
    if str_eq path "/v1/demo/invoice"
    then demo_invoice
    else if str_eq path "/v1/orders"
    then list_route
    else or_route order_route (order_match "" path) (fixed_get path)

abbrev route_post : String → Route
route_post path =
    if str_eq path "/v1/quotes"
    then post_quotes
    else if str_eq path "/v1/orders"
    then post_orders
    else if str_eq path "/v1/demo/pay"
    then demo_pay
    else or_route cancel_route (order_match "/cancel" path) no_route

-- The tests of the listener in their order; those of the one method do not come between the other's.
unfoldable pub route : String → String → Route
unfolding order_match
route method path =
    if str_eq method "OPTIONS"
    then preflight
    else if str_eq method "POST"
    then route_post path
    else if str_eq method "GET"
    then route_get path
    else no_route

pub record Request : Type 0 where
  pub method : String
  pub url : String
  pub state : Option String
  pub cursor : Option String
  pub limit : Option String
  pub amt : Option String
  pub memo : Option String
  pub quote_request : Option QuoteRequest
  pub order_create : Option OrderCreate
  pub pay_body : Option (Option String)

-- `ApiServerOptions`, what the nodes and the clock answer while the request is handled, the jobs that
-- reach the engine meanwhile, and the `pathname` that `new URL` finds in the url of a request. An
-- adapter of the demo is `none` where it is not configured.
pub record Served : Type 0 where
  pub service : QuoteServiceConfig
  pub host : Host
  pub decoders : Decoders
  pub channels : Channels
  pub cltv : Result ℕ
  pub now : ℕ
  pub interim : List Job
  pub pathname : String → String
  pub max_incoming_hold_ms : ℕ
  pub fnn_info : Option NodeInfo
  pub lnd_info : Option NodeInfo
  pub demo_enabled : Bool
  pub lnd_payee : Option (ℕ → String → Result String)
  pub fnn_client : Option (String → Result (Unit {0}))

-- `new BifrostError("INTERNAL", String(e), true)` for what is none.
abbrev demo_error : Thrown → ProtocolError
demo_error (bifrost e) = e
demo_error _ = record { code = internal; message = "internal error"; hint = none; retryable = true }

abbrev or_text : Option String → String → String
or_text none s = s
or_text (some t) s = t

abbrev minted : ℕ → Result String → Response
minted amount (ok invoice) = answer (invoice_body invoice amount)
minted amount (err e) = record { status = 502; body = error_body (demo_error e) }

abbrev mint : (ℕ → String → Result String) → String → Option ℤ → Response
mint add memo (some (pos n)) = minted n (add n memo)
mint add memo _ = envelope 400 amount_out_of_bounds "invalid amt"

unfoldable pub handle_demo_invoice : Served → Request → Response
handle_demo_invoice s req =
    if s.demo_enabled
    then elim s.lnd_payee [
      | none ↦ envelope 404 internal "demo invoice endpoint not configured (no lndPayee adapter)"
      | some add ↦
          mint add (or_text req.memo "bifrost demo payment") (big_int (or_text req.amt "1000"))
    ]
    else envelope 404 internal "not found"

abbrev paid : Result (Unit {0}) → Response
paid (ok u) = answer paid_body
paid (err e) = record { status = 502; body = error_body (demo_error e) }

abbrev pay_with : (String → Result (Unit {0})) → Option (Option String) → Response
pay_with send none = envelope 400 invoice_invalid "malformed JSON body"
pay_with send (some invoice) = elim (truthy invoice) [
  | none ↦ envelope 400 invoice_invalid "fiberInvoice required"
  | some text ↦ paid (send text)
]

unfoldable pub handle_demo_pay : Served → Request → Response
handle_demo_pay s req =
    if s.demo_enabled
    then elim s.fnn_client [
      | none ↦ envelope 404 internal "demo pay endpoint not configured (no fnnClient adapter)"
      | some send ↦ pay_with send req.pay_body
    ]
    else envelope 404 internal "not found"

-- The `catch` of the listener.
abbrev unhandled : Response
unhandled = record {
  status = 500;
  body =
      error_body
        (record { code = internal; message = "internal error"; hint = none; retryable = true });
}

abbrev balances : ℕ → Result (NetworkLiquidity × NetworkLiquidity) → Response
balances now (ok (f, l)) =
    answer (balances_body (record { fiber = f; lightning = l; updated_at = now }))
balances now (err e) = unhandled

unfoldable pub handle_inventory : Served → Response
unfolding liquidity_of ◌>>=◌
handle_inventory s =
    balances s.now
      (do f ← liquidity_of fiber s.channels; l ← liquidity_of lightning s.channels; ok (f, l))

abbrev health_of : Option NodeInfo → NodeHealth
health_of none = record { connected = false; info = record { node_id = ""; version = "" } }
health_of (some i) = record { connected = true; info = i }

unfoldable pub handle_health : Served → Hub → Response
handle_health s hub = answer (
    health_body (record {
      fnn = health_of s.fnn_info;
      lnd = health_of s.lnd_info;
      min_safety_delta_ms = s.host.min_safety_delta_ms;
      max_incoming_hold_ms = s.max_incoming_hold_ms;
      rejections = hub.rejections;
    }))

abbrev found : Option Order → Response
found none = envelope 404 internal "order not found"
found (some o) = answer (order_body o)

abbrev quoted : Hub → Response × QuoteCache → Response × Hub
quoted hub (r, c) = (r, record hub { cache = c })

-- The handler of each route.
unfoldable pub serve_route : Served → Request → Route → Hub → Response × Hub
unfolding handle_quotes handle_create_order handle_demo_invoice handle_demo_pay list_orders
    handle_cancel handle_inventory handle_health snapshot
serve_route s req preflight hub = (record { status = 204; body = empty_body }, hub)
serve_route s req post_quotes hub =
    quoted hub (handle_quotes s.service s.decoders s.channels req.quote_request hub.cache)
serve_route s req post_orders hub =
    handle_create_order s.host s.decoders s.cltv s.now s.interim req.order_create hub
serve_route s req demo_invoice hub = (handle_demo_invoice s req, hub)
serve_route s req demo_pay hub = (handle_demo_pay s req, hub)
serve_route s req list_route hub = (list_orders req.state req.cursor req.limit hub.world.store, hub)
serve_route s req (order_route id) hub = (found (Store.find id hub.world.store), hub)
serve_route s req (cancel_route id) hub = handle_cancel s.host id hub
serve_route s req inventory_route hub = (handle_inventory s, hub)
serve_route s req health_route hub = (handle_health s hub, hub)
serve_route s req stats_route hub =
    let (stats, c) = snapshot s.now hub.cache in
    (answer (stats_body stats), record hub { cache = c })
serve_route s req no_route hub = (envelope 404 internal "no route", hub)

unfoldable pub serve : Served → Request → Hub → Response × Hub
unfolding route serve_route
serve s req = serve_route s req (route req.method (s.pathname req.url))
