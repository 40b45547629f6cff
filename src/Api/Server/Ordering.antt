-- ===== src/Api/Server/Ordering.antt =====
-- `handleCreateOrder` of bifrostd/src/api/server.ts: POST /v1/orders. A quote is redeemed before
-- anything else is looked at, so that a refusal after it uses the quote up.
pub mod Planned
use bitfrost.Base.{
  ℕ, String, Bool, true, false, not, ◌||◌, Option, none, some, List, str_eq, truthy, if◌then◌else◌,
}
use bitfrost.Base.Decimal.{big_int}
use bitfrost.Sdk.Types.{
  Order, QuoteMode, protocol_version, invoice_invalid, quote_unknown, internal, syntax_error,
  network_of,
}
use bitfrost.Sdk.Invoice.{Decoders, detect_invoice}
use bitfrost.Sdk.Verify.{is_pay_invoice}
use bitfrost.Orders.Ports.{Result, ok, err}
use bitfrost.Orders.World.{Host, World}
use bitfrost.Orders.Lifecycle.{CreateOrderParams, create_order}
use bitfrost.Orders.History.Jobs.{Job, run_jobs}
use bitfrost.Rfq.Fallible.{◌>>=◌, attempt}
use bitfrost.Api.Quotes.{QuoteCache, CachedQuote, consume}
use bitfrost.Api.Legs.{LegPlan, LegOptions, plan_legs}
use bitfrost.Api.Coordinator.{watch_order}
use bitfrost.Api.Stream.{on_order_changed}
use bitfrost.Api.Server.{Hub, Response, answer, envelope, caught, order_body}

-- `quoteId` is compared with nothing but its absence and the empty text.
pub record OrderCreate : Type 0 where
  pub protocol : String
  pub quote_id : Option String

-- The node that decodes Lightning invoices answers `cltv`.
unfoldable pub plan_for : Decoders → Result ℕ → ℕ → ℕ → CachedQuote → String → Result LegPlan
unfolding detect_invoice plan_legs ◌>>=◌
plan_for d cltv min_safety now q target = do
  give ← attempt (big_int q.quote.give_amount) syntax_error
  get ← attempt (big_int q.quote.get_amount) syntax_error
  info ← detect_invoice d target
  let opts : LegOptions = record {
    give = network_of q.request.pair.give;
    gets = network_of q.request.pair.gets;
    target_invoice = target;
    give_amount = give;
    get_amount = get;
    now = now;
    min_safety_delta_ms = min_safety;
  }
  plan_legs opts (record { network = info.network; payment_hash = info.payment_hash }) cltv

unfoldable pub order_params : CachedQuote → LegPlan → CreateOrderParams
order_params q plan = record {
  order_id = none;
  quote_id = q.quote.quote_id;
  direction = plan.direction;
  payment_hash = plan.payment_hash;
  incoming = plan.incoming;
  outgoing = plan.outgoing;
}

-- What follows `createOrder`.
abbrev opened : Hub → Result Order × World → Response × Hub
opened hub (ok o, w) = (
  answer (order_body o),
  record hub {
    world = w;
    coordinator = watch_order o hub.coordinator;
    rejections = on_order_changed o hub.rejections;
  },
)
opened hub (err e, w) = (caught e, record hub { world = w })

abbrev with_plan : Host → List Job → CachedQuote → Hub → Result LegPlan → Response × Hub
with_plan host js q hub (err e) = (caught e, hub)
with_plan host js q hub (ok plan) =
    opened hub (create_order host (run_jobs host js) (order_params q plan) hub.world)

abbrev pub target_of : CachedQuote → Option String
target_of q = if not (is_pay_invoice q.request.mode) then none else truthy q.request.target_invoice

abbrev with_target :
    Host → Decoders → Result ℕ → ℕ → List Job → CachedQuote → Hub → Option String → Response × Hub
with_target host d cltv now js q hub none =
    (envelope 400 internal "only PAY_INVOICE quotes can be redeemed today", hub)
with_target host d cltv now js q hub (some target) =
    with_plan host js q hub (plan_for d cltv host.min_safety_delta_ms now q target)

abbrev redeemed :
    Host
    → Decoders
    → Result ℕ
    → ℕ
    → List Job
    → Hub
    → Option CachedQuote × QuoteCache
    → Response × Hub
redeemed host d cltv now js hub (none, c) =
    (envelope 404 quote_unknown "quote unknown or already redeemed", record hub { cache = c })
redeemed host d cltv now js hub (some q, c) =
    with_target host d cltv now js q (record hub { cache = c }) (target_of q)

abbrev with_id :
    Host → Decoders → Result ℕ → ℕ → List Job → Hub → Bool → Option String → Response × Hub
with_id host d cltv now js hub other none = (envelope 400 internal "quoteId required", hub)
with_id host d cltv now js hub other (some id) =
    if other
    then (envelope 400 internal "quoteId required", hub)
    else redeemed host d cltv now js hub (consume id now hub.cache)

-- `now` is the time that the handler reads; the engine reads its own clock. The jobs are those that
-- reach the engine while `createOrder` waits for the node.
unfoldable pub handle_create_order :
    Host → Decoders → Result ℕ → ℕ → List Job → Option OrderCreate → Hub → Response × Hub
unfolding plan_for order_params consume create_order watch_order on_order_changed is_pay_invoice
handle_create_order host d cltv now js none hub =
    (envelope 400 invoice_invalid "malformed JSON body", hub)
handle_create_order host d cltv now js (some body) hub =
    with_id host d cltv now js hub (not (str_eq body.protocol protocol_version))
      (truthy body.quote_id)
