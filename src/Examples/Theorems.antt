-- ===== src/Examples/Theorems.antt =====
-- The theorems applied to concrete inputs.
use bitfrost.Base.{
  inr, ℕ, ◌≡◌, refl, ap, ◌∙◌, String, true, Option, none, some, List, [], ◌∷◌, ◌++◌, ◌+◌, ◌*◌, ◌≤◌,
  ◌<◌, length, All, arith, str_eq,
}
use bitfrost.Base.Dict
use bitfrost.Base.Int.{ℤ, ◌≤ℤ◌}
use bitfrost.Base.{false}
use bitfrost.Sdk.Types.{fiber_shannon, lightning_sat}
use bitfrost.Sdk.Advertisement.{Advertisement, ad_entries, verify_ad_signature}
use bitfrost.Orders.Marks.{mark_dispatched}
use bitfrost.Orders.Bindings.{
  LightningAdapter, lightning_ports, lasting, lightning_blocks_conservative,
}
use bitfrost.Api.Coordinator.{
  Coordinator, is_dispatched, watch_order, after_event, pumps_started_once,
}
use bitfrost.Registry.{
  NotOlder, post_ads, is_malformed, is_amount, upsert, published, published-NotOlder,
  published_is_genuine,
}
use bitfrost.Sdk.Types.{Order, pending}
use bitfrost.Orders.Store
use bitfrost.Orders.Store.{open_store, replay}
use bitfrost.Orders.Store.Keys.{IsValid, no_orders-IsValid, created-IsValid}
use bitfrost.Orders.Store.{fragment, json, LogLine, update_line, persist}
use bitfrost.Orders.Store.Recovery.{
  IsDurable, created-IsDurable, torn_write_all_or_nothing, torn_write_loses_next,
}
use bitfrost.Orders.History.Forward.{Became, orders_move_forward}
use bitfrost.Orders.Lifecycle.{new_order}
use bitfrost.Sdk.Expiry.{in_blocks, expiry_invariant_holds, expiry_conservative}
use bitfrost.Orders.Marks.{mark_held}
use bitfrost.Orders.Protocol.{IsSound}
use bitfrost.Orders.History.Jobs.{run_jobs, leg_event}
use bitfrost.Orders.History.Good.{
  Good, Justified, WhenSome, calls-Justified, orders-IsSound, restart_forgets_nothing,
}
use bitfrost.Base.Int.{pos, ◌+ℤ◌}
use bitfrost.Api.Quotes
use bitfrost.Api.Quotes.{QuoteCache, consume, redeemed_once}
use bitfrost.Api.Legs.{LegOptions, DecodedInvoice, Outlives, plan_legs, planned_legs_accepted}
use bitfrost.Api.Stream.{after_changes, rejections_bounded}
use bitfrost.Api.Inventory.{
  FiberChannel, fiber_liquidity, ready_total, spendable, locked, whole_balance,
  fiber_liquidity-total,
}
use bitfrost.Base.Decimal.{big_int, to_string}
use bitfrost.Sdk.Canonical.{signing_digest, canonical_bytes, canonicalize, without_signature}
use bitfrost.Sdk.Signed.{unsigned_quote}
use bitfrost.Sdk.Verify.{verify_quote, is_pay_invoice}
use bitfrost.Sdk.Types.{fiber, lightning, QuoteRequest, pay_invoice}
use bitfrost.Orders.Ports.{ok, HoldRequest, PayRequest}
use bitfrost.Rfq.Fallible.{◌>>=◌}
use bitfrost.Rfq.Rational.{normalize, gcd, mul_div_floor, mul_div_ceil, apply_ppm}
use bitfrost.Rfq.Pricing.{static_peg}
use bitfrost.Rfq.Minimal.{minimal_gross, walk_up, walk_down, net}
use bitfrost.Rfq.Service.{
  quote, validate, issue, issue_at, amounts_for, get_amounts, admit, draft, sign,
}
use bitfrost.Rfq.Issued.{quote_verifies}
use bitfrost.Examples.Quoting.{demo_crypto, demo_config, demo_request, demo_context, demo_quote}
use bitfrost.Examples.Swap.{
  zero_hash, demo_host, demo_jobs, empty_world, demo_order, demo_store, demo_world, held_event,
}

empty-Good : Good demo_host empty_world
unfolding empty_world open_store replay Dict.get
empty-Good = record {
  valid = no_orders-IsValid;
  durable = record { complete = refl; replayed = refl };
  sound = λ id o h. absurd (cc (h));
  justified = tt;
}

calls-Justified_example : All (Justified demo_host) (run_jobs demo_host demo_jobs empty_world).calls
calls-Justified_example = calls-Justified demo_host demo_jobs empty_world empty-Good

orders-IsSound_example :
    WhenSome
      (IsSound demo_host)
      (Store.find "order-1" (run_jobs demo_host demo_jobs empty_world).store)
orders-IsSound_example = orders-IsSound demo_host demo_jobs empty_world "order-1" empty-Good

restart_forgets_nothing_example :
    (open_store (run_jobs demo_host demo_jobs empty_world).store.file).index
    ≡ (run_jobs demo_host demo_jobs empty_world).store.index
restart_forgets_nothing_example = restart_forgets_nothing demo_host demo_jobs empty_world empty-Good

pub demo-found : Store.find "order-1" demo_world.store ≡ some demo_order
unfolding demo_world demo_store Store.created Store.with_order demo_order new_order open_store
    replay Dict.get Dict.set str_eq
demo-found = refl

pub demo-IsValid : IsValid demo_world.store.index
unfolding demo_world demo_store open_store replay Dict.get
demo-IsValid = created-IsValid demo_order (open_store []) no_orders-IsValid refl refl

orders_move_forward_example :
    Became demo_order "order-1" (run_jobs demo_host (leg_event held_event ∷ []) demo_world).store
orders_move_forward_example =
    orders_move_forward demo_host (leg_event held_event ∷ []) demo_world "order-1" demo_order
      demo-IsValid demo-found

demo-IsDurable : IsDurable demo_store
unfolding demo_store open_store replay Dict.get
demo-IsDurable =
    created-IsDurable demo_order (open_store []) refl (record { complete = refl; replayed = refl })

abbrev next_line : LogLine
next_line = update_line demo_order 4 (some "incoming hold invoice issued") pending

torn_write_all_or_nothing_example :
    ((open_store (demo_store.file ++ fragment ∷ [])).index ≡ demo_store.index)
    × ((open_store (demo_store.file ++ json next_line ∷ [])).index
        ≡ (open_store (persist next_line demo_store.file)).index)
torn_write_all_or_nothing_example = torn_write_all_or_nothing demo_store next_line demo-IsDurable

demo_store-found : Store.find "order-1" demo_store ≡ some demo_order
unfolding demo_store Store.created Store.with_order demo_order new_order open_store replay Dict.get
    Dict.set str_eq
demo_store-found = refl

abbrev torn_store : Store.Store
torn_store = open_store (demo_store.file ++ fragment ∷ [])

torn_store-found : Store.find "order-1" torn_store ≡ some demo_order
torn_store-found =
    ap (λ x. Dict.get "order-1" x.orders)
      (torn_write_all_or_nothing demo_store next_line demo-IsDurable).0
    ∙ demo_store-found

known_transition :
    (id : String) (mutate : Order → Order) (detail : Option String) (s : Store.Store) (o : Order)
    → Store.find id s ≡ some o
    → Store.transition id mutate detail s
      ≡ some (mutate o, Store.updated id o.state (mutate o) detail s)
unfolding Store.transition
known_transition id mutate detail s o h = ground (arith, h)

torn_store-transition :
    Store.transition "order-1" (mark_held 5) (some "held") torn_store
    ≡ some (
      mark_held 5 demo_order,
      Store.updated "order-1" pending (mark_held 5 demo_order) (some "held") torn_store,
    )
unfolding demo_order new_order
torn_store-transition =
    known_transition "order-1" (mark_held 5) (some "held") torn_store demo_order torn_store-found

torn_write_loses_next_example :
    (open_store
      (Store.updated "order-1" pending
        (mark_held 5 demo_order)
        (some "held")
        torn_store).file).index
    ≡ demo_store.index
torn_write_loses_next_example =
    torn_write_loses_next demo_store "order-1" (mark_held 5) (some "held") demo-IsDurable
      torn_store-transition

margin_accepted : expiry_invariant_holds (in_blocks 120) (in_blocks 40) 7_200_000 0 ≡ some true
unfolding expiry_invariant_holds
margin_accepted = refl

expiry_conservative_example : 0 + 40 * 590_000 + 7_200_000 ≤ 0 + 120 * 590_000
expiry_conservative_example =
    expiry_conservative 120 40 590_000 7_200_000 0 (omega arith) (omega arith) margin_accepted

bip340 : (m : List ℕ) → demo_crypto.schnorr_verify (demo_crypto.schnorr_sign m) m "hub" ≡ true
bip340 m = refl

demo_quoted : quote demo_config demo_request demo_context none ≡ ok demo_quote
unfolding quote validate issue issue_at amounts_for get_amounts admit draft sign ◌>>=◌ static_peg
    apply_ppm normalize gcd mul_div_floor mul_div_ceil minimal_gross walk_up walk_down net
    signing_digest canonical_bytes canonicalize without_signature unsigned_quote big_int to_string
    str_eq is_pay_invoice ◌+ℤ◌
demo_quoted = refl

-- The same request as a client that pays an invoice of 100 makes it.
abbrev demo_paying : QuoteRequest
demo_paying = record demo_request { mode = pay_invoice; target_invoice = some "lnbc1" }

demo_paid : quote demo_config demo_paying demo_context (some (pos 100)) ≡ ok demo_quote
unfolding quote validate issue issue_at amounts_for get_amounts admit draft sign ◌>>=◌ static_peg
    apply_ppm normalize gcd mul_div_floor mul_div_ceil minimal_gross walk_up walk_down net
    signing_digest canonical_bytes canonicalize without_signature unsigned_quote big_int to_string
    str_eq is_pay_invoice ◌+ℤ◌
demo_paid = refl

quote_verifies_example : verify_quote demo_crypto demo_quote demo_paying 20 (some (pos 100)) ≡ ok tt
quote_verifies_example =
    quote_verifies demo_config demo_paying demo_context (some (pos 100)) demo_quote 20
      (some (pos 100)) bip340 demo_paid (omega arith) (inr (inr (refl, refl)))

abbrev one_quote : QuoteCache
one_quote = Quotes.issue demo_quote demo_request (record {
  quotes = [];
  issued = 0;
  accepted = 0;
  expired = 0;
  rejected = 0;
  window_ms = 3_600_000;
})

consumed_first :
    (consume "quote-1" 20 one_quote).0
    ≡ some (record { quote = demo_quote; request = demo_request })
unfolding consume Quotes.issue Dict.get Dict.set str_eq
consumed_first = refl

redeemed_once_example :
    (20 < 30_007) × ((consume "quote-1" 25 (consume "quote-1" 20 one_quote).1).0 ≡ none)
redeemed_once_example =
    redeemed_once "quote-1" 20 25 one_quote (record { quote = demo_quote; request = demo_request })
      consumed_first

abbrev demo_channel : FiberChannel
demo_channel = record { state = "ChannelReady"; local_balance = pos 9; offered_tlc_balance = pos 2 }

abbrev pub demo_legs : LegOptions
demo_legs = record {
  give = lightning;
  gets = fiber;
  target_invoice = "fibt1";
  give_amount = pos 103;
  get_amount = pos 100;
  now = 7;
  min_safety_delta_ms = 7_200_000;
}

abbrev pub demo_invoice : DecodedInvoice
demo_invoice = record { network = fiber; payment_hash = some "00" }

planned_legs_accepted_example : Outlives demo_legs (plan_legs demo_legs demo_invoice (ok 40))
planned_legs_accepted_example = planned_legs_accepted demo_legs demo_invoice (ok 40)

rejections_bounded_example : length (after_changes (demo_order ∷ demo_order ∷ []) []) ≤ 20
rejections_bounded_example = rejections_bounded (demo_order ∷ demo_order ∷ []) [] (omega arith)

fiber_liquidity-total_example :
    ((fiber_liquidity (demo_channel ∷ [])).available
      ≡ ready_total spendable (demo_channel ∷ []) (pos 0))
    × ((fiber_liquidity (demo_channel ∷ [])).in_flight
        ≡ ready_total locked (demo_channel ∷ []) (pos 0))
    × ((fiber_liquidity (demo_channel ∷ [])).available
          +ℤ (fiber_liquidity (demo_channel ∷ [])).in_flight
        ≡ ready_total whole_balance (demo_channel ∷ []) (pos 0))
fiber_liquidity-total_example = fiber_liquidity-total (demo_channel ∷ [])

abbrev demo_lightning : LightningAdapter
demo_lightning = record {
  add_hold_invoice = λ n amount hash blocks memo. ok "lnbc1";
  settle_hold_invoice = λ n preimage. ok tt;
  cancel_hold_invoice = λ n hash. ok tt;
  lookup_invoice = λ n hash. ok "OPEN";
  send_payment = λ n invoice fee blocks. ok tt;
  track_payment = λ n hash. ok none;
}

abbrev two_hours : HoldRequest
two_hours = record {
  payment_hash = zero_hash;
  amount = pos 100;
  tlc_expiry_delta_ms = pos 7_200_000;
  description = "swap";
}

abbrev two_hours_out : PayRequest
two_hours_out = record { max_fee = pos 10; tlc_expiry_limit_ms = pos 7_200_000 }

lightning_blocks_conservative_example :
    ((blocks : ℤ) × ((lightning_ports (λ e. true) demo_lightning).hold.create_hold_invoice 0
          two_hours
        ≡ ok "lnbc1")
      × (pos 7_200_000 ≤ℤ lasting 300_000 blocks))
    × ((blocks : ℤ) × ((lightning_ports (λ e. true) demo_lightning).pay_port.pay 0 "lnbc1"
            two_hours_out
          ≡ ok tt)
        × (lasting 600_000 blocks ≤ℤ pos 7_200_000))
lightning_blocks_conservative_example =
    lightning_blocks_conservative (λ e. true) demo_lightning 0 two_hours "lnbc1" two_hours_out

abbrev demo_ad : Advertisement
demo_ad = record {
  protocol = "bifrost/0.1";
  hub_pubkey = "0000000000000000000000000000000000000000000000000000000000000000";
  endpoint = "https://hub";
  pairs =
      record { give = fiber_shannon; gets = lightning_sat; min_amount = "1"; max_amount = "9" }
      ∷ [];
  fiber_node_id = "f";
  lightning_node_id = "l";
  issued_at = 100;
  ttl_ms = 1_000;
  signature =
      "00000000000000000000000000000000000000000000000000000000000000000000000000000000000000000000000000000000000000000000000000000000";
}

published-NotOlder_example :
    NotOlder (Dict.get "k" []) (Dict.get "k" (post_ads demo_crypto demo_ad 200 []).1)
published-NotOlder_example = published-NotOlder demo_crypto demo_ad 200 [] "k"

demo_ad-published : (post_ads demo_crypto demo_ad 200 []).0 ≡ published
unfolding post_ads is_malformed verify_ad_signature signing_digest canonical_bytes canonicalize
    without_signature ad_entries big_int to_string str_eq is_amount upsert
demo_ad-published = refl

published_is_genuine_example :
    (is_malformed demo_ad ≡ false)
    × (verify_ad_signature demo_crypto demo_ad ≡ some true)
    × (200 ≤ 100 + 300_000)
    × (100 ≤ 200 + 60_000)
published_is_genuine_example = published_is_genuine demo_crypto demo_ad 200 [] demo_ad-published

unfoldable demo_sent : Order
unfolding demo_order mark_dispatched new_order
demo_sent = mark_dispatched 9 demo_order

demo_sent-dispatched : is_dispatched demo_sent.state ≡ true
unfolding demo_sent mark_dispatched
demo_sent-dispatched = refl

abbrev demo_coordinator : Coordinator
demo_coordinator = record { controllers = []; pending = []; pumps = [] }

pumps_started_once_example :
    (after_event demo_sent (after_event demo_sent (watch_order demo_order demo_coordinator))).pumps
    ≡ (after_event demo_sent (watch_order demo_order demo_coordinator)).pumps
pumps_started_once_example =
    pumps_started_once demo_sent demo_sent (watch_order demo_order demo_coordinator) refl
      demo_sent-dispatched
