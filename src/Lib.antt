-- ===== src/Lib.antt =====
-- A model of bifrost: a hub that swaps payments between the Fiber and the Lightning network,
-- and the SDK of its clients.
--
-- The parts and their files:
--   Sdk          sdk/src: the protocol's types and errors (Types), expiries (Expiry),
--                canonical JSON and the signing digest (Canonical, Signed), advertisements
--                (Advertisement), verifyQuote (Verify), invoice.ts (Invoice), and client.ts with
--                BifrostError.fromWire (Client).
--   Orders       bifrostd/src/orders: the store and its log file (Store), the ports of the nodes
--                (Ports), their bindings (Bindings), and OrderEngine. The engine's mutations are
--                in Marks, its handlers in Engine, and its methods in Lifecycle. Runs of an order
--                from its creation to its end are in Completes.
--   Rfq          bifrostd/src/rfq: rational.ts (Rational), pricing.ts (Pricing), and
--                quote-service.ts (Service, with its search for the gross amount in Minimal).
--   Api          bifrostd/src/api: quotes.ts, legs.ts, inventory.ts, stream.ts, coordinator.ts, and
--                server.ts (Server: Quoting, Ordering, Cancelling and Paging are its handlers,
--                Routes its listener).
--   Adapters     bifrostd/src/adapters: fiber.ts (Fiber) and lightning.ts (Lightning), with what
--                their generators yield (Events), and the lines of LND's streams of transport.ts
--                (Lines).
--   Fnn          bifrostd/src/fnn/codec.ts: the hexadecimal numbers of the Fiber node.
--   Registry     registry/src: the table of advertisements (db.ts) and its two routes (server.ts).
--   Base         numbers, texts, dictionaries and decimal numerals.
--   Examples     runs on concrete inputs.
--
-- How the parts interact. A request reaches a handler of Api.Server, which redeems a quote of
-- Api.Quotes, plans its legs with Api.Legs, and has the engine create an order. The engine calls the
-- ports of Orders.Ports; Orders.Bindings makes ports of the adapters, and Adapters makes adapters of
-- the transports. The events of the adapters come back to the engine as jobs. A client checks each
-- quote again with Sdk.Verify before it orders.
--
-- How the code corresponds. Code that keeps state is an action on a `World` (Orders.World):
-- the store, the calls made of the nodes, and a count of the answers that came from outside, so that
-- a node or the clock may answer otherwise each time. A call is kept together with what the log file
-- held when it was made. A thrown error leaves what was written before it. A method of OrderEngine is
-- a function of the same name (createOrder is `create_order`); `Job` (Orders.History.Jobs) is a job
-- that reaches the engine, and `run_jobs` runs any sequence of them. The queued jobs of one order run
-- one after the other, as `enqueue` makes them; a job of one order touches no other order, so that the
-- interleavings of different orders are sequences of jobs. `createOrder` is not queued: it is two jobs,
-- one until the node answers (`create_job`) and one after it (`invoice_job`), between which any others
-- can come, and POST /v1/orders is given the jobs that come in between. What is queued apart from its
-- request (`queued_cancel`, `queued_sweep`, `queued_reconcile`, `queued_event`) can be a job of its
-- own. The `observedAt` of an event that the engine makes for itself is never read, and is left out.
-- An error's message is cut to its fixed part. A generator is the data type `Yields` of what it does,
-- and a stream that feeds one is the list of what comes in until it ends.
--
-- The specification. Orders.Protocol states the arrows and the rules of spec/PROTOCOL.md 4.4 as a step
-- relation, apart from the code: the arrows between states, what an order's fields say of one
-- another, and the calls that a recorded order permits. It adds the one way in which the engine leaves
-- 4.4: orders that are FAILED without REFUNDING (`shortcut`). Orders.Engine.Refines and
-- Orders.Lifecycle.Refines hold each handler against it with the rules of Orders.Runs, and
-- Orders.History carries that over to all orders.
--
-- Bounds and fuel. The loop `gcd` runs on its second argument as fuel, which each turn lowers. The
-- loop upwards in `minimal_gross` runs on fuel that it never uses (Rfq.Minimal.walk_up-idle); the
-- loop downwards is a recursion on the gross amount. A number is printed with itself as fuel, in
-- decimal and in hexadecimal, since each digit lowers it. The walk over the pages of a listing
-- (Api.Server.Paging.Walk) runs on one more than the number of orders. A buffer of a stream is cut into
-- lines with its length as fuel. Amounts are `bigint`s and have no bound but where they cross the Fiber
-- node's codec. Timestamps and durations are integers that are not negative, below 2^53 in the source.
-- `Number` is modelled on texts of integers.
--
-- Not modelled: the sockets, headers, timers and body readers of the servers, the transports of the
-- adapters but for the lines that LND streams, the event streams that the coordinator drives, start-up
-- code and the smoke runners, and the user interfaces. SHA-256, BIP-340, UTF-8, base64, the parser of
-- urls, JSON.stringify of a text, the decoders of invoices, the clock, the nodes and the generators of
-- ids are parameters. A hub fee on the get side
-- is below 1,000,000 ppm.
pub mod Base
pub mod Sdk
pub mod Orders
pub mod Rfq
pub mod Api
pub mod Registry
pub mod Fnn
pub mod Adapters
pub mod Examples
