-- ===== src/Lib.antt =====
-- SmartFoodOps: the core of a food-ordering backend, modelled service by service.
--
-- The program is a set of Python services. An order's saga reserves stock (services/inventory),
-- authorizes and later captures a payment (services/payment), and compensates on failure; every
-- money operation goes through a shared idempotency store (libs/smartfood-idempotency). Each
-- service keeps its state in SQL tables and changes it by guarded statements in short
-- transactions.
--
-- How the files correspond to the code:
--
-- * Prelude, Prelude/*: library names, Boolean tests, lists, signed integers, and equality of keys
--   as an interface.
-- * Table, Table/*: an SQL table with a primary key, as an association list, with SELECT, INSERT,
--   UPDATE and DELETE by key; uniqueness of keys (Keyed), sums over rows (Sum), predicates on all
--   rows (Rows).
-- * Idempotency/Rows, Idempotency/Store: libs/smartfood-idempotency/smartfood_idempotency/store.py.
--   `reserve`, `complete`, `release`, `purge` and `take_over` are the methods of their names. A
--   `Schedule` holds the times that a call reads and what others commit between its statements.
--   Theorems: Reserve, Takeover, Invariant, Purge.
-- * Payment/Rows, Payment/Service: services/payment/payment (db.py, adapters/repo.py,
--   domain/ports.py, domain/service.py). `authorize` and `lifecycle` are the methods of their
--   names, `capture`, `void` and `refund` the arguments that the methods hand to `_lifecycle`. The
--   gateway's answer, the digest of the request parts and what other instances commit meanwhile are
--   arguments. Theorems: Books, Moves, Ledger, Authorize, History, Replay, Errors.
-- * Inventory/Rows, Inventory/Repo, Inventory/Service: services/inventory/inventory (db.py,
--   domain/models.py, adapters/repo.py, domain/service.py, consumers.py). Each method is one
--   transaction. Theorems: Stock, Cases, Valid, Conserve, Slots, Keeps, History, Admit, Final.
-- * Order/Rows, Order/Transitions, Order/Activities, Order/Kitchen: services/order/order (db.py,
--   values.py, domain/transitions.py, activities.py, domain/kitchen.py). `transition` is the one
--   guarded writer of an order's status; the activities and the kitchen are calls of it.
--   Order/History is any sequence of the transactions that write order_db. Theorems: Graph, Sound,
--   Steps, Writes, History, Life, Replay, Races.
-- * Order/Placement, Order/Started: services/order/order/domain/service.py, `place` and
--   `request_cancel`. The carts, the prices and the ways that Temporal answers are arguments; the
--   started workflows are a table, in which an id keeps the placement of its first start. Theorems:
--   Started, Apart, Placed, Answers.
-- * Order/Saga, Order/Workflow: services/order/order/workflows.py. `run` is `OrderWorkflow.run`; a
--   script gives what each activity answers, where a deadline strikes, what restaurant and customer
--   decide and what others write meanwhile. An attempt that a deadline meets may still be in flight,
--   and reach its service after the unwind; a void may be answered by the conflict that
--   adapters/payment_client.py takes for success. The calls of the other services are a log, and
--   Order/Holdings is an account of what that log leaves reserved, held or taken. Theorems:
--   Holdings, Unwound, Compensation, Forward, Run, Ends, Deadline, Stranded.
-- * Order/Cascade, Order/Custody: `DeliveryWorkflow.run` and `_assign` of the same file. A script
--   gives what each activity answers and when each signal comes; Order/Custody is an account of
--   who has the order after the activities that ran. A turn of the loops is one unit of fuel, and
--   Order/Attempts says how many are enough. Theorems: Attempts, Custody.
-- * Pricing/Rows, Pricing/Engine, Pricing/Order: libs/smartfood-pricing/smartfood_pricing (models.py,
--   errors.py, engine.py). `price_line` is `_price_line`, `price_order` the function of its name.
--   Theorems: Cost, Charge, Report. Pricing/Hours: hours.py, with its theorem in Posted.
-- * Dispatch/Rows, Dispatch/Store, Dispatch/Service, Dispatch/Taps: services/dispatch/dispatch
--   (adapters/rider_store.py, domain/service.py, adapters/events.py and `radius_km_for` of
--   domain/scoring.py). Each method of the two stores is one conditional write; Dispatch/Writes has
--   them as data, so that a list of them is an interleaving of any calls, and Dispatch/Calls shows
--   which writes a call issues. What the geo index finds, the ranking by a float score and the
--   offer's random id are arguments. Theorems: Capacity, Offers, Follows, Life, Calls, History,
--   Accept, Cancel.
-- * Kafka/Rows, Kafka/Consumer, Kafka/Batch: libs/smartfood-kafka/smartfood_kafka/consumer.py. The
--   decoder, the handler, the dead letter topic and the broker's commit are functions over a state
--   of any type, which may fail at any call; a partition is the list of its messages and the
--   committed offset a number of them. A session is given any number of messages before it ends.
--   Theorems: Fates, Session, Delivered, Attempts, Progress, Settle, Assemble, Batches.
-- * Outbox/Rows, Outbox/Poller: libs/smartfood-outbox/smartfood_outbox (table.py, poller.py). The
--   broker is a function over a state of any type; a `Pass` is what one drain meets. Theorems:
--   Select, Sound, History, Drained.
-- * Edge/Limiter, Edge/Routing: services/edge-bff/edge_bff (limiter.py, routing.py). The counters of
--   Redis are a table with expiry times; the script of the limiter is one step, and its answer may
--   be lost. Theorems: Counter, Window, Bound, Match.
--
-- Choices: identifiers, hashes and currencies are only compared (and ordered, where the code
-- sorts), so they are natural numbers; times are numbers of seconds; columns that are written and
-- never read back (random ids, trace parents, updated_at outside order_db) are left out. Every
-- loop is a recursion over a list or over the attempts that are left, but for the offer cascade.
--
-- Not modelled: HTTP routes, process wiring, logging and metrics, the parsing of payloads, and the
-- other services.
pub mod Prelude
pub mod Table
pub mod Idempotency
pub mod Payment
pub mod Order
pub mod Pricing
pub mod Dispatch
pub mod Kafka
pub mod Outbox
pub mod Edge
pub mod Inventory
