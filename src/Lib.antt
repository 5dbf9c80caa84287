-- ===== src/Lib.antt =====
-- A verification library for the order, inventory, payment and auth services of this repository
-- and the library they share. The first three run a distributed checkout as a saga over Kafka.
--
-- The program and the files that model it
--   * common/common: what all services share. Common/Errors models errors.py, with the
--     database's own errors and what a flush checks of an Integer column; Common/Events models
--     events/schemas.py and events/topics.py; Common/Outbox models db/outbox.py, its table,
--     enqueue_event and the publisher (Common/Outbox/Publisher: the ordered query, the loop over
--     its rows and the update; Selection and Drain are about the query and the rows that wait,
--     Delivery and InOrder about what the publisher promises); Common/Kafka models kafka/consumer.py and db/idempotency.py: Consumer
--     the handling of one record, Log the run over a partition as a step relation;
--     Common/OrderStatus models order_status.py, and Common/OrderStatus/Machine is about its
--     graph.
--   * services/inventory/app: Inventory/Models holds the tables of models.py; Inventory/Records
--     the internal helpers of services.py (_record_ledger, _publish_...); Inventory/Reserve
--     models InventoryService.reserve; Inventory/Settle models commit_reservation,
--     release_reservation, _restock_committed and expire_stale_reservations, whose loops over
--     reservation.items are one function of the ledger's reason; Inventory/Admin models
--     upsert_stock_item and adjust_stock; Inventory/Consumer models the handlers of consumer.py.
--     Inventory/Quantities, Inventory/Invariant and Inventory/History hold the specification:
--     quantities of one product, the invariant of the database, and the committed transactions
--     as a step relation.
--   * services/order/app: Order/Models holds the tables of models.py; Order/Saga models
--     OrderSaga of saga.py; Order/Consumer models the handlers of consumer.py; Order/Service and
--     Order/Checkout model OrderService of services.py. Order/Saga/Trail is the invariant of an
--     order, Order/Kept carries it to the database, and Order/History is the step relation of
--     its committed transactions.
--   * services/payment/app: Payment/Models holds the tables of models.py; Payment/Gateway the
--     provider of mock_gateway.py; Payment/Service models PaymentService of services.py and
--     Payment/Consumer the handlers of consumer.py. Payment/Invariant, Payment/History,
--     Payment/Announced and Payment/Rollback hold the specification.
--   * services/auth/app: Auth/Models holds the tables; Auth/Jwt models common/common/auth/jwt.py
--     and security.py; Auth/RateLimit, Auth/Repositories and Auth/Service model rate_limit.py,
--     repositories.py and services.py; Auth/Requests is get_session of dependencies.py and the
--     step relation of the requests.
--   * System: the order, inventory and payment services together, each hearing of the others by
--     the rows of their outboxes.
--   * Prelude: numbers, tests, lists, integers and tables for all of these.
--
-- How they interact: checkout stores an order with an order.created row in the outbox; the
-- inventory reserves its units and announces inventory.reserved or inventory.reservation_failed;
-- the payment service charges the card and announces payment.succeeded or payment.failed; the
-- order moves along its status machine and the inventory commits or releases the reservation.
--
-- How the code is modelled
--   * A transaction is a function from the database to a Result: `ok` with the new database is a
--     commit, `err` is an exception, after which Database.transaction rolls everything back. The
--     session's pending writes are written at once, since no code between reads them back.
--   * Concurrent transactions on the same rows take turns by their row locks, so a history is a
--     sequence of whole transactions. What a transaction sees of others meanwhile is an
--     argument: the rows that SKIP LOCKED passes over (`elsewhere`), the lost race for the
--     UNIQUE order_id (`raced`), the lost race for an idempotency key (`Race`). Row locks are
--     recorded in `locked`; deadlocks are not modelled.
--   * Times are numbers of seconds, UUIDs are numbers in the order of their text, money is an
--     integer of minor units, new uuid4 values are arguments. `str.upper` is a parameter of the
--     restock.
--   * Integer columns are 32 bits wide with CHECK (>= 0) on the stock's quantities: `column`
--     refuses what the flush would. The width of low_stock_threshold, of String and of Numeric
--     columns is not modelled.
--   * A table is an association list by its primary or UNIQUE key. An order holds its items and
--     its history, the newest row first. Every loop is structural, so that no fuel is needed;
--     the rounds of the base consumer's retry loop are counted down from max_retries.
--   * The payment provider is the repository's own mock. What it has captured (`captured`)
--     stands beside the payment database and is no part of its transactions. A charge that times
--     out is taken to capture nothing, as in the mock, although the comment on GatewayTimeout in
--     services/payment/app/mock_gateway.py says that at a real provider it may have gone through:
--     statements on the money taken are about the charges that the mock accepts.
--   * Refunds of one payment take turns by the lock of its row and see what the one before wrote.
--     services/payment/app/routers/admin.py loads the payment before it is locked, so that two
--     admin refunds at the same time may work on older attributes; this is not modelled.
--   * An outbox row's place in its table stands for its id. When it was created is an argument of
--     the publisher by place: it is the database's now(), the start of the inserting transaction,
--     so that the order of places need not be that of creation and rows of one transaction tie.
--     For rows that tie the database chooses; the model takes them by place. The columns
--     last_error of the outbox and correlation_id of an order, which nothing decides on, are left
--     out.
--   * In System an event may be handled late, out of order and any number of times once its row
--     was enqueued: Common/Kafka and Common/Outbox show what the delivery itself adds. A topic's
--     events come from the service under whose name events/topics.py lists it.
--   * In Common/Kafka a partition is a list of records; a failed attempt, a lost broker and the
--     death of the process are arguments and steps (`faults`, `broker_up`, `dies`).
--   * Libraries are parameters of Auth: PyJWT, bcrypt, SHA-256, case folding (`Libraries`) and
--     Redis (`Redis`). A refresh token's hash is a number.
--   * The auth service locks no row, so that its requests can overlap; Auth/Requests takes them one
--     after another, and what happens when two overlap is not modelled. Auth/RateLimit/Window states
--     what Redis documents of each command (GET, TTL, INCR, EXPIRE with and without NX, DEL) as a
--     record of laws.
--
-- Not modelled: the catalog, notification and gateway services, the order service's store of dead
-- letters, the Kafka client and producer, HTTP routers and schemas' field validation, list
-- queries, logging, metrics, migrations and seeds.
pub mod Prelude
pub mod Common
pub mod Inventory
pub mod Order
pub mod Payment
pub mod Auth
pub mod System
