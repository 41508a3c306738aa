-- ===== src/Lib.antt =====
-- The backend of a hotspot and voucher business: routers, vouchers, sessions, customers with a
-- wallet, and billing (backend/internal, in Go). PostgreSQL holds the state; handlers, a worker
-- and webhooks change it through the operations of the store. The paths below are under
-- backend/internal, and migrations/ under the root.
--
-- How the program is modelled
--   * Store.Db: a call of the store takes the faults to come (one entry for each statement: `true`
--     makes it fail in the driver) and a state, and returns a result, the faults that are left and
--     the new state. `transaction` is Begin, the body, Commit, with the deferred Rollback. A
--     theorem over all faults covers every way in which statements fail.
--   * Store.Schema, Store.Sql: the rows of the tables and what a statement computes on a list of
--     rows. A column of money, NUMERIC(12, 2), holds a number of cents. Store.Amount is an amount
--     that is a float64 in Go, of whole cents or between two, and what a column keeps of it; the
--     float64 arithmetic of the fee is a parameter. A price or a multiplier that is given is
--     taken as its column keeps it. A time is a number of seconds, and one of milliseconds in
--     Auth.RateLimit. A statement is atomic, and so is a
--     transaction (the rows that it writes are locked).
--   * Store.Wallet: store/wallet.go. Store.Wallet.Outcome is about how a call ends,
--     Store.Wallet.Ledger about balances and the ledger, Store.Wallet.Bills about bills,
--     Store.Wallet.Covered about amounts with a fraction of a cent.
--   * Store.Billing: store/billing.go. Monthly: the windows of a run; Once: runs that are repeated.
--     date_trunc is a parameter, the record Calendar.
--   * Store.Payments: the payment rows of store/ops.go, with the unique indexes of
--     migrations/0010_wallet.up.sql.
--   * Store.Access, Store.Vouchers, Store.Sessions: store/vouchers.go and store/sessions.go. Spent and
--     Once count the sessions that a voucher opens, Redeem is about how a redemption ends, Usage
--     about the usage logs and the counters of the sessions.
--   * Mikrotik: mikrotik/simulator.go (Simulator) and mikrotik/redis_simulator.go (RedisSimulator),
--     over the routers of Router; Ops has their operations as data, Agree when their states are the
--     same, Refines the comparison. Redis is a map of keys to documents; encoding/json is a
--     parameter, and so are the float64 products, the clock and the random numbers. A counter of
--     bytes is the bits of an int64.
--   * Auth: auth/service.go (Service, Tokens) and middleware/auth.go (Middleware, Tenant), with the
--     JWT library as a parameter. RateLimit: the counters of middleware/db.go. Refresh: the refresh
--     tokens in Redis of handler/auth.go; Rotation runs any sequence of their commands.
--   * Store.Paging: store/store.go. Store.Customers: store/customers.go, of which Pages follows
--     the pages of a listing.
--   * Store.Network, Store.Accounts: the rows of store/infra.go, store/insights.go, store/tenants.go
--     and store/users.go; Store.Routers, Store.Hotspots, Store.RateWindows, Store.Tenants and
--     Store.Users: their operations. A statement that a key or a foreign key of migrations/ may
--     refuse is `constrained`. Store.Isolation runs the writes of one tenant.
--   * Store.World: the database beside what else a caller changes (devices, or keys in Redis), and
--     callers that look at an error and go on.
--   * Mikrotik.Transport: mikrotik/sim_state.go, client.go and sim_transport.go as records of
--     operations, which the worker and the portal take as a parameter.
--   * Worker: a pass of each loop of cmd/worker/main.go (under backend/). Jobs and Tick follow the
--     configuration jobs, Billing the tenants that are billed, Grouping the sessions of a router.
--     The order in which Go iterates over a map is a parameter.
--   * Handler: handler/handlers.go; Handler.Auth: handler/auth.go and AuthDB of middleware/db.go;
--     Handler.Portal: handler/portal.go; Handler.Customers: handler/customers.go, of which Pays follows
--     the payment of a bill; Handler.Sessions: handler/sessions.go, of which Scoped and Closed
--     follow a disconnect; Handler.Infra and
--     Handler.Hotspots: handler/infra.go. Ends puts together what a handler ends with from what its
--     parts do; Charge, Spends, Redeem and Granted do so for a redemption.
--   * Service.Provider, Service.Billing: the gateways of service/payment.go, and charges and
--     settlement of service/billing.go. Webhooks cuts Settle into its statements, Credits counts
--     what they do, Interleaving runs any number of them at once.
--   * Service.VoucherCode: service/voucher.go; Service.Creds: service/creds.go. Random numbers are
--     arguments, and a list that ends is a source that fails.
--   * Common: lists, texts (as lists of bytes), signed integers and Boolean tests.
--   * the modules Tests: runs on a sample, and the theorems at concrete inputs.
--
-- Loops are structural recursion on the list of rows, of characters or of random numbers; no model
-- needs fuel, except the decimal numeral of a number n (Common.Text), where n + 1 rounds are more
-- than its digits. The loop of GenerateBatchCodes runs over the results of the generator.
--
-- Not modelled: HTTP routing and JSON, connections, configuration and logging (pure I/O), HMAC and
-- bcrypt (cryptography), the audit log, and the frontend. Nor are the other handlers, the anomaly engine, alerts
-- and the aggregates in SQL of store/insights.go (the rollup that the worker calls is a parameter), the
-- paged listings, and the REST transport.
pub mod Common
pub mod Store
pub mod Service
pub mod Mikrotik
pub mod Auth
pub mod Worker
pub mod Handler
