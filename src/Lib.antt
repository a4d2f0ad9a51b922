-- ===== src/Lib.antt =====
-- A model of the core of the fashion ERP backend, a NestJS service over MySQL, and the theorems that
-- make it correct.
--
-- The program is a set of services. Each one validates a request, opens a database transaction,
-- locks the rows that it needs, writes them, and either returns or throws an `AppException`, which
-- rolls the transaction back. A service is modelled by functions over an explicit store: a record
-- with a list for each table that the service writes. Tables that it only reads are arguments. A
-- throw is a value (`Result.throw`) that carries the error code; `run` and `run_after` (Common) stand
-- for `TransactionService.run`, with the checks that come before it.
--
-- Files, with the source under src/ of the repository:
-- - Common: error codes, transactions (core/errors, core/transaction), and shared helpers.
-- - Decimal: `String(n)` and `padStart` on digits. Double: JavaScript numbers with a fraction.
-- - Numbering: document numbers and the per-company, per-year counters
--   (modules/inventory/utils/document-number.ts and the `generate...Number` methods);
--   Numbering/Retry: `retryOnDuplicateEntry` (modules/inventory/utils/upsert-retry.ts).
-- - Inventory/Stock: the stock and movement tables, and the row lock
--   (modules/inventory/entities, utils/stock-lock.ts); Inventory/Reconciliation: getReconciliation of
--   services/inventory-ledger.service.ts.
-- - Inventory/Store: the documents' tables. Inventory/Adjustment, Inventory/Transfer and
--   Inventory/Receipt: `create` of stock-adjustments, stock-transfers and goods-receipts.service.ts,
--   with every check, lock, loop and write; Inventory/Orders: what a receipt reads of purchase orders
--   (modules/purchase/entities). Inventory/History: any sequence of these requests
--   and of confirmations of sales and of sale returns.
-- - Accounting/DoubleEntry: modules/accounting/utils/double-entry.ts. Accounting/Store: the tables.
--   Accounting/Period: accounting-period-resolver.service.ts. Accounting/Journal:
--   journal-entries.service.ts (create, post, cancel, createInternal, findBySource).
--   Accounting/Posting: accounting-posting.service.ts (postPayment, reversePayment).
--   Accounting/TrialBalance: trial-balance.service.ts. Accounting/History: any sequence of requests
--   to these services and of changes to the periods by hand. Accounting/Chart: accounts.service.ts
--   (create, update with its walk up the parents). The walk is a recursion on the steps that the code
--   still allows.
-- - Outbox: modules/outbox (create, claimBatch, publishOne, markPublished, markFailed, tick,
--   computeBackoffMs). Outbox/Delivery: any number of publishers in any interleaving. Outbox/Tick:
--   one tick of one of them.
-- - Leave: modules/hr/services/leave-requests.service.ts (create, approve, reject, cancel);
--   Leave/Deciding, Leave/Sole and Leave/Once: who decides, and how often.
-- - Promotions: modules/promotions/services/promotions.service.ts (create, update,
--   resolveAndLockForUse, incrementUsage, computeDiscountAmount); Promotions/Late: an update beside a
--   sale.
-- - Sales: modules/sales/services/sales.service.ts (findByIdInCompany, cancel, ship, deliver,
--   applyPayment). Sales/Catalog and Sales/Pricing: the price of a line
--   (resolveItemPricing, with resolveSelectionForUsage and resolveActivePrice of
--   modules/products/services). Sales/Checks and Sales/Create: create, with the checks, the totals, the
--   promotion and the checkout key. Sales/Confirm: confirm, with the stock issue and the points earned.
--   Sales/Late: what a save of an entity that was read earlier does.
-- - SaleReturns: modules/sales-returns/services/sale-returns.service.ts (create); SaleReturns/Confirm:
--   its confirm and cancel. They stand on the store of Sales.
-- - Payments: the tables of modules/payments and the checks of payments.service.ts.
--   Payments/Documents: applyPayment, unapplyPayment and applyRefund of the sales, purchase-invoices,
--   purchase-orders and sale-returns services, and the loops that call them. Payments/Create: create.
--   Payments/Change: reverse and reallocate. Payments/History: any sequence of these requests.
-- - Loyalty: modules/loyalty/services (earnForSale, reverseForSaleReturn, redeem,
--   getAvailableBalance, getActiveProgramOrNull).
--
-- `create` of the payments is where the parts meet: it applies amounts to sales, invoices, orders and
-- returns, posts a journal through `post_payment` of Accounting and writes an event through
-- `create_event` of Outbox, all in its own transaction. `confirm` of a sale locks and lowers the stock
-- of Inventory and earns the points of Loyalty; the creation of one counts a use of Promotions.
--
-- A journal is a row of `entries` with its rows of `lines`. Payments reach it through `post_payment`
-- and `reverse_payment`, which Payments run inside their own transaction; the columns of a
-- payment, its method, customer and supplier that posting reads are records of their own. The unique
-- index on the source of a journal is not a failure of the model: `postPayment` looks the source up
-- first, reversals take a fresh source id, and nothing else runs in between. `cancel`, which runs in
-- no transaction, is modelled both in one step and as its read and its save with another request in
-- between.
--
-- Conventions. Ids are UUIDs that the code compares for equality and sorts by `localeCompare`; the
-- model's ids are numbers with their order. Fresh ids come from `next_id`. JavaScript numbers are
-- whole here, and exact below 2^53, but for those of Double; amounts of money
-- count cents, as `toCents` reads a DECIMAL(14,2); times are the numbers of their digits,
-- YYYYMMDDhhmmss, and dates YYYYMMDD; quantities that can fall below zero are integers. A DECIMAL(14,4)
-- factor counts ten-thousandths, so that the product with a quantity and its test for a whole number
-- are exact; the source computes it in floating point with a tolerance of 1e-9, which agrees while
-- the product stays below about a million. Request fields have the types that the DTO's validators
-- enforce. Times and users are arguments.
--
-- What other requests do between a read and the transaction or the save that follows it is an
-- argument `others`, a function on stores, of every request that reads outside its transaction. A
-- violated unique index on the idempotency key ends the transaction of a payment in `ok none`. The
-- JSON text of an event is an argument, a function of its payload.
--
-- Where a rate or a promotion comes in (points earned, the value of points redeemed, a discount and the
-- totals after it, the share of the points that a return takes back), the model computes in doubles, as
-- the source does: Double has IEEE 754 numbers that are not negative, with their rounding, and
-- `toFixed(2)`; Double/Bounds how far they are from exact results. What a sale's items add up to is in
-- whole cents; the source adds up doubles of them.
--
-- A transaction runs on its own, so that the creation of a sale with a
-- key sees every sale that has it; its catch of a duplicate entry, which repeats that lookup, has
-- nothing to do here.
--
-- Loops are recursions on the lists that they run over. The only fuel is in `decimal` (a number's
-- digits, with more fuel than digits by construction), in the spacing of doubles, where 161 halvings are
-- enough below 2^63, and in the retry, where it is the number of
-- attempts that the code allows.
--
-- Not modelled: HTTP controllers, guards and DTO decorators, the paginated read views and their joins,
-- Redis, the Kafka client (its answers are arguments), the AI assistant, error texts, and failures of
-- the database other than the duplicate entries that `retryOnDuplicateEntry` and the creation of a
-- payment handle. The lifecycle of purchase orders and invoices, purchase returns and the payroll have
-- no model yet. Row locks are modelled by the order in which they are taken; a transaction otherwise
-- runs on its own.
pub mod Accounting
pub mod Common
pub mod Decimal
pub mod Double
pub mod Numbering
pub mod Inventory
pub mod Leave
pub mod Loyalty
pub mod Outbox
pub mod Payments
pub mod Promotions
pub mod SaleReturns
pub mod Sales
