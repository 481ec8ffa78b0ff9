-- ===== src/Lib.antt =====
-- Kora OS: the API server of a business system for shops with a live queue (apps/api). The library
-- models the parts of apps/api/src that decide about money, about who serves whom, and about who
-- may do what.
--
-- A request passes the tenant guard (Access/Guard: TenantAccessGuard.canActivate), which resolves
-- the member's context (Access/Tenant: TenantContextService.resolve) and the plan's entitlements
-- (Access/Entitlements: EntitlementsService), and reaches a service. A customer's entry in the
-- queue of a branch is called, moved and cancelled (Visits/Queue: QueueCommandsService), a service
-- session is started for it and ends it (Visits/Sessions, Starting, Ending:
-- ServiceSessionsService). A checkout is created from a completed session or for a sale of
-- products, and adjusted or voided while it is unpaid (Checkouts/Creation, Adjustments:
-- CheckoutsService). Payments of a checkout are recorded, voided, confirmed, disputed and resolved
-- (Sales/Recording, Payments: PaymentsService, PaymentVerificationsService,
-- PaymentDisputesService), each followed by a recalculation of the checkout's status, which posts
-- one transaction once the payments cover the total (Sales/Settlement: deriveCheckoutSettlement,
-- CheckoutSettlementService, TransactionPostingService.postForCheckout). A posted sale is corrected
-- by refunds and reversals, which are requested, decided and executed (Corrections/Requests,
-- Decisions: TransactionCorrectionsService; Corrections/Execution:
-- TransactionCorrectionExecutionService); an execution pays out, adjusts the commission and puts
-- stock back. Cash goes through the sessions of a register (Cash/Sessions: CashSessionsService),
-- stock through movements (Inventory/Stock: BranchInventoryService). Commission is accrued per
-- service line of a transaction (Commissions/Accrual: CommissionAccrualService) by the utilities of
-- Commissions/Precedence, Allocation and Calculation, and taken back by corrections
-- (Commissions/Adjustment: CommissionAdjustmentService); opening hours are sets of local times
-- (Scheduling/LocalTime, Intervals). Money is the check of amounts that most of them call.
--
-- The state of a service is the rows that its database transaction works on: Visits/Schema has the
-- tables of the queue and of the sessions; Sales/Schema the rows of one checkout, whose row every
-- change of a payment locks first; Cash/Sessions one cash session with its ledger, under the same
-- kind of lock; Transactions the rows of a posted transaction; Corrections/Schema those of one sale
-- with its corrections, accruals and drawers, which an execution locks, and with the stock;
-- Inventory/Stock the stock of an organization; Checkouts/Schema the checkouts before they are
-- paid. A handler takes the rows that it reads before its transaction and those that the
-- transaction finds, which other requests may have changed; it answers with the rows that it leaves
-- or with the exception that it throws (Common/Exceptions), and then nothing has changed. Runs of
-- the handlers are step relations (Visits/Serving/Runs, Sales/Runs, Cash/Runs, Inventory/Runs,
-- Corrections/Runs, Checkouts/Runs), in which the reads before a transaction may be stale. The
-- movement of a sale (applySaleMovement) reads and writes the stock in a transaction that is not
-- serializable, so its read is also stale in these runs; whether the upsert locks the row is up to
-- the client library and the database, and is the condition `IsLocked` of Inventory/Runs. An
-- execution of a correction takes what others commit in between as a function (`meanwhile`).
--
-- Numbers: amounts and identifiers are natural numbers where the code has checked or generated
-- them, and integers where a sign can arise; Money/Bounds has the limits that keep sums inside 32
-- bits. Loops over lists are structural, so no function needs fuel. Identifiers (UUIDs) are only
-- compared; a text that is only stored is left out, except that local times are texts.
--
-- Not modelled: controllers, DTO validation, views, pagination and events; the audit trail outside
-- the visits; retries over random references, which change no other column; appointments and the
-- availability engine, whose answers are arguments; inventory, commission accrual and receipts
-- while a transaction is posted, whose answer is an argument there; the corrective receipt but for
-- the amount left to refund; commission rules, reports, discovery, marketplace orders, staff,
-- authentication and platform administration; the web and Android clients. Time zones and dates use
-- the luxon package.
pub mod Common
pub mod Access
pub mod Cash
pub mod Checkouts
pub mod Commissions
pub mod Corrections
pub mod Inventory
pub mod Money
pub mod Sales
pub mod Scheduling
pub mod Transactions
pub mod Visits
