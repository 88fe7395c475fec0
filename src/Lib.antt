-- ===== src/Lib.antt =====
-- The trading core of the repository: what a broker is asked for, what the account holds, what the
-- risk engine lets through, and how an order lives until it has ended; and the services around it:
-- the journal, the supervisor, the event bus, the scheduler and the alerts.
--
-- The parts and how they interact. A target for a position comes to the risk engine, which reads
-- the portfolio and answers with a decision; limits come from a policy of revisions by scope and
-- time. An approved target becomes an order intent, which the preflight check holds against the
-- broker's certified capabilities, a schedule may divide into child orders, and the order book
-- carries through its lifecycle while it calls the broker's gateway. Fills and prices come back
-- into the portfolio. After a lost connection a reconciliation brings the order book to what the
-- broker reports, through the same calls. Events are written to a journal, whose file survives a
-- crash; they travel between threads on a bounded bus; work is queued by priority and deadline; and
-- a supervisor restarts the components that fail, or isolates them. Alerts are routed to the
-- channels of the operator.
--
-- Prelude, Maps: shared tests, lists, integers, machine integers, results, texts and ordered maps.
-- Ids: the identities of crates/common-types/src/lib.rs, their text and its parse.
-- Market: `AssetClass` of crates/market-types/src/lib.rs.
-- Broker: the types and the trait `BrokerGateway` of crates/broker-api/src/lib.rs; the gateway is
--   a record of the answers of an adapter, arbitrary in every theorem but where one says more. Broker/Preflight is
--   `CapabilityMatrix`.
-- Portfolio: `Portfolio` of crates/portfolio/src/lib.rs with its marks, its reconciliation and its
--   equity peak. Portfolio/Fill is `apply_fill`, in two halves: `plan_fill` is what precedes the
--   first change, `commit_fill` the changes and the narrowings between them.
-- Risk: `RiskEngine` of crates/risk-engine/src/lib.rs. Risk/Check is `check`, Risk/Guards
--   `check_with_guardrails`, Risk/States the transitions of the engine's state, Risk/Policy
--   `ScopedRiskPolicy`.
-- Execution: `OrderRecord` and the errors of crates/execution/src/lib.rs, and `legal_transition`.
--   Execution/Book is `OrderBook`, Execution/Submit the functions that call the gateway, with
--   the calls that each makes as a part of its result,
--   Execution/Schedule `plan_children`, Execution/Children `ChildPlan`, Execution/Plan
--   `plan_target` and `plan_target_with_guardrails`.
-- Reconciliation: crates/reconciliation/src/lib.rs, `reconcile_snapshot` and
--   `reconcile_all_unknown`, on the order book of Execution/Book and the gateway of Broker.
-- ExchangeSim: `PaperBroker` of crates/exchange-sim/src/lib.rs, a gateway that fills at given marks.
-- Journal: the frames, the scan, `Journal::open` and `append` of crates/journal/src/lib.rs, on the
--   bytes of the file. Journal/Digest is `sha256`, Journal/Seal the seals and the backups.
-- Supervisor: `Supervisor` of crates/supervisor/src/lib.rs.
-- EventBus: `BoundedBus` of crates/event-bus/src/lib.rs. EventBus/Threads has a step for each
--   holding of its lock by one of any number of threads.
-- Scheduler: `Scheduler` of crates/scheduler/src/lib.rs.
-- Alerts: `AlertRouter` of crates/alerts/src/lib.rs.
-- Tests: runs on concrete data.
--
-- State. A method that changes `self` is a function from the state to its result and the state
-- after it; a change that precedes an error stays in the state. `?` and early returns are chains of
-- `Result`. An order book is a map by client order id, and a plan a list of children, as in the
-- source.
--
-- Numbers. A value of `i64` or `i128` is an integer; the checked operations and the narrowings
-- return `none` where the result does not fit, with the bounds of the type. `u64`, `u32` and `usize`
-- values are natural numbers with their upper bounds where the source tests them; `usize` has 64
-- bits. `f64` is an abstract type with the tests that the engine makes of it, so nothing is assumed
-- of floating-point arithmetic. The digits of a number are computed with fuel 20, and a number of 64
-- bits has at most 20 digits; the text of an identity has its 32 hexadecimal digits. The padding of
-- a digest has fuel 64, as a length modulo 64 is reached within 64 pushes, and a cancellation in the
-- scheduler has a round for each queued work. The scan of a journal goes down its bytes. All other
-- loops are over lists.
--
-- The outside. An append meets a file system that writes the frame, writes a part of it, or fails to
-- sync it; the other calls of the file system succeed, except that a file may be absent. A condition
-- variable wakes any one of the threads that wait for it, and may wake one for no reason. The heap
-- of the standard library is a list from which a greatest element is taken. Locks are not poisoned.
-- A path is its text, and a sidecar is its text or, where it is not UTF-8, the number of its bytes.
--
-- Not modelled: corporate actions, the optimizer, the targets from proposals, stress scenarios, the
-- snapshot of a policy, limit styles and cost reports of the same crates; the lock file of a
-- journal's writer; and the other crates, which replay, display, speak to vendors or compute scores
-- in floating point.
pub mod Prelude
pub mod Maps
pub mod EventBus
pub mod Ids
pub mod Market
pub mod Broker
pub mod Portfolio
pub mod Risk
pub mod Scheduler
pub mod Supervisor
pub mod Execution
pub mod Reconciliation
pub mod ExchangeSim
pub mod Alerts
pub mod Journal
pub mod Tests
