-- ===== src/Reconciliation.antt =====
-- crates/reconciliation/src/lib.rs: the sweeps of the order book against the broker. A failure keeps
-- the error of the source in place of the text that `{error:?}` makes of it.
pub mod Known
pub mod Records
pub mod Counted
pub mod Swept
pub mod Totals
pub mod Findings
pub mod Unknown
pub mod Cancelled
use insider_trader.Prelude.{
  ℤ, ◌-ℤ◌, ltb_ℤ, Bool, true, false, ◌&&◌, ◌||◌, not, Option, none, some, List, [], ◌∷◌, ◌++◌, map,
  if◌then◌else◌, is_some_and, any, Text, Result, ok, err, ◌>>=◌, Ordering,
}
use insider_trader.Maps.{Map, text_key, text_cmp, key_eq, get}
use insider_trader.Broker.{
  OrderState, BrokerEvent, BrokerOrderSnapshot, BrokerPositionSnapshot, BrokerSnapshot,
  BrokerGateway,
}
use insider_trader.Execution.{
  OrderRecord, OrderBook, TransitionError, unknown_order, invalid_transition, mismatched_order,
}
use insider_trader.Execution.Book.{
  Outcome, apply_broker_event, apply_cumulative_fill, client_order_ids,
}

pub data ReconcileStatus : Type 0 where
  resolved still_unknown : ReconcileStatus

pub data ReconcileError : Type 0 where
  gateway : Text → ReconcileError
  transition : TransitionError → ReconcileError

pub data SweepFinding : Type 0 where
  is_resolved is_still_unknown : SweepFinding
  sweep_failed : ReconcileError → SweepFinding

pub data SnapshotFinding : Type 0 where
  applied external_order missing_at_broker : SnapshotFinding
  failed : TransitionError → SnapshotFinding

pub record SnapshotReport : Type 0 where
  pub findings : List (Text × SnapshotFinding)
  pub positions : List BrokerPositionSnapshot
  pub account_values : Map Text ℤ

-- The event to apply: a fill is cut to what the cumulative quantity adds.
unfoldable pub event_of :
    OrderRecord → BrokerEvent → Option ℤ → Result TransitionError (Option BrokerEvent)
event_of r (BrokerEvent.filled id quantity price) (some cumulative) =
    if ltb_ℤ cumulative r.filled_quantity_ticks || ltb_ℤ r.intent.quantity_ticks cumulative
    then err mismatched_order
    else ok (
        if ltb_ℤ r.filled_quantity_ticks cumulative
        then some (BrokerEvent.filled id (cumulative -ℤ r.filled_quantity_ticks) price)
        else none)
event_of r event _ = ok (some event)

abbrev pub apply_event : OrderBook → Option BrokerEvent → Outcome OrderBook
apply_event book none = (ok tt, book)
apply_event book (some event) = apply_broker_event book event

-- `?` on a call that changes the book.
abbrev pub then_fill : Text → Option ℤ → Outcome OrderBook → Outcome OrderBook
then_fill id cumulative (err e, book) = (err e, book)
then_fill id none (ok u, book) = (ok tt, book)
then_fill id (some cumulative) (ok u, book) = apply_cumulative_fill book id cumulative

abbrev pub apply_chosen :
    OrderBook
    → BrokerOrderSnapshot
    → Result TransitionError (Option BrokerEvent)
    → Outcome OrderBook
apply_chosen book order (err e) = (err e, book)
apply_chosen book order (ok event) =
    then_fill order.client_order_id order.filled_quantity_ticks (apply_event book event)

abbrev pub apply_to_record :
    OrderBook → BrokerOrderSnapshot → Option OrderRecord → Outcome OrderBook
apply_to_record book order none = (err unknown_order, book)
apply_to_record book order (some r) =
    apply_chosen book order (event_of r order.event order.filled_quantity_ticks)

unfoldable pub apply_snapshot_order : OrderBook → BrokerOrderSnapshot → Outcome OrderBook
apply_snapshot_order book order = apply_to_record book order (get order.client_order_id book)

abbrev pub finding_of : Result TransitionError (Unit {0}) → SnapshotFinding
finding_of (ok u) = applied
finding_of (err e) = failed e

-- The finding on one order of the snapshot, and the book after it.
abbrev pub observe :
    OrderBook → BrokerOrderSnapshot → Option OrderRecord → SnapshotFinding × OrderBook
observe book order none = (external_order, book)
observe book order (some r) =
    let (result, after) = apply_snapshot_order book order in (finding_of result, after)

unfoldable pub observe_all :
    OrderBook → List BrokerOrderSnapshot → List (Text × SnapshotFinding) × OrderBook
observe_all book [] = ([], book)
observe_all book (order ∷ orders) =
    let (finding, after) = observe book order (get order.client_order_id book) in
    let (findings, last) = observe_all after orders in
    ((order.client_order_id, finding) ∷ findings, last)

abbrev pub is_open : OrderState → Bool
is_open OrderState.queued = true
is_open OrderState.sending = true
is_open OrderState.sent = true
is_open OrderState.acknowledged = true
is_open OrderState.partially_filled = true
is_open OrderState.cancel_pending = true
is_open OrderState.replace_pending = true
is_open OrderState.unknown = true
is_open _ = false

-- Whether an order of the snapshot has the id.
abbrev pub observed : List BrokerOrderSnapshot → Text → Bool
observed orders id = any (λ o. key_eq id o.client_order_id) orders

abbrev pub is_missing : OrderBook → List BrokerOrderSnapshot → Text → Bool
is_missing book orders id =
    not (observed orders id) && is_some_and (get id book) (λ r. is_open r.intent.state)

-- The findings on the missing orders among some ids.
unfoldable pub missing_findings :
    OrderBook → List BrokerOrderSnapshot → List Text → List (Text × SnapshotFinding)
missing_findings book orders [] = []
missing_findings book orders (id ∷ ids) =
    let rest = missing_findings book orders ids in
    if is_missing book orders id then (id, missing_at_broker) ∷ rest else rest

-- `sort_by` on the ids, which keeps the order of equal ones.
unfoldable pub insert_finding :
    Text × SnapshotFinding → List (Text × SnapshotFinding) → List (Text × SnapshotFinding)
insert_finding f [] = f ∷ []
insert_finding f (g ∷ gs) =
    let rest = insert_finding f gs in
    elim (text_cmp f.0 g.0) [ Ordering.gt ↦ g ∷ rest | _ ↦ f ∷ g ∷ gs ]

unfoldable pub sort_findings : List (Text × SnapshotFinding) → List (Text × SnapshotFinding)
sort_findings [] = []
sort_findings (f ∷ fs) = insert_finding f (sort_findings fs)

unfoldable pub reconcile_snapshot : OrderBook → BrokerSnapshot → SnapshotReport × OrderBook
reconcile_snapshot book snapshot =
    let (findings, after) = observe_all book snapshot.orders in
    let missing = missing_findings after snapshot.orders (client_order_ids after) in
    (
      record {
        findings = sort_findings (findings ++ missing);
        positions = snapshot.positions;
        account_values = snapshot.account_values;
      },
      after,
    )

abbrev pub is_unknown : OrderState → Bool
is_unknown OrderState.unknown = true
is_unknown _ = false

abbrev pub resolve_outcome : Outcome OrderBook → Result ReconcileError ReconcileStatus × OrderBook
resolve_outcome (ok u, book) = (ok resolved, book)
resolve_outcome (err e, book) = (err (transition e), book)

-- What is done with the answer of the gateway.
abbrev pub resolve :
    OrderBook → Result Text (Option BrokerEvent) → Result ReconcileError ReconcileStatus × OrderBook
resolve book (err e) = (err (gateway e), book)
resolve book (ok none) = (ok still_unknown, book)
resolve book (ok (some event)) = resolve_outcome (apply_broker_event book event)

abbrev pub reconcile_record :
    BrokerGateway
    → OrderBook
    → Text
    → Option OrderRecord
    → Result ReconcileError ReconcileStatus × OrderBook
reconcile_record g book id none = (err (transition unknown_order), book)
reconcile_record g book id (some r) =
    if not (is_unknown r.intent.state)
    then (err (transition (invalid_transition r.intent.state OrderState.unknown)), book)
    else resolve book (g.reconcile id)

unfoldable pub reconcile_unknown :
    BrokerGateway → OrderBook → Text → Result ReconcileError ReconcileStatus × OrderBook
reconcile_unknown g book id = reconcile_record g book id (get id book)

unfoldable pub unknown_ids : OrderBook → List Text → List Text
unknown_ids book [] = []
unknown_ids book (id ∷ ids) =
    let rest = unknown_ids book ids in
    if is_some_and (get id book) (λ r. is_unknown r.intent.state) then id ∷ rest else rest

abbrev pub sweep_finding : Result ReconcileError ReconcileStatus → SweepFinding
sweep_finding (ok resolved) = is_resolved
sweep_finding (ok still_unknown) = is_still_unknown
sweep_finding (err e) = sweep_failed e

unfoldable pub sweep :
    BrokerGateway → OrderBook → List Text → List (Text × SweepFinding) × OrderBook
sweep g book [] = ([], book)
sweep g book (id ∷ ids) =
    let (result, after) = reconcile_unknown g book id in
    let (findings, last) = sweep g after ids in ((id, sweep_finding result) ∷ findings, last)

unfoldable pub reconcile_all_unknown :
    BrokerGateway → OrderBook → List (Text × SweepFinding) × OrderBook
reconcile_all_unknown g book = sweep g book (unknown_ids book (client_order_ids book))
