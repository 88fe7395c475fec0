-- ===== src/Reconciliation/Findings.antt =====
-- What the findings of `reconcile_snapshot` of crates/reconciliation/src/lib.rs say.
use insider_trader.Prelude.{
  ◌≡◌, refl, sym, ap, ◌∙◌, arith, Bool, true, false, ◌||◌, Option, none, some, List, [], ◌∷◌, ◌++◌,
  is_some, Option-cases, any, All, append-All, Text, ok, err, Bool-cases, inl, inr, Ordering,
}
use insider_trader.Maps.{Map, text_key, text_cmp, key_eq, key_eq_iff, get, keys}
use insider_trader.Broker.{BrokerOrderSnapshot, BrokerSnapshot}
use insider_trader.Execution.{OrderRecord, OrderBook}
use insider_trader.Execution.Book.{client_order_ids}
use insider_trader.Reconciliation.{
  SnapshotFinding, applied, external_order, missing_at_broker, failed, finding_of,
  apply_snapshot_order, observe, observe_all, is_open, observed, is_missing, missing_findings,
  insert_finding, sort_findings, reconcile_snapshot,
}
use insider_trader.Reconciliation.Known.{SameOrders, observe-Advances, Advances-SameOrders}

-- What a finding on an order says of the books before and after, and of the snapshot.
abbrev pub IsJustified :
    OrderBook → OrderBook → List BrokerOrderSnapshot → Text × SnapshotFinding → Type 0
IsJustified book after orders (id, applied) =
    (observed orders id ≡ true) × (is_some (get id book) ≡ true)
IsJustified book after orders (id, failed e) =
    (observed orders id ≡ true) × (is_some (get id book) ≡ true)
IsJustified book after orders (id, external_order) =
    (observed orders id ≡ true) × (is_some (get id book) ≡ false)
IsJustified book after orders (id, missing_at_broker) =
    (observed orders id ≡ false)
    × ((r : OrderRecord) × (get id after ≡ some r) × (is_open r.intent.state ≡ true))

All-more {ℓ} :
    {A : Type ℓ} (P Q : A → Type 0) (xs : List A) → ((x : A) → P x → Q x) → All P xs → All Q xs
All-more P Q [] f h = tt
All-more P Q (x ∷ xs) f h = (f x h.0, All-more P Q xs f h.1)

-- A finding on an observed order, which is what `observe_all` gives.
abbrev IsObserved : OrderBook → List BrokerOrderSnapshot → Text × SnapshotFinding → Type 0
IsObserved book orders (id, applied) = (observed orders id ≡ true) × (is_some (get id book) ≡ true)
IsObserved book orders (id, failed e) = (observed orders id ≡ true) × (is_some (get id book) ≡ true)
IsObserved book orders (id, external_order) =
    (observed orders id ≡ true) × (is_some (get id book) ≡ false)
IsObserved book orders (id, missing_at_broker) = true ≡ false

IsObserved-more :
    (book after : OrderBook) (order : BrokerOrderSnapshot) (orders : List BrokerOrderSnapshot)
    (f : Text × SnapshotFinding)
    → SameOrders book after
    → IsObserved after orders f
    → IsObserved book (order ∷ orders) f
IsObserved-more book after order orders (id, applied) same h =
    (ground (arith, h.0), sym (same id) ∙ h.1)
IsObserved-more book after order orders (id, failed e) same h =
    (ground (arith, h.0), sym (same id) ∙ h.1)
IsObserved-more book after order orders (id, external_order) same h =
    (ground (arith, h.0), sym (same id) ∙ h.1)
IsObserved-more book after order orders (id, missing_at_broker) same h = cc

observed_head :
    (order : BrokerOrderSnapshot) (orders : List BrokerOrderSnapshot)
    → observed (order ∷ orders) order.client_order_id ≡ true
observed_head order orders =
    let self : key_eq order.client_order_id order.client_order_id ≡ true =
      (key_eq_iff order.client_order_id order.client_order_id).1 refl in
    ground (arith, self)

observe-IsObserved :
    (book : OrderBook) (order : BrokerOrderSnapshot) (orders : List BrokerOrderSnapshot)
    (o : Option OrderRecord)
    → get order.client_order_id book ≡ o
    → IsObserved book (order ∷ orders) (order.client_order_id, (observe book order o).0)
observe-IsObserved book order orders none e = (observed_head order orders, ap is_some e)
observe-IsObserved book order orders (some r) e =
    elim (apply_snapshot_order book order).0
      as (λ x. IsObserved book (order ∷ orders) (order.client_order_id, finding_of x)) [
        | ok u ↦ (observed_head order orders, ap is_some e)
        | err x ↦ (observed_head order orders, ap is_some e)
      ]

observe_all-AreObserved :
    (book : OrderBook) (orders : List BrokerOrderSnapshot)
    → All (IsObserved book orders) (observe_all book orders).0
unfolding observe_all
observe_all-AreObserved book [] = tt
observe_all-AreObserved book (order ∷ orders) =
    let known = get order.client_order_id book in
    let after = (observe book order known).1 in
    let same = Advances-SameOrders book after (observe-Advances book order known) in
    (
      observe-IsObserved book order orders known refl,
      All-more (IsObserved after orders) (IsObserved book (order ∷ orders))
          (observe_all after orders).0 (λ f h. IsObserved-more book after order orders f same h)
          (observe_all-AreObserved after orders),
    )

justified :
    (book after : OrderBook) (orders : List BrokerOrderSnapshot) (f : Text × SnapshotFinding)
    → IsObserved book orders f
    → IsJustified book after orders f
justified book after orders (id, applied) h = h
justified book after orders (id, failed e) h = h
justified book after orders (id, external_order) h = h
justified book after orders (id, missing_at_broker) h = cc

missing_open :
    (after : OrderBook) (orders : List BrokerOrderSnapshot) (id : Text)
    → is_missing after orders id ≡ true
    → (observed orders id ≡ false)
      × ((r : OrderRecord) × (get id after ≡ some r) × (is_open r.intent.state ≡ true))
missing_open after orders id h = elim (Option-cases (get id after)) [
  | inl absent ↦ absurd (ground (arith, h, absent))
  | inr (r, here) ↦ (ground (arith, h), (r, here, ground (arith, h, here)))
]

missing-AreJustified :
    (book after : OrderBook) (orders : List BrokerOrderSnapshot) (ids : List Text)
    → All (IsJustified book after orders) (missing_findings after orders ids)
unfolding missing_findings
missing-AreJustified book after orders [] = tt
missing-AreJustified book after orders (id ∷ ids) = elim (Bool-cases (is_missing after orders id)) [
  | inl gone ↦
      rw gone (missing_open after orders id gone, missing-AreJustified book after orders ids)
  | inr here ↦ rw here (missing-AreJustified book after orders ids)
]

insert-All :
    (P : Text × SnapshotFinding → Type 0) (f : Text × SnapshotFinding)
    (fs : List (Text × SnapshotFinding))
    → P f
    → All P fs
    → All P (insert_finding f fs)
unfolding insert_finding
insert-All P f [] h k = (h, tt)
insert-All P f (g ∷ gs) h k =
    let rest = insert-All P f gs h k.1 in
    elim (text_cmp f.0 g.0)
      as (λ x. All P (elim x [ Ordering.gt ↦ g ∷ insert_finding f gs | _ ↦ f ∷ g ∷ gs ])) [
        | Ordering.gt ↦ (k.0, rest)
        | Ordering.lt ↦ (h, k)
        | Ordering.eq ↦ (h, k)
      ]

sort-All :
    (P : Text × SnapshotFinding → Type 0) (fs : List (Text × SnapshotFinding))
    → All P fs
    → All P (sort_findings fs)
unfolding sort_findings
sort-All P [] h = tt
sort-All P (f ∷ fs) h = insert-All P f (sort_findings fs) h.0 (sort-All P fs h.1)

-- Every finding of a snapshot is justified: an order applied or failed is in the snapshot and was in
-- the book, an external one is in the snapshot and was not, and a missing one is not in the snapshot
-- and is open in the book after the sweep.
pub reconcile_snapshot-IsJustified :
    (book : OrderBook) (snapshot : BrokerSnapshot)
    → let (report, after) = reconcile_snapshot book snapshot in
      All (IsJustified book after snapshot.orders) report.findings
unfolding reconcile_snapshot
reconcile_snapshot-IsJustified book snapshot =
    let orders = snapshot.orders in
    let (findings, after) = observe_all book orders in
    let missing = missing_findings after orders (client_order_ids after) in
    let P = IsJustified book after orders in
    sort-All P (findings ++ missing) (
      append-All P findings missing
        (All-more (IsObserved book orders) P findings (λ f h. justified book after orders f h)
          (observe_all-AreObserved book orders))
        (missing-AreJustified book after orders (client_order_ids after)))

-- The finding that an order is missing.
abbrev pub is_missing_finding : Text → Text × SnapshotFinding → Bool
is_missing_finding id (j, missing_at_broker) = key_eq id j
is_missing_finding id (j, applied) = false
is_missing_finding id (j, external_order) = false
is_missing_finding id (j, failed e) = false

any-insert_finding :
    (p : Text × SnapshotFinding → Bool) (f : Text × SnapshotFinding)
    (fs : List (Text × SnapshotFinding))
    → any p (insert_finding f fs) ≡ (p f || any p fs)
unfolding insert_finding
any-insert_finding p f [] = refl
any-insert_finding p f (g ∷ gs) =
    let rest = any-insert_finding p f gs in
    elim (text_cmp f.0 g.0)
      as (λ x.
        any p (elim x [ Ordering.gt ↦ g ∷ insert_finding f gs | _ ↦ f ∷ g ∷ gs ])
        ≡ (p f || (p g || any p gs))) [
          | Ordering.gt ↦ ground (arith, rest)
          | Ordering.lt ↦ refl
          | Ordering.eq ↦ refl
        ]

pub any-sort_findings :
    (p : Text × SnapshotFinding → Bool) (fs : List (Text × SnapshotFinding))
    → any p (sort_findings fs) ≡ any p fs
unfolding sort_findings
any-sort_findings p [] = refl
any-sort_findings p (f ∷ fs) =
    any-insert_finding p f (sort_findings fs) ∙ ap (λ b. p f || b) (any-sort_findings p fs)

pub any-append :
    (p : Text × SnapshotFinding → Bool) (xs ys : List (Text × SnapshotFinding))
    → any p (xs ++ ys) ≡ (any p xs || any p ys)
any-append p [] ys = refl
any-append p (x ∷ xs) ys = ground (arith, any-append p xs ys)

missing_findings-found :
    (after : OrderBook) (orders : List BrokerOrderSnapshot) (id : Text) (r : OrderRecord)
    (m : Map Text OrderRecord)
    → is_missing after orders id ≡ true
    → get id m ≡ some r
    → any (is_missing_finding id) (missing_findings after orders (keys m)) ≡ true
unfolding missing_findings get
missing_findings-found after orders id r [] gone h = cc
missing_findings-found after orders id r ((j, w) ∷ m) gone h = elim (Bool-cases (key_eq id j)) [
  | inl same ↦
      let this : is_missing after orders j ≡ true =
        ap (is_missing after orders) (sym ((key_eq_iff id j).0 same)) ∙ gone in
      rw this (ground (arith, same))
  | inr other ↦
      let rest = missing_findings-found after orders id r m gone (ground (arith, h, other)) in
      elim (Bool-cases (is_missing after orders j)) [
        | inl here ↦ rw here (ground (arith, rest))
        | inr no_more ↦ rw no_more rest
      ]
]

-- Every order that is open in the book after a snapshot, and that the snapshot does not have, is
-- reported as missing.
pub reconcile_snapshot-missing :
    (book : OrderBook) (snapshot : BrokerSnapshot) (id : Text) (r : OrderRecord)
    → get id (reconcile_snapshot book snapshot).1 ≡ some r
    → is_open r.intent.state ≡ true
    → observed snapshot.orders id ≡ false
    → any (is_missing_finding id) (reconcile_snapshot book snapshot).0.findings ≡ true
unfolding reconcile_snapshot
reconcile_snapshot-missing book snapshot id r here opened absent =
    let (findings, after) = observe_all book snapshot.orders in
    let missing = missing_findings after snapshot.orders (client_order_ids after) in
    let p = is_missing_finding id in
    let gone : is_missing after snapshot.orders id ≡ true = ground (arith, here, opened, absent) in
    any-sort_findings p (findings ++ missing)
    ∙ any-append p findings missing
    ∙ ground (arith, missing_findings-found after snapshot.orders id r after gone here)
