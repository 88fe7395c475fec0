-- ===== src/Execution/Children/Started.antt =====
-- A new plan of crates/execution/src/lib.rs.
use insider_trader.Prelude.{
  ℕ, ℤ, pos, refl, ap, ◌+◌, ◌≤◌, ◌<◌, ◌≡◌, Bool-cases, inl, inr, false, ◌||◌, List, [], ◌∷◌, map,
  arith, leb_ℤ, ok, fail_if, ◌>>◌, is_empty, >>=-eq-ok,
}
use insider_trader.Maps.{text_key, key_eq_iff}
use insider_trader.Broker.{OrderIntent}
use insider_trader.Execution.Schedule.{invalid_schedule, Schedule, ChildOrder, plan_children}
use insider_trader.Execution.Schedule.Conserved.{
  AreChildrenOf, child_total, plan_children-IsConserved,
}
use insider_trader.Execution.Children.{ChildPlan, planned, misplaced, new}
use insider_trader.Execution.Children.Claims.{count, waiting, run-waiting}
use insider_trader.Execution.Children.Steps.{Call, run}

misplaced-AreChildrenOf :
    (intent : OrderIntent) (index : ℕ) (cs : List ChildOrder)
    → AreChildrenOf intent (index + 1) cs
    → misplaced intent index cs ≡ false
unfolding misplaced
misplaced-AreChildrenOf intent index [] h = refl
misplaced-AreChildrenOf intent index (c ∷ cs) (here, others) =
    let parent = (key_eq_iff c.parent_client_order_id intent.client_order_id).1 here.parent_id in
    let rest = misplaced-AreChildrenOf intent (index + 1) cs others in
    ground (arith, parent, rest, here.number, here.fits, here.positive)

not_empty :
    (cs : List ChildOrder) (total : ℤ)
    → leb_ℤ total (pos 0) ≡ false
    → child_total cs ≡ total
    → is_empty cs ≡ false
unfolding child_total
not_empty [] total z h = ground (arith, z, h)
not_empty (c ∷ cs) total z h = refl

plan_children-positive :
    (intent : OrderIntent) (schedule : Schedule) (children : List ChildOrder)
    → plan_children intent schedule ≡ ok children
    → leb_ℤ intent.quantity_ticks (pos 0) ≡ false
unfolding plan_children
plan_children-positive intent schedule children h =
    elim (Bool-cases (leb_ℤ intent.quantity_ticks (pos 0))) [
      | inl e ↦ ground (arith, h, e)
      | inr e ↦ e
    ]

-- Whatever children are planned, a plan is made of them, all of them pending: the checks that
-- `ChildPlan::new` repeats on them never fail.
pub new-plan_children :
    (intent : OrderIntent) (schedule : Schedule) (created : ℕ) (children : List ChildOrder)
    → plan_children intent schedule ≡ ok children
    → new intent schedule created
      ≡ ok (record {
        parent_client_order_id = intent.client_order_id;
        created_mono_ns = created;
        children = map planned children;
      })
unfolding new
new-plan_children intent schedule created children h =
    let (total, each) = plan_children-IsConserved intent schedule children h in
    let placed = misplaced-AreChildrenOf intent 0 children each in
    let filled =
      not_empty children intent.quantity_ticks (plan_children-positive intent schedule children h)
        total in
    rw (h, filled, placed) refl

waiting-planned :
    (k n : ℕ) (intent : OrderIntent) (cs : List ChildOrder)
    → AreChildrenOf intent n cs
    → (waiting k (map planned cs) ≤ 1) × (k < n → waiting k (map planned cs) ≡ 0)
unfolding waiting
waiting-planned k n intent [] h = (omega arith, λ z. refl)
waiting-planned k n intent (c ∷ cs) (here, others) =
    let (one, none_before) = waiting-planned k (n + 1) intent cs others in
    (ground (arith, one, none_before, here.number), λ z. ground (arith, none_before, here.number))

-- The children of a new plan are those of its order, all pending.
pub new-AreChildrenOf :
    (intent : OrderIntent) (schedule : Schedule) (created : ℕ) (plan : ChildPlan)
    → new intent schedule created ≡ ok plan
    → (children : List ChildOrder) × (plan.children ≡ map planned children)
      × AreChildrenOf intent 1 children
unfolding new
new-AreChildrenOf intent schedule created plan h =
    let (children, c, l) =
      >>=-eq-ok (plan_children intent schedule)
        (λ children. (do
          fail_if (is_empty children || misplaced intent 0 children) invalid_schedule
          ok (record {
            parent_client_order_id = intent.client_order_id;
            created_mono_ns = created;
            children = map planned children;
          })))
        h in
    (
      children,
      ground (arith, h, new-plan_children intent schedule created children c),
      (plan_children-IsConserved intent schedule children c).1,
    )

-- In any sequence of calls on a new plan, a number is handed out at most once: no child order is
-- given to the sender a second time, whatever is answered, cancelled or in doubt.
pub new-run_once :
    (k : ℕ) (intent : OrderIntent) (schedule : Schedule) (created : ℕ) (plan : ChildPlan)
    (calls : List Call)
    → new intent schedule created ≡ ok plan
    → count k (run plan calls).0 ≤ 1
new-run_once k intent schedule created plan calls h =
    let (children, same, each) = new-AreChildrenOf intent schedule created plan h in
    let (one, rest) = waiting-planned k 1 intent children each in
    omega (arith, run-waiting k plan calls, ap (waiting k) same, one)
