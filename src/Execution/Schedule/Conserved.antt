-- ===== src/Execution/Schedule/Conserved.antt =====
-- The children that `plan_children` of crates/execution/src/lib.rs returns.
use insider_trader.Prelude.{
  ℕ, ℤ, pos, negsuc, pos_part, false, ◌+ℤ◌, ◌<ℤ◌, leb_ℤ, ltb, ◌≡◌, refl, sym, ◌≤◌, ◌<◌, ◌+◌, ◌-◌,
  ◌++◌, List, [], ◌∷◌, arith, codes, decimal, ok, ok_or, ◌>>=◌, >>=-eq-ok, fail_if-eq-ok,
  ok_or-eq-ok, mul_u64, u32_max,
}
use insider_trader.Broker.{OrderIntent}
use insider_trader.Execution.Schedule.{
  invalid_schedule, Schedule, ChildOrder, sum, quantities_of, child, numbered_child,
  number_children, plan_children,
}
use insider_trader.Execution.Schedule.Shares.{AllPositive, quantities_of-Divides}

unfoldable pub child_total : List ChildOrder → ℤ
child_total [] = pos 0
child_total (c ∷ cs) = c.quantity_ticks +ℤ child_total cs

-- A child of an order: its side, kind and limit, a positive quantity, and the number that the
-- place in the list gives it.
pub record IsChildOf (intent : OrderIntent) (sequence : ℕ) (c : ChildOrder) : Type 0 where
  pub parent_id : c.parent_client_order_id ≡ intent.client_order_id
  pub own_id : c.client_order_id ≡ intent.client_order_id ++ (codes "-child-" ++ decimal sequence)
  pub number : c.child_sequence ≡ sequence
  pub fits : sequence ≤ u32_max
  pub same_side : c.side ≡ intent.side
  pub same_type : c.order_type ≡ intent.order_type
  pub same_limit : c.limit_price_ticks ≡ intent.limit_price_ticks
  pub positive : pos 0 <ℤ c.quantity_ticks

-- The children stand in the order of their numbers.
abbrev pub AreChildrenOf : OrderIntent → ℕ → List ChildOrder → Type 0
AreChildrenOf intent sequence [] = Unit
AreChildrenOf intent sequence (c ∷ cs) =
    IsChildOf intent sequence c × AreChildrenOf intent (sequence + 1) cs

Numbered : OrderIntent → ℕ → List ℕ → List ChildOrder → Type 0
Numbered intent index qs cs = (child_total cs ≡ pos (sum qs)) × AreChildrenOf intent (index + 1) cs

pos_sum : (a b : ℕ) → pos a +ℤ pos b ≡ pos (a + b)
unfolding ◌+ℤ◌
pos_sum a b = ground arith

positive_parts : (a : ℤ) → leb_ℤ a (pos 0) ≡ false → (0 < pos_part a) × (a ≡ pos (pos_part a))
positive_parts (pos n) h = (ground arith, refl)
positive_parts (negsuc n) h = ground arith

numbered_child-IsChildOf :
    (intent : OrderIntent) (interval index q : ℕ) (c : ChildOrder)
    → 0 < q
    → numbered_child intent interval index q ≡ ok c
    → IsChildOf intent (index + 1) c × (c.quantity_ticks ≡ pos q)
unfolding numbered_child
numbered_child-IsChildOf intent interval index q c z h =
    let (fits, k) =
      fail_if-eq-ok (ltb u32_max (index + 1)) invalid_schedule
        (ok_or (mul_u64 interval (index + 1 - 1)) invalid_schedule >>= λ due.
          ok (child intent (index + 1) q due))
        h in
    let (due, d, e) =
      ok_or-eq-ok (mul_u64 interval (index + 1 - 1)) invalid_schedule
        (λ due. ok (child intent (index + 1) q due)) k in
    let same : c ≡ child intent (index + 1) q due = ground (arith, e) in
    rw same (
      record {
        parent_id = refl;
        own_id = refl;
        number = refl;
        fits = ground (arith, fits);
        same_side = refl;
        same_type = refl;
        same_limit = refl;
        positive = omega (arith, z);
      },
      refl,
    )

number_children-Numbered :
    (intent : OrderIntent) (interval index : ℕ) (qs : List ℕ) (cs : List ChildOrder)
    → AllPositive qs
    → number_children intent interval index qs ≡ ok cs
    → Numbered intent index qs cs
unfolding number_children Numbered child_total
number_children-Numbered intent interval index [] cs z h =
    let same : cs ≡ [] = ground (arith, h) in rw same (refl, tt)
number_children-Numbered intent interval index (q ∷ qs) cs z h =
    let (first, f, k) =
      >>=-eq-ok (numbered_child intent interval index q)
        (λ first. number_children intent interval (index + 1) qs >>= λ rest. ok (first ∷ rest)) h in
    let (rest, r, e) =
      >>=-eq-ok (number_children intent interval (index + 1) qs) (λ rest. ok (first ∷ rest)) k in
    let same : cs ≡ first ∷ rest = ground (arith, e) in
    let (is_child, ticks) = numbered_child-IsChildOf intent interval index q first z.0 f in
    let (total, others) = number_children-Numbered intent interval (index + 1) qs rest z.1 r in
    rw same (rw (ticks, total) (pos_sum q (sum qs)), (is_child, others))

-- Whatever the schedule, the children that are planned make up the whole order: their quantities
-- add to the quantity of the order, each is positive, and each carries the order's side, type and
-- limit and the next number from one on, which fits in 32 bits and also ends its identifier.
pub plan_children-IsConserved :
    (intent : OrderIntent) (schedule : Schedule) (children : List ChildOrder)
    → plan_children intent schedule ≡ ok children
    → (child_total children ≡ intent.quantity_ticks) × AreChildrenOf intent 1 children
unfolding plan_children Numbered
plan_children-IsConserved intent schedule children h =
    let q = pos_part intent.quantity_ticks in
    let (some_left, k) =
      fail_if-eq-ok (leb_ℤ intent.quantity_ticks (pos 0)) invalid_schedule
        (quantities_of q schedule >>= λ split. number_children intent split.1 0 split.0) h in
    let ((quantities, interval), d, l) =
      >>=-eq-ok (quantities_of q schedule) (λ split. number_children intent split.1 0 split.0) k in
    let (total, each) =
      quantities_of-Divides q schedule (positive_parts intent.quantity_ticks some_left).0 quantities
        interval d in
    let (sums, numbered) = number_children-Numbered intent interval 0 quantities children each l in
    (rw (sums, total) (sym (positive_parts intent.quantity_ticks some_left).1), numbered)
