-- ===== src/Execution/Schedule/Shares.antt =====
-- The quantities that the schedules of crates/execution/src/lib.rs share out.
use insider_trader.Prelude.{
  ℕ, zero, suc, ℤ, pos, pos_part, leb_ℤ, Option, none, ◌≡◌, refl, ◌≤◌, ◌<◌, ◌+◌, ◌-◌, ◌*◌, ◌/◌, ◌%◌,
  min, max, Bool, true, false, ◌||◌, some, List, [], ◌∷◌, arith, ltb, leb, ltb_ℤ, length, ◌&&◌,
  ◌==◌, if◌then◌else◌, is_empty, any, subst, sym, narrow_nonneg_i64, All, Result, ok, err, ok_or,
  ◌>>=◌, >>=-eq-ok, fail_if-eq-ok,
}
use native.Mathlib.Nat.{
  div-mul-le_self, div-add-mod, mod-lt, le-div_iff_mul-le, le_of_mul-le-mul_right,
}
use insider_trader.Execution.Schedule.{
  PlanError, invalid_schedule, Schedule, sum, any_zero, twap_values, twap_quantities, shares,
  spread_remainder, fill_up, weighted, sum_u64, sum_u128, by_weights, vwap_quantities, whole,
  pov_turn, pov_loop, pov_quantities, shortfall_weights, shortfall_quantities, adaptive_quantities,
  quantities_of,
}

abbrev pub AllPositive : List ℕ → Type 0
AllPositive = All (λ x. 0 < x)

any_zero-false : (xs : List ℕ) → any_zero xs ≡ false → AllPositive xs
any_zero-false [] h = tt
any_zero-false (x ∷ xs) h = (ground arith, any_zero-false xs (ground arith))

twap_values-sum : (n i base r : ℕ) → sum (twap_values n i base r) ≡ n * base + min n (r - i)
unfolding twap_values
twap_values-sum zero i base r = omega arith
twap_values-sum (suc n) i base r = ground (arith, twap_values-sum n (i + 1) base r)

twap_values-positive : (n i base r : ℕ) → 0 < base → AllPositive (twap_values n i base r)
unfolding twap_values
twap_values-positive zero i base r h = tt
twap_values-positive (suc n) i base r h = (ground arith, twap_values-positive n (i + 1) base r h)

-- What is spread is kept: the shares and what is left add up.
spread_remainder-sum :
    (r : ℕ) (xs : List ℕ) → sum (spread_remainder r xs).0 + (spread_remainder r xs).1 ≡ sum xs + r
unfolding spread_remainder
spread_remainder-sum r [] = omega arith
spread_remainder-sum zero (x ∷ xs) = omega arith
spread_remainder-sum (suc r) (x ∷ xs) = omega (arith, spread_remainder-sum r xs)

-- One turn of the loop: what it takes and what the rest of the loop leaves add up.
Shared : ℕ → List ℕ → ℕ → Type 0
Shared remaining qs left = (sum qs + left ≡ remaining) × AllPositive qs

pov_turn_lem :
    (remaining capacity : ℕ) (rest : Result PlanError (List ℕ × ℕ)) (qs : List ℕ) (left : ℕ)
    → ((ys : List ℕ) (l : ℕ) → rest ≡ ok (ys, l) → Shared (remaining - min capacity remaining) ys l)
    → pov_turn remaining capacity rest ≡ ok (qs, left)
    → Shared remaining qs left
unfolding pov_turn Shared
pov_turn_lem remaining capacity (err e) qs left ih h = ground arith
pov_turn_lem remaining capacity (ok (ys, l)) qs left ih h = ground (arith, ih ys l refl)

pov_loop-sum :
    (bps remaining : ℕ) (vs : List ℤ) (qs : List ℕ) (left : ℕ)
    → pov_loop bps remaining vs ≡ ok (qs, left)
    → Shared remaining qs left
unfolding pov_loop Shared
pov_loop-sum bps remaining [] qs left h = ground arith
pov_loop-sum bps remaining (v ∷ vs) qs left h =
    let capacity = pos_part v * bps / 10_000 in
    let rest = remaining - min capacity remaining in
    pov_turn_lem remaining capacity (pov_loop bps rest vs) qs left (pov_loop-sum bps rest vs) h

-- A share and the shares after it.
shares_turn :
    (f : ℕ) (rest : Result PlanError (List ℕ)) (out : List ℕ)
    → (ok_or (narrow_nonneg_i64 f) invalid_schedule >>= λ s. rest >>= λ r. ok (s ∷ r)) ≡ ok out
    → (r : List ℕ) × (rest ≡ ok r) × (out ≡ f ∷ r)
shares_turn f (err e) out h = ground arith
shares_turn f (ok r) out h = (r, refl, ground arith)

-- The floors of the shares come to no more than the quantity.
shares-sum :
    (q total : ℕ) (ws out : List ℕ) → shares q total ws ≡ ok out → sum out * total ≤ q * sum ws
unfolding shares
shares-sum q total [] out h = ground arith
shares-sum q total (w ∷ ws) out h =
    let (rest, f, e) = shares_turn (q * w / total) (shares q total ws) out h in
    let others = shares-sum q total ws rest f in
    let here = div-mul-le_self (q * w) total in rw e (omega (arith, others, here))

fill_up-sum :
    (q : ℕ) (floors qs : List ℕ)
    → sum floors ≤ q
    → fill_up q floors ≡ ok qs
    → (sum qs ≡ q) × AllPositive qs
unfolding fill_up
fill_up-sum q floors qs bound h =
    let spread = spread_remainder (q - sum floors) floors in
    let kept = spread_remainder-sum (q - sum floors) floors in
    let same : qs ≡ spread.0 = ground (arith, h) in
    let all_spread : spread.1 ≡ 0 = ground (arith, h) in
    let some_each : any_zero spread.0 ≡ false = ground (arith, h) in
    (rw same (omega (arith, kept, all_spread, bound)), rw same (any_zero-false spread.0 some_each))

weighted-sum :
    (q total : ℕ) (ws qs : List ℕ)
    → total ≡ sum ws
    → 0 < total
    → weighted q total ws ≡ ok qs
    → (sum qs ≡ q) × AllPositive qs
unfolding weighted
weighted-sum q total ws qs e z h =
    let (floors, f, k) = >>=-eq-ok (shares q total ws) (fill_up q) h in
    let bound : sum floors * total ≤ q * total =
      subst (λ t. sum floors * total ≤ q * t) (sym e) (shares-sum q total ws floors f) in
    fill_up-sum q floors qs (le_of_mul-le-mul_right bound z) k

sum_u64-sum : (t : ℕ) (ws : List ℕ) (out : ℕ) → sum_u64 t ws ≡ some out → out ≡ t + sum ws
unfolding sum_u64
sum_u64-sum t [] out h = ground (arith, h)
sum_u64-sum t (w ∷ ws) out h = ground (arith, sum_u64-sum (t + w) ws out)

sum_u128-sum : (t : ℕ) (ws : List ℕ) (out : ℕ) → sum_u128 t ws ≡ some out → out ≡ t + sum ws
unfolding sum_u128
sum_u128-sum t [] out h = ground (arith, h)
sum_u128-sum t (w ∷ ws) out h = ground (arith, sum_u128-sum (t + w) ws out)

-- What each schedule returns.
abbrev pub Divides : ℕ → Result PlanError (List ℕ × ℕ) → Type 0
Divides q r = (qs : List ℕ) (interval : ℕ) → r ≡ ok (qs, interval) → (sum qs ≡ q) × AllPositive qs

twap-Divides : (q n i : ℕ) → Divides q (twap_quantities q n i)
unfolding twap_quantities
twap-Divides q n i qs interval h =
    let (fine, k) =
      fail_if-eq-ok (n == 0 || i == 0 || ltb q n) invalid_schedule
        (ok (twap_values n 0 (q / n) (q % n), i)) h in
    let same : qs ≡ twap_values n 0 (q / n) (q % n) = ground (arith, k) in
    let total = twap_values-sum n 0 (q / n) (q % n) in
    let slices : 0 < n = ground (arith, fine) in
    let enough : n ≤ q = ground (arith, fine) in
    let base : 0 < q / n = (le-div_iff_mul-le slices).1 (omega (arith, enough)) in
    (
      rw same (omega (arith, total, div-add-mod q n, mod-lt q slices)),
      rw same (twap_values-positive n 0 (q / n) (q % n) base),
    )

by_weights-Divides :
    (q : ℕ) (ws : List ℕ) (summed : Option ℕ) (i : ℕ)
    → ((t : ℕ) → summed ≡ some t → t ≡ sum ws)
    → 0 < sum ws
    → Divides q (by_weights q ws summed i)
unfolding by_weights
by_weights-Divides q ws none i is_sum z qs interval h = cc
by_weights-Divides q ws (some total) i is_sum z qs interval h =
    let (quantities, w, e) = >>=-eq-ok (weighted q total ws) (λ quantities. ok (quantities, i)) h in
    let same : qs ≡ quantities = ground (arith, e) in
    rw same (weighted-sum q total ws quantities (is_sum total refl) (rw (is_sum total refl) z) w)

vwap-Divides : (q : ℕ) (ws : List ℕ) → Divides q (vwap_quantities q ws)
unfolding vwap_quantities
vwap-Divides q [] qs interval h = ground (arith, h)
vwap-Divides q (w ∷ ws) qs interval h =
    let (fine, k) =
      fail_if-eq-ok (any_zero (w ∷ ws)) invalid_schedule
        (by_weights q (w ∷ ws) (sum_u64 0 (w ∷ ws)) 0) h in
    by_weights-Divides q (w ∷ ws) (sum_u64 0 (w ∷ ws)) 0
      (λ t e. omega (arith, sum_u64-sum 0 (w ∷ ws) t e))
      (omega (arith, any_zero-false (w ∷ ws) fine)) qs interval k

pov-Divides : (q bps i : ℕ) (vs : List ℤ) → Divides q (pov_quantities q bps i vs)
unfolding pov_quantities whole Shared
pov-Divides q bps i vs qs interval h =
    let (fine, k) =
      fail_if-eq-ok
        (bps == 0 || ltb 10_000 bps || i == 0 || is_empty vs || any (λ v. leb_ℤ v (pos 0)) vs)
        invalid_schedule (pov_loop bps q vs >>= whole i) h in
    let ((ys, left), e, l) = >>=-eq-ok (pov_loop bps q vs) (whole i) k in
    let shared = pov_loop-sum bps q vs ys left e in
    let all_taken : left ≡ 0 = ground (arith, l) in
    let same : qs ≡ ys = ground (arith, l) in
    (rw same (omega (arith, shared.0, all_taken)), rw same shared.1)

shortfall_weights-sum : (u n k : ℕ) → 0 < k → 0 < sum (shortfall_weights u n k)
unfolding shortfall_weights
shortfall_weights-sum u n zero z = omega (arith, z)
shortfall_weights-sum u n (suc k) z = omega arith

shortfall-Divides : (q n i u : ℕ) → Divides q (shortfall_quantities q n i u)
unfolding shortfall_quantities
shortfall-Divides q n i u qs interval h =
    let weights = shortfall_weights u n n in
    let (fine, k) =
      fail_if-eq-ok (n == 0 || ltb q n || i == 0 || ltb 10_000 u) invalid_schedule
        (by_weights q weights (sum_u128 0 weights) i) h in
    let slices : 0 < n = ground (arith, fine) in
    by_weights-Divides q weights (sum_u128 0 weights) i
      (λ t e. omega (arith, sum_u128-sum 0 weights t e)) (shortfall_weights-sum u n n slices) qs
      interval k

if-Divides :
    (q : ℕ) (b : Bool) (x y : Result PlanError (List ℕ × ℕ))
    → Divides q x
    → Divides q y
    → Divides q (if b then x else y)
if-Divides q true x y f g = f
if-Divides q false x y f g = g

adaptive-Divides :
    (q n i u : ℕ) (s max_s : ℤ) (v max_v : ℕ) (vs : List ℤ)
    → Divides q (adaptive_quantities q n i u s max_s v max_v vs)
unfolding adaptive_quantities
adaptive-Divides q n i u s max_s v max_v vs qs interval h =
    let chosen =
      if leb_ℤ s max_s && leb v max_v
      then pov_quantities q u i vs
      else shortfall_quantities q (min n q) i (max u 7_500) in
    let (fine, k) =
      fail_if-eq-ok
        (n == 0
          || i == 0
          || u == 0
          || ltb 10_000 u
          || ltb_ℤ s (pos 0)
          || leb_ℤ max_s (pos 0)
          || ltb 100_000 v
          || max_v == 0
          || is_empty vs
          || ltb n (length vs))
        invalid_schedule chosen h in
    if-Divides q (leb_ℤ s max_s && leb v max_v) (pov_quantities q u i vs)
      (shortfall_quantities q (min n q) i (max u 7_500)) (pov-Divides q u i vs)
      (shortfall-Divides q (min n q) i (max u 7_500)) qs interval k

immediate-Divides : (q : ℕ) → 0 < q → Divides q (ok (q ∷ [], 0))
immediate-Divides q z qs interval h =
    let same : qs ≡ q ∷ [] = ground (arith, h) in rw same (omega arith, (z, tt))

-- Whichever way a schedule divides a quantity, the parts make it up and none is zero.
pub quantities_of-Divides : (q : ℕ) (s : Schedule) → 0 < q → Divides q (quantities_of q s)
unfolding quantities_of
quantities_of-Divides q Schedule.immediate z = immediate-Divides q z
quantities_of-Divides q (Schedule.twap n i) z = twap-Divides q n i
quantities_of-Divides q (Schedule.vwap ws) z = vwap-Divides q ws
quantities_of-Divides q (Schedule.pov bps i vs) z = pov-Divides q bps i vs
quantities_of-Divides q (Schedule.implementation_shortfall n i u) z = shortfall-Divides q n i u
quantities_of-Divides q (Schedule.adaptive n i u s max_s v max_v vs) z =
    adaptive-Divides q n i u s max_s v max_v vs
