-- ===== src/Portfolio/Fill.antt =====
-- crates/portfolio/src/lib.rs: `Portfolio::apply_fill`. The checks that precede the first change of
-- the portfolio are `plan_fill`; the changes, with the narrowings between them, are `commit_fill`.
pub mod Books
use insider_trader.Prelude.{
  ℕ, ℤ, pos, ◌+ℤ◌, ◌-ℤ◌, neg, min, Bool, ◌||◌, Option, none, some, [], ◌∷◌, ◌++◌, ltb_ℤ, leb_ℤ,
  eqb_ℤ, if◌then◌else◌, abs_ℕ, signum, narrow_i64, narrow_i128, add_i64, mul_i128, add_i128,
  sub_i128, div_ℕ, unwrap_or, Result, ok, err, ok_or, fail_if, ◌>>=◌, ◌>>◌,
}
use insider_trader.Maps.{nat_key, get, insert, remove}
use insider_trader.Portfolio.{
  Position, Portfolio, AccountingError, invalid_fill, overflow, FillLedgerEntry, PostingAccount,
  position_of, record_equity_peak,
}

-- A fill in the direction of the position: quantity, average cost and realized profit after it.
unfoldable pub opening : ℤ → ℤ → ℤ → ℤ → Result AccountingError (ℤ × ℤ × ℤ)
opening held cost quantity price = do
  next ← ok_or (add_i64 held quantity) overflow
  old_notional ← ok_or (mul_i128 (pos (abs_ℕ held)) cost) overflow
  new_notional ← ok_or (mul_i128 (pos (abs_ℕ quantity)) price) overflow
  total ← ok_or (add_i128 old_notional new_notional) overflow
  average ← ok_or (narrow_i64 (div_ℕ total (abs_ℕ next))) overflow
  ok (next, average, pos 0)

-- A fill against the position, which closes it in part or in whole, or turns it round.
unfoldable pub closing : ℤ → ℤ → ℤ → ℤ → Result AccountingError (ℤ × ℤ × ℤ)
closing held cost quantity price = do
  gain ← ok_or (mul_i128 (pos (min (abs_ℕ held) (abs_ℕ quantity))) (price -ℤ cost)) overflow
  realized ← ok_or (mul_i128 gain (neg (signum quantity))) overflow
  remaining ← ok_or (add_i64 held quantity) overflow
  realized_ticks ← ok_or (narrow_i64 realized) overflow
  ok (
    remaining,
    (if eqb_ℤ remaining (pos 0)
        then pos 0
        else if eqb_ℤ (signum remaining) (signum held)
        then cost
        else price),
    realized_ticks,
  )

unfoldable pub after_fill : ℤ → ℤ → ℤ → ℤ → Result AccountingError (ℤ × ℤ × ℤ)
unfolding opening closing
after_fill held cost quantity price =
    if eqb_ℤ held (pos 0) || eqb_ℤ (signum held) (signum quantity)
    then opening held cost quantity price
    else closing held cost quantity price

-- What the checks leave for the changes.
pub record FillPlan : Type 0 where
  pub next_quantity : ℤ
  pub next_average : ℤ
  pub next_cash : ℤ
  pub next_realized : ℤ
  pub next_fees : ℤ
  pub previous_mark : ℤ
  pub entry : FillLedgerEntry

unfoldable pub plan_fill : Portfolio → ℕ → ℤ → ℤ → ℤ → Result AccountingError FillPlan
unfolding after_fill
plan_fill p id quantity price fee = do
  fail_if (eqb_ℤ quantity (pos 0) || leb_ℤ price (pos 0) || ltb_ℤ fee (pos 0)) invalid_fill
  let previous : Position =
      unwrap_or (position_of p id) (record { quantity_ticks = pos 0; mark_price_ticks = price })
  let cost : ℤ = unwrap_or (get id p.cost_basis) previous.mark_price_ticks
  (next_quantity, next_average, realized) ← after_fill previous.quantity_ticks cost quantity price
  value ← ok_or (mul_i128 quantity price) overflow
  negated ← ok_or (narrow_i128 (neg value)) overflow
  cash_delta ← ok_or (sub_i128 negated fee) overflow
  next_cash ← ok_or (add_i128 p.cash_ticks cash_delta) overflow
  next_realized ← ok_or (add_i128 p.realized_pnl_ticks realized) overflow
  next_fees ← ok_or (add_i128 p.fees_ticks fee) overflow
  cash_delta_ticks ← ok_or (narrow_i64 cash_delta) overflow
  position_value ← ok_or (mul_i128 quantity price) overflow
  ok (record {
    next_quantity = next_quantity;
    next_average = next_average;
    next_cash = next_cash;
    next_realized = next_realized;
    next_fees = next_fees;
    previous_mark = previous.mark_price_ticks;
    entry = record {
      instrument_id = id;
      quantity_ticks = quantity;
      price_ticks = price;
      fee_ticks = fee;
      cash_delta_ticks = cash_delta_ticks;
      realized_pnl_ticks = realized;
      postings =
          record { account = PostingAccount.cash; amount_ticks = cash_delta }
          ∷ record { account = PostingAccount.position; amount_ticks = position_value }
          ∷ record { account = PostingAccount.fees; amount_ticks = fee }
          ∷ [];
    };
  })

unfoldable pub store_fill_position : Portfolio → ℕ → ℤ → ℤ → ℤ → ℤ → Portfolio
store_fill_position p id quantity average price previous_mark =
    let marks = insert id price p.marks in
    let mark =
      unwrap_or (get id marks) (if ltb_ℤ (pos 0) previous_mark then previous_mark else price) in
    record p {
      marks = marks;
      positions =
          insert id (record { quantity_ticks = quantity; mark_price_ticks = mark }) p.positions;
      cost_basis =
          if eqb_ℤ quantity (pos 0) then remove id p.cost_basis else insert id average p.cost_basis;
    }

unfoldable pub commit_fill :
    Portfolio → FillPlan → Result AccountingError FillLedgerEntry × Portfolio
unfolding store_fill_position
commit_fill p f =
    let stored =
      store_fill_position p f.entry.instrument_id f.next_quantity f.next_average f.entry.price_ticks
        f.previous_mark in
    elim (narrow_i64 f.next_cash) [
      | none ↦ (err overflow, stored)
      | some cash ↦ elim (narrow_i64 f.next_realized) [
        | none ↦ (err overflow, record stored { cash_ticks = cash })
        | some realized ↦ elim (narrow_i64 f.next_fees) [
          | none ↦
              (err overflow, record stored { cash_ticks = cash; realized_pnl_ticks = realized })
          | some fees ↦ (
            ok f.entry,
            record_equity_peak (record stored {
              cash_ticks = cash;
              realized_pnl_ticks = realized;
              fees_ticks = fees;
              ledger = p.ledger ++ (f.entry ∷ []);
            }),
          )
        ]
      ]
    ]

unfoldable pub apply_fill :
    Portfolio → ℕ → ℤ → ℤ → ℤ → Result AccountingError FillLedgerEntry × Portfolio
unfolding plan_fill commit_fill
apply_fill p id quantity price fee = elim (plan_fill p id quantity price fee) [
  | err e ↦ (err e, p)
  | ok f ↦ commit_fill p f
]
