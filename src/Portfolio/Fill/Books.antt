-- ===== src/Portfolio/Fill/Books.antt =====
-- What an accepted fill of crates/portfolio/src/lib.rs does to the books, and what a refused one
-- leaves behind.
use insider_trader.Prelude.{
  ℕ, ℤ, pos, ◌+ℤ◌, ◌-ℤ◌, ◌*ℤ◌, neg, true, false, ◌≡◌, some, List, All, [], ◌∷◌, ◌++◌, arith,
  int_laws, in_i64, neg_fits, zero_fits, unwrap_or, Result-cases, inl, inr, all-append, ok, err,
}
use insider_trader.Maps.{nat_key, get, get-insert_self}
use insider_trader.Portfolio.{
  Portfolio, overflow, FillLedgerEntry, position_of, held, record_equity_peak, is_balanced,
  ledger_is_balanced,
}
use insider_trader.Portfolio.Fill.{
  FillPlan, opening, closing, after_fill, plan_fill, commit_fill, apply_fill,
}

-- An accepted plan: the entry, and the sums that the changes will store.
pub record IsPlanned (p : Portfolio) (id : ℕ) (quantity price fee : ℤ) (f : FillPlan) : Type 0 where
  pub quantity_sum : f.next_quantity ≡ held p id +ℤ quantity
  pub cash_sum : f.next_cash ≡ p.cash_ticks +ℤ (neg (quantity *ℤ price) -ℤ fee)
  pub fee_sum : f.next_fees ≡ p.fees_ticks +ℤ fee
  pub realized_sum : f.next_realized ≡ p.realized_pnl_ticks +ℤ f.entry.realized_pnl_ticks

after_fill-quantity :
    (q cost quantity price : ℤ) {n a r : ℤ}
    → after_fill q cost quantity price ≡ ok (n, a, r)
    → n ≡ q +ℤ quantity
unfolding after_fill opening closing
after_fill-quantity q cost quantity price h = ground arith

plan_fill-IsPlanned :
    (p : Portfolio) (id : ℕ) (quantity price fee : ℤ) {f : FillPlan}
    → plan_fill p id quantity price fee ≡ ok f
    → IsPlanned p id quantity price fee f
unfolding plan_fill
plan_fill-IsPlanned p id quantity price fee h =
    let x =
      unwrap_or (position_of p id) (record { quantity_ticks = pos 0; mark_price_ticks = price }) in
    ground (
      arith,
      after_fill-quantity x.quantity_ticks (unwrap_or (get id p.cost_basis) x.mark_price_ticks)
          quantity price,
    )

postings_balance :
    (v fee : ℤ)
    → let c = neg v -ℤ fee in (pos 0 +ℤ c ≡ c) × (c +ℤ v ≡ neg fee) × (neg fee +ℤ fee ≡ pos 0)
postings_balance v fee = (omega int_laws, omega int_laws, omega int_laws)

plan_fill-balanced :
    (p : Portfolio) (id : ℕ) (quantity price fee : ℤ) {f : FillPlan}
    → in_i64 fee ≡ true
    → plan_fill p id quantity price fee ≡ ok f
    → is_balanced f.entry ≡ true
unfolding plan_fill is_balanced
plan_fill-balanced p id quantity price fee fits h =
    let v = quantity *ℤ price in
    ground (arith, postings_balance v fee, neg_fits fee fits, zero_fits)

-- The books after an accepted fill.
pub record IsBooked (p q : Portfolio) (id : ℕ) (quantity price fee : ℤ) (e : FillLedgerEntry)
    : Type 0 where
  pub position :
      position_of q id
      ≡ some (record { quantity_ticks = held p id +ℤ quantity; mark_price_ticks = price })
  pub cash : q.cash_ticks ≡ p.cash_ticks +ℤ (neg (quantity *ℤ price) -ℤ fee)
  pub fees : q.fees_ticks ≡ p.fees_ticks +ℤ fee
  pub realized : q.realized_pnl_ticks ≡ p.realized_pnl_ticks +ℤ e.realized_pnl_ticks
  pub ledger : q.ledger ≡ p.ledger ++ (e ∷ [])

plan_fill-entry :
    (p : Portfolio) (id : ℕ) (quantity price fee : ℤ) {f : FillPlan}
    → plan_fill p id quantity price fee ≡ ok f
    → (f.entry.instrument_id ≡ id) × (f.entry.price_ticks ≡ price)
unfolding plan_fill
plan_fill-entry p id quantity price fee h = ground arith

-- The changes of an accepted plan that fit.
commit_fill_stored :
    (p : Portfolio) (f : FillPlan) (e : FillLedgerEntry) (q : Portfolio)
    → commit_fill p f ≡ (ok e, q)
    → (e ≡ f.entry)
      × (q.cash_ticks ≡ f.next_cash)
      × (q.fees_ticks ≡ f.next_fees)
      × (q.realized_pnl_ticks ≡ f.next_realized)
      × (q.ledger ≡ p.ledger ++ (e ∷ []))
      × (position_of q f.entry.instrument_id
          ≡ some
              (record { quantity_ticks = f.next_quantity; mark_price_ticks = f.entry.price_ticks }))
unfolding commit_fill record_equity_peak
commit_fill_stored p f e q h = ground (
  arith,
  get-insert_self f.entry.instrument_id f.entry.price_ticks p.marks,
  get-insert_self f.entry.instrument_id
      (record { quantity_ticks = f.next_quantity; mark_price_ticks = f.entry.price_ticks })
      p.positions,
)

-- A fill that is accepted moves the position by its quantity and marks it at its price, takes the
-- value and the fee out of the cash, adds the fee to the fees and the entry's profit to the
-- realized profit, and appends the entry to the ledger.
pub apply_fill-IsBooked :
    (p q : Portfolio) (id : ℕ) (quantity price fee : ℤ) (e : FillLedgerEntry)
    → apply_fill p id quantity price fee ≡ (ok e, q)
    → IsBooked p q id quantity price fee e
unfolding apply_fill
apply_fill-IsBooked p q id quantity price fee e h =
    elim (Result-cases (plan_fill p id quantity price fee)) [
      | inl (x, w) ↦ ground arith
      | inr (f, w) ↦
          let planned = plan_fill-IsPlanned p id quantity price fee w in
          let entry = plan_fill-entry p id quantity price fee w in
          ground (arith, planned, entry, commit_fill_stored p f e q)
    ]

fill-ledger_is_balanced :
    (p : Portfolio) (id : ℕ) (quantity price fee : ℤ)
    → in_i64 fee ≡ true
    → ledger_is_balanced p ≡ true
    → ledger_is_balanced (apply_fill p id quantity price fee).1 ≡ true
unfolding apply_fill commit_fill record_equity_peak ledger_is_balanced
fill-ledger_is_balanced p id quantity price fee fits h =
    elim (Result-cases (plan_fill p id quantity price fee)) [
      | inl (x, w) ↦ ground arith
      | inr (f, w) ↦ ground (
        arith,
        plan_fill-balanced p id quantity price fee fits w,
        all-append is_balanced p.ledger (f.entry ∷ []),
      )
    ]

-- The arguments of a fill.
pub record FillCall : Type 0 where
  pub instrument_id : ℕ
  pub quantity_ticks : ℤ
  pub price_ticks : ℤ
  pub fee_ticks : ℤ

unfoldable pub apply_fills : Portfolio → List FillCall → Portfolio
apply_fills p [] = p
apply_fills p (f ∷ fs) =
    apply_fills (apply_fill p f.instrument_id f.quantity_ticks f.price_ticks f.fee_ticks).1 fs

-- The ledger of every portfolio that a sequence of fills builds from a balanced one is balanced,
-- whatever the fills and whether each is accepted; the fees are values of `i64`.
pub apply_fill-ledger_is_balanced :
    (p : Portfolio) (fs : List FillCall)
    → All (λ f. in_i64 f.fee_ticks ≡ true) fs
    → ledger_is_balanced p ≡ true
    → ledger_is_balanced (apply_fills p fs) ≡ true
unfolding apply_fills
apply_fill-ledger_is_balanced p [] fits h = h
apply_fill-ledger_is_balanced p (f ∷ fs) fits h =
    apply_fill-ledger_is_balanced
      (apply_fill p f.instrument_id f.quantity_ticks f.price_ticks f.fee_ticks).1 fs fits.1
      (fill-ledger_is_balanced p f.instrument_id f.quantity_ticks f.price_ticks f.fee_ticks fits.0
        h)

-- Where the new cash of a fill that passes the other checks does not fit an `i64`, the error comes
-- after the position has moved: the caller sees a failure, the cash and the ledger are as before,
-- and the quantity held is changed by the fill.
pub apply_fill_cash_overflow :
    (p : Portfolio) (id : ℕ) (quantity price fee : ℤ) (f : FillPlan)
    → plan_fill p id quantity price fee ≡ ok f
    → in_i64 f.next_cash ≡ false
    → let (r, q) = apply_fill p id quantity price fee in
      (r ≡ err overflow)
      × (q.cash_ticks ≡ p.cash_ticks)
      × (q.ledger ≡ p.ledger)
      × (held q id ≡ held p id +ℤ quantity)
unfolding apply_fill commit_fill
apply_fill_cash_overflow p id quantity price fee f w over = ground (
  arith,
  plan_fill-IsPlanned p id quantity price fee w,
  plan_fill-entry p id quantity price fee w,
  get-insert_self id f.entry.price_ticks p.marks,
  get-insert_self id
      (record { quantity_ticks = f.next_quantity; mark_price_ticks = f.entry.price_ticks })
      p.positions,
)
