-- ===== src/Portfolio.antt =====
-- crates/portfolio/src/lib.rs: positions, marks, cost basis and cash of one account, with the
-- reads and the updates that market data and reconciliation make.
pub mod Peak
pub mod Fill
use insider_trader.Prelude.{
  ℕ, ℤ, pos, pos_part, ◌+ℤ◌, ◌-ℤ◌, Bool, Option, none, some, List, [], ◌∷◌, ltb_ℤ, leb_ℤ, eqb_ℤ,
  if◌then◌else◌, narrow_i64, mul_i128, add_i128, sub_i128, div_ℕ, unwrap_or, or_else, map_or,
  and_then, Result, ok, err, all,
}
use insider_trader.Maps.{Map, nat_key, get, insert, values}

pub record Position : Type 0 where
  pub quantity_ticks : ℤ
  pub mark_price_ticks : ℤ

pub record Target : Type 0 where
  pub instrument_id : ℕ
  pub quantity_ticks : ℤ
  pub proposal_id : ℕ

pub data AccountingError : Type 0 where
  invalid_fill overflow invalid_corporate_action non_representable_corporate_action :
      AccountingError

pub data CorporateActionKind : Type 0 where
  split : ℕ → ℕ → CorporateActionKind
  cash_dividend : ℤ → CorporateActionKind
  option_exercise option_assignment : ℕ → ℤ → ℤ → ℤ → CorporateActionKind
  option_expiry : ℤ → ℤ → CorporateActionKind
  futures_variation_margin : ℤ → CorporateActionKind

pub record CorporateActionEntry : Type 0 where
  pub instrument_id : ℕ
  pub kind : CorporateActionKind
  pub quantity_before_ticks : ℤ
  pub quantity_after_ticks : ℤ
  pub cash_delta_ticks : ℤ

pub data PostingAccount : Type 0 where
  cash position fees : PostingAccount

pub record LedgerPosting : Type 0 where
  pub account : PostingAccount
  pub amount_ticks : ℤ

-- `postings` is an array of three; here a list of three.
pub record FillLedgerEntry : Type 0 where
  pub instrument_id : ℕ
  pub quantity_ticks : ℤ
  pub price_ticks : ℤ
  pub fee_ticks : ℤ
  pub cash_delta_ticks : ℤ
  pub realized_pnl_ticks : ℤ
  pub postings : List LedgerPosting

sum_postings : ℤ → List LedgerPosting → Option ℤ
sum_postings total [] = some total
sum_postings total (x ∷ xs) = and_then (add_i128 total x.amount_ticks) (λ t. sum_postings t xs)

unfoldable pub is_balanced : FillLedgerEntry → Bool
unfolding sum_postings
is_balanced e = map_or (sum_postings (pos 0) e.postings) Bool.false (λ t. eqb_ℤ t (pos 0))

pub record Portfolio : Type 0 where
  pub positions : Map ℕ Position
  pub marks : Map ℕ ℤ
  pub cost_basis : Map ℕ ℤ
  pub cash_ticks : ℤ
  pub realized_pnl_ticks : ℤ
  pub fees_ticks : ℤ
  pub ledger : List FillLedgerEntry
  pub corporate_actions : List CorporateActionEntry
  pub peak_equity_ticks : Option ℤ

unfoldable pub new : Portfolio
new = record {
  positions = [];
  marks = [];
  cost_basis = [];
  cash_ticks = pos 0;
  realized_pnl_ticks = pos 0;
  fees_ticks = pos 0;
  ledger = [];
  corporate_actions = [];
  peak_equity_ticks = none;
}

abbrev pub position_of : Portfolio → ℕ → Option Position
position_of p id = get id p.positions

-- The quantity held, zero where there is no position.
abbrev pub held : Portfolio → ℕ → ℤ
held p id = map_or (position_of p id) (pos 0) (λ x. x.quantity_ticks)

abbrev pub mark_price : Portfolio → ℕ → Option ℤ
mark_price p id = get id p.marks

unfoldable pub ledger_is_balanced : Portfolio → Bool
ledger_is_balanced p = all is_balanced p.ledger

sum_marked : ℤ → List Position → Option ℤ
sum_marked total [] = some total
sum_marked total (x ∷ xs) =
    and_then (mul_i128 x.quantity_ticks x.mark_price_ticks)
      (λ notional. and_then (add_i128 total notional) (λ t. sum_marked t xs))

unfoldable pub equity_ticks : Portfolio → Option ℤ
unfolding sum_marked
equity_ticks p = sum_marked p.cash_ticks (values p.positions)

abbrev pub max_ℤ : ℤ → ℤ → ℤ
max_ℤ a b = if ltb_ℤ b a then a else b

unfoldable pub record_equity_peak : Portfolio → Portfolio
record_equity_peak p = elim (equity_ticks p) [
  | none ↦ p
  | some equity ↦ record p {
    peak_equity_ticks = some (map_or p.peak_equity_ticks equity (λ peak. max_ℤ peak equity));
  }
]

unfoldable pub restore_peak_equity_ticks : Portfolio → Option ℤ → Portfolio
restore_peak_equity_ticks p none = p
restore_peak_equity_ticks p (some peak) = record p {
  peak_equity_ticks = some (max_ℤ (unwrap_or p.peak_equity_ticks peak) peak);
}

-- Peak-to-equity drawdown in basis points; the peak is positive where it divides.
unfoldable pub drawdown_bps : Portfolio → Option ℤ
drawdown_bps p = and_then p.peak_equity_ticks λ peak. and_then (equity_ticks p) λ equity.
    if leb_ℤ peak (pos 0)
    then some (pos 0)
    else if leb_ℤ peak equity
    then some (pos 0)
    else and_then (sub_i128 peak equity) λ loss.
      and_then (mul_i128 loss (pos 10_000)) λ scaled. narrow_i64 (div_ℕ scaled (pos_part peak))

unfoldable pub set_position : Portfolio → ℕ → Position → Portfolio
set_position p id x = record_equity_peak (
    if ltb_ℤ (pos 0) x.mark_price_ticks
    then record p {
      positions = insert id x p.positions;
      marks = insert id x.mark_price_ticks p.marks;
      cost_basis = insert id x.mark_price_ticks p.cost_basis;
    }
    else record p { positions = insert id x p.positions })

-- One instrument of a broker snapshot, added to the positions kept so far.
unfoldable pub reconcile_one : Portfolio → Portfolio → ℕ × ℤ → Portfolio
reconcile_one previous p (id, quantity) =
    if eqb_ℤ quantity (pos 0)
    then p
    else let mark =
        map_or (get id previous.positions) (unwrap_or (get id p.marks) (pos 0))
          (λ x. x.mark_price_ticks) in
      let cost = unwrap_or (get id previous.cost_basis) mark in
      let placed =
        insert id (record { quantity_ticks = quantity; mark_price_ticks = mark }) p.positions in
      if ltb_ℤ (pos 0) cost
      then record p { positions = placed; cost_basis = insert id cost p.cost_basis }
      else record p { positions = placed }

unfoldable pub reconcile_each : Portfolio → Portfolio → List (ℕ × ℤ) → Portfolio
unfolding reconcile_one
reconcile_each previous p [] = p
reconcile_each previous p (x ∷ xs) = reconcile_each previous (reconcile_one previous p x) xs

unfoldable pub reconcile_positions : Portfolio → List (ℕ × ℤ) → Option ℤ → Portfolio
unfolding reconcile_each
reconcile_positions p positions reported =
    let placed = reconcile_each p (record p { positions = []; cost_basis = [] }) positions in
    record_equity_peak (record placed { cash_ticks = unwrap_or reported placed.cash_ticks })

unfoldable pub set_mark_price : Portfolio → ℕ → ℤ → Result AccountingError (Unit {0}) × Portfolio
set_mark_price p id price =
    if leb_ℤ price (pos 0)
    then (err invalid_fill, p)
    else let positions =
        map_or (get id p.positions) p.positions
          (λ x. insert id (record x { mark_price_ticks = price }) p.positions) in
      (
        ok tt,
        record_equity_peak (record p { positions = positions; marks = insert id price p.marks }),
      )
