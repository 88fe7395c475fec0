-- ===== src/Tests/Books.antt =====
-- Runs of crates/portfolio/src/lib.rs on concrete data.
use insider_trader.Prelude.{
  ℤ, pos, negsuc, ◌≡◌, refl, err, true, some, List, [], ◌∷◌, in_i64, in_i128, ◌+ℤ◌, ◌-ℤ◌, ◌*ℤ◌, neg,
  div_ℕ,
}
use insider_trader.Maps.{nat_key, get, insert, remove}
use insider_trader.Portfolio.{
  Portfolio, FillLedgerEntry, PostingAccount, ledger_is_balanced, held, overflow,
  record_equity_peak, equity_ticks,
}
use insider_trader.Portfolio.Fill.{
  FillPlan, plan_fill, apply_fill, after_fill, opening, closing, commit_fill, store_fill_position,
}
use insider_trader.Portfolio.Fill.Books.{
  FillCall, apply_fills, IsBooked, apply_fill-IsBooked, apply_fill-ledger_is_balanced,
  apply_fill_cash_overflow,
}
use insider_trader.Portfolio.Peak.{Update, Reaches, run_updates, run_updates-Reaches}

abbrev holding : ℤ → Portfolio
holding cash = record {
  positions = (1, record { quantity_ticks = pos 20; mark_price_ticks = pos 10 }) ∷ [];
  marks = (1, pos 10) ∷ [];
  cost_basis = (1, pos 9) ∷ [];
  cash_ticks = cash;
  realized_pnl_ticks = pos 0;
  fees_ticks = pos 0;
  ledger = [];
  corporate_actions = [];
  peak_equity_ticks = some (pos 1_200);
}

-- A sale of five at twelve, for a fee of one.
abbrev sale : FillLedgerEntry
sale = record {
  instrument_id = 1;
  quantity_ticks = negsuc 4;
  price_ticks = pos 12;
  fee_ticks = pos 1;
  cash_delta_ticks = pos 59;
  realized_pnl_ticks = pos 15;
  postings =
      record { account = PostingAccount.cash; amount_ticks = pos 59 }
      ∷ record { account = PostingAccount.position; amount_ticks = negsuc 59 }
      ∷ record { account = PostingAccount.fees; amount_ticks = pos 1 }
      ∷ [];
}

abbrev sold : Portfolio
sold = record {
  positions = (1, record { quantity_ticks = pos 15; mark_price_ticks = pos 12 }) ∷ [];
  marks = (1, pos 12) ∷ [];
  cost_basis = (1, pos 9) ∷ [];
  cash_ticks = pos 1_059;
  realized_pnl_ticks = pos 15;
  fees_ticks = pos 1;
  ledger = sale ∷ [];
  corporate_actions = [];
  peak_equity_ticks = some (pos 1_239);
}

apply_fill-IsBooked_example : IsBooked (holding (pos 1_000)) sold 1 (negsuc 4) (pos 12) (pos 1) sale
unfolding apply_fill plan_fill after_fill opening closing commit_fill store_fill_position
    record_equity_peak equity_ticks get insert remove in_i64 in_i128 ◌+ℤ◌ ◌-ℤ◌ ◌*ℤ◌ neg div_ℕ
apply_fill-IsBooked_example =
    apply_fill-IsBooked (holding (pos 1_000)) sold 1 (negsuc 4) (pos 12) (pos 1) sale refl

-- A sale that is accepted and a fill that is refused.
abbrev fills : List FillCall
fills =
    record { instrument_id = 1; quantity_ticks = negsuc 4; price_ticks = pos 12; fee_ticks = pos 1 }
    ∷ record { instrument_id = 2; quantity_ticks = pos 3; price_ticks = pos 0; fee_ticks = pos 2 }
    ∷ []

apply_fill-ledger_is_balanced_example :
    ledger_is_balanced (apply_fills (holding (pos 1_000)) fills) ≡ true
unfolding ledger_is_balanced in_i64
apply_fill-ledger_is_balanced_example =
    apply_fill-ledger_is_balanced (holding (pos 1_000)) fills (refl, (refl, tt)) refl

abbrev rich : Portfolio
rich = holding (pos 9_223_372_036_854_775_800)

abbrev too_much : FillPlan
too_much = record {
  next_quantity = pos 15;
  next_average = pos 9;
  next_cash = pos 9_223_372_036_854_775_859;
  next_realized = pos 15;
  next_fees = pos 1;
  previous_mark = pos 10;
  entry = sale;
}

apply_fill_cash_overflow_example :
    ((apply_fill rich 1 (negsuc 4) (pos 12) (pos 1)).0 ≡ err overflow)
    × ((apply_fill rich 1 (negsuc 4) (pos 12) (pos 1)).1.cash_ticks ≡ rich.cash_ticks)
    × ((apply_fill rich 1 (negsuc 4) (pos 12) (pos 1)).1.ledger ≡ rich.ledger)
    × (held (apply_fill rich 1 (negsuc 4) (pos 12) (pos 1)).1 1 ≡ held rich 1 +ℤ negsuc 4)
unfolding plan_fill after_fill opening closing get in_i64 in_i128 ◌+ℤ◌ ◌-ℤ◌ ◌*ℤ◌ neg div_ℕ
apply_fill_cash_overflow_example =
    apply_fill_cash_overflow rich 1 (negsuc 4) (pos 12) (pos 1) too_much refl refl

abbrev updates : List Update
updates =
    Update.marks 1 (pos 40)
    ∷ Update.marks 1 (pos 0)
    ∷ Update.fills 1 (negsuc 4) (pos 12) (pos 1)
    ∷ []

run_updates-Reaches_example :
    Reaches (some (pos 1_200)) (run_updates (holding (pos 1_000)) updates).peak_equity_ticks
run_updates-Reaches_example = run_updates-Reaches (holding (pos 1_000)) updates
