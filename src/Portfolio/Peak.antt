-- ===== src/Portfolio/Peak.antt =====
-- The high-water mark of crates/portfolio/src/lib.rs, over the updates that a portfolio takes from
-- the broker, the market and recovery.
use insider_trader.Prelude.{
  Bool-cases, subst, ◌∙◌, ℕ, ℤ, pos, refl, ◌≡◌, ◌≤ℤ◌, Option, none, some, List, [], ◌∷◌, arith,
  ltb_ℤ, leb_ℤ, Option-cases, Result-cases, inl, inr, map_or, unwrap_or, narrow_i64,
}
use insider_trader.Maps.{nat_key}
use insider_trader.Portfolio.{
  Position, Portfolio, max_ℤ, equity_ticks, record_equity_peak, restore_peak_equity_ticks,
  set_position, reconcile_one, reconcile_each, reconcile_positions, set_mark_price,
}
use insider_trader.Portfolio.Fill.{
  FillPlan, plan_fill, store_fill_position, commit_fill, apply_fill,
}

pub data Update : Type 0 where
  fills : ℕ → ℤ → ℤ → ℤ → Update
  sets : ℕ → Position → Update
  marks : ℕ → ℤ → Update
  reconciles : List (ℕ × ℤ) → Option ℤ → Update
  restores : Option ℤ → Update

unfoldable pub update : Portfolio → Update → Portfolio
unfolding apply_fill set_position set_mark_price reconcile_positions restore_peak_equity_ticks
update p (fills id quantity price fee) = (apply_fill p id quantity price fee).1
update p (sets id x) = set_position p id x
update p (marks id price) = (set_mark_price p id price).1
update p (reconciles positions cash) = reconcile_positions p positions cash
update p (restores peak) = restore_peak_equity_ticks p peak

unfoldable pub run_updates : Portfolio → List Update → Portfolio
unfolding update
run_updates p [] = p
run_updates p (u ∷ us) = run_updates (update p u) us

-- The second mark is there where the first is, and is no lower.
abbrev pub Reaches : Option ℤ → Option ℤ → Type 0
Reaches none later = Unit
Reaches (some a) none = ⊥
Reaches (some a) (some b) = a ≤ℤ b

Reaches-refl : (o : Option ℤ) → Reaches o o
Reaches-refl none = tt
Reaches-refl (some a) = omega arith

Reaches-trans : (a b c : Option ℤ) → Reaches a b → Reaches b c → Reaches a c
Reaches-trans none b c f g = tt
Reaches-trans (some a) none c f g = elim f [ ]
Reaches-trans (some a) (some b) none f g = elim g [ ]
Reaches-trans (some a) (some b) (some c) f g = omega (arith, f, g)

higher-Reaches :
    (peak : Option ℤ) (equity : ℤ)
    → Reaches peak (some (map_or peak equity (λ old. max_ℤ old equity)))
higher-Reaches none equity = tt
higher-Reaches (some a) equity = ground arith

record_equity_peak-Reaches :
    (p : Portfolio) → Reaches p.peak_equity_ticks (record_equity_peak p).peak_equity_ticks
unfolding record_equity_peak
record_equity_peak-Reaches p = elim (Option-cases (equity_ticks p)) [
  | inl e ↦ rw (e, record_equity_peak) (Reaches-refl p.peak_equity_ticks)
  | inr (equity, e) ↦ rw (e, record_equity_peak) (higher-Reaches p.peak_equity_ticks equity)
]

restored-Reaches :
    (old : Option ℤ) (peak : ℤ) → Reaches old (some (max_ℤ (unwrap_or old peak) peak))
restored-Reaches none peak = tt
restored-Reaches (some a) peak = ground arith

reconcile_one-peak :
    (previous p : Portfolio) (x : ℕ × ℤ)
    → (reconcile_one previous p x).peak_equity_ticks ≡ p.peak_equity_ticks
unfolding reconcile_one
reconcile_one-peak previous p (id, quantity) = ground arith

reconcile_each-peak :
    (previous p : Portfolio) (xs : List (ℕ × ℤ))
    → (reconcile_each previous p xs).peak_equity_ticks ≡ p.peak_equity_ticks
unfolding reconcile_each
reconcile_each-peak previous p [] = refl
reconcile_each-peak previous p (x ∷ xs) =
    reconcile_each-peak previous (reconcile_one previous p x) xs ∙ reconcile_one-peak previous p x

commit_fill-Reaches :
    (p : Portfolio) (f : FillPlan)
    → Reaches p.peak_equity_ticks (commit_fill p f).1.peak_equity_ticks
unfolding commit_fill store_fill_position
commit_fill-Reaches p f = elim (Option-cases (narrow_i64 f.next_cash)) [
  | inl e ↦ rw (e, commit_fill) (Reaches-refl p.peak_equity_ticks)
  | inr (cash, e) ↦ elim (Option-cases (narrow_i64 f.next_realized)) [
    | inl r ↦ rw (e, r, commit_fill) (Reaches-refl p.peak_equity_ticks)
    | inr (realized, r) ↦ elim (Option-cases (narrow_i64 f.next_fees)) [
      | inl x ↦ rw (e, r, x, commit_fill) (Reaches-refl p.peak_equity_ticks)
      | inr (fees, x) ↦ rw (e, r, x, commit_fill) (record_equity_peak-Reaches _)
    ]
  ]
]

update-Reaches :
    (p : Portfolio) (u : Update) → Reaches p.peak_equity_ticks (update p u).peak_equity_ticks
unfolding update apply_fill set_position set_mark_price reconcile_positions
    restore_peak_equity_ticks
update-Reaches p (fills id quantity price fee) =
    elim (Result-cases (plan_fill p id quantity price fee)) [
      | inl (e, h) ↦ rw (h, update, apply_fill) (Reaches-refl p.peak_equity_ticks)
      | inr (f, h) ↦ rw (h, update, apply_fill) (commit_fill-Reaches p f)
    ]
update-Reaches p (sets id x) = elim (Bool-cases (ltb_ℤ (pos 0) x.mark_price_ticks)) [
  | inl e ↦ rw (e, update, set_position) (record_equity_peak-Reaches _)
  | inr e ↦ rw (e, update, set_position) (record_equity_peak-Reaches _)
]
update-Reaches p (marks id price) = elim (Bool-cases (leb_ℤ price (pos 0))) [
  | inl e ↦ rw (e, update, set_mark_price) (Reaches-refl p.peak_equity_ticks)
  | inr e ↦ rw (e, update, set_mark_price) (record_equity_peak-Reaches _)
]
update-Reaches p (reconciles positions cash) =
    let start = record p { positions = []; cost_basis = [] } in
    let placed = reconcile_each p start positions in
    subst (λ o. Reaches o (reconcile_positions p positions cash).peak_equity_ticks)
      (reconcile_each-peak p start positions)
      (record_equity_peak-Reaches (record placed { cash_ticks = unwrap_or cash placed.cash_ticks }))
update-Reaches p (restores none) = Reaches-refl p.peak_equity_ticks
update-Reaches p (restores (some peak)) = restored-Reaches p.peak_equity_ticks peak

-- In any sequence of fills, positions set, marks, reconciliations and restored marks, refused ones
-- among them, the high-water mark never falls and never goes away.
pub run_updates-Reaches :
    (p : Portfolio) (us : List Update)
    → Reaches p.peak_equity_ticks (run_updates p us).peak_equity_ticks
unfolding run_updates
run_updates-Reaches p [] = Reaches-refl p.peak_equity_ticks
run_updates-Reaches p (u ∷ us) =
    Reaches-trans p.peak_equity_ticks (update p u).peak_equity_ticks
      (run_updates (update p u) us).peak_equity_ticks (update-Reaches p u)
      (run_updates-Reaches (update p u) us)
