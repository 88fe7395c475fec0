-- ===== src/Risk/Policy.antt =====
-- crates/risk-engine/src/lib.rs: `ScopedRiskPolicy`, the revisions of the limits by scope and time.
pub mod Revisions
pub mod Positive
pub mod Start
pub mod Install
use insider_trader.Prelude.{
  ℕ, ℤ, pos, Bool, true, not, ◌&&◌, ◌||◌, Option, none, some, List, [], ◌∷◌, ◌++◌, ltb, leb, ltb_ℤ,
  ◌==◌, if◌then◌else◌, length, is_empty, any, map_or, unwrap_or, or_else, and_then, Text, is_blank,
  Result, ok, err, fail_if, ◌>>=◌, ◌>>◌,
}
use insider_trader.Maps.{Map, nat_key, text_key, get, insert, values}
use insider_trader.Market.{AssetClass, asset_key}
use insider_trader.Portfolio.{Portfolio, Target}
use insider_trader.Risk.{Limits, Decision, RiskEngine, Floats, RiskInputs}
use insider_trader.Risk.Check.{check}
use insider_trader.Risk.Guards.{check_with_guardrails}

pub record TimedLimits : Type 0 where
  pub effective_mono_ns : ℕ
  pub limits : Limits

pub record RiskScope : Type 0 where
  pub account_id : Text
  pub strategy_id : Option Text
  pub asset_class : Option AssetClass
  pub instrument_id : ℕ

pub data PolicyError : Type 0 where
  invalid_identity invalid_limits : PolicyError

-- `ScopedRiskPolicy`, and `ScopedRiskPolicySnapshot`, which has the same fields.
pub record ScopedRiskPolicy : Type 0 where
  pub system : List TimedLimits
  pub accounts : Map Text (List TimedLimits)
  pub strategies : Map Text (List TimedLimits)
  pub assets : Map AssetClass (List TimedLimits)
  pub instruments : Map ℕ (List TimedLimits)

unfoldable pub validate_limits : Limits → Result PolicyError (Unit {0})
validate_limits l =
    if ltb_ℤ (pos 0) l.max_position_ticks
      && ltb_ℤ (pos 0) l.max_order_ticks
      && ltb_ℤ (pos 0) l.max_gross_notional_ticks
    then ok tt
    else err invalid_limits

abbrev pub validate_revision : TimedLimits → Result PolicyError (Unit {0})
validate_revision r = validate_limits r.limits

-- `find` and the write through it; `none` where no revision has that time.
unfoldable pub replace_revision : TimedLimits → List TimedLimits → Option (List TimedLimits)
replace_revision r [] = none
replace_revision r (x ∷ xs) =
    let rest = replace_revision r xs in
    if x.effective_mono_ns == r.effective_mono_ns
    then some (r ∷ xs)
    else and_then rest (λ ys. some (x ∷ ys))

-- `sort_by_key`, which is stable: a later element goes behind the equal ones.
unfoldable pub insert_sorted : TimedLimits → List TimedLimits → List TimedLimits
insert_sorted r [] = r ∷ []
insert_sorted r (x ∷ xs) =
    let rest = insert_sorted r xs in
    if leb x.effective_mono_ns r.effective_mono_ns then x ∷ rest else r ∷ x ∷ xs

unfoldable pub sort_onto : List TimedLimits → List TimedLimits → List TimedLimits
unfolding insert_sorted
sort_onto sorted [] = sorted
sort_onto sorted (x ∷ xs) = sort_onto (insert_sorted x sorted) xs

unfoldable pub upsert_revision : List TimedLimits → TimedLimits → List TimedLimits
unfolding replace_revision sort_onto
upsert_revision revisions r =
    map_or (replace_revision r revisions) (sort_onto [] (revisions ++ (r ∷ [])))
      (λ written. written)

-- The last revision that is in force at a time.
unfoldable pub latest_revision : List TimedLimits → ℕ → Option TimedLimits
latest_revision [] now = none
latest_revision (x ∷ xs) now =
    or_else (latest_revision xs now) (if leb x.effective_mono_ns now then some x else none)

abbrev pub initial : Limits → ScopedRiskPolicy
initial limits = record {
  system = record { effective_mono_ns = 0; limits = limits } ∷ [];
  accounts = [];
  strategies = [];
  assets = [];
  instruments = [];
}

unfoldable pub new : Limits → Result PolicyError ScopedRiskPolicy
unfolding validate_limits
new limits = do validate_limits limits; ok (initial limits)

unfoldable pub set_system : ScopedRiskPolicy → TimedLimits → Result PolicyError ScopedRiskPolicy
set_system policy r = do
  validate_revision r
  ok (record policy { system = upsert_revision policy.system r })

-- `entry(key).or_default()`, and the revision added to it.
abbrev pub upsert_text :
    Map Text (List TimedLimits) → Text → TimedLimits → Map Text (List TimedLimits)
upsert_text m k r = insert k (upsert_revision (unwrap_or (get k m) []) r) m

unfoldable pub set_account :
    ScopedRiskPolicy → Text → TimedLimits → Result PolicyError ScopedRiskPolicy
set_account policy id r = do
  fail_if (is_blank id) invalid_identity
  validate_revision r
  ok (record policy { accounts = upsert_text policy.accounts id r })

unfoldable pub set_strategy :
    ScopedRiskPolicy → Text → TimedLimits → Result PolicyError ScopedRiskPolicy
set_strategy policy id r = do
  fail_if (is_blank id) invalid_identity
  validate_revision r
  ok (record policy { strategies = upsert_text policy.strategies id r })

unfoldable pub set_asset :
    ScopedRiskPolicy → AssetClass → TimedLimits → Result PolicyError ScopedRiskPolicy
set_asset policy class r = do
  validate_revision r
  ok (record policy {
    assets =
        insert class (upsert_revision (unwrap_or (get class policy.assets) []) r) policy.assets;
  })

unfoldable pub set_instrument :
    ScopedRiskPolicy → ℕ → TimedLimits → Result PolicyError ScopedRiskPolicy
set_instrument policy id r = do
  validate_revision r
  ok (record policy {
    instruments =
        insert id (upsert_revision (unwrap_or (get id policy.instruments) []) r) policy.instruments;
  })

-- One scope of `limits_at`: its latest revision takes the place of what is selected.
abbrev pub override : Option (List TimedLimits) → ℕ → Limits → Limits
override none now selected = selected
override (some revisions) now selected =
    map_or (latest_revision revisions now) selected (λ r. r.limits)

abbrev pub zero_limits : Limits
zero_limits = record {
  max_position_ticks = pos 0;
  max_order_ticks = pos 0;
  max_gross_notional_ticks = pos 0;
}

unfoldable pub limits_at : ScopedRiskPolicy → RiskScope → ℕ → Limits
limits_at policy scope now =
    let system = map_or (latest_revision policy.system now) zero_limits (λ r. r.limits) in
    let account =
      if is_blank scope.account_id then none else get scope.account_id policy.accounts in
    override (get scope.instrument_id policy.instruments) now (
      override (and_then scope.asset_class (λ class. get class policy.assets)) now (
        override (and_then scope.strategy_id (λ id. get id policy.strategies)) now
          (override account now system)))

unfoldable pub check_scoped :
    {F : Type 0} → RiskEngine F → Portfolio → Target → ScopedRiskPolicy → RiskScope → ℕ → Decision
unfolding limits_at
check_scoped engine p target policy scope now =
    check (record engine { limits = limits_at policy scope now }) p target

unfoldable pub check_with_guardrails_scoped :
    (fl : Floats)
    → RiskEngine fl.F
    → Portfolio
    → Target
    → ScopedRiskPolicy
    → RiskScope
    → ℕ
    → RiskInputs fl.F
    → Decision
unfolding limits_at
check_with_guardrails_scoped fl engine p target policy scope now inputs =
    check_with_guardrails fl (record engine { limits = limits_at policy scope now }) p target
      engine.guardrails inputs
