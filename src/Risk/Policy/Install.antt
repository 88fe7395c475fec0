-- ===== src/Risk/Policy/Install.antt =====
-- Sequences of installed revisions of crates/risk-engine/src/lib.rs: the limits that the policy
-- resolves stay positive.
use insider_trader.Prelude.{
  ℕ, ◌≡◌, refl, subst, ◌⊎◌, inl, inr, true, Option, none, some, List, [], ◌∷◌, arith, if◌then◌else◌,
  map_or, unwrap_or, and_then, Option-cases, Result-cases, Bool-cases, Text, is_blank, Result, ok,
  err,
}
use insider_trader.Maps.{Key, Map, nat_key, text_key, get, insert}
use insider_trader.Market.{AssetClass, asset_key}
use insider_trader.Risk.{Limits}
use insider_trader.Risk.Policy.Positive.{
  IsPositive, ArePositive, AreAllPositive, upsert_revision-ArePositive, latest_IsPositive,
  get-ArePositive, upsert-AreAllPositive, override-IsPositive,
}
use insider_trader.Risk.Policy.Start.{has_start, upsert_revision-has_start, latest_of_start}
use insider_trader.Risk.Policy.{
  TimedLimits, RiskScope, PolicyError, ScopedRiskPolicy, validate_limits, upsert_revision,
  latest_revision, initial, new, set_system, set_account, set_strategy, set_asset, set_instrument,
  zero_limits, limits_at,
}

-- The invariant of a policy.
pub record IsSound (policy : ScopedRiskPolicy) : Type 0 where
  pub started : has_start policy.system ≡ true
  pub system : ArePositive policy.system
  pub accounts : AreAllPositive policy.accounts
  pub strategies : AreAllPositive policy.strategies
  pub assets : AreAllPositive policy.assets
  pub instruments : AreAllPositive policy.instruments

-- A call that installs one revision.
pub data Install : Type 0 where
  system : TimedLimits → Install
  account strategy : Text → TimedLimits → Install
  asset : AssetClass → TimedLimits → Install
  instrument : ℕ → TimedLimits → Install

unfoldable pub install : ScopedRiskPolicy → Install → Result PolicyError ScopedRiskPolicy
install policy (system r) = set_system policy r
install policy (account id r) = set_account policy id r
install policy (strategy id r) = set_strategy policy id r
install policy (asset class r) = set_asset policy class r
install policy (instrument id r) = set_instrument policy id r

-- A refused call leaves the policy as it was.
abbrev pub kept : ScopedRiskPolicy → Result PolicyError ScopedRiskPolicy → ScopedRiskPolicy
kept policy (ok next) = next
kept policy (err e) = policy

unfoldable pub install_all : ScopedRiskPolicy → List Install → ScopedRiskPolicy
unfolding install
install_all policy [] = policy
install_all policy (c ∷ cs) = install_all (kept policy (install policy c)) cs

valid_of_ok : (l : Limits) (u : Unit {0}) → validate_limits l ≡ ok u → IsPositive l
unfolding validate_limits
valid_of_ok l u h = ground arith

-- A call whose revision fails the validation changes nothing; otherwise the revision is positive.
install_cases :
    (l : Limits)
    → (IsPositive l × (validate_limits l ≡ ok tt))
      ⊎ ((e : PolicyError) × (validate_limits l ≡ err e))
install_cases l = elim (Result-cases (validate_limits l)) [
  | inl (e, w) ↦ inr (e, w)
  | inr (tt, w) ↦ inl (valid_of_ok l tt w, w)
]

accounts-IsSound :
    (policy : ScopedRiskPolicy) (k : Text) (r : TimedLimits)
    → IsSound policy
    → IsPositive r.limits
    → IsSound (record policy {
      accounts =
          insert k (upsert_revision (unwrap_or (get k policy.accounts) []) r) policy.accounts;
    })
accounts-IsSound policy k r s h = record {
  started = s.started;
  system = s.system;
  accounts = upsert-AreAllPositive k r policy.accounts h s.accounts;
  strategies = s.strategies;
  assets = s.assets;
  instruments = s.instruments;
}

strategies-IsSound :
    (policy : ScopedRiskPolicy) (k : Text) (r : TimedLimits)
    → IsSound policy
    → IsPositive r.limits
    → IsSound (record policy {
      strategies =
          insert k (upsert_revision (unwrap_or (get k policy.strategies) []) r) policy.strategies;
    })
strategies-IsSound policy k r s h = record {
  started = s.started;
  system = s.system;
  accounts = s.accounts;
  strategies = upsert-AreAllPositive k r policy.strategies h s.strategies;
  assets = s.assets;
  instruments = s.instruments;
}

assets-IsSound :
    (policy : ScopedRiskPolicy) (k : AssetClass) (r : TimedLimits)
    → IsSound policy
    → IsPositive r.limits
    → IsSound (record policy {
      assets = insert k (upsert_revision (unwrap_or (get k policy.assets) []) r) policy.assets;
    })
assets-IsSound policy k r s h = record {
  started = s.started;
  system = s.system;
  accounts = s.accounts;
  strategies = s.strategies;
  assets = upsert-AreAllPositive k r policy.assets h s.assets;
  instruments = s.instruments;
}

instruments-IsSound :
    (policy : ScopedRiskPolicy) (k : ℕ) (r : TimedLimits)
    → IsSound policy
    → IsPositive r.limits
    → IsSound (record policy {
      instruments =
          insert k (upsert_revision (unwrap_or (get k policy.instruments) []) r) policy.instruments;
    })
instruments-IsSound policy k r s h = record {
  started = s.started;
  system = s.system;
  accounts = s.accounts;
  strategies = s.strategies;
  assets = s.assets;
  instruments = upsert-AreAllPositive k r policy.instruments h s.instruments;
}

-- Every call keeps the invariant: the system scope has a revision in force from the start, and the
-- limits of every revision of every scope are positive.
pub install-IsSound :
    (policy : ScopedRiskPolicy) (c : Install)
    → IsSound policy
    → IsSound (kept policy (install policy c))
unfolding install set_system set_account set_strategy set_asset set_instrument
install-IsSound policy (system r) s = elim (install_cases r.limits) [
  | inl (h, w) ↦ rw w (record {
    started = upsert_revision-has_start policy.system r s.started;
    system = upsert_revision-ArePositive policy.system r s.system h;
    accounts = s.accounts;
    strategies = s.strategies;
    assets = s.assets;
    instruments = s.instruments;
  })
  | inr (e, w) ↦ rw w s
]
install-IsSound policy (account id r) s = elim (Bool-cases (is_blank id)) [
  | inl b ↦ rw b s
  | inr b ↦ elim (install_cases r.limits) [
    | inl (h, w) ↦ rw (b, w) (accounts-IsSound policy id r s h)
    | inr (e, w) ↦ rw (b, w) s
  ]
]
install-IsSound policy (strategy id r) s = elim (Bool-cases (is_blank id)) [
  | inl b ↦ rw b s
  | inr b ↦ elim (install_cases r.limits) [
    | inl (h, w) ↦ rw (b, w) (strategies-IsSound policy id r s h)
    | inr (e, w) ↦ rw (b, w) s
  ]
]
install-IsSound policy (asset class r) s = elim (install_cases r.limits) [
  | inl (h, w) ↦ rw w (assets-IsSound policy class r s h)
  | inr (e, w) ↦ rw w s
]
install-IsSound policy (instrument id r) s = elim (install_cases r.limits) [
  | inl (h, w) ↦ rw w (instruments-IsSound policy id r s h)
  | inr (e, w) ↦ rw w s
]

install_all-IsSound :
    (policy : ScopedRiskPolicy) (cs : List Install)
    → IsSound policy
    → IsSound (install_all policy cs)
unfolding install_all
install_all-IsSound policy [] s = s
install_all-IsSound policy (c ∷ cs) s =
    install_all-IsSound (kept policy (install policy c)) cs (install-IsSound policy c s)

new-IsSound :
    (limits : Limits) (policy : ScopedRiskPolicy) → new limits ≡ ok policy → IsSound policy
unfolding new
new-IsSound limits policy h = elim (install_cases limits) [
  | inl (k, w) ↦ subst IsSound {x = initial limits} (ground arith) (record {
    started = refl;
    system = (k, tt);
    accounts = tt;
    strategies = tt;
    assets = tt;
    instruments = tt;
  })
  | inr (e, w) ↦ ground arith
]

system_IsPositive :
    (policy : ScopedRiskPolicy) (now : ℕ)
    → IsSound policy
    → IsPositive (map_or (latest_revision policy.system now) zero_limits (λ r. r.limits))
system_IsPositive policy now s = elim (Option-cases (latest_revision policy.system now)) [
  | inl e ↦ absurd (latest_of_start policy.system now s.started e)
  | inr (r, e) ↦ rw e (latest_IsPositive policy.system now r s.system e)
]

by_key :
    {K : Type 0} ⦃o : Key K⦄ (k : Option K) (m : Map K (List TimedLimits))
    → AreAllPositive m
    → (xs : List TimedLimits) → and_then k (λ j. get j m) ≡ some xs
    → ArePositive xs
by_key none m h xs e = cc
by_key (some j) m h xs e = get-ArePositive j m xs h e

account_found :
    (policy : ScopedRiskPolicy) (scope : RiskScope) (xs : List TimedLimits)
    → IsSound policy
    → (if is_blank scope.account_id then none else get scope.account_id policy.accounts) ≡ some xs
    → ArePositive xs
account_found policy scope xs s e =
    get-ArePositive scope.account_id policy.accounts xs s.accounts (ground arith)

limits_at-IsPositive :
    (policy : ScopedRiskPolicy) (scope : RiskScope) (now : ℕ)
    → IsSound policy
    → IsPositive (limits_at policy scope now)
unfolding limits_at
limits_at-IsPositive policy scope now s =
    override-IsPositive (get scope.instrument_id policy.instruments) now _
      (λ xs. get-ArePositive scope.instrument_id policy.instruments xs s.instruments)
      (override-IsPositive (and_then scope.asset_class (λ class. get class policy.assets)) now _
        (by_key scope.asset_class policy.assets s.assets)
        (override-IsPositive (and_then scope.strategy_id (λ id. get id policy.strategies)) now _
          (by_key scope.strategy_id policy.strategies s.strategies)
          (override-IsPositive _ now _ (λ xs e. account_found policy scope xs s e)
            (system_IsPositive policy now s))))

-- A policy that is made from positive limits, and any revisions installed after, resolves positive
-- limits in every scope at every time.
pub install_all-limits_at :
    (limits : Limits) (policy : ScopedRiskPolicy) (cs : List Install) (scope : RiskScope) (now : ℕ)
    → new limits ≡ ok policy
    → IsPositive (limits_at (install_all policy cs) scope now)
install_all-limits_at limits policy cs scope now h =
    limits_at-IsPositive (install_all policy cs) scope now
      (install_all-IsSound policy cs (new-IsSound limits policy h))
