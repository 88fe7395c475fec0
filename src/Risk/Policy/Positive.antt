-- ===== src/Risk/Policy/Positive.antt =====
-- The limits that a scoped policy of crates/risk-engine/src/lib.rs resolves are positive, whatever
-- revisions were installed.
use insider_trader.Prelude.{
  ℕ, pos, ◌<ℤ◌, ◌≡◌, refl, inl, inr, Option, none, some, List, [], ◌∷◌, ◌++◌, arith, All, unwrap_or,
  Option-cases,
}
use insider_trader.Maps.{Key, Map, nat_key, text_key, get, insert, get-All, insert-All}
use insider_trader.Market.{asset_key}
use insider_trader.Risk.{Limits}
use insider_trader.Risk.Policy.{
  TimedLimits, replace_revision, insert_sorted, sort_onto, upsert_revision, latest_revision,
  override,
}

abbrev pub IsPositive : Limits → Type 0
IsPositive l =
    (pos 0 <ℤ l.max_position_ticks)
    × (pos 0 <ℤ l.max_order_ticks)
    × (pos 0 <ℤ l.max_gross_notional_ticks)

abbrev pub ArePositive : List TimedLimits → Type 0
ArePositive = All (λ r. IsPositive r.limits)

replace_ArePositive :
    (r : TimedLimits) (xs ys : List TimedLimits)
    → IsPositive r.limits
    → ArePositive xs
    → replace_revision r xs ≡ some ys
    → ArePositive ys
unfolding replace_revision
replace_ArePositive r [] ys h k e = cc
replace_ArePositive r (x ∷ xs) ys h k e = elim (Option-cases (replace_revision r xs)) [
  | inl w ↦ ground arith
  | inr (zs, w) ↦ ground (arith, replace_ArePositive r xs zs h k.1 w)
]

insert_sorted-ArePositive :
    (r : TimedLimits) (xs : List TimedLimits)
    → IsPositive r.limits
    → ArePositive xs
    → ArePositive (insert_sorted r xs)
unfolding insert_sorted
insert_sorted-ArePositive r [] h k = (h, tt)
insert_sorted-ArePositive r (x ∷ xs) h k = ground (arith, insert_sorted-ArePositive r xs h k.1)

sort_onto-ArePositive :
    (sorted xs : List TimedLimits)
    → ArePositive sorted
    → ArePositive xs
    → ArePositive (sort_onto sorted xs)
unfolding sort_onto
sort_onto-ArePositive sorted [] h k = h
sort_onto-ArePositive sorted (x ∷ xs) h k =
    sort_onto-ArePositive (insert_sorted x sorted) xs (insert_sorted-ArePositive x sorted k.0 h) k.1

append-ArePositive :
    (xs ys : List TimedLimits) → ArePositive xs → ArePositive ys → ArePositive (xs ++ ys)
append-ArePositive [] ys h k = k
append-ArePositive (x ∷ xs) ys h k = (h.0, append-ArePositive xs ys h.1 k)

pub upsert_revision-ArePositive :
    (xs : List TimedLimits) (r : TimedLimits)
    → ArePositive xs
    → IsPositive r.limits
    → ArePositive (upsert_revision xs r)
unfolding upsert_revision
upsert_revision-ArePositive xs r h k = elim (Option-cases (replace_revision r xs)) [
  | inl w ↦
      rw w (sort_onto-ArePositive [] (xs ++ (r ∷ [])) tt (append-ArePositive xs (r ∷ []) h (k, tt)))
  | inr (ys, w) ↦ rw w (replace_ArePositive r xs ys k h w)
]

pub latest_IsPositive :
    (xs : List TimedLimits) (now : ℕ) (r : TimedLimits)
    → ArePositive xs
    → latest_revision xs now ≡ some r
    → IsPositive r.limits
unfolding latest_revision
latest_IsPositive [] now r h e = cc
latest_IsPositive (x ∷ xs) now r h e = elim (Option-cases (latest_revision xs now)) [
  | inl w ↦ ground arith
  | inr (y, w) ↦ ground (arith, latest_IsPositive xs now y h.1 w)
]

-- Every revision of every scope.
module _ {K : Type 0} ⦃o : Key K⦄ where
  abbrev pub AreAllPositive : Map K (List TimedLimits) → Type 0
  AreAllPositive = All (λ e. ArePositive e.1)

  pub get-ArePositive :
      (k : K) (m : Map K (List TimedLimits)) (xs : List TimedLimits)
      → AreAllPositive m
      → get k m ≡ some xs
      → ArePositive xs
  get-ArePositive = get-All ArePositive

  pub upsert-AreAllPositive :
      (k : K) (r : TimedLimits) (m : Map K (List TimedLimits))
      → IsPositive r.limits
      → AreAllPositive m
      → AreAllPositive (insert k (upsert_revision (unwrap_or (get k m) []) r) m)
  upsert-AreAllPositive k r m h n = elim (Option-cases (get k m)) [
    | inl w ↦ rw w (insert-All ArePositive k _ m (upsert_revision-ArePositive [] r tt h) n)
    | inr (xs, w) ↦ rw w (
        insert-All ArePositive k _ m
          (upsert_revision-ArePositive xs r (get-ArePositive k m xs n w) h) n)
  ]

pub override-IsPositive :
    (o : Option (List TimedLimits)) (now : ℕ) (l : Limits)
    → ((xs : List TimedLimits) → o ≡ some xs → ArePositive xs)
    → IsPositive l
    → IsPositive (override o now l)
override-IsPositive none now l h k = k
override-IsPositive (some xs) now l h k = elim (Option-cases (latest_revision xs now)) [
  | inl e ↦ rw e k
  | inr (r, e) ↦ rw e (latest_IsPositive xs now r (h xs refl) e)
]
