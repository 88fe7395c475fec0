-- ===== src/Risk/Policy/Start.antt =====
-- A revision of crates/risk-engine/src/lib.rs that is in force from the start stays when others are
-- installed.
use insider_trader.Prelude.{
  ℕ, ◌≡◌, ◌≢◌, refl, inl, inr, Bool, true, ◌||◌, none, some, List, [], ◌∷◌, ◌++◌, arith, ◌==◌, any,
  Option-cases,
}
use insider_trader.Maps.{nat_key, text_key}
use insider_trader.Market.{asset_key}
use insider_trader.Risk.Policy.{
  TimedLimits, replace_revision, insert_sorted, sort_onto, upsert_revision, latest_revision,
}

-- A revision in force from the start.
abbrev pub has_start : List TimedLimits → Bool
has_start = any (λ r. r.effective_mono_ns == 0)

replace-has_start :
    (r : TimedLimits) (xs ys : List TimedLimits)
    → replace_revision r xs ≡ some ys
    → has_start xs ≡ true
    → has_start ys ≡ true
unfolding replace_revision
replace-has_start r [] ys e h = cc
replace-has_start r (x ∷ xs) ys e h = elim (Option-cases (replace_revision r xs)) [
  | inl w ↦ ground arith
  | inr (zs, w) ↦ ground (arith, replace-has_start r xs zs w)
]

insert_sorted-has_start :
    (r : TimedLimits) (xs : List TimedLimits)
    → has_start (insert_sorted r xs) ≡ ((r.effective_mono_ns == 0) || has_start xs)
unfolding insert_sorted
insert_sorted-has_start r [] = refl
insert_sorted-has_start r (x ∷ xs) = ground (arith, insert_sorted-has_start r xs)

sort_onto-has_start :
    (sorted xs : List TimedLimits)
    → has_start (sort_onto sorted xs) ≡ (has_start xs || has_start sorted)
unfolding sort_onto
sort_onto-has_start sorted [] = refl
sort_onto-has_start sorted (x ∷ xs) =
    ground
      (arith, sort_onto-has_start (insert_sorted x sorted) xs, insert_sorted-has_start x sorted)

append-has_start :
    (xs ys : List TimedLimits) → has_start (xs ++ ys) ≡ (has_start xs || has_start ys)
append-has_start [] ys = refl
append-has_start (x ∷ xs) ys = ground (arith, append-has_start xs ys)

pub upsert_revision-has_start :
    (xs : List TimedLimits) (r : TimedLimits)
    → has_start xs ≡ true
    → has_start (upsert_revision xs r) ≡ true
unfolding upsert_revision
upsert_revision-has_start xs r h = elim (Option-cases (replace_revision r xs)) [
  | inl w ↦ ground (arith, sort_onto-has_start [] (xs ++ (r ∷ [])), append-has_start xs (r ∷ []))
  | inr (ys, w) ↦ ground (arith, replace-has_start r xs ys w h)
]

pub latest_of_start :
    (xs : List TimedLimits) (now : ℕ) → has_start xs ≡ true → latest_revision xs now ≢ none
unfolding latest_revision
latest_of_start [] now h e = cc
latest_of_start (x ∷ xs) now h e = ground (arith, latest_of_start xs now)
