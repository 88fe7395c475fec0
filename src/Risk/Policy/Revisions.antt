-- ===== src/Risk/Policy/Revisions.antt =====
-- The revisions of one scope of crates/risk-engine/src/lib.rs as a function of time.
use mathlib.Core.List.{append-nil, append_assoc}
use insider_trader.Prelude.{
  ℕ, ◌≤◌, ◌<◌, ◌≡◌, refl, sym, ◌∙◌, true, ◌&&◌, none, some, List, [], ◌∷◌, ◌++◌, arith, leb,
  if◌then◌else◌, All, map_or, Option-cases, inl, inr, compare, Ordering,
}
use insider_trader.Risk.Policy.{
  TimedLimits, replace_revision, insert_sorted, sort_onto, upsert_revision, latest_revision,
}

abbrev at : TimedLimits → ℕ
at r = r.effective_mono_ns

-- Later elements have later times.
abbrev pub IsSorted : List TimedLimits → Type 0
IsSorted [] = Unit {0}
IsSorted (x ∷ xs) = All (λ y. at x < at y) xs × IsSorted xs

-- A write at one time of a sorted list, in one pass.
place : TimedLimits → List TimedLimits → List TimedLimits
place r [] = r ∷ []
place r (x ∷ xs) =
    let rest = place r xs in
    elim (compare (at x) (at r)) [
      | Ordering.lt ↦ x ∷ rest
      | Ordering.eq ↦ r ∷ xs
      | Ordering.gt ↦ r ∷ x ∷ xs
    ]

replace-none :
    (r x : TimedLimits) (xs : List TimedLimits)
    → at r ≤ at x
    → All (λ y. at x < at y) xs
    → replace_revision r xs ≡ none
unfolding replace_revision
replace-none r x [] h k = refl
replace-none r x (y ∷ ys) h k = ground (arith, replace-none r x ys h k.1)

latest-after :
    (x q : TimedLimits) (xs : List TimedLimits) (now : ℕ)
    → All (λ y. at x < at y) xs
    → latest_revision xs now ≡ some q
    → at x < at q
unfolding latest_revision
latest-after x q [] now h e = cc
latest-after x q (y ∷ ys) now h e = elim (Option-cases (latest_revision ys now)) [
  | inl w ↦ ground arith
  | inr (z, w) ↦ ground (arith, latest-after x z ys now h.1 w)
]

replace-place :
    (r : TimedLimits) (xs ys : List TimedLimits)
    → IsSorted xs
    → replace_revision r xs ≡ some ys
    → ys ≡ place r xs
unfolding replace_revision place
replace-place r [] ys s e = cc
replace-place r (x ∷ xs) ys s e = elim (Option-cases (replace_revision r xs)) [
  | inl w ↦ ground arith
  | inr (zs, w) ↦ ground (arith, replace-place r xs zs s.1 w, replace-none r x xs)
]

insert_sorted-place :
    (r : TimedLimits) (xs : List TimedLimits)
    → replace_revision r xs ≡ none
    → insert_sorted r xs ≡ place r xs
unfolding replace_revision insert_sorted place
insert_sorted-place r [] e = refl
insert_sorted-place r (x ∷ xs) e = elim (Option-cases (replace_revision r xs)) [
  | inl w ↦ ground (arith, insert_sorted-place r xs w)
  | inr (zs, w) ↦ ground arith
]

-- The whole of an accumulator stands before what is inserted behind it.
insert_sorted-last :
    (r : TimedLimits) (xs : List TimedLimits)
    → All (λ y. at y < at r) xs
    → insert_sorted r xs ≡ xs ++ (r ∷ [])
unfolding insert_sorted
insert_sorted-last r [] h = refl
insert_sorted-last r (x ∷ xs) h = ground (arith, insert_sorted-last r xs h.1)

latest-place :
    (r : TimedLimits) (xs : List TimedLimits) (now : ℕ)
    → IsSorted xs
    → latest_revision (place r xs) now ≡ (
        if leb (at r) now && map_or (latest_revision xs now) true (λ q. leb (at q) (at r))
        then some r
        else latest_revision xs now)
unfolding latest_revision place
latest-place r [] now s = ground arith
latest-place r (x ∷ xs) now s = elim (Option-cases (latest_revision xs now)) [
  | inl w ↦ ground (arith, latest-place r xs now s.1)
  | inr (q, w) ↦ ground (arith, latest-place r xs now s.1, latest-after x q xs now s.0 w)
]

sort_onto-last :
    (acc xs : List TimedLimits) (r : TimedLimits)
    → sort_onto acc (xs ++ (r ∷ [])) ≡ insert_sorted r (sort_onto acc xs)
unfolding sort_onto
sort_onto-last acc [] r = refl
sort_onto-last acc (x ∷ xs) r = sort_onto-last (insert_sorted x acc) xs r

All-append {ℓ κ} :
    {A : Type ℓ} (P : A → Type κ) (xs ys : List A) → All P xs → All P ys → All P (xs ++ ys)
All-append P [] ys h k = k
All-append P (x ∷ xs) ys h k = (h.0, All-append P xs ys h.1 k)

-- The accumulator lies before what is still to be sorted.
abbrev AreBefore : List TimedLimits → List TimedLimits → Type 0
AreBefore acc [] = Unit {0}
AreBefore acc (x ∷ xs) = All (λ y. at y < at x) acc × AreBefore acc xs

AreBefore-last :
    (x : TimedLimits) (acc xs : List TimedLimits)
    → AreBefore acc xs
    → All (λ y. at x < at y) xs
    → AreBefore (acc ++ (x ∷ [])) xs
AreBefore-last x acc [] h k = tt
AreBefore-last x acc (y ∷ ys) h k =
    (All-append _ acc (x ∷ []) h.0 (k.0, tt), AreBefore-last x acc ys h.1 k.1)

sort_onto-sorted :
    (acc xs : List TimedLimits) → AreBefore acc xs → IsSorted xs → sort_onto acc xs ≡ acc ++ xs
unfolding sort_onto
sort_onto-sorted acc [] h s = sym (append-nil acc)
sort_onto-sorted acc (x ∷ xs) h s = rw (insert_sorted-last x acc h.0) (
    sort_onto-sorted (acc ++ (x ∷ [])) xs (AreBefore-last x acc xs h.1 s.0) s.1
    ∙ append_assoc acc (x ∷ []) xs)

AreBefore-nil : (xs : List TimedLimits) → AreBefore [] xs
AreBefore-nil [] = tt
AreBefore-nil (x ∷ xs) = (tt, AreBefore-nil xs)

upsert-place :
    (xs : List TimedLimits) (r : TimedLimits) → IsSorted xs → upsert_revision xs r ≡ place r xs
unfolding upsert_revision
upsert-place xs r s = elim (Option-cases (replace_revision r xs)) [
  | inl w ↦
      rw (w, sort_onto-last [] xs r, sort_onto-sorted [] xs (AreBefore-nil xs) s)
        (insert_sorted-place r xs w)
  | inr (ys, w) ↦ rw w (replace-place r xs ys s w)
]

-- Written to sorted revisions, a revision is in force at the times from its own on at which no
-- revision with a later time is; at all other times the one in force is as before.
pub upsert_revision-latest :
    (xs : List TimedLimits) (r : TimedLimits) (now : ℕ)
    → IsSorted xs
    → latest_revision (upsert_revision xs r) now ≡ (
        if leb r.effective_mono_ns now
          && map_or (latest_revision xs now) true (λ q. leb q.effective_mono_ns r.effective_mono_ns)
        then some r
        else latest_revision xs now)
upsert_revision-latest xs r now s = rw (upsert-place xs r s) (latest-place r xs now s)

place-All :
    (r x : TimedLimits) (xs : List TimedLimits)
    → at x < at r
    → All (λ y. at x < at y) xs
    → All (λ y. at x < at y) (place r xs)
unfolding place
place-All r x [] h k = (h, tt)
place-All r x (y ∷ ys) h k = ground (arith, place-All r x ys h k.1)

All-later :
    (r x : TimedLimits) (xs : List TimedLimits)
    → at r ≤ at x
    → All (λ y. at x < at y) xs
    → All (λ y. at r < at y) xs
All-later r x [] h k = tt
All-later r x (y ∷ ys) h k = (omega arith, All-later r x ys h k.1)

place-IsSorted : (r : TimedLimits) (xs : List TimedLimits) → IsSorted xs → IsSorted (place r xs)
unfolding place
place-IsSorted r [] s = (tt, tt)
place-IsSorted r (x ∷ xs) s =
    ground (arith, place-IsSorted r xs s.1, place-All r x xs, All-later r x xs)

-- Writing a revision keeps the revisions in the order of their times, one for each time.
pub upsert_revision-IsSorted :
    (xs : List TimedLimits) (r : TimedLimits) → IsSorted xs → IsSorted (upsert_revision xs r)
upsert_revision-IsSorted xs r s = rw (upsert-place xs r s) (place-IsSorted r xs s)
