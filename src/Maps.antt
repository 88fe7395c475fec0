-- ===== src/Maps.antt =====
-- `std::collections::BTreeMap` and `BTreeSet`: association lists in the order of their keys.
-- The laws of `get` hold of any list, so no statement needs the order as a hypothesis.
use insider_trader.Prelude.{
  ℕ, compare, Ordering, ◌≡◌, refl, ◌↔◌, Bool, true, false, Option, none, some, List, [], ◌∷◌, map,
  arith, length, ◌+◌, ◌≤◌, if◌then◌else◌, Text, is_some, All, Bool-cases, inl, inr, subst,
}

-- `Ord` of the keys.
pub record Key (K : Type 0) : Type 0 where
  pub cmp : K → K → Ordering
  pub cmp_eq : (a b : K) → (cmp a b ≡ Ordering.eq) ↔ (a ≡ b)

pub nat-cmp_eq : (a b : ℕ) → (compare a b ≡ Ordering.eq) ↔ (a ≡ b)
nat-cmp_eq a b = ground arith

instance abbrev pub nat_key : Key ℕ
nat_key = record { cmp = compare; cmp_eq = nat-cmp_eq }

unfoldable pub text_cmp : Text → Text → Ordering
text_cmp [] [] = Ordering.eq
text_cmp [] (y ∷ ys) = Ordering.lt
text_cmp (x ∷ xs) [] = Ordering.gt
text_cmp (x ∷ xs) (y ∷ ys) =
    let rest = text_cmp xs ys in
    elim (compare x y) [
      | Ordering.eq ↦ rest
      | Ordering.lt ↦ Ordering.lt
      | Ordering.gt ↦ Ordering.gt
    ]

pub text-cmp_eq : (s t : Text) → (text_cmp s t ≡ Ordering.eq) ↔ (s ≡ t)
unfolding text_cmp
text-cmp_eq [] [] = ((λ e. refl), (λ e. refl))
text-cmp_eq [] (y ∷ ys) = ((λ e. cc), (λ e. cc))
text-cmp_eq (x ∷ xs) [] = ((λ e. cc), (λ e. cc))
text-cmp_eq (x ∷ xs) (y ∷ ys) = ground (arith, text-cmp_eq xs ys)

instance abbrev pub text_key : Key Text
text_key = record { cmp = text_cmp; cmp_eq = text-cmp_eq }

abbrev pub Map : Type 0 → Type 0 → Type 0
Map K V = List (K × V)

module _ {K : Type 0} ⦃o : Key K⦄ where
  abbrev pub key_eq : K → K → Bool
  key_eq a b = elim (o.cmp a b) [ Ordering.eq ↦ true | _ ↦ false ]

  pub key_eq_iff : (a b : K) → (key_eq a b ≡ true) ↔ (a ≡ b)
  key_eq_iff a b = ground (arith, o.cmp_eq a b)

module _ {K V : Type 0} ⦃o : Key K⦄ where
  unfoldable pub get : K → Map K V → Option V
  get k [] = none
  get k ((j, w) ∷ m) = if key_eq k j then some w else get k m

  unfoldable pub insert : K → V → Map K V → Map K V
  insert k v [] = (k, v) ∷ []
  insert k v ((j, w) ∷ m) =
      let rest = insert k v m in
      elim (o.cmp k j) [
        | Ordering.lt ↦ (k, v) ∷ (j, w) ∷ m
        | Ordering.eq ↦ (k, v) ∷ m
        | Ordering.gt ↦ (j, w) ∷ rest
      ]

  unfoldable pub remove : K → Map K V → Map K V
  remove k [] = []
  remove k ((j, w) ∷ m) = let rest = remove k m in if key_eq k j then rest else (j, w) ∷ rest

  abbrev pub contains_key : K → Map K V → Bool
  contains_key k m = is_some (get k m)

  pub get-insert :
      (j k : K) (v : V) (m : Map K V)
      → get j (insert k v m) ≡ (if key_eq j k then some v else get j m)
  unfolding get insert
  get-insert j k v [] = refl
  get-insert j k v ((i, w) ∷ m) =
      ground (arith, o.cmp_eq k i, o.cmp_eq j i, o.cmp_eq j k, get-insert j k v m)

  pub get-insert_self : (k : K) (v : V) (m : Map K V) → get k (insert k v m) ≡ some v
  get-insert_self k v m = ground (arith, get-insert k k v m, o.cmp_eq k k)

  pub get-remove :
      (j k : K) (m : Map K V) → get j (remove k m) ≡ (if key_eq j k then none else get j m)
  unfolding get remove
  get-remove j k [] = ground arith
  get-remove j k ((i, w) ∷ m) =
      ground (arith, o.cmp_eq k i, o.cmp_eq j i, o.cmp_eq j k, get-remove j k m)

  pub insert-insert : (k : K) (v w : V) (m : Map K V) → insert k v (insert k w m) ≡ insert k v m
  unfolding insert
  insert-insert k v w [] = ground (arith, o.cmp_eq k k)
  insert-insert k v w ((i, u) ∷ m) =
      ground (arith, o.cmp_eq k k, o.cmp_eq k i, insert-insert k v w m)

  pub length-insert : (k : K) (v : V) (m : Map K V) → length (insert k v m) ≤ length m + 1
  unfolding insert
  length-insert k v [] = omega arith
  length-insert k v ((j, w) ∷ m) = ground (arith, length-insert k v m)

  pub length-remove : (k : K) (m : Map K V) → length (remove k m) ≤ length m
  unfolding remove
  length-remove k [] = omega arith
  length-remove k ((j, w) ∷ m) = ground (arith, length-remove k m)

  -- A predicate of every value.
  pub get-All :
      (P : V → Type 0) (k : K) (m : Map K V) (v : V) → All (λ e. P e.1) m → get k m ≡ some v → P v
  unfolding get
  get-All P k [] v h e = cc
  get-All P k ((j, w) ∷ m) v h e = elim (Bool-cases (key_eq k j)) [
    | inl t ↦ subst P (ground arith) h.0
    | inr t ↦ get-All P k m v h.1 (ground arith)
  ]

  pub insert-All :
      (P : V → Type 0) (k : K) (v : V) (m : Map K V)
      → P v
      → All (λ e. P e.1) m
      → All (λ e. P e.1) (insert k v m)
  unfolding insert
  insert-All P k v [] h n = (h, tt)
  insert-All P k v ((j, w) ∷ m) h n =
      let rest = insert-All P k v m h n.1 in
      elim (o.cmp k j)
        as (λ x.
          All (λ e. P e.1)
            (elim x [
              | Ordering.lt ↦ (k, v) ∷ (j, w) ∷ m
              | Ordering.eq ↦ (k, v) ∷ m
              | Ordering.gt ↦ (j, w) ∷ insert k v m
            ])) [ Ordering.lt ↦ (h, n) | Ordering.eq ↦ (h, n.1) | Ordering.gt ↦ (n.0, rest) ]

-- `values()` and `keys()`, in key order.
abbrev pub values : {K V : Type 0} → Map K V → List V
values m = map (λ e. e.1) m

abbrev pub keys : {K V : Type 0} → Map K V → List K
keys m = map (λ e. e.0) m
