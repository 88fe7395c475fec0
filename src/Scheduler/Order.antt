-- ===== src/Scheduler/Order.antt =====
-- The order of the work of crates/scheduler/src/lib.rs, and what its heap takes out first.
use mathlib.Core.List.{Permᴰ}
use mathlib.Core.List.Permᴰ
use insider_trader.Prelude.{
  ◌≡◌, refl, sym, ap, ◌∙◌, subst, arith, true, false, none, some, List, [], ◌∷◌, length, All,
  Bool-cases, Option-cases, inl, inr,
}
use insider_trader.Scheduler.{Work, cmp_work, is_less, pick, heap_pop}

module _ {ℓ} {T : Type ℓ} where
  is_less_trans : (a b c : Work T) → is_less a b ≡ false → is_less b c ≡ false → is_less a c ≡ false
  unfolding cmp_work
  is_less_trans a b c h k = ground (arith, h, k)

  is_less-flip : (a b : Work T) → is_less a b ≡ true → is_less b a ≡ false
  unfolding cmp_work
  is_less-flip a b h = ground (arith, h)

  -- A greatest element of a list and the others of it.
  pub record IsPopped (queue : List (Work T)) (work : Work T) (rest : List (Work T)) : Type ℓ where
    pub same : Permᴰ queue (work ∷ rest)
    pub greatest : All (λ w. is_less work w ≡ false) rest

  All-below :
      (a b : Work T) (ws : List (Work T))
      → is_less a b ≡ false
      → All (λ w. is_less b w ≡ false) ws
      → All (λ w. is_less a w ≡ false) ws
  All-below a b [] h k = tt
  All-below a b (w ∷ ws) h k = (is_less_trans a b w h k.0, All-below a b ws h k.1)

  pub Perm-All {κ} :
      (P : Work T → Type κ) (xs ys : List (Work T)) → Permᴰ xs ys → All P xs → All P ys
  Perm-All P _ _ Permᴰ.nil h = tt
  Perm-All P _ _ (Permᴰ.cons {l₁ = l} {l₂ = m} e p) h = (subst P e h.0, Perm-All P l m p h.1)
  Perm-All P _ _ (Permᴰ.swap e f) h = (subst P f h.1.0, (subst P e h.0, h.1.1))
  Perm-All P _ _ (Permᴰ.trans {l₁ = l} {l₂ = m} {l₃ = n} p q) h =
      Perm-All P m n q (Perm-All P l m p h)

  pub Perm-length : (xs ys : List (Work T)) → Permᴰ xs ys → length xs ≡ length ys
  Perm-length _ _ Permᴰ.nil = refl
  Perm-length _ _ (Permᴰ.cons {l₁ = l} {l₂ = m} e p) = omega (arith, Perm-length l m p)
  Perm-length _ _ (Permᴰ.swap e f) = refl
  Perm-length _ _ (Permᴰ.trans {l₁ = l} {l₂ = m} {l₃ = n} p q) =
      Perm-length l m p ∙ Perm-length m n q

  pick-IsPopped :
      (w : Work T) (ws : List (Work T)) (best : Work T) (rest : List (Work T))
      → IsPopped ws best rest
      → let (work, others) = pick w ws (some (best, rest)) in IsPopped (w ∷ ws) work others
  pick-IsPopped w ws best rest p = elim (Bool-cases (is_less w best)) [
    | inl less ↦ rw less (record {
      same = Permᴰ.trans (Permᴰ.cons refl p.same) (Permᴰ.swap refl refl);
      greatest = (is_less-flip w best less, p.greatest);
    })
    | inr not_less ↦ rw not_less (record {
      same = Permᴰ.refl (w ∷ ws);
      greatest =
          Perm-All (λ x. is_less w x ≡ false) (best ∷ rest) ws (Permᴰ.symm p.same)
            (not_less, All-below w best rest not_less p.greatest);
    })
  ]

  pub heap_pop-eq-none : (queue : List (Work T)) → heap_pop queue ≡ none → queue ≡ []
  unfolding heap_pop
  heap_pop-eq-none [] h = refl
  heap_pop-eq-none (w ∷ ws) h = cc

  some_pair : (o p : Work T × List (Work T)) → some o ≡ some p → o ≡ p
  some_pair o p h = cc

  -- The heap gives out a greatest element, and keeps the others.
  pub heap_pop-IsPopped :
      (queue : List (Work T)) (work : Work T) (rest : List (Work T))
      → heap_pop queue ≡ some (work, rest)
      → IsPopped queue work rest
  unfolding heap_pop
  heap_pop-IsPopped [] work rest h = cc
  heap_pop-IsPopped (w ∷ ws) work rest h =
      let same : pick w ws (heap_pop ws) ≡ (work, rest) =
        some_pair (pick w ws (heap_pop ws)) (work, rest) h in
      let Popped : Work T × List (Work T) → Type ℓ = λ o. IsPopped (w ∷ ws) o.0 o.1 in
      subst Popped same (elim (Option-cases (heap_pop ws)) [
        | inl e ↦ subst Popped (sym (ap (pick w ws) e)) (
            subst (λ l. IsPopped (w ∷ l) w []) (sym (heap_pop-eq-none ws e))
              (record { same = Permᴰ.refl (w ∷ []); greatest = tt }))
        | inr ((best, others), e) ↦
            subst Popped (sym (ap (pick w ws) e))
              (pick-IsPopped w ws best others (heap_pop-IsPopped ws best others e))
      ])
