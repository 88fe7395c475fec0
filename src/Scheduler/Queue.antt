-- ===== src/Scheduler/Queue.antt =====
-- What the calls of crates/scheduler/src/lib.rs do to the queue as a whole.
use mathlib.Core.List.{Permᴰ}
use mathlib.Core.List.Permᴰ
use insider_trader.Prelude.{
  ℕ, zero, suc, ◌≤◌, ◌≡◌, refl, sym, ap, ◌∙◌, subst, arith, ◌==◌, Bool, true, false, ◌||◌, List, [],
  ◌∷◌, ◌++◌, length, any, append_nil, if◌then◌else◌, Bool-cases, Option-cases, inl, inr,
}
use insider_trader.Scheduler.{Work, Scheduler, heap_pop, cancel_loop, cancel}
use insider_trader.Scheduler.Order.{IsPopped, Perm-length, heap_pop-eq-none, heap_pop-IsPopped}

module _ {ℓ} {T : Type ℓ} where
  -- The work of a list with another id.
  unfoldable pub others : ℕ → List (Work T) → List (Work T)
  others id [] = []
  others id (w ∷ ws) = let rest = others id ws in if w.task_id == id then rest else w ∷ rest

  abbrev pub has_id : ℕ → List (Work T) → Bool
  has_id id ws = any (λ w. w.task_id == id) ws

  has_id-Perm : (id : ℕ) (xs ys : List (Work T)) → Permᴰ xs ys → has_id id xs ≡ has_id id ys
  has_id-Perm id _ _ Permᴰ.nil = refl
  has_id-Perm id _ _ (Permᴰ.cons {l₁ = l} {l₂ = m} e p) =
      ground (arith, ap (λ w. w.task_id == id) e, has_id-Perm id l m p)
  has_id-Perm id _ _ (Permᴰ.swap e f) =
      ground (arith, ap (λ w. w.task_id == id) e, ap (λ w. w.task_id == id) f)
  has_id-Perm id _ _ (Permᴰ.trans {l₁ = l} {l₂ = m} {l₃ = n} p q) =
      has_id-Perm id l m p ∙ has_id-Perm id m n q

  kept-cons :
      (t : Bool) (w : Work T) (l m : List (Work T))
      → Permᴰ l m
      → Permᴰ (if t then l else w ∷ l) (if t then m else w ∷ m)
  kept-cons true w l m p = p
  kept-cons false w l m p = Permᴰ.cons refl p

  kept-swap :
      (s t : Bool) (a b : Work T) (l : List (Work T))
      → let with_a = if s then l else a ∷ l in
        let with_b = if t then l else b ∷ l in
        Permᴰ (if s then with_b else a ∷ with_b) (if t then with_a else b ∷ with_a)
  kept-swap true true a b l = Permᴰ.refl l
  kept-swap true false a b l = Permᴰ.refl (b ∷ l)
  kept-swap false true a b l = Permᴰ.refl (a ∷ l)
  kept-swap false false a b l = Permᴰ.swap refl refl

  others-Perm : (id : ℕ) (xs ys : List (Work T)) → Permᴰ xs ys → Permᴰ (others id xs) (others id ys)
  unfolding others
  others-Perm id _ _ Permᴰ.nil = Permᴰ.nil
  others-Perm id _ _ (Permᴰ.cons {a = a} {b = b} {l₁ = l} {l₂ = m} e p) =
      subst (λ x. Permᴰ (others id (x ∷ l)) (others id (b ∷ m))) (sym e)
        (kept-cons (b.task_id == id) b (others id l) (others id m) (others-Perm id l m p))
  others-Perm id _ _ (Permᴰ.swap {a = a} {b = b} {a' = c} {b' = d} {l = l} e f) =
      subst (λ x. Permᴰ (others id (x ∷ b ∷ l)) (others id (c ∷ d ∷ l))) (sym e)
        (subst (λ x. Permᴰ (others id (d ∷ x ∷ l)) (others id (c ∷ d ∷ l))) (sym f)
          (kept-swap (d.task_id == id) (c.task_id == id) d c (others id l)))
  others-Perm id _ _ (Permᴰ.trans {l₁ = l} {l₂ = m} {l₃ = n} p q) =
      Permᴰ.trans (others-Perm id l m p) (others-Perm id m n q)

  pub append-Perm : (xs ys zs : List (Work T)) → Permᴰ xs ys → Permᴰ (xs ++ zs) (ys ++ zs)
  append-Perm _ _ zs Permᴰ.nil = Permᴰ.refl zs
  append-Perm _ _ zs (Permᴰ.cons {l₁ = l} {l₂ = m} e p) = Permᴰ.cons e (append-Perm l m zs p)
  append-Perm _ _ zs (Permᴰ.swap e f) = Permᴰ.swap e f
  append-Perm _ _ zs (Permᴰ.trans {l₁ = l} {l₂ = m} {l₃ = n} p q) =
      Permᴰ.trans (append-Perm l m zs p) (append-Perm m n zs q)

  to_front : (w : Work T) (xs ys : List (Work T)) → Permᴰ (xs ++ (w ∷ ys)) (w ∷ (xs ++ ys))
  to_front w [] ys = Permᴰ.refl (w ∷ ys)
  to_front w (x ∷ xs) ys = Permᴰ.trans (Permᴰ.cons refl (to_front w xs ys)) (Permᴰ.swap refl refl)

  -- Where a work goes makes no difference to what is retained in the end.
  retained-Perm :
      (hit : Bool) (w : Work T) (ws retained : List (Work T))
      → Permᴰ
          (ws ++ (if hit then retained else w ∷ retained))
          ((if hit then ws else w ∷ ws) ++ retained)
  retained-Perm true w ws retained = Permᴰ.refl (ws ++ retained)
  retained-Perm false w ws retained = to_front w ws retained

  -- What the loop of `cancel` gives, when it has a round for each work.
  abbrev Cancels : ℕ → List (Work T) → List (Work T) → Bool → List (Work T) × Bool → Type ℓ
  Cancels id queue retained removed (left, found) =
      Permᴰ left (others id queue ++ retained) × (found ≡ (removed || has_id id queue))

  no_others :
      (id : ℕ) (queue retained : List (Work T)) (removed : Bool)
      → queue ≡ []
      → Cancels id queue retained removed (retained, removed)
  unfolding others
  no_others id queue retained removed e =
      subst (λ q. Cancels id q retained removed (retained, removed)) (sym e)
        (Permᴰ.refl retained, ground arith)

  one_round :
      (id : ℕ) (queue retained : List (Work T)) (removed : Bool) (w : Work T) (rest : List (Work T))
      (out : List (Work T) × Bool)
      → IsPopped queue w rest
      → Cancels id rest
          (if w.task_id == id then retained else w ∷ retained)
          ((w.task_id == id) || removed)
          out
      → Cancels id queue retained removed out
  unfolding others
  one_round id queue retained removed w rest (left, found) popped (kept, flag) =
      let hit = w.task_id == id in
      (
        Permᴰ.trans kept (
            Permᴰ.trans (retained-Perm hit w (others id rest) retained) (
              append-Perm (others id (w ∷ rest)) (others id queue) retained
                (others-Perm id (w ∷ rest) queue (Permᴰ.symm popped.same)))),
        flag ∙ ground (arith, has_id-Perm id queue (w ∷ rest) popped.same),
      )

  cancel_loop-Cancels :
      (fuel id : ℕ) (queue retained : List (Work T)) (removed : Bool)
      → length queue ≤ fuel
      → Cancels id queue retained removed (cancel_loop fuel id queue retained removed)
  unfolding cancel_loop
  cancel_loop-Cancels zero id [] retained removed h = no_others id [] retained removed refl
  cancel_loop-Cancels zero id (w ∷ ws) retained removed h = absurd (omega (arith, h))
  cancel_loop-Cancels (suc fuel) id queue retained removed h =
      elim (Option-cases (heap_pop queue)) [
        | inl e ↦
            rw (e, cancel_loop) (no_others id queue retained removed (heap_pop-eq-none queue e))
        | inr ((w, rest), e) ↦
            let popped = heap_pop-IsPopped queue w rest e in
            let fewer : length rest ≤ fuel =
              omega (arith, h, Perm-length queue (w ∷ rest) popped.same) in
            rw (e, cancel_loop)
              (one_round id queue retained removed w rest _ popped (
                cancel_loop-Cancels fuel id rest
                  (if w.task_id == id then retained else w ∷ retained)
                  ((w.task_id == id) || removed) fewer))
      ]

  none_left : (id : ℕ) (ws : List (Work T)) → has_id id (others id ws) ≡ false
  unfolding others
  none_left id [] = refl
  none_left id (w ∷ ws) = elim (Bool-cases (w.task_id == id)) [
    | inl hit ↦ rw hit (none_left id ws)
    | inr miss ↦ rw miss (ground (arith, miss, none_left id ws))
  ]

  append_nil-Perm : (xs ys : List (Work T)) → Permᴰ xs (ys ++ []) → Permᴰ xs ys
  append_nil-Perm xs ys p = subst (Permᴰ xs) (append_nil ys) p

  -- The loop of a cancellation ends within as many rounds as there are works: exactly the works with
  -- the id leave the queue, all others stay, and the answer says whether there was one. A second
  -- cancellation of the id answers that there is none.
  pub cancel-others :
      (s : Scheduler T) (id : ℕ)
      → let (found, after) = cancel s id in
        Permᴰ after.queue (others id s.queue)
        × (found ≡ has_id id s.queue)
        × ((cancel after id).0 ≡ false)
  unfolding cancel
  cancel-others s id =
      let loop = cancel_loop (length s.queue) id s.queue [] false in
      let (kept, flag) = cancel_loop-Cancels (length s.queue) id s.queue [] false (omega arith) in
      let left = append_nil-Perm loop.0 (others id s.queue) kept in
      (
        left,
        flag,
        (cancel_loop-Cancels (length loop.0) id loop.0 [] false (omega arith)).1
            ∙ has_id-Perm id loop.0 (others id s.queue) left
            ∙ none_left id s.queue,
      )
