-- ===== src/Scheduler/Drain.antt =====
-- The order in which crates/scheduler/src/lib.rs runs its work, and the bound of its queue.
use mathlib.Core.List.{Permᴰ}
use insider_trader.Prelude.{
  ℕ, zero, suc, ◌≤◌, ◌<◌, ◌⊎◌, ◌≡◌, refl, sym, ap, ◌∙◌, subst, arith, ltb, leb, false, Option, none,
  some, List, [], ◌∷◌, map, length, All, Bool-cases, Option-cases, inl, inr,
}
use insider_trader.Scheduler.{
  Work, Ready, Scheduler, rank, cmp_work, is_less, new_scheduler, submit, heap_pop, pop_found,
  pop_ready, cancel,
}
use insider_trader.Scheduler.Order.{
  IsPopped, Perm-All, Perm-length, heap_pop-eq-none, heap_pop-IsPopped,
}
use insider_trader.Scheduler.Queue.{others, cancel-others}

module _ {ℓ} {T : Type ℓ} where
  -- So many calls of `pop_ready` at a time; none goes on after one that finds nothing.
  unfoldable pub pop_all : ℕ → Scheduler T → ℕ → List (Ready T) × Scheduler T
  pop_all zero s now = ([], s)
  pop_all (suc n) s now =
      let (answer, t) = pop_ready s now in
      elim answer [ none ↦ ([], t) | some r ↦ let rest = pop_all n t now in (r ∷ rest.0, rest.1) ]

  abbrev pub works : List (Ready T) → List (Work T)
  works rs = map (λ r. r.work) rs

  -- Work that may run before another: of a higher priority, or of the same with an earlier deadline,
  -- or of the same deadline too with an id that is not greater.
  abbrev pub Precedes : Work T → Work T → Type 0
  Precedes w x =
      (rank x.priority < rank w.priority)
      ⊎ ((rank x.priority ≡ rank w.priority)
          × ((w.deadline < x.deadline) ⊎ ((w.deadline ≡ x.deadline) × (w.task_id ≤ x.task_id))))

  is_less-Precedes : (w x : Work T) → is_less w x ≡ false → Precedes w x
  unfolding cmp_work
  is_less-Precedes w x h = ground (arith, h)

  All-Precedes :
      (w : Work T) (xs : List (Work T)) → All (λ x. is_less w x ≡ false) xs → All (Precedes w) xs
  All-Precedes w [] h = tt
  All-Precedes w (x ∷ xs) h = (is_less-Precedes w x h.0, All-Precedes w xs h.1)

  -- Every work precedes those after it.
  abbrev pub AreOrdered : List (Work T) → Type ℓ
  AreOrdered [] = Unit
  AreOrdered (w ∷ ws) = All (Precedes w) ws × AreOrdered ws

  pop_ready-none :
      (s : Scheduler T) (now : ℕ) → heap_pop s.queue ≡ none → pop_ready s now ≡ (none, s)
  unfolding pop_ready
  pop_ready-none s now e = rw (e, pop_ready) refl

  pop_ready-some :
      (s : Scheduler T) (now : ℕ) (w : Work T) (rest : List (Work T))
      → heap_pop s.queue ≡ some (w, rest)
      → pop_ready s now
        ≡ (some (record { work = w; late = ltb w.deadline now }), record s { queue = rest })
  unfolding pop_ready
  pop_ready-some s now w rest e = ap (pop_found s now) e

  -- What a run of pops gives of a queue.
  abbrev Drains : Scheduler T → ℕ → List (Ready T) × Scheduler T → Type ℓ
  Drains s now (out, t) =
      Permᴰ s.queue (works out)
      × AreOrdered (works out)
      × All (λ r. r.late ≡ ltb r.work.deadline now) out
      × (t.queue ≡ [])

  drain_none : (s : Scheduler T) (now : ℕ) → s.queue ≡ [] → Drains s now ([], s)
  drain_none s now e = (subst (λ q. Permᴰ q []) (sym e) Permᴰ.nil, tt, tt, e)

  drain_one :
      (s : Scheduler T) (now : ℕ) (w : Work T) (rest : List (Work T)) (out : List (Ready T))
      (t : Scheduler T)
      → IsPopped s.queue w rest
      → Drains (record s { queue = rest }) now (out, t)
      → Drains s now (record { work = w; late = ltb w.deadline now } ∷ out, t)
  drain_one s now w rest out t p (same, ordered, late, ended) = (
    Permᴰ.trans p.same (Permᴰ.cons refl same),
    (
      All-Precedes w (works out)
          (Perm-All (λ x. is_less w x ≡ false) rest (works out) same p.greatest),
      ordered,
    ),
    (refl, late),
    ended,
  )

  length-nil : (ws : List (Work T)) → length ws ≤ 0 → ws ≡ []
  length-nil [] h = refl
  length-nil (w ∷ ws) h = absurd (omega (arith, h))

  -- What `pop_all` makes of the answer to its first pop.
  abbrev pop_next : ℕ → ℕ → Option (Ready T) × Scheduler T → List (Ready T) × Scheduler T
  pop_next n now (none, t) = ([], t)
  pop_next n now (some r, t) = (r ∷ (pop_all n t now).0, (pop_all n t now).1)

  pop_all-pop_next :
      (n : ℕ) (s : Scheduler T) (now : ℕ) (o : Option (Ready T) × Scheduler T)
      → pop_ready s now ≡ o
      → pop_all (suc n) s now ≡ pop_next n now o
  unfolding pop_all
  pop_all-pop_next n s now o e =
      ap
        (λ o. elim o.0 [
          | none ↦ ([], o.1)
          | some r ↦ (r ∷ (pop_all n o.1 now).0, (pop_all n o.1 now).1)
        ])
        e
      ∙ same o
    where
      same :
          (o : Option (Ready T) × Scheduler T)
          → (elim o.0 [
            | none ↦ ([], o.1)
            | some r ↦ (r ∷ (pop_all n o.1 now).0, (pop_all n o.1 now).1)
          ])
            ≡ pop_next n now o
      same (none, t) = refl
      same (some r, t) = refl

  pop_all-Drains :
      (n : ℕ) (s : Scheduler T) (now : ℕ) → length s.queue ≤ n → Drains s now (pop_all n s now)
  unfolding pop_all
  pop_all-Drains zero s now h = drain_none s now (length-nil s.queue h)
  pop_all-Drains (suc n) s now h = elim (Option-cases (heap_pop s.queue)) [
    | inl e ↦
        subst (Drains s now) (sym (pop_all-pop_next n s now (none, s) (pop_ready-none s now e)))
          (drain_none s now (heap_pop-eq-none s.queue e))
    | inr ((w, rest), e) ↦
        let popped = heap_pop-IsPopped s.queue w rest e in
        let t : Scheduler T = record s { queue = rest } in
        let fewer : length rest ≤ n =
          omega (arith, h, Perm-length s.queue (w ∷ rest) popped.same) in
        subst (Drains s now)
          (sym (pop_all-pop_next n s now (some _, t) (pop_ready-some s now w rest e)))
          (drain_one s now w rest (pop_all n t now).0 (pop_all n t now).1 popped
            (pop_all-Drains n t now fewer))
  ]

  -- As many pops as there are works empty the queue: they give out each of them once, by priority,
  -- then by deadline, then by id, and each is late exactly when its deadline has passed.
  pub pop_all-AreOrdered :
      (s : Scheduler T) (now : ℕ)
      → let (out, after) = pop_all (length s.queue) s now in
        Permᴰ s.queue (works out)
        × AreOrdered (works out)
        × All (λ r. r.late ≡ ltb r.work.deadline now) out
        × (after.queue ≡ [])
  pop_all-AreOrdered s now = pop_all-Drains (length s.queue) s now (omega arith)

  pub data Step : Scheduler T → Scheduler T → Type ℓ where
    submits : (s : Scheduler T) (w : Work T) → Step s (submit s w).1
    pops : (s : Scheduler T) (now : ℕ) → Step s (pop_ready s now).1
    cancels : (s : Scheduler T) (id : ℕ) → Step s (cancel s id).1

  -- The states that the calls reach from an empty queue of a capacity.
  pub data Reach (capacity : ℕ) : Scheduler T → Type ℓ where
    start : (s : Scheduler T) → new_scheduler capacity ≡ some s → Reach capacity s
    step : (s t : Scheduler T) → Reach capacity s → Step s t → Reach capacity t

  pub record IsBounded (capacity : ℕ) (s : Scheduler T) : Type ℓ where
    pub same : s.capacity ≡ capacity
    pub bound : length s.queue ≤ capacity

  submit-IsBounded :
      (capacity : ℕ) (s : Scheduler T) (w : Work T)
      → IsBounded capacity s
      → IsBounded capacity (submit s w).1
  unfolding submit
  submit-IsBounded capacity s w b = elim (Bool-cases (leb s.capacity (length s.queue))) [
    | inl at_bound ↦ rw at_bound b
    | inr room ↦ rw room (record { same = b.same; bound = ground (arith, room, b.same, b.bound) })
  ]

  pop_ready-IsBounded :
      (capacity : ℕ) (s : Scheduler T) (now : ℕ)
      → IsBounded capacity s
      → IsBounded capacity (pop_ready s now).1
  pop_ready-IsBounded capacity s now b = elim (Option-cases (heap_pop s.queue)) [
    | inl e ↦ subst (λ o. IsBounded capacity o.1) (sym (pop_ready-none s now e)) b
    | inr ((w, rest), e) ↦
        let popped = heap_pop-IsPopped s.queue w rest e in
        subst (λ o. IsBounded capacity o.1) (sym (pop_ready-some s now w rest e))
          (record {
            same = b.same;
            bound = omega (arith, b.bound, Perm-length s.queue (w ∷ rest) popped.same);
          })
  ]

  length-others : (id : ℕ) (ws : List (Work T)) → length (others id ws) ≤ length ws
  unfolding others
  length-others id [] = omega arith
  length-others id (w ∷ ws) = ground (arith, length-others id ws)

  cancel-IsBounded :
      (capacity : ℕ) (s : Scheduler T) (id : ℕ)
      → IsBounded capacity s
      → IsBounded capacity (cancel s id).1
  unfolding cancel
  cancel-IsBounded capacity s id b =
      let kept = (cancel-others s id).0 in
      record {
        same = b.same;
        bound = omega (
          arith,
          b.bound,
          Perm-length (cancel s id).1.queue (others id s.queue) kept,
          length-others id s.queue,
        );
      }

  Step-IsBounded :
      (capacity : ℕ) (s t : Scheduler T) → Step s t → IsBounded capacity s → IsBounded capacity t
  Step-IsBounded capacity _ _ (submits s w) b = submit-IsBounded capacity s w b
  Step-IsBounded capacity _ _ (pops s now) b = pop_ready-IsBounded capacity s now b
  Step-IsBounded capacity _ _ (cancels s id) b = cancel-IsBounded capacity s id b

  -- The queue never holds more than the capacity that the scheduler was made with.
  pub Reach-IsBounded : (capacity : ℕ) (s : Scheduler T) → Reach capacity s → IsBounded capacity s
  Reach-IsBounded capacity s (start _ h) = record {
    same = ground (arith, h);
    bound = ground (arith, h);
  }
  Reach-IsBounded capacity _ (step s t r st) =
      Step-IsBounded capacity s t st (Reach-IsBounded capacity s r)
