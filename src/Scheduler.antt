-- ===== src/Scheduler.antt =====
-- crates/scheduler/src/lib.rs: the bounded queue of work. The `BinaryHeap` of the source is the list
-- of what it holds, and its `pop` takes a greatest element, the first of them here. A priority is
-- its rank in the source's order. No lock is poisoned.
pub mod Order
pub mod Queue
pub mod Drain
use insider_trader.Prelude.{
  then_with, ℕ, zero, suc, compare, Ordering, ltb, leb, ◌==◌, Bool, true, false, ◌||◌, Option, none,
  some, List, [], ◌∷◌, length, if◌then◌else◌, u64_max, saturating_add_u64, Result, ok, err,
}

pub data Priority : Type 0 where
  batch standard fast ultra : Priority

abbrev pub rank : Priority → ℕ
rank batch = 0
rank standard = 1
rank fast = 2
rank ultra = 3

pub record Work {ℓ} (T : Type ℓ) : Type ℓ where
  pub task_id : ℕ
  pub priority : Priority
  pub deadline : ℕ
  pub payload : T

pub record Ready {ℓ} (T : Type ℓ) : Type ℓ where
  pub work : Work T
  pub late : Bool

pub data Admission {ℓ} (T : Type ℓ) : Type ℓ where
  admitted : ℕ → Admission T
  full : Work T → Admission T

pub record Scheduler {ℓ} (T : Type ℓ) : Type ℓ where
  pub capacity : ℕ
  pub next_sequence : ℕ
  pub queue : List (Work T)

pub record SchedulerStats : Type 0 where
  pub queued : ℕ
  pub capacity : ℕ

module _ {ℓ} {T : Type ℓ} where
  unfoldable pub cmp_work : Work T → Work T → Ordering
  cmp_work a b =
      then_with (compare (rank a.priority) (rank b.priority))
        (then_with (compare b.deadline a.deadline) (compare b.task_id a.task_id))

  abbrev pub is_less : Work T → Work T → Bool
  is_less a b = elim (cmp_work a b) [ Ordering.lt ↦ true | _ ↦ false ]

  abbrev pub new_scheduler : ℕ → Option (Scheduler T)
  new_scheduler capacity =
      if ltb 0 capacity
      then some (record { capacity = capacity; next_sequence = 0; queue = [] })
      else none

  unfoldable pub submit : Scheduler T → Work T → Admission T × Scheduler T
  submit s work = if leb s.capacity (length s.queue) then (full work, s) else (
    admitted s.next_sequence,
    record s { next_sequence = saturating_add_u64 s.next_sequence 1; queue = work ∷ s.queue },
  )

  -- A work and the greatest of the others: the greater one, and what is left.
  abbrev pub pick :
      Work T → List (Work T) → Option (Work T × List (Work T)) → Work T × List (Work T)
  pick w ws none = (w, [])
  pick w ws (some (best, rest)) = if is_less w best then (best, w ∷ rest) else (w, ws)

  unfoldable pub heap_pop : List (Work T) → Option (Work T × List (Work T))
  heap_pop [] = none
  heap_pop (w ∷ ws) = some (pick w ws (heap_pop ws))

  abbrev pub pop_found :
      Scheduler T → ℕ → Option (Work T × List (Work T)) → Option (Ready T) × Scheduler T
  pop_found s now none = (none, s)
  pop_found s now (some (work, rest)) =
      (some (record { work = work; late = ltb work.deadline now }), record s { queue = rest })

  unfoldable pub pop_ready : Scheduler T → ℕ → Option (Ready T) × Scheduler T
  pop_ready s now = pop_found s now (heap_pop s.queue)

  -- The loop of `cancel`, which empties one heap into another; the fuel bounds its rounds.
  unfoldable pub cancel_loop : ℕ → ℕ → List (Work T) → List (Work T) → Bool → List (Work T) × Bool
  cancel_loop zero id queue retained removed = (retained, removed)
  cancel_loop (suc fuel) id queue retained removed = elim (heap_pop queue) [
    | none ↦ (retained, removed)
    | some (work, rest) ↦
        let hit = work.task_id == id in
        cancel_loop fuel id rest (if hit then retained else work ∷ retained) (hit || removed)
  ]

  unfoldable pub cancel : Scheduler T → ℕ → Bool × Scheduler T
  cancel s id =
      let (retained, removed) = cancel_loop (length s.queue) id s.queue [] false in
      (removed, record s { queue = retained })

  abbrev pub stats : Scheduler T → SchedulerStats
  stats s = record { queued = length s.queue; capacity = s.capacity }
