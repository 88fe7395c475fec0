-- ===== src/EventBus.antt =====
-- crates/event-bus/src/lib.rs: the bounded queue of a bus, its calls that do not wait, and the rounds
-- of those that do. A round is what a thread does between taking the lock and waiting or returning;
-- the lock is not poisoned.
pub mod Threads
pub mod Rounds
pub mod Fifo
pub mod Close
use insider_trader.Prelude.{
  ℕ, zero, suc, ltb, ◌==◌, Bool, true, false, ◌&&◌, ◌||◌, not, Option, none, some, List, [], ◌∷◌,
  ◌++◌, length, if◌then◌else◌, Result, ok, err,
}

pub data SendError {ℓ} (T : Type ℓ) : Type ℓ where
  full closed : T → SendError T

pub data RecvError : Type 0 where
  empty drained : RecvError

pub data Sent {ℓ} (T : Type ℓ) : Type ℓ where
  accepted : Sent T
  refused : SendError T → Sent T

pub data Received {ℓ} (T : Type ℓ) : Type ℓ where
  value : T → Received T
  nothing : RecvError → Received T

pub record Bus {ℓ} (T : Type ℓ) : Type ℓ where
  pub capacity : ℕ
  pub queue : List T
  pub is_closed : Bool
  pub receivers : ℕ

module _ {ℓ} {T : Type ℓ} where
  unfoldable pub new_bus : ℕ → Option (Bus T)
  new_bus capacity =
      if ltb 0 capacity
      then some (record { capacity = capacity; queue = []; is_closed = false; receivers = 1 })
      else none

  abbrev pub is_shut : Bus T → Bool
  is_shut b = b.is_closed || (b.receivers == 0)

  abbrev pub push_back : T → Bus T → Bus T
  push_back v b = record b { queue = b.queue ++ (v ∷ []) }

  unfoldable pub try_send : T → Bus T → Sent T × Bus T
  try_send v b =
      if is_shut b
      then (refused (closed v), b)
      else if length b.queue == b.capacity
      then (refused (full v), b)
      else (accepted, push_back v b)

  -- A round of `send`; `none` where the thread waits.
  unfoldable pub send_round : T → Bus T → Option (Sent T × Bus T)
  send_round v b =
      if (length b.queue == b.capacity) && not b.is_closed && ltb 0 b.receivers
      then none
      else if is_shut b
      then some (refused (closed v), b)
      else some (accepted, push_back v b)

  abbrev pub pop_front : List T → Option (T × List T)
  pop_front [] = none
  pop_front (v ∷ vs) = some (v, vs)

  unfoldable pub try_recv : Bus T → Received T × Bus T
  try_recv b = elim (pop_front b.queue) [
    | some (v, vs) ↦ (value v, record b { queue = vs })
    | none ↦ (nothing (if b.is_closed then drained else empty), b)
  ]

  -- A round of `recv`; `none` where the thread waits.
  unfoldable pub recv_round : Bus T → Option (Received T × Bus T)
  recv_round b = elim (pop_front b.queue) [
    | some (v, vs) ↦ some (value v, record b { queue = vs })
    | none ↦ if b.is_closed then some (nothing drained, b) else none
  ]

  abbrev pub close : Bus T → Bus T
  close b = record b { is_closed = true }
