-- ===== src/EventBus/Threads.antt =====
-- The threads that share a bus of crates/event-bus/src/lib.rs: who waits for its condition variable,
-- who has been woken and not run yet, and what was accepted and delivered so far. One step is one
-- holding of the lock.
use insider_trader.Prelude.{ℕ, ◌≡◌, none, some, List, [], ◌∷◌, ◌++◌}
use insider_trader.EventBus.{
  Bus, SendError, RecvError, accepted, refused, value, nothing, new_bus, try_send, send_round,
  try_recv, recv_round, close,
}

pub data Waiter {ℓ} (T : Type ℓ) : Type ℓ where
  sender : T → Waiter T
  receiver : Waiter T

pub record Sys {ℓ} (T : Type ℓ) : Type ℓ where
  pub bus : Bus T
  pub waiting : List (Waiter T)
  pub woken : List (Waiter T)
  pub sent : List T
  pub received : List T

module _ {ℓ} {T : Type ℓ} where
  -- `notify_one` wakes one of those who wait, any of them, where there is one.
  pub data Notified (s : Sys T) : Sys T → Type ℓ where
    nobody : s.waiting ≡ [] → Notified s s
    one :
        (before after : List (Waiter T)) (w : Waiter T)
        → s.waiting ≡ before ++ (w ∷ after)
        → Notified s (record s { waiting = before ++ after; woken = w ∷ s.woken })

  -- A thread that takes the lock, in a call of its own or after it was woken.
  pub data Enters (s : Sys T) (w : Waiter T) : Sys T → Type ℓ where
    calls : Enters s w s
    resumes :
        (before after : List (Waiter T))
        → s.woken ≡ before ++ (w ∷ after)
        → Enters s w (record s { woken = before ++ after })

  abbrev pub waits : Waiter T → Sys T → Sys T
  waits w s = record s { waiting = w ∷ s.waiting }

  abbrev pub accepts : T → Bus T → Sys T → Sys T
  accepts v b s = record s { bus = b; sent = s.sent ++ (v ∷ []) }

  abbrev pub delivers : T → Bus T → Sys T → Sys T
  delivers v b s = record s { bus = b; received = s.received ++ (v ∷ []) }

  pub data Step : Sys T → Sys T → Type ℓ where
    try_send_accepted :
        (s t : Sys T) (v : T) (b : Bus T)
        → try_send v s.bus ≡ (accepted, b)
        → Notified (accepts v b s) t
        → Step s t
    try_send_refused :
        (s : Sys T) (v : T) (e : SendError T) (b : Bus T)
        → try_send v s.bus ≡ (refused e, b)
        → Step s (record s { bus = b })
    send_accepted :
        (s r t : Sys T) (v : T) (b : Bus T)
        → Enters s (sender v) r
        → send_round v r.bus ≡ some (accepted, b)
        → Notified (accepts v b r) t
        → Step s t
    send_refused :
        (s r : Sys T) (v : T) (e : SendError T) (b : Bus T)
        → Enters s (sender v) r
        → send_round v r.bus ≡ some (refused e, b)
        → Step s (record r { bus = b })
    send_waits :
        (s r : Sys T) (v : T)
        → Enters s (sender v) r
        → send_round v r.bus ≡ none
        → Step s (waits (sender v) r)
    try_recv_value :
        (s t : Sys T) (v : T) (b : Bus T)
        → try_recv s.bus ≡ (value v, b)
        → Notified (delivers v b s) t
        → Step s t
    try_recv_nothing :
        (s : Sys T) (e : RecvError) (b : Bus T)
        → try_recv s.bus ≡ (nothing e, b)
        → Step s (record s { bus = b })
    recv_value :
        (s r t : Sys T) (v : T) (b : Bus T)
        → Enters s receiver r
        → recv_round r.bus ≡ some (value v, b)
        → Notified (delivers v b r) t
        → Step s t
    recv_nothing :
        (s r : Sys T) (e : RecvError) (b : Bus T)
        → Enters s receiver r
        → recv_round r.bus ≡ some (nothing e, b)
        → Step s (record r { bus = b })
    recv_waits :
        (s r : Sys T) → Enters s receiver r → recv_round r.bus ≡ none → Step s (waits receiver r)
    -- A condition variable may wake a thread for no reason.
    wakes :
        (s : Sys T) (before after : List (Waiter T)) (w : Waiter T)
        → s.waiting ≡ before ++ (w ∷ after)
        → Step s (record s { waiting = before ++ after; woken = w ∷ s.woken })
    closes :
        (s : Sys T)
        → Step s (record s { bus = close s.bus; waiting = []; woken = s.waiting ++ s.woken })

  abbrev pub start_sys : Bus T → Sys T
  start_sys b = record { bus = b; waiting = []; woken = []; sent = []; received = [] }

  pub data Reach (capacity : ℕ) : Sys T → Type ℓ where
    start : (b : Bus T) → new_bus capacity ≡ some b → Reach capacity (start_sys b)
    step : (s t : Sys T) → Reach capacity s → Step s t → Reach capacity t
