-- ===== src/Tests/Queues.antt =====
-- A bus that threads share, and scheduled work.
use mathlib.Core.List.{Permᴰ}
use insider_trader.Prelude.{◌≡◌, refl, ℕ, false, List, [], ◌∷◌, ltb, All}
use insider_trader.EventBus.{Bus, new_bus, try_send, send_round, recv_round}
use insider_trader.EventBus.Threads.{
  Waiter, sender, receiver, Sys, one, calls, resumes, try_send_accepted, send_waits, recv_value,
  recv_waits, Reach, start, step,
}
use insider_trader.EventBus.Fifo.{channel, IsFifo, ChannelReach, Reach-IsFifo}
use insider_trader.Scheduler.{Priority, Work, Scheduler, cancel}
use insider_trader.Scheduler.Queue.{others, has_id, cancel-others}
use insider_trader.Scheduler.Drain.{pop_all, works, AreOrdered, pop_all-AreOrdered}

-- A bus of one place that holds some values.
abbrev bus_of : List ℕ → Bus ℕ
bus_of queue = record { capacity = 1; queue = queue; is_closed = false; receivers = 1 }

abbrev sys_of : List ℕ → List (Waiter ℕ) → List (Waiter ℕ) → List ℕ → List ℕ → Sys ℕ
sys_of queue waiting woken sent received = record {
  bus = bus_of queue;
  waiting = waiting;
  woken = woken;
  sent = sent;
  received = received;
}

-- Two receivers wait, a value is sent, which wakes one of them, and the sender of a second value
-- waits for room; the receiver takes the value and wakes the other receiver, which waits again.
-- Then a sender waits for room on an empty bus and a receiver for a value, and no thread is woken.
abbrev stuck : Sys ℕ
stuck = sys_of [] (receiver ∷ sender 6 ∷ []) [] (5 ∷ []) (5 ∷ [])

stuck_reached : Reach 1 stuck
unfolding new_bus try_send send_round recv_round
stuck_reached =
    let s0 = sys_of [] [] [] [] [] in
    let s1 = sys_of [] (receiver ∷ []) [] [] [] in
    let s2 = sys_of [] (receiver ∷ receiver ∷ []) [] [] [] in
    let s3 = sys_of (5 ∷ []) (receiver ∷ []) (receiver ∷ []) (5 ∷ []) [] in
    let s4 = sys_of (5 ∷ []) (sender 6 ∷ receiver ∷ []) (receiver ∷ []) (5 ∷ []) [] in
    let s5 = sys_of [] (sender 6 ∷ []) (receiver ∷ []) (5 ∷ []) (5 ∷ []) in
    let r0 : Reach 1 s0 = start (bus_of []) refl in
    let r1 : Reach 1 s1 = step s0 s1 r0 (recv_waits s0 s0 calls refl) in
    let r2 : Reach 1 s2 = step s1 s2 r1 (recv_waits s1 s1 calls refl) in
    let r3 : Reach 1 s3 =
      step s2 s3 r2
        (try_send_accepted s2 s3 5 (bus_of (5 ∷ [])) refl (one [] (receiver ∷ []) receiver refl)) in
    let r4 : Reach 1 s4 = step s3 s4 r3 (send_waits s3 s3 6 calls refl) in
    let r5 : Reach 1 s5 = step s4 s5 r4 (
      recv_value s4 (record s4 { woken = [] }) s5 5 (bus_of []) (resumes [] [] refl) refl
        (one (sender 6 ∷ []) [] receiver refl)) in
    step s5 stuck r5 (recv_waits s5 (record s5 { woken = [] }) (resumes [] [] refl) refl)

Reach-IsFifo_example : IsFifo 1 stuck × ChannelReach 1 (channel stuck)
Reach-IsFifo_example = Reach-IsFifo 1 stuck stuck_reached

abbrev work : ℕ → Priority → ℕ → Work ℕ
work id priority deadline = record {
  task_id = id;
  priority = priority;
  deadline = deadline;
  payload = id;
}

abbrev scheduler : Scheduler ℕ
scheduler = record {
  capacity = 4;
  next_sequence = 3;
  queue = work 1 Priority.standard 50 ∷ work 2 Priority.ultra 90 ∷ work 3 Priority.standard 40 ∷ [];
}

cancel-others_example :
    let (found, after) = cancel scheduler 2 in
    Permᴰ after.queue (others 2 scheduler.queue)
    × (found ≡ has_id 2 scheduler.queue)
    × ((cancel after 2).0 ≡ false)
cancel-others_example = cancel-others scheduler 2

pop_all-AreOrdered_example :
    let (out, after) = pop_all 3 scheduler 45 in
    Permᴰ scheduler.queue (works out)
    × AreOrdered (works out)
    × All (λ r. r.late ≡ ltb r.work.deadline 45) out
    × (after.queue ≡ [])
pop_all-AreOrdered_example = pop_all-AreOrdered scheduler 45
