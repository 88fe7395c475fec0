-- ===== src/EventBus/Fifo.antt =====
-- A bus of crates/event-bus/src/lib.rs as the channel that it implements: what was accepted, and the
-- part of it that was delivered.
use insider_trader.Prelude.{
  ℕ, ◌+◌, ◌≤◌, ◌<◌, ◌≡◌, refl, sym, ap, ◌∙◌, subst, arith, Bool, true, false, List, [], ◌∷◌, ◌++◌,
  length, length-append, append_assoc,
}
use insider_trader.EventBus.{Bus, new_bus}
use insider_trader.EventBus.Threads.{
  Waiter, sender, receiver, Sys, Notified, nobody, one, Enters, calls, resumes, waits, accepts,
  delivers, Step, try_send_accepted, try_send_refused, send_accepted, send_refused, send_waits,
  try_recv_value, try_recv_nothing, recv_value, recv_nothing, recv_waits, wakes, closes, start_sys,
  Reach, start, step,
}
use insider_trader.EventBus.Rounds.{
  IsPush, try_send-IsPush, send_round-IsPush, try_send-refused, send_round-refused,
  send_round-waits, IsPop, try_recv-IsPop, recv_round-IsPop, try_recv-nothing, recv_round-nothing,
  recv_round-waits,
}

pub record Channel {ℓ} (T : Type ℓ) : Type ℓ where
  pub sent : List T
  pub received : List T
  pub is_closed : Bool

module _ {ℓ} {T : Type ℓ} where
  -- A channel accepts while it is open and has room, delivers in order, closes, or does nothing.
  pub data ChannelStep (capacity : ℕ) (c : Channel T) : Channel T → Type ℓ where
    accept :
        (v : T)
        → c.is_closed ≡ false
        → length c.sent < length c.received + capacity
        → ChannelStep capacity c (record c { sent = c.sent ++ (v ∷ []) })
    deliver :
        (v : T) (rest : List T)
        → c.sent ≡ c.received ++ (v ∷ rest)
        → ChannelStep capacity c (record c { received = c.received ++ (v ∷ []) })
    shut : ChannelStep capacity c (record c { is_closed = true })
    idle : ChannelStep capacity c c

  abbrev pub channel : Sys T → Channel T
  channel s = record { sent = s.sent; received = s.received; is_closed = s.bus.is_closed }

  -- The queue is what was accepted and not delivered, within the capacity, and nobody waits for a
  -- bus that is closed.
  pub record IsFifo (capacity : ℕ) (s : Sys T) : Type ℓ where
    pub order : s.sent ≡ s.received ++ s.bus.queue
    pub bound : length s.bus.queue ≤ capacity
    pub size : s.bus.capacity ≡ capacity
    pub alive : s.bus.receivers ≡ 1
    pub released : s.bus.is_closed ≡ true → s.waiting ≡ []

  not_nil :
      (before after : List (Waiter T)) (w : Waiter T)
      → before ++ (w ∷ after) ≡ []
      → (before ++ after) ≡ []
  not_nil [] after w h = cc
  not_nil (x ∷ before) after w h = cc

  -- What a step does to the channel, and that it keeps the invariant.
  abbrev Simulates : ℕ → Sys T → Sys T → Type ℓ
  Simulates capacity s t = IsFifo capacity t × ChannelStep capacity (channel s) (channel t)

  Notified-IsFifo :
      (capacity : ℕ) (r s t : Sys T)
      → Notified s t
      → Simulates capacity r s
      → Simulates capacity r t
  Notified-IsFifo capacity r s _ (nobody e) f = f
  Notified-IsFifo capacity r s _ (one before after w e) (f, c) = (
    record {
      order = f.order;
      bound = f.bound;
      size = f.size;
      alive = f.alive;
      released = λ h. not_nil before after w (sym e ∙ f.released h);
    },
    c,
  )

  enters-IsFifo :
      (capacity : ℕ) (s r : Sys T) (w : Waiter T)
      → Enters s w r
      → IsFifo capacity s
      → IsFifo capacity r × (channel r ≡ channel s)
  enters-IsFifo capacity s _ w calls f = (f, refl)
  enters-IsFifo capacity s _ w (resumes before after e) f = (
    record {
      order = f.order;
      bound = f.bound;
      size = f.size;
      alive = f.alive;
      released = f.released;
    },
    refl,
  )

  push-Simulates :
      (capacity : ℕ) (s : Sys T) (v : T) (b : Bus T)
      → IsFifo capacity s
      → IsPush v s.bus b
      → Simulates capacity s (accepts v b s)
  push-Simulates capacity s v b f p =
      subst (λ b. Simulates capacity s (accepts v b s)) (sym p.pushed)
        (
          record {
            order = ap (λ l. l ++ (v ∷ [])) f.order ∙ append_assoc s.received s.bus.queue (v ∷ []);
            bound = ground (arith, length-append s.bus.queue (v ∷ []), p.room, f.bound, f.size);
            size = f.size;
            alive = f.alive;
            released = f.released;
          },
          accept v p.is_open (
              ground (
                arith,
                p.room,
                f.bound,
                f.size,
                ap length f.order,
                length-append s.received s.bus.queue,
              )),
        )

  pop-Simulates :
      (capacity : ℕ) (s : Sys T) (v : T) (b : Bus T)
      → IsFifo capacity s
      → IsPop v s.bus b
      → Simulates capacity s (delivers v b s)
  pop-Simulates capacity s v b f p =
      let split : s.sent ≡ s.received ++ (v ∷ b.queue) =
        f.order ∙ ap (λ q. s.received ++ q) p.front in
      let this : Bus T = record s.bus { queue = b.queue } in
      subst (λ c. Simulates capacity s (delivers v c s)) (sym p.rest)
        (
          record {
            order = split ∙ sym (append_assoc s.received (v ∷ []) b.queue);
            bound = omega (arith, ap length p.front, f.bound);
            size = f.size;
            alive = f.alive;
            released = f.released;
          },
          deliver v b.queue split,
        )

  same-Simulates :
      (capacity : ℕ) (s : Sys T) (b : Bus T)
      → IsFifo capacity s
      → b ≡ s.bus
      → Simulates capacity s (record s { bus = b })
  same-Simulates capacity s b f e =
      subst (λ b. Simulates capacity s (record s { bus = b })) (sym e) (f, idle)

  entered :
      (capacity : ℕ) (s r t : Sys T)
      → channel r ≡ channel s
      → Simulates capacity r t
      → Simulates capacity s t
  entered capacity s r t e (f, c) = (f, subst (λ x. ChannelStep capacity x (channel t)) e c)

  waits-Simulates :
      (capacity : ℕ) (r : Sys T) (w : Waiter T)
      → IsFifo capacity r
      → r.bus.is_closed ≡ false
      → Simulates capacity r (waits w r)
  waits-Simulates capacity r w f h = (
    record { order = f.order; bound = f.bound; size = f.size; alive = f.alive; released = λ e. cc },
    idle,
  )

  -- A step of a thread is a step of the channel, and keeps the invariant.
  pub Step-Simulates :
      (capacity : ℕ) (s t : Sys T) → Step s t → IsFifo capacity s → Simulates capacity s t
  Step-Simulates capacity _ _ (try_send_accepted s t v b h n) f =
      Notified-IsFifo capacity s (accepts v b s) t n
        (push-Simulates capacity s v b f (try_send-IsPush v s.bus b h))
  Step-Simulates capacity _ _ (try_send_refused s v e b h) f =
      same-Simulates capacity s b f (try_send-refused v s.bus b e h)
  Step-Simulates capacity _ _ (send_accepted s r t v b i h n) f =
      let (g, same) = enters-IsFifo capacity s r (sender v) i f in
      entered capacity s r t same (
        Notified-IsFifo capacity r (accepts v b r) t n
          (push-Simulates capacity r v b g (send_round-IsPush v r.bus b g.alive h)))
  Step-Simulates capacity _ _ (send_refused s r v e b i h) f =
      let (g, same) = enters-IsFifo capacity s r (sender v) i f in
      entered capacity s r (record r { bus = b }) same
        (same-Simulates capacity r b g (send_round-refused v r.bus b e h))
  Step-Simulates capacity _ _ (send_waits s r v i h) f =
      let (g, same) = enters-IsFifo capacity s r (sender v) i f in
      entered capacity s r (waits (sender v) r) same
        (waits-Simulates capacity r (sender v) g (send_round-waits v r.bus h))
  Step-Simulates capacity _ _ (try_recv_value s t v b h n) f =
      Notified-IsFifo capacity s (delivers v b s) t n
        (pop-Simulates capacity s v b f (try_recv-IsPop v s.bus b h))
  Step-Simulates capacity _ _ (try_recv_nothing s e b h) f =
      same-Simulates capacity s b f (try_recv-nothing s.bus b e h)
  Step-Simulates capacity _ _ (recv_value s r t v b i h n) f =
      let (g, same) = enters-IsFifo capacity s r receiver i f in
      entered capacity s r t same (
        Notified-IsFifo capacity r (delivers v b r) t n
          (pop-Simulates capacity r v b g (recv_round-IsPop v r.bus b h)))
  Step-Simulates capacity _ _ (recv_nothing s r e b i h) f =
      let (g, same) = enters-IsFifo capacity s r receiver i f in
      entered capacity s r (record r { bus = b }) same
        (same-Simulates capacity r b g (recv_round-nothing r.bus b e h))
  Step-Simulates capacity _ _ (recv_waits s r i h) f =
      let (g, same) = enters-IsFifo capacity s r receiver i f in
      entered capacity s r (waits receiver r) same
        (waits-Simulates capacity r receiver g (recv_round-waits r.bus h))
  Step-Simulates capacity _ _ (wakes s before after w e) f =
      Notified-IsFifo capacity s s _ (one before after w e) (f, idle)
  Step-Simulates capacity _ _ (closes s) f = (
    record {
      order = f.order;
      bound = f.bound;
      size = f.size;
      alive = f.alive;
      released = λ e. refl;
    },
    shut,
  )

  -- The channels that the steps of a channel reach.
  pub data ChannelReach (capacity : ℕ) : Channel T → Type ℓ where
    fresh : ChannelReach capacity (record { sent = []; received = []; is_closed = false })
    more :
        (c d : Channel T)
        → ChannelReach capacity c
        → ChannelStep capacity c d
        → ChannelReach capacity d

  -- Whatever the interleaving of the threads, a bus is a channel of its capacity: what was delivered
  -- and what is queued are together what was accepted, in order, with at most as many queued as the
  -- capacity, no thread waits for a bus that is closed, and the channel is one that its own steps
  -- reach.
  pub Reach-IsFifo :
      (capacity : ℕ) (s : Sys T)
      → Reach capacity s
      → IsFifo capacity s × ChannelReach capacity (channel s)
  unfolding new_bus
  Reach-IsFifo capacity _ (start b h) =
      let made : b ≡ record { capacity = capacity; queue = []; is_closed = false; receivers = 1 } =
        ground (arith, h) in
      subst (λ b. IsFifo capacity (start_sys b) × ChannelReach capacity (channel (start_sys b)))
        (sym made)
        (
          record {
            order = refl;
            bound = omega arith;
            size = refl;
            alive = refl;
            released = λ e. refl;
          },
          fresh,
        )
  Reach-IsFifo capacity _ (step s t r st) =
      let (f, c) = Reach-IsFifo capacity s r in
      let (g, next) = Step-Simulates capacity s t st f in (g, more (channel s) (channel t) c next)
