-- ===== src/EventBus/Rounds.antt =====
-- What the rounds of crates/event-bus/src/lib.rs do to the queue of a bus.
use insider_trader.Prelude.{
  ◌≡◌, refl, arith, ◌==◌, false, none, some, List, [], ◌∷◌, ◌⊎◌, inl, inr, length,
}
use insider_trader.EventBus.{
  Bus, SendError, RecvError, accepted, refused, value, nothing, push_back, try_send, send_round,
  try_recv, recv_round,
}

module _ {ℓ} {T : Type ℓ} where
  pub record IsPush (v : T) (b c : Bus T) : Type ℓ where
    pub pushed : c ≡ push_back v b
    pub is_open : b.is_closed ≡ false
    pub room : (length b.queue == b.capacity) ≡ false

  pub try_send-IsPush : (v : T) (b c : Bus T) → try_send v b ≡ (accepted, c) → IsPush v b c
  unfolding try_send
  try_send-IsPush v b c h = record {
    pushed = ground (arith, h);
    is_open = ground (arith, h);
    room = ground (arith, h);
  }

  pub send_round-IsPush :
      (v : T) (b c : Bus T) → b.receivers ≡ 1 → send_round v b ≡ some (accepted, c) → IsPush v b c
  unfolding send_round
  send_round-IsPush v b c alive h = record {
    pushed = ground (arith, h);
    is_open = ground (arith, h);
    room = ground (arith, h, alive);
  }

  pub try_send-refused :
      (v : T) (b c : Bus T) (e : SendError T) → try_send v b ≡ (refused e, c) → c ≡ b
  unfolding try_send
  try_send-refused v b c e h = ground (arith, h)

  pub send_round-refused :
      (v : T) (b c : Bus T) (e : SendError T) → send_round v b ≡ some (refused e, c) → c ≡ b
  unfolding send_round
  send_round-refused v b c e h = ground (arith, h)

  pub send_round-waits : (v : T) (b : Bus T) → send_round v b ≡ none → b.is_closed ≡ false
  unfolding send_round
  send_round-waits v b h = ground (arith, h)

  pub record IsPop (v : T) (b c : Bus T) : Type ℓ where
    pub front : b.queue ≡ v ∷ c.queue
    pub rest : c ≡ record b { queue = c.queue }

  queue-cases : (b : Bus T) → (b.queue ≡ []) ⊎ ((v : T) × (vs : List T) × (b.queue ≡ v ∷ vs))
  queue-cases b = list_cases b.queue
    where
      list_cases : (q : List T) → (q ≡ []) ⊎ ((v : T) × (vs : List T) × (q ≡ v ∷ vs))
      list_cases [] = inl refl
      list_cases (v ∷ vs) = inr (v, vs, refl)

  pub try_recv-IsPop : (v : T) (b c : Bus T) → try_recv b ≡ (value v, c) → IsPop v b c
  unfolding try_recv
  try_recv-IsPop v b c h = elim (queue-cases b) [
    | inl e ↦ absurd (ground (arith, h, e))
    | inr (u, us, e) ↦ record { front = ground (arith, h, e); rest = ground (arith, h, e) }
  ]

  pub recv_round-IsPop : (v : T) (b c : Bus T) → recv_round b ≡ some (value v, c) → IsPop v b c
  unfolding recv_round
  recv_round-IsPop v b c h = elim (queue-cases b) [
    | inl e ↦ absurd (ground (arith, h, e))
    | inr (u, us, e) ↦ record { front = ground (arith, h, e); rest = ground (arith, h, e) }
  ]

  pub try_recv-nothing : (b c : Bus T) (e : RecvError) → try_recv b ≡ (nothing e, c) → c ≡ b
  unfolding try_recv
  try_recv-nothing b c e h = elim (queue-cases b) [
    | inl q ↦ ground (arith, h, q)
    | inr (u, us, q) ↦ absurd (ground (arith, h, q))
  ]

  pub recv_round-nothing :
      (b c : Bus T) (e : RecvError) → recv_round b ≡ some (nothing e, c) → c ≡ b
  unfolding recv_round
  recv_round-nothing b c e h = elim (queue-cases b) [
    | inl q ↦ ground (arith, h, q)
    | inr (u, us, q) ↦ absurd (ground (arith, h, q))
  ]

  pub recv_round-waits : (b : Bus T) → recv_round b ≡ none → b.is_closed ≡ false
  unfolding recv_round
  recv_round-waits b h = elim (queue-cases b) [
    | inl q ↦ ground (arith, h, q)
    | inr (u, us, q) ↦ absurd (ground (arith, h, q))
  ]
