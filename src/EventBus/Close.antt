-- ===== src/EventBus/Close.antt =====
-- A bus of crates/event-bus/src/lib.rs after it was closed.
use insider_trader.Prelude.{
  ℕ, zero, suc, ◌≡◌, refl, ap, arith, ltb, ◌==◌, false, ◌&&◌, none, some, List, [], ◌∷◌, length,
}
use insider_trader.EventBus.{
  Bus, closed, refused, drained, value, nothing, try_send, send_round, recv_round, close,
}

module _ {ℓ} {T : Type ℓ} where
  -- So many calls of `recv`; none of them goes on after one that waits or finds nothing.
  unfoldable pub recv_all : ℕ → Bus T → List T × Bus T
  recv_all zero b = ([], b)
  recv_all (suc n) b = elim (recv_round b) [
    | none ↦ ([], b)
    | some (nothing e, c) ↦ ([], c)
    | some (value v, c) ↦ let rest = recv_all n c in (v ∷ rest.0, rest.1)
  ]

  recv_all-queue :
      (b : Bus T) (q : List T)
      → recv_all (length q) (record b { queue = q }) ≡ (q, record b { queue = [] })
  unfolding recv_all recv_round
  recv_all-queue b [] = refl
  recv_all-queue b (v ∷ vs) = ap (λ r. (v ∷ r.0, r.1)) (recv_all-queue b vs)

  -- Once a bus is closed, no call of `send`, `try_send` or `recv` waits: both sends hand the value
  -- back, as many receives as there are values return them in order, and every one after is told
  -- that the bus is closed.
  pub recv_all-close :
      (b : Bus T) (v : T)
      → let c = close b in
        let end : Bus T = record c { queue = [] } in
        (send_round v c ≡ some (refused (closed v), c))
        × (try_send v c ≡ (refused (closed v), c))
        × (recv_all (length b.queue) c ≡ (b.queue, end))
        × (recv_round end ≡ some (nothing drained, end))
  unfolding send_round try_send recv_round
  recv_all-close b v =
      let never : ((length b.queue == b.capacity) && false && ltb 0 b.receivers) ≡ false =
        ground arith in
      (rw never refl, refl, recv_all-queue (close b) b.queue, refl)
