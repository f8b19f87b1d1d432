-- ===== src/Channel/Mpmc/Waking.antt =====
-- src/loopyChannel.c: what happens when a channel is closed and every thread that waits for the queue
-- under the mutex is then woken, as the broadcasts of `loopyChannelClose` do. Here the wake-ups are
-- steps of the schedule that come after the closing.
use loopy.Prelude.{ℕ, zero, suc, ◌≡◌, refl, ◌∙◌, true, List, [], ◌∷◌}
use loopy.Prelude.Run.{Returns, returns, Returns-bind, Returns-map}
use loopy.Channel.Mpmc.{Mpmc}
use loopy.Channel.Mpmc.Threads.{
  Choice, World, wake_send, wake_recv, pick, mpmc_step, mpmc_go, fresh,
}
use loopy.Channel.Mpmc.Order.{Inv, IsEmptyQueue, fresh-Inv, mpmc_go-Inv}
use loopy.Channel.Mpmc.Closing.{send_turn-closed, recv_turn-Answered}

module _ {A : Type 0} where
  -- The threads that wait, woken one after the other
  abbrev pub broadcast : List A → ℕ → List (Choice A)
  broadcast [] zero = []
  broadcast [] (suc n) = Choice.wake_receiver ∷ broadcast [] n
  broadcast (v ∷ vs) n = Choice.wake_sender 0 ∷ broadcast vs n

  -- No thread waits any more.
  abbrev pub NoneWait : World A → Type 0
  NoneWait w = (w.senders ≡ []) × (w.receivers ≡ 0)

  module _ (k : ℕ) where
    broadcast-NoneWait :
        (vs : List A) (n : ℕ) (w : World A)
        → w.senders ≡ vs
        → w.receivers ≡ n
        → w.closed ≡ true
        → Inv k w
        → Returns NoneWait (mpmc_go w (broadcast vs n))
    unfolding mpmc_go mpmc_step wake_send wake_recv pick
    broadcast-NoneWait [] zero w s r e i = returns (s, r)
    broadcast-NoneWait [] (suc n) w s r e i = rw r (
        Returns-bind (recv_turn-Answered k true (record w { receivers = n }) e i)
          (λ w' (j, c, same, ws, rs). broadcast-NoneWait [] n w' (ws ∙ s) rs c j))
    broadcast-NoneWait (v ∷ vs) n w s r e i =
        rw (s, send_turn-closed true v (record w { senders = vs }) e)
          (broadcast-NoneWait vs n (record w { senders = vs }) refl r e i)

  -- Whatever the threads have done on an empty queue: when the channel is then closed and those that
  -- wait are woken, each of them returns from its call.
  pub mpmc_go-NoneWait :
      (q : Mpmc A) (before : List (Choice A))
      → IsEmptyQueue q
      → Returns
          (λ w. Returns NoneWait (mpmc_go w (Choice.close ∷ broadcast w.senders w.receivers)))
          (mpmc_go (fresh q) before)
  unfolding mpmc_go mpmc_step
  mpmc_go-NoneWait q before e =
      Returns-map (mpmc_go-Inv q.capacity (fresh q) before (fresh-Inv q e)) (λ w i.
        broadcast-NoneWait q.capacity w.senders w.receivers (record w { closed = true }) refl refl
          refl i)
