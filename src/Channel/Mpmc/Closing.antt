-- ===== src/Channel/Mpmc/Closing.antt =====
-- src/loopyChannel.c: the queue under a mutex once the channel is closed.
use loopy.Prelude.{
  ℕ, zero, suc, ◌+◌, ◌≤◌, ◌≡◌, ◌≢◌, refl, sym, ap, ◌∙◌, Bool, true, false, Option, none, some, List,
  [], ◌∷◌, ◌++◌, arith, leb, if◌then◌else◌,
}
use mathlib.Core.Bool.{true≢false}
use mathlib.Core.Option.{map}
use loopy.Prelude.Lists.{++-nil}
use loopy.Prelude.Run.{Run, ok, Returns, returns, Returns-bind, Returns-map, ◌>>=◌}
use loopy.Prelude.Ring.{length, length-stamps}
use loopy.Channel.{Status, Received}
use loopy.Channel.Mpmc.{Mpmc, Turn, mpmc_send_turn}
use loopy.Channel.Mpmc.Queue.{contents, RecvPost, mpmc_recv_turn-Post}
use loopy.Channel.Mpmc.Threads.{
  Choice, World, after_send, after_recv, send_turn, recv_turn, wake_send, wake_recv, expire_send,
  pick, mpmc_step, mpmc_go, fresh,
}
use loopy.Channel.Mpmc.Order.{after_recv-Inv, Inv, IsEmptyQueue, fresh-Inv, mpmc_go-Inv}

module _ {A : Type 0} where
  closed_send :
      (b : Bool) (v : A) (q : Mpmc A)
      → mpmc_send_turn true b v q ≡ ok (Turn.answer Status.closed, q)
  unfolding mpmc_send_turn
  closed_send b v q = same (leb q.capacity q.count)
    where
      same : (t : Bool) {r : Run (Turn Status × Mpmc A)} → (if t then r else r) ≡ r
      same true = refl
      same false = refl

  -- A sender finds a closed channel so, and changes nothing.
  pub send_turn-closed : (b : Bool) (v : A) (w : World A) → w.closed ≡ true → send_turn b v w ≡ ok w
  unfolding send_turn after_send
  send_turn-closed b v w e =
      ap (λ c. mpmc_send_turn c b v w.queue >>= λ r. ok (after_send v w r)) e
      ∙ ap (λ t. t >>= λ r. ok (after_send v w r)) (closed_send b v w.queue)

  -- A receiver has its answer: no one else's wait changes, and nothing is sent.
  abbrev pub Answered : ℕ → World A → World A → Type 0
  Answered k w w' =
      Inv k w'
      × (w'.closed ≡ true)
      × (w'.sent ≡ w.sent)
      × (w'.senders ≡ w.senders)
      × (w'.receivers ≡ w.receivers)

  module _ (k : ℕ) where
    after_recv-Answered :
        (b : Bool) (w : World A) (t : Turn (Received A)) (q : Mpmc A)
        → w.closed ≡ true
        → Inv k w
        → RecvPost w.closed b w.queue t q
        → Answered k w (after_recv w (t, q))
    unfolding after_recv
    after_recv-Answered b w t q e i (RecvPost.is_closed c z) = (i, e, refl, refl, refl)
    after_recv-Answered b w t q e i (RecvPost.is_empty c z) = (i, e, refl, refl, refl)
    after_recv-Answered b w t q e i (RecvPost.waits c g z) = absurd (true≢false (sym e ∙ c))
    after_recv-Answered b w t q e i (RecvPost.taken v j c size less) =
        (after_recv-Inv k b w t q i (RecvPost.taken v j c size less), e, refl, refl, refl)

    pub recv_turn-Answered :
        (b : Bool) (w : World A)
        → w.closed ≡ true
        → Inv k w
        → Returns (Answered k w) (recv_turn b w)
    unfolding recv_turn
    recv_turn-Answered b w e i =
        Returns-bind (mpmc_recv_turn-Post w.queue i.queue_ok w.closed b)
          (λ (t, q) p. returns (after_recv-Answered b w t q e i p))

  -- Of a closed channel in which `m` senders and `n` receivers wait at most
  abbrev Shut : (k m n : ℕ) → List A → World A → Type 0
  Shut k m n sent w =
      Inv k w × (w.closed ≡ true) × (w.sent ≡ sent) × (length w.senders ≤ m) × (w.receivers ≤ n)

  -- A list of which one may have been picked
  abbrev Picked : Option (A × List A) → ℕ → Type 0
  Picked none n = Unit {0}
  Picked (some (v, vs)) n = length vs + 1 ≡ n

  pick-Picked : (i : ℕ) (l : List A) → Picked (pick i l) (length l)
  unfolding pick
  pick-Picked zero [] = tt
  pick-Picked (suc i) [] = tt
  pick-Picked zero (v ∷ vs) = refl
  pick-Picked (suc i) (v ∷ vs) = go (pick i vs) (pick-Picked i vs)
    where
      go :
          (o : Option (A × List A))
          → Picked o (length vs)
          → Picked (map (λ (x, xs). (x, v ∷ xs)) o) (length vs + 1)
      go none p = tt
      go (some (x, xs)) p = ap (λ n. n + 1) p

  module _ (k m n : ℕ) (sent : List A) where
    recv_turn-Shut :
        (b : Bool) (w : World A) → Shut k m n sent w → Returns (Shut k m n sent) (recv_turn b w)
    recv_turn-Shut b w (i, e, same, fewer, less) =
        Returns-map (recv_turn-Answered k b w e i) (λ w' (j, e', same', s, r).
          (j, e', same' ∙ same, omega (arith, fewer, ap length s), omega (arith, less, r)))

    wake_send-Shut :
        (o : Option (A × List A)) (w : World A)
        → Picked o (length w.senders)
        → Shut k m n sent w
        → Returns (Shut k m n sent) (wake_send o w)
    unfolding wake_send
    wake_send-Shut none w p s = returns s
    wake_send-Shut (some (v, vs)) w p (i, e, same, fewer, less) =
        rw (send_turn-closed true v (record w { senders = vs }) e)
          (returns (i, e, same, omega (arith, p, fewer), less))

    wake_recv-Shut :
        (r : ℕ) (w : World A)
        → r ≡ w.receivers
        → Shut k m n sent w
        → Returns (Shut k m n sent) (wake_recv r w)
    unfolding wake_recv
    wake_recv-Shut zero w p s = returns s
    wake_recv-Shut (suc r) w p (i, e, same, fewer, less) =
        recv_turn-Shut true (record w { receivers = r }) (i, e, same, fewer, omega (arith, p, less))

    expire_send-Shut :
        (o : Option (A × List A)) (w : World A)
        → Picked o (length w.senders)
        → Shut k m n sent w
        → Shut k m n sent (expire_send o w)
    unfolding expire_send
    expire_send-Shut none w p s = s
    expire_send-Shut (some (v, vs)) w p (i, e, same, fewer, less) =
        (i, e, same, omega (arith, p, fewer), less)

    mpmc_step-Shut :
        (c : Choice A) (w : World A) → Shut k m n sent w → Returns (Shut k m n sent) (mpmc_step c w)
    unfolding mpmc_step
    mpmc_step-Shut (Choice.send b v) w s = rw (send_turn-closed b v w (s.1)) (returns s)
    mpmc_step-Shut (Choice.recv b) w s = recv_turn-Shut b w s
    mpmc_step-Shut (Choice.wake_sender i) w s =
        wake_send-Shut (pick i w.senders) w (pick-Picked i w.senders) s
    mpmc_step-Shut Choice.wake_receiver w s = wake_recv-Shut w.receivers w refl s
    mpmc_step-Shut (Choice.expire_sender i) w s =
        returns (expire_send-Shut (pick i w.senders) w (pick-Picked i w.senders) s)
    mpmc_step-Shut Choice.expire_receiver w (i, e, same, fewer, less) =
        returns (i, e, same, fewer, omega (arith, less))
    mpmc_step-Shut Choice.close w (i, e, same, fewer, less) = returns (i, refl, same, fewer, less)

    mpmc_go-Shut :
        (w : World A) (cs : List (Choice A))
        → Shut k m n sent w
        → Returns (Shut k m n sent) (mpmc_go w cs)
    unfolding mpmc_go
    mpmc_go-Shut w [] s = returns s
    mpmc_go-Shut w (c ∷ cs) s = Returns-bind (mpmc_step-Shut c w s) (λ w' t. mpmc_go-Shut w' cs t)

  -- As many receives as a list has elements
  abbrev pub receives : Bool → List A → List (Choice A)
  receives b [] = []
  receives b (v ∷ vs) = Choice.recv b ∷ receives b vs

  cons_rest : {x y : A} {xs ys : List A} → x ∷ xs ≡ y ∷ ys → xs ≡ ys
  cons_rest e = cc

  module _ (k : ℕ) (b : Bool) where
    empty-length : (q : Mpmc A) (v : A) (vs : List A) → contents q ≡ v ∷ vs → q.count ≢ 0
    empty-length q v vs e z =
        omega (arith, ap length e, length-stamps q.buffer.cell q.capacity q.tail q.count)

    after_recv-Next :
        (w : World A) (v : A) (vs : List A) (t : Turn (Received A)) (q : Mpmc A)
        → contents w.queue ≡ v ∷ vs
        → Inv k w
        → RecvPost w.closed b w.queue t q
        → Inv k (after_recv w (t, q))
          × ((after_recv w (t, q)).sent ≡ w.sent)
          × (contents (after_recv w (t, q)).queue ≡ vs)
    unfolding after_recv
    after_recv-Next w v vs t q e i (RecvPost.is_closed c z) = absurd (empty-length q v vs e z)
    after_recv-Next w v vs t q e i (RecvPost.is_empty c z) = absurd (empty-length q v vs e z)
    after_recv-Next w v vs t q e i (RecvPost.waits c g z) = absurd (empty-length q v vs e z)
    after_recv-Next w v vs t q e i (RecvPost.taken x j c size less) = (
      after_recv-Inv k b w t q i (RecvPost.taken x j c size less),
      refl,
      cons_rest (sym less ∙ e),
    )

    receives-All :
        (l : List A) (w : World A)
        → contents w.queue ≡ l
        → Inv k w
        → Returns (λ w'. w'.received ≡ w.sent) (mpmc_go w (receives b l))
    unfolding mpmc_go mpmc_step recv_turn
    receives-All [] w e i = returns (sym (i.fifo ∙ ap (λ l. w.received ++ l) e ∙ ++-nil w.received))
    receives-All (v ∷ vs) w e i =
        Returns-bind {Post = λ w'. Inv k w' × (w'.sent ≡ w.sent) × (contents w'.queue ≡ vs)}
          (Returns-bind (mpmc_recv_turn-Post w.queue i.queue_ok w.closed b)
            (λ (t, q) p. returns (after_recv-Next w v vs t q e i p)))
          λ w' (j, same, left). Returns-map (receives-All vs w' left j) λ w'' all. all ∙ same

  -- What closing a channel is for: whatever the threads do afterwards, nothing more is sent, what
  -- was sent and not yet received is received by as many receives, whether they may wait or not, in
  -- its order, and no more threads wait.
  abbrev pub Closes : List (Choice A) → World A → Type 0
  Closes after w =
      Returns
        (λ (w' : World A).
          (w'.sent ≡ w.sent)
          × (length w'.senders ≤ length w.senders)
          × (w'.receivers ≤ w.receivers)
          × ((rest : List A) × (w.sent ≡ w'.received ++ rest)
              × ((b : Bool)
                  → Returns (λ w''. w''.received ≡ w.sent) (mpmc_go w' (receives b rest)))))
        (mpmc_go w (Choice.close ∷ after))

  -- Whatever the threads have done on an empty queue, and whatever they do after the channel is
  -- then closed: nothing more is sent; at most as many senders and receivers wait as at the
  -- closing; the elements received are the first of those sent, and as many receives as there
  -- are others, all of which may wait or none, return and complete them, in their order.
  pub mpmc_go-Closes :
      (q : Mpmc A) (before after : List (Choice A))
      → IsEmptyQueue q
      → Returns (Closes after) (mpmc_go (fresh q) before)
  unfolding mpmc_go mpmc_step
  mpmc_go-Closes q before after e =
      Returns-map (mpmc_go-Inv q.capacity (fresh q) before (fresh-Inv q e)) λ w i.
        Returns-map
          (mpmc_go-Shut q.capacity (length w.senders) w.receivers w.sent
            (record w { closed = true }) after (i, refl, refl, omega arith, omega arith))
          λ w' (j, c, same, fewer, less). (
            same,
            fewer,
            less,
            (
              contents w'.queue,
              sym same ∙ j.fifo,
              λ b.
                  Returns-map (receives-All q.capacity b (contents w'.queue) w' refl j)
                    λ w'' all. all ∙ same,
            ),
          )
