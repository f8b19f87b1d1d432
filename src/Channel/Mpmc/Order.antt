-- ===== src/Channel/Mpmc/Order.antt =====
-- src/loopyChannel.c: what producers and consumers of the queue under the mutex can rely on, however
-- their turns interleave.
use loopy.Prelude.{
  ℕ, zero, suc, ◌≤◌, ◌<◌, ◌≡◌, refl, sym, ap, ◌∙◌, Bool, true, Option, none, some, List, [], ◌∷◌,
  ◌++◌, arith, inl,
}
use loopy.Prelude.Lists.{++-assoc}
use loopy.Prelude.Run.{Returns, returns, Returns-bind, Returns-map}
use loopy.Prelude.Words.{word}
use loopy.Prelude.Ring.{stamps, length, length-stamps}
use loopy.Channel.{Status, Received}
use loopy.Channel.Mpmc.{Mpmc, Turn, mpmc_len}
use loopy.Channel.Mpmc.Queue.{
  IsQueue, contents, SendPost, RecvPost, mpmc_send_turn-Post, mpmc_recv_turn-Post,
}
use loopy.Channel.Mpmc.Threads.{
  Choice, World, after_send, after_recv, send_turn, recv_turn, wake_send, wake_recv, expire_send,
  pick, mpmc_step, mpmc_go, fresh,
}

module _ {A : Type 0} where
  -- A queue of capacity `k` that holds what has been sent and not yet received
  pub record Holds (k : ℕ) (q : Mpmc A) (sent received : List A) : Type 0 where
    pub capacity_is : q.capacity ≡ k
    pub queue_ok : IsQueue q
    pub fifo : sent ≡ received ++ contents q

  -- What is true between two turns
  abbrev pub Inv : ℕ → World A → Type 0
  Inv k w = Holds k w.queue w.sent w.received

  module _ (k : ℕ) where
    after_send-Inv :
        (b : Bool) (v : A) (w : World A) (t : Turn Status) (q : Mpmc A)
        → Inv k w
        → SendPost w.closed b v w.queue t q
        → Inv k (after_send v w (t, q))
    unfolding after_send
    after_send-Inv b v w t q i (SendPost.is_closed e) = i
    after_send-Inv b v w t q i (SendPost.is_full e g f) = i
    after_send-Inv b v w t q i (SendPost.waits e g f) = i
    after_send-Inv b v w t q i (SendPost.stored e room j c size more) = record {
      capacity_is = c ∙ i.capacity_is;
      queue_ok = j;
      fifo =
          ap (λ l. l ++ (v ∷ [])) i.fifo
          ∙ ++-assoc w.received (contents w.queue) (v ∷ [])
          ∙ ap (λ l. w.received ++ l) (sym more);
    }

    pub after_recv-Inv :
        (b : Bool) (w : World A) (t : Turn (Received A)) (q : Mpmc A)
        → Inv k w
        → RecvPost w.closed b w.queue t q
        → Inv k (after_recv w (t, q))
    unfolding after_recv
    after_recv-Inv b w t q i (RecvPost.is_closed e z) = i
    after_recv-Inv b w t q i (RecvPost.is_empty e z) = i
    after_recv-Inv b w t q i (RecvPost.waits e g z) = i
    after_recv-Inv b w t q i (RecvPost.taken v j c size less) = record {
      capacity_is = c ∙ i.capacity_is;
      queue_ok = j;
      fifo =
          i.fifo ∙ ap (λ l. w.received ++ l) less ∙ sym (++-assoc w.received (v ∷ []) (contents q));
    }

    send_turn-Inv : (b : Bool) (v : A) (w : World A) → Inv k w → Returns (Inv k) (send_turn b v w)
    unfolding send_turn
    send_turn-Inv b v w i =
        Returns-bind (mpmc_send_turn-Post w.queue i.queue_ok w.closed b v)
          (λ (t, q) p. returns (after_send-Inv b v w t q i p))

    recv_turn-Inv : (b : Bool) (w : World A) → Inv k w → Returns (Inv k) (recv_turn b w)
    unfolding recv_turn
    recv_turn-Inv b w i =
        Returns-bind (mpmc_recv_turn-Post w.queue i.queue_ok w.closed b)
          (λ (t, q) p. returns (after_recv-Inv b w t q i p))

    wake_send-Inv :
        (o : Option (A × List A)) (w : World A) → Inv k w → Returns (Inv k) (wake_send o w)
    unfolding wake_send
    wake_send-Inv none w i = returns i
    wake_send-Inv (some (v, vs)) w i = send_turn-Inv true v (record w { senders = vs }) i

    wake_recv-Inv : (n : ℕ) (w : World A) → Inv k w → Returns (Inv k) (wake_recv n w)
    unfolding wake_recv
    wake_recv-Inv zero w i = returns i
    wake_recv-Inv (suc n) w i = recv_turn-Inv true (record w { receivers = n }) i

    expire_send-Inv : (o : Option (A × List A)) (w : World A) → Inv k w → Inv k (expire_send o w)
    unfolding expire_send
    expire_send-Inv none w i = i
    expire_send-Inv (some (v, vs)) w i = i

    pub mpmc_step-Inv : (c : Choice A) (w : World A) → Inv k w → Returns (Inv k) (mpmc_step c w)
    unfolding mpmc_step
    mpmc_step-Inv (Choice.send b v) w i = send_turn-Inv b v w i
    mpmc_step-Inv (Choice.recv b) w i = recv_turn-Inv b w i
    mpmc_step-Inv (Choice.wake_sender n) w i = wake_send-Inv (pick n w.senders) w i
    mpmc_step-Inv Choice.wake_receiver w i = wake_recv-Inv w.receivers w i
    mpmc_step-Inv (Choice.expire_sender n) w i = returns (expire_send-Inv (pick n w.senders) w i)
    mpmc_step-Inv Choice.expire_receiver w i = returns i
    mpmc_step-Inv Choice.close w i = returns i

    pub mpmc_go-Inv :
        (w : World A) (cs : List (Choice A)) → Inv k w → Returns (Inv k) (mpmc_go w cs)
    unfolding mpmc_go
    mpmc_go-Inv w [] i = returns i
    mpmc_go-Inv w (c ∷ cs) i = Returns-bind (mpmc_step-Inv c w i) (λ w' j. mpmc_go-Inv w' cs j)

  -- An empty queue with its head and tail at one place, as `mpmcInit` makes it
  pub record IsEmptyQueue (q : Mpmc A) : Type 0 where
    pub in_block : q.capacity ≤ q.buffer.len
    pub in_word : q.capacity < word
    pub none_yet : q.count ≡ 0
    pub tail_lt : q.tail < q.capacity
    pub head_at : q.head ≡ q.tail

  pub fresh-Inv : (q : Mpmc A) → IsEmptyQueue q → Inv q.capacity (fresh q)
  unfolding stamps
  fresh-Inv q e = record {
    capacity_is = refl;
    queue_ok = record {
      in_block = e.in_block;
      in_word = e.in_word;
      bounded = omega (arith, e.none_yet);
      tail_lt = e.tail_lt;
      head_lt = omega (arith, e.head_at, e.tail_lt);
      ahead = inl (omega (arith, e.head_at, e.none_yet));
    };
    fifo = rw e.none_yet refl;
  }

  -- The elements sent and not yet received: the queue holds them, in the order in which they were
  -- sent; their number is the length that it reports, and at most its capacity `k`.
  abbrev pub InOrder : ℕ → World A → Type 0
  InOrder k w =
      (rest : List A) × (w.sent ≡ w.received ++ rest)
      × (mpmc_len w.queue ≡ length rest)
      × (length rest ≤ k)

  Inv-InOrder : (k : ℕ) (w : World A) → Inv k w → InOrder k w
  unfolding mpmc_len
  Inv-InOrder k w i = (
    contents w.queue,
    i.fifo,
    sym number,
    omega (arith, number, i.queue_ok.bounded, i.capacity_is),
  )
    where
      number : length (contents w.queue) ≡ w.queue.count
      number = length-stamps w.queue.buffer.cell w.queue.capacity w.queue.tail w.queue.count

  -- However the turns of any number of senders and receivers on an empty queue interleave, with
  -- their waits, their timeouts and the closing of the channel, none accesses a cell outside of the
  -- block; the elements received are the first of those sent, in their order; and those between are
  -- as many as the queue reports, and at most its capacity.
  pub mpmc_go-InOrder :
      (q : Mpmc A) (cs : List (Choice A))
      → IsEmptyQueue q
      → Returns (InOrder q.capacity) (mpmc_go (fresh q) cs)
  mpmc_go-InOrder q cs e =
      Returns-map (mpmc_go-Inv q.capacity (fresh q) cs (fresh-Inv q e)) (Inv-InOrder q.capacity)
