-- ===== src/Channel/Spsc/Steps.antt =====
-- src/loopyChannel.c: each access of a thread to the lock-free ring keeps what holds between two.
use Prim.Native.Nat.{bit_and}
use loopy.Prelude.{
  ℕ, ◌+◌, ◌-◌, ◌<◌, ◌≡◌, refl, sym, ap, ◌∙◌, Bool, true, false, List, [], ◌∷◌, ◌++◌, arith, ltb,
  ◌==◌, if◌then◌else◌,
}
use loopy.Prelude.Lists.{++-assoc}
use loopy.Prelude.Run.{Returns, returns, Returns-bind}
use loopy.Prelude.Array.{put, load-ok, store-ok}
use loopy.Prelude.Words.{add_word}
use loopy.Channel.Spsc.{Spsc, has_room}
use loopy.Channel.Spsc.Masks.{index_lt, bit_and-index}
use loopy.Channel.Spsc.Threads.{
  Producer, Consumer, Choice, send, recv, produce, consume, World, send_step, recv_step,
  produce_step, consume_step, ring_step, ring_go,
}
use loopy.Channel.Spsc.Invariant.{
  slot, IsRing, contents, ProducerOk, ConsumerOk, Inv, room_of, fresh_room, apart,
  refresh_tail-IsRing, refresh_head-IsRing, publish-IsRing, consume-IsRing, contents-write,
  contents-publish, contents-consume,
}

ltb_lt : (a b : ℕ) → ltb a b ≡ true → a < b
ltb_lt a b h = ground arith

eq_of_test : (a b : ℕ) → a == b ≡ true → a ≡ b
eq_of_test a b h = ground arith

module _ {A : Type 0} where
  -- Where the threads stand after a test that tells `full` from `room`, or `present` from `empty`.
  module _ (s : Spsc A) (k h : ℕ) where
    sender_ok :
        (v : A) (b : Bool)
        → (b ≡ true → k < s.capacity)
        → h ≡ s.head
        → ProducerOk s k (if b then Producer.copy_in v h else Producer.load_tail v h)
    sender_ok v true f e = (e, f refl)
    sender_ok v false f e = e

    retry_ok :
        (v : A) (b : Bool)
        → (b ≡ true → k < s.capacity)
        → h ≡ s.head
        → ProducerOk s k (if b then Producer.copy_in v h else Producer.idle)
    retry_ok v true f e = (e, f refl)
    retry_ok v false f e = tt

    receiver_ok :
        (b : Bool)
        → (b ≡ false → 0 < k)
        → h ≡ s.tail
        → ConsumerOk s k (if b then Consumer.load_head h else Consumer.copy_out h)
    receiver_ok true f e = e
    receiver_ok false f e = (e, f refl)

    recheck_ok :
        (b : Bool)
        → (b ≡ false → 0 < k)
        → h ≡ s.tail
        → ConsumerOk s k (if b then Consumer.idle else Consumer.copy_out h)
    recheck_ok true f e = tt
    recheck_ok false f e = (e, f refl)

  -- The other thread's place stays good.
  publish-ConsumerOk :
      (s : Spsc A) (c h : ℕ) (p : Consumer A)
      → ConsumerOk s c p
      → ConsumerOk (record s { head = h }) c p
  publish-ConsumerOk s c h Consumer.idle o = tt
  publish-ConsumerOk s c h (Consumer.load_head t) o = o
  publish-ConsumerOk s c h (Consumer.copy_out t) o = o
  publish-ConsumerOk s c h (Consumer.store_tail t v) o = o

  consume-ProducerOk :
      (s : Spsc A) (m t : ℕ) (p : Producer A)
      → ProducerOk s m p
      → ProducerOk (record s { tail = t }) m p
  consume-ProducerOk s m t Producer.idle o = tt
  consume-ProducerOk s m t (Producer.load_tail v h) o = o
  consume-ProducerOk s m t (Producer.copy_in v h) o = o
  consume-ProducerOk s m t (Producer.store_head v h) o = o

  module _ (s : Spsc A) (n m c : ℕ) (r : IsRing s n m c) (v : A) where
    abbrev pub written : Spsc A
    written = record s { buffer = put s.buffer (slot s s.head) v }

    pub write-IsRing : IsRing written n m c
    write-IsRing = record {
      mask_ok = r.mask_ok;
      in_block = r.in_block;
      in_mask = r.in_mask;
      tail_word = r.tail_word;
      cached_word = r.cached_word;
      head_at = r.head_at;
      producer_view = r.producer_view;
      consumer_view = r.consumer_view;
      bounded = r.bounded;
      ahead = r.ahead;
    }

    write-ConsumerOk : (p : Consumer A) → ConsumerOk s c p → ConsumerOk written c p
    write-ConsumerOk Consumer.idle o = tt
    write-ConsumerOk (Consumer.load_head t) o = o
    write-ConsumerOk (Consumer.copy_out t) o = o
    write-ConsumerOk (Consumer.store_tail t x) (e, left, read) =
        (e, left, ground (arith, read, apart s n m c r (omega (arith, left, r.bounded))))

  -- Each access, for a ring of capacity `k`
  module _ (k : ℕ) where
    send_step-Inv : (v : A) (p : Producer A) (w : World A) → Inv k w → Inv k (send_step v p w)
    unfolding send_step
    send_step-Inv v Producer.idle w i = record {
      capacity_is = i.capacity_is;
      n = i.n;
      m = i.m;
      c = i.c;
      ring_ok = i.ring_ok;
      fifo = i.fifo;
      producer_ok =
          sender_ok w.ring i.m w.ring.head v (has_room w.ring w.ring.head w.ring.cached_tail)
            (λ t. ltb_lt i.m w.ring.capacity (sym (room_of w.ring i.n i.m i.c i.ring_ok) ∙ t)) refl;
      consumer_ok = i.consumer_ok;
    }
    send_step-Inv v (Producer.load_tail _ _) w i = i
    send_step-Inv v (Producer.copy_in _ _) w i = i
    send_step-Inv v (Producer.store_head _ _) w i = i

    recv_step-Inv : (p : Consumer A) (w : World A) → Inv k w → Inv k (recv_step p w)
    unfolding recv_step
    recv_step-Inv Consumer.idle w i = record {
      capacity_is = i.capacity_is;
      n = i.n;
      m = i.m;
      c = i.c;
      ring_ok = i.ring_ok;
      fifo = i.fifo;
      producer_ok = i.producer_ok;
      consumer_ok =
          receiver_ok w.ring i.c w.ring.tail (w.ring.tail == w.ring.cached_head)
            (λ t. ground (arith, i.ring_ok.consumer_view, i.ring_ok.tail_word)) refl;
    }
    recv_step-Inv (Consumer.load_head _) w i = i
    recv_step-Inv (Consumer.copy_out _) w i = i
    recv_step-Inv (Consumer.store_tail _ _) w i = i

    produce_step-Inv :
        (p : Producer A) (w : World A) (i : Inv k w)
        → ProducerOk w.ring i.m p
        → Returns (Inv k) (produce_step p w)
    unfolding produce_step
    produce_step-Inv Producer.idle w i h = returns i
    produce_step-Inv (Producer.load_tail v h) w i e = returns (record {
      capacity_is = i.capacity_is;
      n = i.n;
      m = i.n;
      c = i.c;
      ring_ok = refresh_tail-IsRing w.ring i.n i.m i.c i.ring_ok;
      fifo = i.fifo;
      producer_ok =
          retry_ok (record w.ring { cached_tail = w.ring.tail }) i.n h v
            (has_room w.ring h w.ring.tail)
            (λ t. ltb_lt i.n w.ring.capacity (
              sym (fresh_room w.ring i.n i.m i.c i.ring_ok)
              ∙ ap (λ x. has_room w.ring x w.ring.tail) (sym e)
              ∙ t))
            e;
      consumer_ok = i.consumer_ok;
    })
    produce_step-Inv (Producer.copy_in v h) w i (e, room) =
        rw (index, store-ok w.ring.buffer (slot w.ring w.ring.head) v inside)
          (returns (record {
            capacity_is = i.capacity_is;
            n = i.n;
            m = i.m;
            c = i.c;
            ring_ok = write-IsRing w.ring i.n i.m i.c i.ring_ok v;
            fifo =
                i.fifo
                ∙ ap (λ l. w.received ++ l) (sym (contents-write w.ring i.n i.m i.c i.ring_ok v));
            producer_ok = (e, room, ground arith);
            consumer_ok = write-ConsumerOk w.ring i.n i.m i.c i.ring_ok v w.consumer i.consumer_ok;
          }))
      where
        index : bit_and h w.ring.mask ≡ slot w.ring w.ring.head
        index =
            ap (λ x. bit_and x w.ring.mask) e
            ∙ bit_and-index w.ring.mask i.ring_ok.mask_ok w.ring.head

        inside : slot w.ring w.ring.head < w.ring.buffer.len
        inside =
            omega (arith, i.ring_ok.in_block, index_lt w.ring.mask i.ring_ok.mask_ok w.ring.head)
    produce_step-Inv (Producer.store_head v h) w i (e, room, written) = rw e (
        returns (record {
          capacity_is = i.capacity_is;
          n = i.n + 1;
          m = i.m + 1;
          c = i.c;
          ring_ok = publish-IsRing w.ring i.n i.m i.c i.ring_ok room;
          fifo =
              ap (λ l. l ++ (v ∷ [])) i.fifo
              ∙ ++-assoc w.received (contents w.ring i.n) (v ∷ [])
              ∙ ap (λ l. w.received ++ l)
                  (ap (λ x. contents w.ring i.n ++ (x ∷ [])) (sym written)
                    ∙ sym (contents-publish w.ring i.n i.m i.c i.ring_ok));
          producer_ok = tt;
          consumer_ok =
              publish-ConsumerOk w.ring i.c (add_word w.ring.head 1) w.consumer i.consumer_ok;
        }))

    consume_step-Inv :
        (p : Consumer A) (w : World A) (i : Inv k w)
        → ConsumerOk w.ring i.c p
        → Returns (Inv k) (consume_step p w)
    unfolding consume_step
    consume_step-Inv Consumer.idle w i h = returns i
    consume_step-Inv (Consumer.load_head t) w i e = returns (record {
      capacity_is = i.capacity_is;
      n = i.n;
      m = i.m;
      c = i.n;
      ring_ok = refresh_head-IsRing w.ring i.n i.m i.c i.ring_ok;
      fifo = i.fifo;
      producer_ok = i.producer_ok;
      consumer_ok =
          recheck_ok (record w.ring { cached_head = w.ring.head }) i.n t (t == w.ring.head)
            (λ x. ground (arith, e, i.ring_ok.head_at, i.ring_ok.tail_word)) e;
    })
    consume_step-Inv (Consumer.copy_out t) w i (e, some_left) =
        rw (index, load-ok w.ring.buffer (slot w.ring w.ring.tail) inside)
          (returns (record {
            capacity_is = i.capacity_is;
            n = i.n;
            m = i.m;
            c = i.c;
            ring_ok = i.ring_ok;
            fifo = i.fifo;
            producer_ok = i.producer_ok;
            consumer_ok = (e, some_left, refl);
          }))
      where
        index : bit_and t w.ring.mask ≡ slot w.ring w.ring.tail
        index =
            ap (λ x. bit_and x w.ring.mask) e
            ∙ bit_and-index w.ring.mask i.ring_ok.mask_ok w.ring.tail

        inside : slot w.ring w.ring.tail < w.ring.buffer.len
        inside =
            omega (arith, i.ring_ok.in_block, index_lt w.ring.mask i.ring_ok.mask_ok w.ring.tail)
    consume_step-Inv (Consumer.store_tail t v) w i (e, some_left, read) = rw e (
        returns (record {
          capacity_is = i.capacity_is;
          n = i.n - 1;
          m = i.m;
          c = i.c - 1;
          ring_ok = consume-IsRing w.ring i.n i.m i.c i.ring_ok some_left;
          fifo =
              i.fifo
              ∙ ap (λ l. w.received ++ l)
                  (contents-consume w.ring i.n i.m i.c i.ring_ok some_left
                    ∙ ap (λ x. x ∷ contents rest (i.n - 1)) read)
              ∙ sym (++-assoc w.received (v ∷ []) (contents rest (i.n - 1)));
          producer_ok =
              consume-ProducerOk w.ring i.m (add_word w.ring.tail 1) w.producer i.producer_ok;
          consumer_ok = tt;
        }))
      where
        rest : Spsc A
        rest = record w.ring { tail = add_word w.ring.tail 1 }

    pub ring_step-Inv : (c : Choice A) (w : World A) → Inv k w → Returns (Inv k) (ring_step c w)
    unfolding ring_step
    ring_step-Inv (send v) w i = returns (send_step-Inv v w.producer w i)
    ring_step-Inv recv w i = returns (recv_step-Inv w.consumer w i)
    ring_step-Inv produce w i = produce_step-Inv w.producer w i i.producer_ok
    ring_step-Inv consume w i = consume_step-Inv w.consumer w i i.consumer_ok

    pub ring_go-Inv :
        (w : World A) (cs : List (Choice A)) → Inv k w → Returns (Inv k) (ring_go w cs)
    unfolding ring_go
    ring_go-Inv w [] i = returns i
    ring_go-Inv w (c ∷ cs) i = Returns-bind (ring_step-Inv c w i) (λ w' j. ring_go-Inv w' cs j)
