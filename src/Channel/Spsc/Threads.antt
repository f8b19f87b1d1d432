-- ===== src/Channel/Spsc/Threads.antt =====
-- src/loopyChannel.c: `spscTrySend` in the producer's thread and `spscTryRecv` in the consumer's, one
-- access to the shared fields or to the buffer at a time. `cachedTail` is the producer's own, and
-- `cachedHead` the consumer's. The accesses are taken in one order, in which each load sees the last
-- store; the length tests have been passed.
use Prim.Native.Nat.{bit_and}
use loopy.Prelude.{ℕ, ◌==◌, List, [], ◌∷◌, ◌++◌, if◌then◌else◌}
use loopy.Prelude.Run.{Run, ok, ◌>>=◌}
use loopy.Prelude.Array.{load, store}
use loopy.Prelude.Words.{add_word}
use loopy.Channel.Spsc.{Spsc, has_room}

-- Where the producer stands, with the element and the head that it has loaded
pub data Producer (A : Type 0) : Type 0 where
  idle : Producer A
  load_tail : A → ℕ → Producer A
  copy_in : A → ℕ → Producer A
  store_head : A → ℕ → Producer A

-- Where the consumer stands, with the tail that it has loaded and the element
pub data Consumer (A : Type 0) : Type 0 where
  idle : Consumer A
  load_head : ℕ → Consumer A
  copy_out : ℕ → Consumer A
  store_tail : ℕ → A → Consumer A

pub data Choice (A : Type 0) : Type 0 where
  -- `spscTrySend` and `spscTryRecv` are called.
  send : A → Choice A
  recv : Choice A
  -- The producer or the consumer goes on.
  produce : Choice A
  consume : Choice A

-- `sent` and `received` are the elements of the calls that have succeeded, the first one first.
pub record World (A : Type 0) : Type 0 where
  pub ring : Spsc A
  pub producer : Producer A
  pub consumer : Consumer A
  pub sent : List A
  pub received : List A

module _ {A : Type 0} where
  unfoldable pub send_step : A → Producer A → World A → World A
  send_step v Producer.idle w = record w {
    producer =
        if has_room w.ring w.ring.head w.ring.cached_tail
        then Producer.copy_in v w.ring.head
        else Producer.load_tail v w.ring.head;
  }
  send_step v _ w = w

  unfoldable pub recv_step : Consumer A → World A → World A
  recv_step Consumer.idle w = record w {
    consumer =
        if w.ring.tail == w.ring.cached_head
        then Consumer.load_head w.ring.tail
        else Consumer.copy_out w.ring.tail;
  }
  recv_step _ w = w

  unfoldable pub produce_step : Producer A → World A → Run (World A)
  produce_step Producer.idle w = ok w
  produce_step (Producer.load_tail v h) w = ok (record w {
    ring = record w.ring { cached_tail = w.ring.tail };
    producer = if has_room w.ring h w.ring.tail then Producer.copy_in v h else Producer.idle;
  })
  produce_step (Producer.copy_in v h) w = do
    b ← store w.ring.buffer (bit_and h w.ring.mask) v
    ok (record w { ring = record w.ring { buffer = b }; producer = Producer.store_head v h })
  produce_step (Producer.store_head v h) w = ok (record w {
    ring = record w.ring { head = add_word h 1 };
    producer = Producer.idle;
    sent = w.sent ++ (v ∷ []);
  })

  unfoldable pub consume_step : Consumer A → World A → Run (World A)
  consume_step Consumer.idle w = ok w
  consume_step (Consumer.load_head t) w = ok (record w {
    ring = record w.ring { cached_head = w.ring.head };
    consumer = if t == w.ring.head then Consumer.idle else Consumer.copy_out t;
  })
  consume_step (Consumer.copy_out t) w = do
    v ← load w.ring.buffer (bit_and t w.ring.mask)
    ok (record w { consumer = Consumer.store_tail t v })
  consume_step (Consumer.store_tail t v) w = ok (record w {
    ring = record w.ring { tail = add_word t 1 };
    consumer = Consumer.idle;
    received = w.received ++ (v ∷ []);
  })

  unfoldable pub ring_step : Choice A → World A → Run (World A)
  unfolding send_step recv_step produce_step consume_step
  ring_step (send v) w = ok (send_step v w.producer w)
  ring_step recv w = ok (recv_step w.consumer w)
  ring_step produce w = produce_step w.producer w
  ring_step consume w = consume_step w.consumer w

  unfoldable pub ring_go : World A → List (Choice A) → Run (World A)
  unfolding ring_step
  ring_go w [] = ok w
  ring_go w (c ∷ cs) = ring_step c w >>= λ w'. ring_go w' cs

  -- Both threads idle.
  abbrev pub fresh : Spsc A → World A
  fresh s = record {
    ring = s;
    producer = Producer.idle;
    consumer = Consumer.idle;
    sent = [];
    received = [];
  }
