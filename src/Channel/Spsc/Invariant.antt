-- ===== src/Channel/Spsc/Invariant.antt =====
-- src/loopyChannel.c: what holds of the lock-free ring between any two accesses of its threads.
use Prim.Native.Nat.{bit_and}
use loopy.Prelude.{
  ℕ, suc, ◌+◌, ◌-◌, ◌%◌, ◌≤◌, ◌<◌, ◌≡◌, ◌≢◌, sym, ap, ◌∙◌, List, [], ◌∷◌, ◌++◌, arith, ltb, inl,
  inr,
}
use loopy.Prelude.Array.{update}
use loopy.Prelude.Words.{word, add_word, sub_word}
use loopy.Prelude.Ring.{
  Ahead, Ahead-next, Ahead-more, stamps, stamps-other, stamps-snoc, stamps_pos,
}
use loopy.Channel.Spsc.{Spsc, has_room}
use loopy.Channel.Spsc.Masks.{IsMask, mask_lt, index_lt, index-next, distance_lem}
use loopy.Channel.Spsc.Threads.{Producer, Consumer, World}

module _ {A : Type 0} where
  -- The place of a position
  abbrev pub slot : Spsc A → ℕ → ℕ
  slot s x = x % (s.mask + 1)

  -- The ring holds `n` elements; the producer takes them for `m`, the consumer for `c`.
  pub record IsRing (s : Spsc A) (n m c : ℕ) : Type 0 where
    pub mask_ok : IsMask s.mask
    pub in_block : s.mask + 1 ≤ s.buffer.len
    pub in_mask : s.capacity ≤ s.mask
    pub tail_word : s.tail < word
    pub cached_word : s.cached_tail < word
    pub head_at : s.head ≡ add_word s.tail n
    pub producer_view : s.head ≡ add_word s.cached_tail m
    pub consumer_view : s.cached_head ≡ add_word s.tail c
    pub bounded : (c ≤ n) × (n ≤ m) × (m ≤ s.capacity)
    pub ahead : Ahead (s.mask + 1) (slot s s.tail) n (slot s s.head)

  -- The elements in the ring, the oldest first.
  abbrev pub contents : Spsc A → ℕ → List A
  contents s n = stamps s.buffer.cell (s.mask + 1) (slot s s.tail) n

  abbrev pub ProducerOk : Spsc A → ℕ → Producer A → Type 0
  ProducerOk s m Producer.idle = Unit {0}
  ProducerOk s m (Producer.load_tail v h) = h ≡ s.head
  ProducerOk s m (Producer.copy_in v h) = (h ≡ s.head) × (m < s.capacity)
  ProducerOk s m (Producer.store_head v h) =
      (h ≡ s.head) × (m < s.capacity) × (s.buffer.cell (slot s s.head) ≡ v)

  abbrev pub ConsumerOk : Spsc A → ℕ → Consumer A → Type 0
  ConsumerOk s c Consumer.idle = Unit {0}
  ConsumerOk s c (Consumer.load_head t) = t ≡ s.tail
  ConsumerOk s c (Consumer.copy_out t) = (t ≡ s.tail) × (0 < c)
  ConsumerOk s c (Consumer.store_tail t v) =
      (t ≡ s.tail) × (0 < c) × (s.buffer.cell (slot s s.tail) ≡ v)

  -- A ring of the given capacity, with its threads
  pub record Inv (k : ℕ) (w : World A) : Type 0 where
    pub capacity_is : w.ring.capacity ≡ k
    pub n : ℕ
    pub m : ℕ
    pub c : ℕ
    pub ring_ok : IsRing w.ring n m c
    pub fifo : w.sent ≡ w.received ++ contents w.ring n
    pub producer_ok : ProducerOk w.ring m w.producer
    pub consumer_ok : ConsumerOk w.ring c w.consumer

  module _ (s : Spsc A) (n m c : ℕ) (r : IsRing s n m c) where
    pub room_of : has_room s s.head s.cached_tail ≡ ltb m s.capacity
    room_of =
        ap (λ d. ltb d s.capacity)
          (ap (λ h. bit_and (sub_word h s.cached_tail) s.mask) r.producer_view
            ∙ distance_lem s.mask r.mask_ok s.cached_tail m r.cached_word
                (omega (arith, r.bounded, r.in_mask)))

    pub fresh_room : has_room s s.head s.tail ≡ ltb n s.capacity
    fresh_room =
        ap (λ d. ltb d s.capacity)
          (ap (λ h. bit_and (sub_word h s.tail) s.mask) r.head_at
            ∙ distance_lem s.mask r.mask_ok s.tail n r.tail_word
                (omega (arith, r.bounded, r.in_mask)))

    pub in_word : n < word
    in_word = omega (arith, r.bounded, r.in_mask, mask_lt s.mask r.mask_ok)

    -- The next element does not lie where the next one is written.
    pub apart : 0 < n → slot s s.head ≢ slot s s.tail
    apart h e = elim r.ahead [
      | inl b ↦ absurd (omega (arith, b, e, h))
      | inr b ↦ absurd (omega (arith, b, e, r.bounded, r.in_mask))
    ]

    -- The ring with a refreshed tail, a new element, a refreshed head, and an element less
    pub refresh_tail-IsRing : IsRing (record s { cached_tail = s.tail }) n n c
    refresh_tail-IsRing = record {
      mask_ok = r.mask_ok;
      in_block = r.in_block;
      in_mask = r.in_mask;
      tail_word = r.tail_word;
      cached_word = r.tail_word;
      head_at = r.head_at;
      producer_view = r.head_at;
      consumer_view = r.consumer_view;
      bounded = omega (arith, r.bounded);
      ahead = r.ahead;
    }

    pub refresh_head-IsRing : IsRing (record s { cached_head = s.head }) n m n
    refresh_head-IsRing = record {
      mask_ok = r.mask_ok;
      in_block = r.in_block;
      in_mask = r.in_mask;
      tail_word = r.tail_word;
      cached_word = r.cached_word;
      head_at = r.head_at;
      producer_view = r.producer_view;
      consumer_view = r.head_at;
      bounded = omega (arith, r.bounded);
      ahead = r.ahead;
    }

    pub publish-IsRing :
        m < s.capacity → IsRing (record s { head = add_word s.head 1 }) (n + 1) (m + 1) c
    publish-IsRing h = record {
      mask_ok = r.mask_ok;
      in_block = r.in_block;
      in_mask = r.in_mask;
      tail_word = r.tail_word;
      cached_word = r.cached_word;
      head_at = omega (arith, r.head_at);
      producer_view = omega (arith, r.producer_view);
      consumer_view = r.consumer_view;
      bounded = omega (arith, r.bounded);
      ahead = rw (index-next s.mask r.mask_ok s.head) (
          Ahead-more (s.mask + 1) (slot s s.tail) n (slot s s.head)
            (index_lt s.mask r.mask_ok s.tail) (index_lt s.mask r.mask_ok s.head)
            (omega (arith, r.bounded, r.in_mask)) r.ahead);
    }

    pub consume-IsRing : 0 < c → IsRing (record s { tail = add_word s.tail 1 }) (n - 1) m (c - 1)
    consume-IsRing h = record {
      mask_ok = r.mask_ok;
      in_block = r.in_block;
      in_mask = r.in_mask;
      tail_word = omega arith;
      cached_word = r.cached_word;
      head_at = omega (arith, r.head_at, r.bounded, in_word);
      producer_view = r.producer_view;
      consumer_view = omega (arith, r.consumer_view, r.bounded, in_word);
      bounded = omega (arith, r.bounded);
      ahead = rw (index-next s.mask r.mask_ok s.tail) (
          Ahead-next (s.mask + 1) (slot s s.tail) (n - 1) (slot s s.head)
            (index_lt s.mask r.mask_ok s.tail) (index_lt s.mask r.mask_ok s.head)
            (omega (arith, r.bounded, r.in_mask)) one_more);
    }
      where
        one_more : Ahead (s.mask + 1) (slot s s.tail) (suc (n - 1)) (slot s s.head)
        one_more = elim r.ahead [
          | inl b ↦ inl (omega (arith, b, h, r.bounded))
          | inr b ↦ inr (omega (arith, b, h, r.bounded))
        ]

    -- What these do to the contents
    pub contents-write :
        (v : A)
        → stamps (update s.buffer.cell (slot s s.head) v) (s.mask + 1) (slot s s.tail) n
          ≡ contents s n
    contents-write v =
        stamps-other s.buffer.cell (s.mask + 1) (slot s s.tail) n (slot s s.head) v
          (index_lt s.mask r.mask_ok s.tail) (index_lt s.mask r.mask_ok s.head)
          (omega (arith, r.bounded, r.in_mask)) r.ahead

    pub contents-publish : contents s (n + 1) ≡ contents s n ++ (s.buffer.cell (slot s s.head) ∷ [])
    contents-publish =
        ap (contents s) (omega arith)
        ∙ stamps-snoc s.buffer.cell (s.mask + 1) (slot s s.tail) n (slot s s.head)
            (index_lt s.mask r.mask_ok s.tail) (index_lt s.mask r.mask_ok s.head)
            (omega (arith, r.bounded, r.in_mask)) r.ahead

    pub contents-consume :
        0 < c
        → contents s n
          ≡ s.buffer.cell (slot s s.tail) ∷ contents (record s { tail = add_word s.tail 1 }) (n - 1)
    contents-consume h =
        stamps_pos s.buffer.cell (s.mask + 1) (slot s s.tail) n (omega (arith, r.bounded))
        ∙ ap (λ i. s.buffer.cell (slot s s.tail) ∷ stamps s.buffer.cell (s.mask + 1) i (n - 1))
            (sym (index-next s.mask r.mask_ok s.tail))
