-- ===== src/Channel/Spsc/Fifo.antt =====
-- src/loopyChannel.c: what a producer and a consumer of the lock-free ring can rely on, however their
-- accesses interleave.
use Prim.Native.Nat.{bit_and}
use loopy.Prelude.{ℕ, ◌+◌, ◌%◌, ◌≤◌, ◌<◌, ◌≡◌, ◌≢◌, refl, sym, ap, ◌∙◌, List, ◌++◌, arith, inl}
use mathlib.Core.Path.{subst}
use loopy.Prelude.Run.{Returns, Returns-map}
use loopy.Prelude.Words.{word}
use loopy.Prelude.Ring.{stamps, length, length-stamps}
use loopy.Channel.Spsc.{Spsc, spsc_len}
use loopy.Channel.Spsc.Masks.{IsMask, bit_and-index}
use loopy.Channel.Spsc.Threads.{Producer, Consumer, Choice, World, ring_go, fresh}
use loopy.Channel.Spsc.Invariant.{slot, contents, ProducerOk, ConsumerOk, Inv, apart, in_word}
use loopy.Channel.Spsc.Steps.{ring_go-Inv}

module _ {A : Type 0} where
  -- An empty ring at any position: its mask is one of low bits, its block has a place for every
  -- position under the mask, and the capacity is at most the mask.
  pub record IsEmptyRing (s : Spsc A) : Type 0 where
    pub mask_ok : IsMask s.mask
    pub in_block : s.mask + 1 ≤ s.buffer.len
    pub in_mask : s.capacity ≤ s.mask
    pub tail_word : s.tail < word
    pub head_at : s.head ≡ s.tail
    pub cached_tail_at : s.cached_tail ≡ s.tail
    pub cached_head_at : s.cached_head ≡ s.tail

  pub fresh-Inv : (s : Spsc A) → IsEmptyRing s → Inv s.capacity (fresh s)
  unfolding stamps
  fresh-Inv s v = record {
    capacity_is = refl;
    n = 0;
    m = 0;
    c = 0;
    ring_ok = record {
      mask_ok = v.mask_ok;
      in_block = v.in_block;
      in_mask = v.in_mask;
      tail_word = v.tail_word;
      cached_word = omega (arith, v.cached_tail_at, v.tail_word);
      head_at = omega (arith, v.head_at, v.tail_word);
      producer_view = omega (arith, v.head_at, v.cached_tail_at, v.tail_word);
      consumer_view = omega (arith, v.cached_head_at, v.tail_word);
      bounded = omega arith;
      ahead = inl (omega (arith, ap (λ x. x % (s.mask + 1)) v.head_at));
    };
    fifo = refl;
    producer_ok = tt;
    consumer_ok = tt;
  }

  -- The elements sent and not yet received: the ring holds them, in the order in which they were
  -- sent; their number is the length that the ring reports, and at most its capacity `k`.
  abbrev pub InOrder : ℕ → World A → Type 0
  InOrder k w =
      (rest : List A) × (w.sent ≡ w.received ++ rest)
      × (spsc_len w.ring ≡ length rest)
      × (length rest ≤ k)

  Inv-InOrder : (k : ℕ) (w : World A) → Inv k w → InOrder k w
  unfolding spsc_len
  Inv-InOrder k w i = (
    contents w.ring i.n,
    i.fifo,
    omega (
      arith,
      i.ring_ok.head_at,
      i.ring_ok.tail_word,
      in_word w.ring i.n i.m i.c i.ring_ok,
      length-stamps w.ring.buffer.cell (w.ring.mask + 1) (slot w.ring w.ring.tail) i.n,
    ),
    omega (
      arith,
      length-stamps w.ring.buffer.cell (w.ring.mask + 1) (slot w.ring w.ring.tail) i.n,
      i.ring_ok.bounded,
      i.capacity_is,
    ),
  )

  -- However the accesses of one producer and one consumer to an empty ring interleave, none lies
  -- outside of its block; the elements received are the first of those sent, in their order; and
  -- those between are as many as the ring reports, and at most its capacity.
  pub ring_go-InOrder :
      (s : Spsc A) (cs : List (Choice A))
      → IsEmptyRing s
      → Returns (InOrder s.capacity) (ring_go (fresh s) cs)
  ring_go-InOrder s cs v =
      Returns-map (ring_go-Inv s.capacity (fresh s) cs (fresh-Inv s v)) (Inv-InOrder s.capacity)

  -- The producer copies into one place while the consumer copies out of another.
  abbrev pub NoRace : World A → Type 0
  NoRace w =
      (v : A) (h t : ℕ)
      → w.producer ≡ Producer.copy_in v h
      → w.consumer ≡ Consumer.copy_out t
      → bit_and h w.ring.mask ≢ bit_and t w.ring.mask

  Inv-NoRace : (k : ℕ) (w : World A) → Inv k w → NoRace w
  Inv-NoRace k w i v h t p q e =
      apart w.ring i.n i.m i.c i.ring_ok (omega (arith, at_tail.1, i.ring_ok.bounded))
        (sym (index h at_head.0) ∙ e ∙ index t at_tail.0)
    where
      at_head : ProducerOk w.ring i.m (Producer.copy_in v h)
      at_head = subst (ProducerOk w.ring i.m) p i.producer_ok

      at_tail : ConsumerOk w.ring i.c (Consumer.copy_out t)
      at_tail = subst (ConsumerOk w.ring i.c) q i.consumer_ok

      index : (x : ℕ) {y : ℕ} → x ≡ y → bit_and x w.ring.mask ≡ slot w.ring y
      index x d = bit_and-index w.ring.mask i.ring_ok.mask_ok x ∙ ap (slot w.ring) d

  -- However the accesses to an empty ring interleave, when the producer is about to copy an element
  -- in and the consumer is about to copy one out, they do so at different places.
  pub ring_go-NoRace :
      (s : Spsc A) (cs : List (Choice A)) → IsEmptyRing s → Returns NoRace (ring_go (fresh s) cs)
  ring_go-NoRace s cs v =
      Returns-map (ring_go-Inv s.capacity (fresh s) cs (fresh-Inv s v)) (Inv-NoRace s.capacity)
