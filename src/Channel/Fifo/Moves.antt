-- ===== src/Channel/Fifo/Moves.antt =====
-- src/loopyChannel.c: the parts of `spscTrySend` and `spscTryRecv`: the search for room or for an
-- element, and the move of one into the ring or out of it.
use Prim.Native.Nat.{bit_and}
use loopy.Prelude.{
  ℕ, ◌+◌, ◌-◌, ◌<◌, ◌≡◌, refl, ap, ◌∙◌, Bool, true, not, List, [], ◌∷◌, ◌++◌, arith, ltb, ◌==◌,
  if_cases,
}
use loopy.Prelude.Run.{ok, Returns, returns, ◌>>=◌}
use loopy.Prelude.Array.{store, load, store-ok, load-ok}
use loopy.Prelude.Words.{add_word}
use loopy.Channel.{Received}
use loopy.Channel.Spsc.{Spsc, has_room, find_room, find_element}
use loopy.Channel.Spsc.Masks.{index_lt, bit_and-index}
use loopy.Channel.Spsc.Invariant.{
  slot, IsRing, contents, room_of, fresh_room, in_word, refresh_tail-IsRing, refresh_head-IsRing,
  publish-IsRing, consume-IsRing, contents-write, contents-publish, contents-consume,
}
use loopy.Channel.Spsc.Steps.{written, write-IsRing}

module _ {A : Type 0} where
  -- A ring of `cap` elements of `size` bytes that holds `l`
  pub record RingHolds (cap size : ℕ) (s : Spsc A) (l : List A) : Type 0 where
    pub capacity_is : s.capacity ≡ cap
    pub size_is : s.element_size ≡ size
    pub n : ℕ
    pub m : ℕ
    pub c : ℕ
    pub ring_ok : IsRing s n m c
    pub holds : contents s n ≡ l

  -- The ring after a search for room or for an element: the same but for one thread's view.
  pub record SameRing (s s' : Spsc A) (n : ℕ) : Type 0 where
    pub capacity_same : s'.capacity ≡ s.capacity
    pub size_same : s'.element_size ≡ s.element_size
    pub holds_same : contents s' n ≡ contents s n

  pub RingHolds-of :
      {cap cap' size size' : ℕ} {s : Spsc A} {l l' : List A}
      → cap ≡ cap'
      → size ≡ size'
      → l ≡ l'
      → RingHolds cap size s l
      → RingHolds cap' size' s l'
  RingHolds-of a b e h = record {
    capacity_is = h.capacity_is ∙ a;
    size_is = h.size_is ∙ b;
    n = h.n;
    m = h.m;
    c = h.c;
    ring_ok = h.ring_ok;
    holds = h.holds ∙ e;
  }

  module _ (s : Spsc A) (n m c : ℕ) (r : IsRing s n m c) where
    abbrev pub RoomFound : Bool × Spsc A → Type 0
    RoomFound (room, s') =
        (room ≡ ltb n s.capacity)
        × SameRing s s' n
        × ((m' : ℕ) × IsRing s' n m' c × (room ≡ true → m' < s'.capacity))

    pub find_room-RoomFound : RoomFound (find_room s)
    unfolding find_room
    find_room-RoomFound =
        if_cases RoomFound (has_room s s.head s.cached_tail)
          (λ e. (
            ground (arith, e, room_of s n m c r, r.bounded),
            record { capacity_same = refl; size_same = refl; holds_same = refl },
            (m, r, λ _. ground (arith, e, room_of s n m c r)),
          ))
          (λ e. (
            fresh_room s n m c r,
            record { capacity_same = refl; size_same = refl; holds_same = refl },
            (n, refresh_tail-IsRing s n m c r, λ e'. ground (arith, e', fresh_room s n m c r)),
          ))

    abbrev pub ElementFound : Bool × Spsc A → Type 0
    ElementFound (present, s') =
        (present ≡ ltb 0 n)
        × SameRing s s' n
        × ((c' : ℕ) × IsRing s' n m c' × (present ≡ true → 0 < c'))

    present_lem : not (s.tail == s.head) ≡ ltb 0 n
    present_lem = ground (arith, r.head_at, r.tail_word, in_word s n m c r)

    pub find_element-ElementFound : ElementFound (find_element s)
    unfolding find_element
    find_element-ElementFound =
        if_cases ElementFound (s.tail == s.cached_head)
          (λ e. (
            present_lem,
            record { capacity_same = refl; size_same = refl; holds_same = refl },
            (n, refresh_head-IsRing s n m c r, λ e'. ground (arith, e', present_lem)),
          ))
          (λ e. (
            ground (arith, e, r.consumer_view, r.tail_word, r.bounded),
            record { capacity_same = refl; size_same = refl; holds_same = refl },
            (c, r, λ e'. ground (arith, e, r.consumer_view, r.tail_word)),
          ))

    pub push-Holds :
        (v : A)
        → m < s.capacity
        → Returns
            (λ (r' : Bool × Spsc A).
              (r'.0 ≡ true) × RingHolds s.capacity s.element_size (r'.1) (contents s n ++ (v ∷ [])))
            (do
              b ← store s.buffer (bit_and s.head s.mask) v
              ok (true, record s { buffer = b; head = add_word s.head 1 }))
    push-Holds v room =
        rw (index, store-ok s.buffer (slot s s.head) v inside)
          (returns (
            refl,
            record {
              capacity_is = refl;
              size_is = refl;
              n = n + 1;
              m = m + 1;
              c = c;
              ring_ok = publish-IsRing with_it n m c (write-IsRing s n m c r v) room;
              holds =
                  contents-publish with_it n m c (write-IsRing s n m c r v)
                  ∙ ap (λ l. l ++ (with_it.buffer.cell (slot s s.head) ∷ []))
                      (contents-write s n m c r v)
                  ∙ ap (λ x. contents s n ++ (x ∷ [])) (ground arith);
            },
          ))
      where
        with_it : Spsc A
        with_it = written s n m c r v

        index : bit_and s.head s.mask ≡ slot s s.head
        index = bit_and-index s.mask r.mask_ok s.head

        inside : slot s s.head < s.buffer.len
        inside = omega (arith, r.in_block, index_lt s.mask r.mask_ok s.head)

    pub pop-Holds :
        0 < c
        → Returns
            (λ (r' : Received A × Spsc A).
              (x : A) × (xs : List A) × (contents s n ≡ x ∷ xs)
              × (r'.0 ≡ Received.bytes x)
              × RingHolds s.capacity s.element_size (r'.1) xs)
            (do
              v ← load s.buffer (bit_and s.tail s.mask)
              ok (Received.bytes v, record s { tail = add_word s.tail 1 }))
    pop-Holds some_left =
        rw (index, load-ok s.buffer (slot s s.tail) inside)
          (returns (
            s.buffer.cell (slot s s.tail),
            contents (record s { tail = add_word s.tail 1 }) (n - 1),
            contents-consume s n m c r some_left,
            refl,
            record {
              capacity_is = refl;
              size_is = refl;
              n = n - 1;
              m = m;
              c = c - 1;
              ring_ok = consume-IsRing s n m c r some_left;
              holds = refl;
            },
          ))
      where
        index : bit_and s.tail s.mask ≡ slot s s.tail
        index = bit_and-index s.mask r.mask_ok s.tail

        inside : slot s s.tail < s.buffer.len
        inside = omega (arith, r.in_block, index_lt s.mask r.mask_ok s.tail)
