-- ===== src/Channel/Mpmc/Queue.antt =====
-- src/loopyChannel.c: what each turn does to the queue under the mutex.
use loopy.Prelude.{
  suc, sym, ◌+◌, ◌-◌, ◌%◌, ◌≤◌, ◌<◌, ◌≡◌, refl, sym, ap, ◌∙◌, Bool, true, false, not, List, [], ◌∷◌,
  ◌++◌, arith, leb, ◌==◌, if◌then◌else◌, inl, inr,
}
use loopy.Prelude.Run.{ok, Returns, returns, Returns-if}
use loopy.Prelude.Array.{update, put, load-ok, store-ok}
use loopy.Prelude.Words.{word, add_word, sub_word}
use loopy.Prelude.Ring.{
  next-mod, next_lt, Ahead, Ahead-next, Ahead-more, stamps, stamps-update, stamps_pos,
}
use loopy.Channel.{Status, Received}
use loopy.Channel.Mpmc.{Mpmc, Turn, mpmc_send_turn, mpmc_recv_turn}

module _ {A : Type 0} where
  -- The block has a place for each of `capacity` elements; the head is `count` places ahead of the
  -- tail.
  pub record IsQueue (q : Mpmc A) : Type 0 where
    pub in_block : q.capacity ≤ q.buffer.len
    pub in_word : q.capacity < word
    pub bounded : q.count ≤ q.capacity
    pub tail_lt : q.tail < q.capacity
    pub head_lt : q.head < q.capacity
    pub ahead : Ahead q.capacity q.tail q.count q.head

  -- The elements in the queue, the oldest first
  abbrev pub contents : Mpmc A → List A
  contents q = stamps q.buffer.cell q.capacity q.tail q.count

  -- How a sender's turn ends, and with which queue
  pub data SendPost (closed blocking : Bool) (v : A) (q : Mpmc A)
      : Turn Status → Mpmc A → Type 0 where
    is_closed : closed ≡ true → SendPost closed blocking v q (Turn.answer Status.closed) q
    is_full :
        closed ≡ false
        → blocking ≡ false
        → q.capacity ≤ q.count
        → SendPost closed blocking v q (Turn.answer Status.full) q
    waits :
        closed ≡ false
        → blocking ≡ true
        → q.capacity ≤ q.count
        → SendPost closed blocking v q Turn.wait q
    stored :
        {q' : Mpmc A}
        → closed ≡ false
        → q.count < q.capacity
        → IsQueue q'
        → q'.capacity ≡ q.capacity
        → q'.element_size ≡ q.element_size
        → contents q' ≡ contents q ++ (v ∷ [])
        → SendPost closed blocking v q (Turn.answer Status.ok) q'

  -- How a receiver's turn ends
  pub data RecvPost (closed blocking : Bool) (q : Mpmc A)
      : Turn (Received A) → Mpmc A → Type 0 where
    is_closed :
        closed ≡ true
        → q.count ≡ 0
        → RecvPost closed blocking q (Turn.answer (Received.failed Status.closed)) q
    is_empty :
        closed ≡ false
        → q.count ≡ 0
        → RecvPost closed blocking q (Turn.answer (Received.failed Status.empty)) q
    waits : closed ≡ false → blocking ≡ true → q.count ≡ 0 → RecvPost closed blocking q Turn.wait q
    taken :
        {q' : Mpmc A} (v : A)
        → IsQueue q'
        → q'.capacity ≡ q.capacity
        → q'.element_size ≡ q.element_size
        → contents q ≡ v ∷ contents q'
        → RecvPost closed blocking q (Turn.answer (Received.bytes v)) q'

  module _ (q : Mpmc A) (i : IsQueue q) where
    -- The queue with an element more, and with one less
    abbrev pub pushed : A → Mpmc A
    pushed v = record q {
      buffer = put q.buffer q.head v;
      head = add_word q.head 1 % q.capacity;
      count = add_word q.count 1;
    }

    abbrev pub popped : Mpmc A
    popped = record q { tail = add_word q.tail 1 % q.capacity; count = sub_word q.count 1 }

    pushed-IsQueue : (v : A) → q.count < q.capacity → IsQueue (pushed v)
    pushed-IsQueue v room =
        rw (next-mod q.capacity q.head i.head_lt i.in_word, counted)
          (record {
            in_block = i.in_block;
            in_word = i.in_word;
            bounded = omega (arith, room);
            tail_lt = i.tail_lt;
            head_lt = next_lt q.capacity q.head i.head_lt;
            ahead = Ahead-more q.capacity q.tail q.count q.head i.tail_lt i.head_lt room i.ahead;
          })
      where
        counted : add_word q.count 1 ≡ q.count + 1
        counted = omega (arith, room, i.in_word)

    contents-pushed : (v : A) → q.count < q.capacity → contents (pushed v) ≡ contents q ++ (v ∷ [])
    contents-pushed v room =
        ap (stamps (update q.buffer.cell q.head v) q.capacity q.tail) counted
        ∙ stamps-update q.buffer.cell q.capacity q.tail q.count q.head v i.tail_lt i.head_lt room
            i.ahead
      where
        counted : add_word q.count 1 ≡ suc q.count
        counted = omega (arith, room, i.in_word)

    popped-IsQueue : 0 < q.count → IsQueue popped
    popped-IsQueue some_left =
        rw (next-mod q.capacity q.tail i.tail_lt i.in_word, counted)
          (record {
            in_block = i.in_block;
            in_word = i.in_word;
            bounded = omega (arith, i.bounded);
            tail_lt = next_lt q.capacity q.tail i.tail_lt;
            head_lt = i.head_lt;
            ahead =
                Ahead-next q.capacity q.tail (q.count - 1) q.head i.tail_lt i.head_lt
                  (omega (arith, i.bounded, some_left)) one_more;
          })
      where
        counted : sub_word q.count 1 ≡ q.count - 1
        counted = omega (arith, some_left, i.in_word, i.bounded)

        one_more : Ahead q.capacity q.tail (suc (q.count - 1)) q.head
        one_more = elim i.ahead [
          | inl b ↦ inl (omega (arith, b, some_left))
          | inr b ↦ inr (omega (arith, b, some_left))
        ]

    contents-popped : 0 < q.count → contents q ≡ q.buffer.cell q.tail ∷ contents popped
    contents-popped some_left =
        rw (next-mod q.capacity q.tail i.tail_lt i.in_word, counted)
          (stamps_pos q.buffer.cell q.capacity q.tail q.count some_left)
      where
        counted : sub_word q.count 1 ≡ q.count - 1
        counted = omega (arith, some_left, i.in_word, i.bounded)

    blocks : (b : Bool) → not b ≡ false → b ≡ true
    blocks true e = refl
    blocks false e = sym e

    passes : (b : Bool) → not b ≡ true → b ≡ false
    passes true e = sym e
    passes false e = refl

    pub mpmc_send_turn-Post :
        (closed blocking : Bool) (v : A)
        → Returns
            (λ r. SendPost closed blocking v q (r.0) (r.1))
            (mpmc_send_turn closed blocking v q)
    unfolding mpmc_send_turn
    mpmc_send_turn-Post true blocking v =
        Returns-if (leb q.capacity q.count) (λ e. returns (SendPost.is_closed refl))
          (λ e. returns (SendPost.is_closed refl))
    mpmc_send_turn-Post false blocking v =
        Returns-if (leb q.capacity q.count)
          (λ e.
            Returns-if (not blocking)
              (λ b. returns (SendPost.is_full refl (passes blocking b) (ground arith)))
              (λ b. returns (SendPost.waits refl (blocks blocking b) (ground arith))))
          (λ e. rw (store-ok q.buffer q.head v (omega (arith, i.in_block, i.head_lt))) (
            returns (
              SendPost.stored refl (ground arith) (pushed-IsQueue v (ground arith)) refl refl
                (contents-pushed v (ground arith)))))

    pub mpmc_recv_turn-Post :
        (closed blocking : Bool)
        → Returns (λ r. RecvPost closed blocking q (r.0) (r.1)) (mpmc_recv_turn closed blocking q)
    unfolding mpmc_recv_turn
    mpmc_recv_turn-Post closed blocking =
        Returns-if (q.count == 0) (λ e. none_left closed (ground arith))
          (λ e. rw (load-ok q.buffer q.tail (omega (arith, i.in_block, i.tail_lt))) (
            returns (
              RecvPost.taken (q.buffer.cell q.tail) (popped-IsQueue (ground arith)) refl refl
                (contents-popped (ground arith)))))
      where
        none_left :
            (b : Bool)
            → q.count ≡ 0
            → Returns
                (λ (r : Turn (Received A) × Mpmc A). RecvPost b blocking q (r.0) (r.1))
                (if b
                  then ok (Turn.answer (Received.failed Status.closed), q)
                  else if not blocking
                  then ok (Turn.answer (Received.failed Status.empty), q)
                  else ok (Turn.wait, q))
        none_left true e = returns (RecvPost.is_closed refl e)
        none_left false e =
            Returns-if (not blocking) (λ b. returns (RecvPost.is_empty refl e))
              (λ b. returns (RecvPost.waits refl (blocks blocking b) e))
