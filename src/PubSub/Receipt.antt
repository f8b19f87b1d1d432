-- ===== src/PubSub/Receipt.antt =====
-- src/loopyPubSub.c: what a receiver gets from a queue with and without acknowledgements.
use mathlib.Core.Bool.{true≢false}
use loopy.Prelude.{
  ℕ, ◌+◌, ◌≤◌, ◌≡◌, ◌≢◌, refl, sym, ap, ◌∙◌, true, false, none, some, [], ◌∷◌, ◌++◌, arith, ◌==◌,
  if◌then◌else◌,
}
use loopy.Prelude.Run.{ok, Returns, returns, Returns-map, Returns-of}
use loopy.Prelude.Chain.{
  Cells, node, set-same, read-ok, size, size-append, holds, holds-last, last, last-snoc, Chain, end,
  link, Chain-Link, from_start,
}
use loopy.PubSub.{deliver_queue, Entry, Subscription, Publication, Answers, IsFresh}
use loopy.PubSub.Queue.{
  entry_of, new_entry, enqueue, is_queue, is_manual, message_of, free_entry, drop_head, ack,
  receive, subscription_pending,
}
use loopy.PubSub.Fifo.{IsQueue, enqueue-first}
use loopy.PubSub.Acks.{absent, ack-Acked}

if_not_held :
    {tail : ℕ} (a c : ℕ) (xs : Cells Entry)
    → tail ≡ c
    → holds a xs ≡ false
    → holds c xs ≡ true
    → (tail == a) ≡ false
if_not_held {tail} a c xs e out inside =
    let apart : tail ≢ a =
      λ same. true≢false (sym inside ∙ ap (λ x. holds x xs) (sym e ∙ same) ∙ out) in
    ground arith

-- The last pointer once the first entry is gone.
tail_behind :
    (tail a : ℕ) (v : Entry) (xs : Cells Entry)
    → tail ≡ last ((a, v) ∷ xs)
    → holds a xs ≡ false
    → ◌≡◌ {A = ℕ} (if tail == a then 0 else tail) (last xs)
tail_behind tail a v [] e out = ground arith
tail_behind tail a v ((b, w) ∷ xs) e out =
    let other : (tail == a) ≡ false =
      if_not_held a (last ((b, w) ∷ xs)) ((b, w) ∷ xs) e out (holds-last xs b w) in
    rw other e

module _ (s : Subscription) (queued : s.delivery_mode ≡ deliver_queue)
    (manual : is_manual s.ack_mode ≡ true) where
  receive-manual :
      (a : ℕ) (v : Entry) (xs : Cells Entry)
      → Chain s.blocks.entries s.queue_head ((a, v) ∷ xs)
      → receive s ≡ ok (some (message_of v), s)
  unfolding receive
  receive-manual a v xs c =
      let l = from_start (Chain-Link c) in
      let some_head : (s.queue_head == 0) ≡ false = let ne = l.ne in ground arith in
      rw (ap is_queue queued, some_head, read-ok s.blocks.entries l.ne l.here, manual) refl

  -- In a queue with manual acknowledgement a receipt answers the oldest message and leaves it
  -- there; the acknowledgement of that message answers true and leaves the others in their order.
  pub receive-ack :
      (a : ℕ) (v : Entry) (xs : Cells Entry)
      → IsQueue s ((a, v) ∷ xs)
      → (receive s ≡ ok (some (message_of v), s))
        × Returns (λ (found, t). (found ≡ true) × IsQueue t xs) (ack s v.sequence)
  receive-ack a v xs q = (
    receive-manual a v xs q.chain,
    Returns-map (ack-Acked s manual [] a v xs q.chain refl (omega arith))
        λ (found, t) (hits, chain, tail, len, modes). (
          hits,
          record {
            chain = chain;
            tail = tail ∙ tail_behind s.queue_tail a v xs q.tail (Chain-Link q.chain).out;
            len = omega (arith, len, q.len, q.small);
            small = omega (arith, len);
          },
        ),
  )

  -- After an acknowledgement of the last of several entries, whose sequence number no entry
  -- before it has, and a publication, the queue holds the new message alone, and its counter
  -- still counts those that it held before.
  pub ack_last-Loses :
      (a : ℕ) (v : Entry) (ys : Cells Entry) (b : ℕ) (w : Entry) (t : Subscription) (f : Answers)
      (m : Publication)
      → IsQueue s (((a, v) ∷ ys) ++ ((b, w) ∷ []))
      → absent w.sequence ((a, v) ∷ ys) ≡ true
      → ack s w.sequence ≡ ok (true, t)
      → f.entry ≢ 0
      → IsFresh t.blocks f
      → Returns
          (λ u.
            Chain u.blocks.entries u.queue_head ((f.entry, entry_of f m) ∷ [])
            × (subscription_pending u ≡ size ((a, v) ∷ ys) + 1))
          (enqueue f m t)
  unfolding subscription_pending
  ack_last-Loses a v ys b w t f m q miss e given fresh =
      let few : size ((a, v) ∷ ys) ≤ s.queue_len =
        omega (arith, q.len, size-append ((a, v) ∷ ys) ((b, w) ∷ [])) in
      let (hits, chain, tail, len, modes) =
        Returns-of (ack-Acked s manual ((a, v) ∷ ys) b w [] q.chain miss few) e in
      let at_b : s.queue_tail ≡ b = q.tail ∙ last-snoc ((a, v) ∷ ys) b w in
      let no_tail : t.queue_tail ≡ 0 = tail ∙ ground arith in
      Returns-map (enqueue-first f m t given fresh no_tail) λ u d. (
        d.chain,
        omega (arith, d.len, len, q.len, q.small, size-append ((a, v) ∷ ys) ((b, w) ∷ [])),
      )

-- Without manual acknowledgement the message that a receipt answers has a topic and data that
-- point to blocks that are no longer in use.
pub receive-Dangling :
    (s : Subscription) (a : ℕ) (v : Entry) (xs : Cells Entry)
    → s.delivery_mode ≡ deliver_queue
    → is_manual s.ack_mode ≡ false
    → IsQueue s ((a, v) ∷ xs)
    → Returns
        (λ (got, t).
          (got ≡ some (message_of v))
          × (t.blocks.topics v.topic ≡ none)
          × (t.blocks.payloads v.data_block ≡ none))
        (receive s)
unfolding receive drop_head free_entry
receive-Dangling s a v xs queued auto q =
    let l = from_start (Chain-Link q.chain) in
    let some_head : (s.queue_head == 0) ≡ false = let ne = l.ne in ground arith in
    rw (ap is_queue queued, some_head, read-ok s.blocks.entries l.ne l.here, auto)
      (returns
        (refl, set-same s.blocks.topics v.topic none, set-same s.blocks.payloads v.data_block none))

-- After a publication into an empty queue with manual acknowledgement, where the three blocks are
-- given and were not in use, a receipt answers a message with the publication's stamps, which
-- points to copies of its topic and of its bytes.
pub enqueue-receive :
    (s : Subscription) (f : Answers) (m : Publication)
    → s.delivery_mode ≡ deliver_queue
    → is_manual s.ack_mode ≡ true
    → IsQueue s []
    → f.entry ≢ 0
    → f.topic ≢ 0
    → f.data_block ≢ 0
    → IsFresh s.blocks f
    → Returns
        (λ t.
          (receive t ≡ ok (some (message_of (entry_of f m)), t))
          × (t.blocks.topics f.topic ≡ some m.topic)
          × (t.blocks.payloads f.data_block ≡ some m.bytes))
        (enqueue f m s)
unfolding enqueue new_entry
enqueue-receive s f m queued manual q given topic data_given fresh =
    let first : (s.queue_tail == 0) ≡ true = let none_left = q.tail in ground arith in
    let copied : (f.topic == 0) ≡ false = ground arith in
    let copied_data : (f.data_block == 0) ≡ false = ground arith in
    rw first (
      returns (
        receive-manual _ queued manual f.entry (entry_of f m) [] (
            link given (set-same s.blocks.entries f.entry (some (node 0 (entry_of f m)))) refl end),
        rw copied (set-same s.blocks.topics f.topic (some m.topic)),
        rw copied_data (set-same s.blocks.payloads f.data_block (some m.bytes)),
      ))
