-- ===== src/PubSub/History.antt =====
-- src/loopyPubSub.c: what a queue gives out over time, without manual acknowledgement.
use loopy.Prelude.{
  suc, ◌<◌, ◌≡◌, ◌≢◌, refl, sym, ap, ◌∙◌, false, Option, none, some, List, [], ◌∷◌, ◌++◌, arith,
}
use loopy.Prelude.Run.{ok, Returns, returns, Returns-map, Returns-of}
use loopy.Prelude.Words.{word}
use loopy.Prelude.Lists.{++-assoc}
use loopy.Prelude.Ring.{length}
use loopy.Prelude.Chain.{Cells, size}
use loopy.PubSub.{deliver_queue, Entry, Subscription, Message, Publication, Answers, IsFresh}
use loopy.PubSub.Queue.{entry_of, enqueue, is_manual, message_of, receive, subscription_pending}
use loopy.PubSub.Fifo.{IsQueue, enqueue-IsQueue, receive-empty, receive-IsQueue}

abbrev pub messages : Cells Entry → List Message
messages [] = []
messages ((a, v) ∷ xs) = message_of v ∷ messages xs

messages-append : (xs ys : Cells Entry) → messages (xs ++ ys) ≡ messages xs ++ messages ys
messages-append [] ys = refl
messages-append ((a, v) ∷ xs) ys = ap (◌∷◌ (message_of v)) (messages-append xs ys)

length-messages : (xs : Cells Entry) → length (messages xs) ≡ size xs
length-messages [] = refl
length-messages ((a, v) ∷ xs) = omega (arith, length-messages xs)

-- What has happened to a queue that began empty, without acknowledgements: the messages of the
-- publications that it took, and those that were received.
pub data History : (published received : List Message) → Subscription → Type 0 where
  begun :
      {s : Subscription}
      → s.delivery_mode ≡ deliver_queue
      → is_manual s.ack_mode ≡ false
      → IsQueue s []
      → History [] [] s
  publishes :
      {published received : List Message} {s t : Subscription} (f : Answers) (m : Publication)
      → History published received s
      → f.entry ≢ 0
      → IsFresh s.blocks f
      → suc s.queue_len < word
      → enqueue f m s ≡ ok t
      → History (published ++ (message_of (entry_of f m) ∷ [])) received t
  receives :
      {published received : List Message} {s t : Subscription} {got : Message}
      → History published received s
      → receive s ≡ ok (some got, t)
      → History published (received ++ (got ∷ [])) t
  finds_nothing :
      {published received : List Message} {s t : Subscription}
      → History published received s
      → receive s ≡ ok (none, t)
      → History published received t

-- The queue and the two lists of messages at a time of a history.
record Holds (published received : List Message) (s : Subscription) : Type 0 where
  xs : Cells Entry
  queue : IsQueue s xs
  order : published ≡ received ++ messages xs
  queued : s.delivery_mode ≡ deliver_queue
  auto : is_manual s.ack_mode ≡ false

enqueue-Holds :
    {published received : List Message} {s t : Subscription} (f : Answers) (m : Publication)
    → Holds published received s
    → f.entry ≢ 0
    → IsFresh s.blocks f
    → suc s.queue_len < word
    → enqueue f m s ≡ ok t
    → Holds (published ++ (message_of (entry_of f m) ∷ [])) received t
enqueue-Holds {received} {s} f m h ne fresh room e =
    let (q, modes) = Returns-of (enqueue-IsQueue f m s ne fresh h.xs h.queue room) e in
    record {
      xs = h.xs ++ ((f.entry, entry_of f m) ∷ []);
      queue = q;
      order =
          rw (h.order, messages-append h.xs ((f.entry, entry_of f m) ∷ []))
            (++-assoc received (messages h.xs) (message_of (entry_of f m) ∷ []));
      queued = modes.delivery ∙ h.queued;
      auto = ap is_manual modes.acks ∙ h.auto;
    }

-- The messages that were received when a call answers `got`.
with_got : List Message → Option Message → List Message
with_got received none = received
with_got received (some g) = received ++ (g ∷ [])

receive-Holds :
    {published : List Message} {s : Subscription} (received : List Message) (xs : Cells Entry)
    → IsQueue s xs
    → published ≡ received ++ messages xs
    → s.delivery_mode ≡ deliver_queue
    → is_manual s.ack_mode ≡ false
    → Returns (λ (got, t). Holds published (with_got received got) t) (receive s)
unfolding with_got
receive-Holds {s} received [] q order queued auto =
    rw (receive-empty s queued q)
      (returns (record { xs = []; queue = q; order = order; queued = queued; auto = auto }))
receive-Holds {published} {s} received ((a, v) ∷ xs) q order queued auto =
    Returns-map (receive-IsQueue s queued a v xs q auto) λ (got, t) (e, q', modes). rw e record {
      xs = xs;
      queue = q';
      order = order ∙ sym (++-assoc received (message_of v ∷ []) (messages xs));
      queued = modes.delivery ∙ queued;
      auto = ap is_manual modes.acks ∙ auto;
    }

History-Holds :
    {published received : List Message} {s : Subscription}
    → History published received s
    → Holds published received s
unfolding with_got
History-Holds (begun queued auto q) = record {
  xs = [];
  queue = q;
  order = refl;
  queued = queued;
  auto = auto;
}
History-Holds (publishes f m h ne fresh room e) =
    enqueue-Holds f m (History-Holds h) ne fresh room e
History-Holds (receives {received} h e) =
    let g = History-Holds h in
    Returns-of (receive-Holds received g.xs g.queue g.order g.queued g.auto) e
History-Holds (finds_nothing {received} h e) =
    let g = History-Holds h in
    Returns-of (receive-Holds received g.xs g.queue g.order g.queued g.auto) e

-- In a history of publications and receipts from an empty queue without manual acknowledgement
-- the messages given out, followed by those in the queue, are those published to it, in their
-- order; and loopySubscriptionPending counts those in it.
pub received_in_order :
    {published received : List Message} {s : Subscription}
    → History published received s
    → (waiting : List Message) × (published ≡ received ++ waiting)
      × (subscription_pending s ≡ length waiting)
unfolding subscription_pending
received_in_order h =
    let g = History-Holds h in (messages g.xs, g.order, g.queue.len ∙ sym (length-messages g.xs))
