-- ===== src/PubSub/Tests.antt =====
-- src/loopyPubSub.c: runs of small queues and of a small hub, and the theorems at concrete inputs.
use loopy.Prelude.{ℕ, ◌≡◌, refl, true, none, some, List, [], ◌∷◌, ◌++◌, arith, inr}
use loopy.Prelude.Run.{ok, Returns}
use loopy.Prelude.Ring.{length}
use loopy.Prelude.Chain.{Cells, node, set, read, Chain, end, link}
use loopy.PubSub.{
  deliver_queue, AckMode, ack_auto, ack_manual, Entry, Blocks, Subscription, Message, Publication,
  Answers, IsFresh,
}
use loopy.PubSub.Queue.{
  entry_of, new_entry, enqueue, receive, ack, message_of, subscription_pending,
}
use loopy.PubSub.Fifo.{IsQueue}
use loopy.PubSub.History.{begun, publishes, received_in_order}
use loopy.PubSub.Sound.{IsSound, step, acknowledges, step-IsSound}
use loopy.PubSub.Receipt.{receive-ack, ack_last-Loses, receive-Dangling, enqueue-receive}

abbrev blank : Blocks
blank = record { entries = λ a. none; topics = λ a. none; payloads = λ a. none }

-- A queue without an entry.
abbrev pub empty : AckMode → Subscription
empty mode = record {
  pattern = "#";
  callback = 1;
  event_callback = 0;
  user_data = 0;
  event_user_data = 0;
  delivery_mode = deliver_queue;
  ack_mode = mode;
  queue_size = 2;
  drop_on_full = true;
  queue_head = 0;
  queue_tail = 0;
  queue_len = 0;
  messages_received = 0;
  messages_dropped = 0;
  blocks = blank;
}

abbrev pub published : ℕ → Publication
published n = record {
  topic = "t";
  bytes = n ∷ [];
  len = 1;
  timestamp = 100;
  sequence = n;
  publisher_data = 0;
}

-- Blocks at three addresses of their own.
abbrev pub blocks_at : ℕ → Answers
blocks_at n = record { entry = n; topic = n; data_block = n }

-- Two entries, at 1 and 2, of the sequence numbers 7 and 8.
abbrev first : Entry
first = entry_of (blocks_at 1) (published 7)

abbrev second : Entry
second = entry_of (blocks_at 2) (published 8)

abbrev two_blocks : Blocks
two_blocks = record {
  entries = set (set (λ a. none) 1 (some (node 2 first))) 2 (some (node 0 second));
  topics = set (set (λ a. none) 1 (some "t")) 2 (some "t");
  payloads = set (set (λ a. none) 1 (some (7 ∷ []))) 2 (some (8 ∷ []));
}

abbrev pub two : AckMode → Subscription
two mode = record (empty mode) {
  queue_head = 1;
  queue_tail = 2;
  queue_len = 2;
  messages_received = 2;
  blocks = two_blocks;
}

abbrev two_cells : Cells Entry
two_cells = (1, first) ∷ (2, second) ∷ []

two-Chain : Chain two_blocks.entries 1 two_cells
unfolding set
two-Chain = link (omega arith) refl refl (link (omega arith) refl refl end)

two-IsQueue : (mode : AckMode) → IsQueue (two mode) two_cells
two-IsQueue mode = record { chain = two-Chain; tail = refl; len = refl; small = omega arith }

pub two-IsSound : (mode : AckMode) → IsSound (two mode)
two-IsSound mode = record {
  xs = two_cells;
  chain = two-Chain;
  tail = inr refl;
  len = omega arith;
  small = omega arith;
}

empty-IsQueue : (mode : AckMode) → IsQueue (empty mode) []
empty-IsQueue mode = record { chain = end; tail = refl; len = refl; small = omega arith }

blank-IsFresh : IsFresh blank (blocks_at 1)
blank-IsFresh = record { entry_free = refl; topic_free = refl; payload_free = refl }

step-IsSound_example : Returns IsSound (step (acknowledges 8) (two ack_manual))
step-IsSound_example = step-IsSound (acknowledges 8) (two ack_manual) (two-IsSound ack_manual) tt

receive-ack_example :
    (receive (two ack_manual) ≡ ok (some (message_of first), two ack_manual))
    × Returns (λ (found, t). (found ≡ true) × IsQueue t ((2, second) ∷ [])) (ack (two ack_manual) 7)
receive-ack_example =
    receive-ack (two ack_manual) refl refl 1 first ((2, second) ∷ []) (two-IsQueue ack_manual)

-- The same queue once its last entry has been acknowledged.
abbrev one_left : Subscription
one_left = record (two ack_manual) {
  queue_tail = 0;
  queue_len = 1;
  blocks = record {
    entries = set (set two_blocks.entries 1 (some (node 0 first))) 2 none;
    topics = set two_blocks.topics 2 none;
    payloads = set two_blocks.payloads 2 none;
  };
}

acknowledged : ack (two ack_manual) 8 ≡ ok (true, one_left)
unfolding ack set read
acknowledged = refl

one_left-IsFresh : IsFresh one_left.blocks (blocks_at 3)
unfolding set
one_left-IsFresh = record { entry_free = refl; topic_free = refl; payload_free = refl }

ack_last-Loses_example :
    Returns
      (λ u.
        Chain u.blocks.entries u.queue_head ((3, entry_of (blocks_at 3) (published 9)) ∷ [])
        × (subscription_pending u ≡ 2))
      (enqueue (blocks_at 3) (published 9) one_left)
ack_last-Loses_example =
    ack_last-Loses (two ack_manual) refl refl 1 first [] 2 second one_left (blocks_at 3)
      (published 9) (two-IsQueue ack_manual) refl acknowledged (omega arith) one_left-IsFresh

receive_of_two_dangles :
    Returns
      (λ (got, t).
        (got ≡ some (message_of first)) × (t.blocks.topics 1 ≡ none) × (t.blocks.payloads 1 ≡ none))
      (receive (two ack_auto))
receive_of_two_dangles =
    receive-Dangling (two ack_auto) 1 first ((2, second) ∷ []) refl refl (two-IsQueue ack_auto)

enqueue-receive_example :
    Returns
      (λ t.
        (receive t ≡ ok (some (message_of first), t))
        × (t.blocks.topics 1 ≡ some "t")
        × (t.blocks.payloads 1 ≡ some (7 ∷ [])))
      (enqueue (blocks_at 1) (published 7) (empty ack_manual))
enqueue-receive_example =
    enqueue-receive (empty ack_manual) (blocks_at 1) (published 7) refl refl
      (empty-IsQueue ack_manual) (omega arith) (omega arith) (omega arith) blank-IsFresh

-- The queue after one publication, and after its receipt.
abbrev one : Subscription
unfolding new_entry
one = record (empty ack_auto) {
  queue_head = 1;
  queue_tail = 1;
  queue_len = 1;
  messages_received = 1;
  blocks = new_entry (blocks_at 1) (published 7) blank;
}

one-published : enqueue (blocks_at 1) (published 7) (empty ack_auto) ≡ ok one
unfolding enqueue one
one-published = refl

received_in_order_example :
    (waiting : List Message) × (message_of first ∷ [] ≡ [] ++ waiting)
    × (subscription_pending one ≡ length waiting)
received_in_order_example = received_in_order (
    publishes (blocks_at 1) (published 7) (begun refl refl (empty-IsQueue ack_auto)) (omega arith)
      blank-IsFresh (omega arith) one-published)
