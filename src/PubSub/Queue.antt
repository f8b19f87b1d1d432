-- ===== src/PubSub/Queue.antt =====
-- src/loopyPubSub.c: the message queue of a subscription, a list of entries with a pointer to its
-- last one; each function from where it has the mutex. A walk over the list runs on fuel, and is
-- given one round more than `queueLen`.
use loopy.Prelude.{ℕ, zero, suc, Bool, true, false, not, Option, none, some, ◌==◌, if◌then◌else◌}
use loopy.Prelude.Run.{Run, ok, out_of_fuel, ◌>>=◌}
use loopy.Prelude.Words.{add_word, sub_word}
use loopy.Prelude.Chain.{Node, Store, node, set, read}
use loopy.PubSub.{
  DeliveryMode, deliver_queue, AckMode, ack_manual, Entry, Blocks, Subscription, Message,
  Publication, Answers,
}

-- what is copied, where the allocator has a block for it
abbrev stored : {A : Type 0} → Store A → ℕ → A → Store A
stored h p x = if p == 0 then h else set h p (some x)

-- The entry that a publication puts into a queue.
abbrev pub entry_of : Answers → Publication → Entry
entry_of f m = record {
  topic = f.topic;
  data_block = f.data_block;
  len = m.len;
  timestamp = m.timestamp;
  sequence = m.sequence;
  publisher_data = m.publisher_data;
  acked = false;
}

-- `zcalloc` of the entry, `pubsubStrdup` of the topic, `zmalloc` and `memcpy` of the data
unfoldable pub new_entry : Answers → Publication → Blocks → Blocks
new_entry f m b = record {
  entries = set b.entries f.entry (some (node 0 (entry_of f m)));
  topics = stored b.topics f.topic m.topic;
  payloads = stored b.payloads f.data_block m.bytes;
}

-- `messageEntryFree`; nothing is stored at NULL.
unfoldable pub free_entry : ℕ → Entry → Blocks → Blocks
free_entry p e b = record {
  entries = set b.entries p none;
  topics = set b.topics e.topic none;
  payloads = set b.payloads e.data_block none;
}

-- `p->next = q`
unfoldable pub set_next : Blocks → ℕ → ℕ → Run Blocks
set_next b p q = do
  n ← read b.entries p
  ok (record b { entries = set b.entries p (some (node q n.value)) })

-- The part of `publishToPattern` that adds the entry, where `zcalloc` gives one.
unfoldable pub enqueue : Answers → Publication → Subscription → Run Subscription
unfolding new_entry set_next
enqueue f m s =
    let b = new_entry f m s.blocks in
    let t = record s {
      queue_tail = f.entry;
      queue_len = add_word s.queue_len 1;
      messages_received = add_word s.messages_received 1;
    } in
    if s.queue_tail == 0
    then ok (record t { queue_head = f.entry; blocks = b })
    else (do b' ← set_next b s.queue_tail f.entry; ok (record t { blocks = b' }))

abbrev pub is_queue : DeliveryMode → Bool
is_queue deliver_queue = true
is_queue _ = false

abbrev pub is_manual : AckMode → Bool
is_manual ack_manual = true
is_manual _ = false

abbrev pub message_of : Entry → Message
message_of e = record {
  topic = e.topic;
  data_block = e.data_block;
  len = e.len;
  timestamp = e.timestamp;
  sequence = e.sequence;
  publisher_data = e.publisher_data;
}

-- `loopySubscriptionPending`
unfoldable pub subscription_pending : Subscription → ℕ
subscription_pending s = s.queue_len

-- the head leaves the queue and is freed
unfoldable pub drop_head : Node Entry → Subscription → Subscription
unfolding free_entry
drop_head n s = record s {
  queue_head = n.next;
  queue_tail = if n.next == 0 then 0 else s.queue_tail;
  queue_len = sub_word s.queue_len 1;
  blocks = free_entry s.queue_head n.value s.blocks;
}

-- `loopySubscriptionReceive`
unfoldable pub receive : Subscription → Run (Option Message × Subscription)
unfolding drop_head
receive s =
    if not (is_queue s.delivery_mode)
    then ok (none, s)
    else if s.queue_head == 0
    then ok (none, s)
    else (do
      n ← read s.blocks.entries s.queue_head
      ok (some (message_of n.value), if is_manual s.ack_mode then s else drop_head n s))

-- `*pp = entry->next`, where `pp` points into the entry `prev`, or to `queueHead` where that is 0
unfoldable pub unlink : ℕ → ℕ → Subscription → Run Subscription
unfolding set_next
unlink prev q s =
    if prev == 0
    then ok (record s { queue_head = q })
    else (do b ← set_next s.blocks prev q; ok (record s { blocks = b }))

-- The rest of `loopySubscriptionAck`, where it has found the entry.
unfoldable pub take_entry : (prev p : ℕ) → Node Entry → Subscription → Run (Bool × Subscription)
unfolding unlink free_entry
take_entry prev p n s = do
  t ← unlink prev n.next s
  ok (
    true,
    record t {
      queue_tail = if t.queue_tail == p then 0 else t.queue_tail;
      queue_len = sub_word t.queue_len 1;
      blocks = free_entry p n.value t.blocks;
    },
  )

unfoldable pub ack_loop : ℕ → (sequence prev p : ℕ) → Subscription → Run (Bool × Subscription)
unfolding take_entry
ack_loop zero sequence prev p s = out_of_fuel
ack_loop (suc k) sequence prev p s = if p == 0 then ok (false, s) else do
  n ← read s.blocks.entries p
  if n.value.sequence == sequence then take_entry prev p n s else ack_loop k sequence p n.next s

-- `loopySubscriptionAck`
unfoldable pub ack : Subscription → ℕ → Run (Bool × Subscription)
unfolding ack_loop
ack s sequence =
    if not (is_manual s.ack_mode)
    then ok (false, s)
    else ack_loop (suc s.queue_len) sequence 0 s.queue_head s

-- `loopySubscriptionNack`
unfoldable pub nack : Subscription → ℕ → Bool × Subscription
nack s sequence = (true, s)

-- The loop of `loopyUnsubscribe` and `freePatternEntry` that frees the entries.
unfoldable pub free_queue : ℕ → ℕ → Blocks → Run Blocks
unfolding free_entry
free_queue zero p b = out_of_fuel
free_queue (suc k) p b =
    if p == 0 then ok b else do n ← read b.entries p; free_queue k n.next (free_entry p n.value b)
