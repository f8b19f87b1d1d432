-- ===== src/PubSub/Publish.antt =====
-- src/loopyPubSub.c: publishing, which visits the patterns that match the topic and delivers to each
-- of their subscriptions. The callbacks leave the hub as it is.
use Prim.Native.String.{String}
use loopy.Prelude.{
  ℕ, zero, suc, ◌*◌, ◌%◌, Bool, ◌&&◌, some, List, [], ◌∷◌, ◌++◌, ltb, leb, ◌==◌, if◌then◌else◌,
}
use loopy.Prelude.Run.{Run, ok, out_of_fuel, ◌>>=◌}
use loopy.Prelude.Words.{word, add_word}
use loopy.Prelude.Chain.{Node, Store, node, set, read}
use loopy.PubSub.{
  DeliveryMode, deliver_sync, deliver_async, deliver_queue, queue_full, Subscription, Answers,
  Publication,
}
use loopy.PubSub.Queue.{enqueue}
use loopy.PubSub.RaxTopic.{RaxTopic}
use loopy.PubSub.Hub.{PatternEntry, Hub, Notice, message, tell}

-- The two counters of `publishContext`, and the callbacks that were called, in order.
pub record Progress : Type 0 where
  pub delivered : ℕ
  pub dropped : ℕ
  pub notices : List Notice

abbrev pub is_full : Subscription → Bool
is_full s = ltb 0 s.queue_size && leb s.queue_size s.queue_len

abbrev count_delivered : Progress → Progress
count_delivered c = record c { delivered = add_word c.delivered 1 }

-- The body of the loop of `publishToPattern`, for the subscription at `a`.
unfoldable pub deliver_on :
    DeliveryMode
    → Answers
    → Publication
    → ℕ
    → Subscription
    → Progress
    → Run (Subscription × Progress)
deliver_on deliver_sync f m a s c = ok (
  record s { messages_received = add_word s.messages_received 1 },
  record c { delivered = add_word c.delivered 1; notices = c.notices ++ (message a m ∷ []) },
)
deliver_on deliver_async f m a s c = ok (s, c)
deliver_on deliver_queue f m a s c =
    if is_full s && s.drop_on_full
    then ok (
      record s { messages_dropped = add_word s.messages_dropped 1 },
      record c { dropped = add_word c.dropped 1; notices = c.notices ++ tell a queue_full s },
    )
    else if f.entry == 0
    then ok (s, c)
    else (do t ← enqueue f m s; ok (t, count_delivered c))

-- `publishToPattern`; `alloc` has the answers of the allocator for each subscription.
unfoldable pub publish_list :
    ℕ
    → (ℕ → Answers)
    → Publication
    → ℕ
    → Store (Node Subscription)
    → Progress
    → Run (Store (Node Subscription) × Progress)
unfolding deliver_on
publish_list zero alloc m p subs c = out_of_fuel
publish_list (suc k) alloc m p subs c = if p == 0 then ok (subs, c) else do
  n ← read subs p
  (s, c') ← deliver_on n.value.delivery_mode (alloc p) m p n.value c
  publish_list k alloc m n.next (set subs p (some (node n.next s))) c'

-- `raxTopicMatch` with `publishToPattern`
unfoldable pub publish_all :
    (ℕ → Answers)
    → Publication
    → Store PatternEntry
    → List (String × ℕ)
    → Store (Node Subscription)
    → Progress
    → Run (Store (Node Subscription) × Progress)
unfolding publish_list
publish_all alloc m patterns [] subs c = ok (subs, c)
publish_all alloc m patterns ((k, u) ∷ es) subs c = do
  e ← read patterns u
  (subs', c') ← publish_list (suc e.count) alloc m e.subscriptions subs c
  publish_all alloc m patterns es subs' c'

abbrev nothing_yet : Progress
nothing_yet = record { delivered = 0; dropped = 0; notices = [] }

-- `raxTopicMatch` with `countMatches`
unfoldable pub add_counts : Store PatternEntry → List (String × ℕ) → ℕ → Run ℕ
add_counts patterns [] total = ok total
add_counts patterns ((k, u) ∷ es) total = do
  e ← read patterns u
  add_counts patterns es (add_word total e.count)

module _ (r : RaxTopic) where
  open r use {Tree}

  -- the statistics, where they are enabled
  unfoldable pub count_publish : ℕ → Progress → Hub Tree → Hub Tree
  count_publish len c h =
      if h.config.enable_stats
      then record h {
        messages_published = add_word h.messages_published 1;
        messages_delivered = add_word h.messages_delivered c.delivered;
        messages_dropped = add_word h.messages_dropped c.dropped;
        bytes_published = add_word h.bytes_published len;
        bytes_delivered = add_word h.bytes_delivered (len * c.delivered % word);
      }
      else h

  -- `loopyPublishEx` at the time `now`, with the callbacks that it calls
  unfoldable pub publish :
      (ℕ → Answers)
      → ℕ
      → Hub Tree
      → (topic : String) (bytes : List ℕ) (len publisher_data : ℕ)
      → Run (ℕ × List Notice × Hub Tree)
  unfolding publish_all count_publish
  publish alloc now h topic bytes len publisher_data = do
    let sequence = add_word h.sequence 1
    let m : Publication = record {
      topic = topic;
      bytes = bytes;
      len = len;
      timestamp = now;
      sequence = sequence;
      publisher_data = publisher_data;
    }
    (subs, c) ← publish_all alloc m h.patterns (r.matches h.topics topic) h.subs nothing_yet
    ok (c.delivered, c.notices, count_publish len c (record h { sequence = sequence; subs = subs }))

  -- `loopyMatchCount`
  unfoldable pub match_count : Hub Tree → String → Run ℕ
  unfolding add_counts
  match_count h topic = add_counts h.patterns (r.matches h.topics topic) 0
