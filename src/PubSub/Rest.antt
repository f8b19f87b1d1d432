-- ===== src/PubSub/Rest.antt =====
-- src/loopyPubSub.c: the statistics, the walk over all subscriptions, and the end of a hub.
use Prim.Native.String.{String}
use loopy.Prelude.{ℕ, zero, suc, Bool, true, false, List, [], ◌∷◌, none, ◌==◌, if◌then◌else◌}
use loopy.Prelude.Run.{Run, ok, out_of_fuel, ◌>>=◌}
use loopy.Prelude.Chain.{Node, Store, set, read}
use loopy.PubSub.{Subscription, Answers}
use loopy.PubSub.Queue.{free_queue}
use loopy.PubSub.RaxTopic.{RaxTopic}
use loopy.PubSub.Hub.{PatternEntry, Hub, Notice}
use loopy.PubSub.Publish.{publish}

-- `loopyPubSubStats`
pub record HubStats : Type 0 where
  pub messages_published : ℕ
  pub messages_delivered : ℕ
  pub messages_dropped : ℕ
  pub bytes_published : ℕ
  pub bytes_delivered : ℕ
  pub subscription_count : ℕ
  pub pattern_count : ℕ

-- The walk of `iterateEntry`: how many subscriptions the callback has been called on, and whether it
-- has asked to stop, which it does by an answer other than 0.
unfoldable pub iterate_list : ℕ → (ℕ → ℕ) → ℕ → Store (Node Subscription) → ℕ → Run (ℕ × Bool)
iterate_list zero f p subs count = out_of_fuel
iterate_list (suc k) f p subs count = if p == 0 then ok (count, false) else do
  n ← read subs p
  let rest = iterate_list k f n.next subs (suc count)
  if f p == 0 then rest else ok (suc count, true)

unfoldable pub iterate_patterns :
    (ℕ → ℕ) → Store PatternEntry → List (String × ℕ) → Store (Node Subscription) → ℕ → Run ℕ
unfolding iterate_list
iterate_patterns f patterns [] subs count = ok count
iterate_patterns f patterns ((k, u) ∷ es) subs count = do
  e ← read patterns u
  (count', stop) ← iterate_list (suc e.count) f e.subscriptions subs count
  let rest = iterate_patterns f patterns es subs count'
  if stop then ok count' else rest

-- The loop of `freePatternEntry`.
unfoldable pub free_list : ℕ → ℕ → Store (Node Subscription) → Run (Store (Node Subscription))
free_list zero p subs = out_of_fuel
free_list (suc k) p subs = if p == 0 then ok subs else do
  n ← read subs p
  b ← free_queue (suc n.value.queue_len) n.value.queue_head n.value.blocks
  free_list k n.next (set subs p none)

-- `raxTopicFreeWithCallback` with `freePatternEntry`
unfoldable pub free_patterns :
    Store PatternEntry
    → List (String × ℕ)
    → Store (Node Subscription)
    → Run (Store PatternEntry × Store (Node Subscription))
unfolding free_list
free_patterns patterns [] subs = ok (patterns, subs)
free_patterns patterns ((k, u) ∷ es) subs = do
  e ← read patterns u
  subs' ← free_list (suc e.count) e.subscriptions subs
  free_patterns (set patterns u none) es subs'

module _ (r : RaxTopic) where
  open r use {Tree}

  -- `loopyPubSubGetStats`
  unfoldable pub hub_get_stats : Hub Tree → HubStats
  hub_get_stats h = record {
    messages_published = h.messages_published;
    messages_delivered = h.messages_delivered;
    messages_dropped = h.messages_dropped;
    bytes_published = h.bytes_published;
    bytes_delivered = h.bytes_delivered;
    subscription_count = h.subscription_count;
    pattern_count = h.pattern_count;
  }

  -- `loopyPubSubResetStats`
  unfoldable pub reset_stats : Hub Tree → Hub Tree
  reset_stats h = record h {
    messages_published = 0;
    messages_delivered = 0;
    messages_dropped = 0;
    bytes_published = 0;
    bytes_delivered = 0;
  }

  -- `loopyPublishAsync`: what its callback is told, where it has one, and the callbacks before it
  unfoldable pub publish_async :
      (ℕ → Answers)
      → ℕ
      → Hub Tree
      → (topic : String) (bytes : List ℕ) (len : ℕ) → (callback : ℕ)
      → Run (Bool × List ℕ × List Notice × Hub Tree)
  publish_async alloc now h topic bytes len callback = do
    (delivered, notices, q) ← publish r alloc now h topic bytes len 0
    ok (true, (if callback == 0 then [] else (delivered ∷ [])), notices, q)

  -- `loopyIterateSubscriptions`
  unfoldable pub iterate_subscriptions : (ℕ → ℕ) → Hub Tree → Run ℕ
  unfolding iterate_patterns
  iterate_subscriptions f h = iterate_patterns f h.patterns (r.entries h.topics) h.subs 0

  -- `loopyPubSubFree`: the blocks of patterns and subscriptions that are left
  unfoldable pub hub_free : Hub Tree → Run (Store PatternEntry × Store (Node Subscription))
  unfolding free_patterns
  hub_free h = free_patterns h.patterns (r.entries h.topics) h.subs
