-- ===== src/PubSub.antt =====
-- src/loopyPubSub.c, src/loopyPubSub.h: messages that are published under a topic and reach the
-- subscriptions whose pattern matches it. This file has the data; a pointer is an address, NULL is 0.
pub mod Queue
pub mod Fifo
pub mod History
pub mod Acks
pub mod Sound
pub mod Receipt
pub mod RaxTopic
pub mod Hub
pub mod Publish
pub mod Counts
pub mod Subscribing
pub mod Removal
pub mod Unsubscribing
pub mod Delivery
pub mod Publishing
pub mod Validate
pub mod Limits
pub mod Rest
pub mod Walks
mod Tests
mod HashTopic
mod HubTests
use Prim.Native.String.{String}
use loopy.Prelude.{ℕ, ◌≡◌, ◌≢◌, Bool, true, false, Option, none, some, List, []}
use loopy.Prelude.Chain.{Node, Store}

-- `loopyDeliveryMode`
pub data DeliveryMode : Type 0 where
  deliver_sync deliver_async deliver_queue : DeliveryMode

-- `loopyAckMode`
pub data AckMode : Type 0 where
  ack_none ack_auto ack_manual : AckMode

-- `loopySubscriptionEvent`
pub data Event : Type 0 where
  subscribed unsubscribed queue_full queue_empty failed : Event

-- `loopyMessageEntry` but for its `next`; the topic and the data are addresses of blocks.
pub record Entry : Type 0 where
  pub topic : ℕ
  pub data_block : ℕ
  pub len : ℕ
  pub timestamp : ℕ
  pub sequence : ℕ
  pub publisher_data : ℕ
  pub acked : Bool

-- The blocks that belong to the queue of one subscription: the entries, and what their topics and
-- their data point to.
pub record Blocks : Type 0 where
  pub entries : Store (Node Entry)
  pub topics : Store String
  pub payloads : Store (List ℕ)

-- `loopySubscription`, without its mutex, the pointer to its hub, and the `nextSamePattern`. A
-- callback is the address of a function.
pub record Subscription : Type 0 where
  pub pattern : String
  pub callback : ℕ
  pub event_callback : ℕ
  pub user_data : ℕ
  pub event_user_data : ℕ
  pub delivery_mode : DeliveryMode
  pub ack_mode : AckMode
  pub queue_size : ℕ
  pub drop_on_full : Bool
  pub queue_head : ℕ
  pub queue_tail : ℕ
  pub queue_len : ℕ
  pub messages_received : ℕ
  pub messages_dropped : ℕ
  pub blocks : Blocks

-- `loopyMessage`
pub record Message : Type 0 where
  pub topic : ℕ
  pub data_block : ℕ
  pub len : ℕ
  pub timestamp : ℕ
  pub sequence : ℕ
  pub publisher_data : ℕ

-- `loopySubscriptionConfig`
pub record SubscriptionConfig : Type 0 where
  pub delivery_mode : DeliveryMode
  pub ack_mode : AckMode
  pub queue_size : ℕ
  pub drop_on_full : Bool
  pub user_data : ℕ

-- `loopySubscriptionConfigInit`
unfoldable pub subscription_config_init : SubscriptionConfig
subscription_config_init = record {
  delivery_mode = deliver_sync;
  ack_mode = ack_auto;
  queue_size = 1024;
  drop_on_full = true;
  user_data = 0;
}

-- `loopyPubSubConfig`; a character is its code.
pub record HubConfig : Type 0 where
  pub separator : ℕ
  pub star_wildcard : ℕ
  pub hash_wildcard : ℕ
  pub max_subscriptions : ℕ
  pub enable_stats : Bool

-- `loopyPubSubConfigInit`
unfoldable pub hub_config_init : HubConfig
hub_config_init = record {
  separator = 46;
  star_wildcard = 42;
  hash_wildcard = 35;
  max_subscriptions = 0;
  enable_stats = true;
}

-- What is published: the contents of the topic and of the `len` bytes, with the two stamps. This is
-- `publishContext` but for its two counters.
pub record Publication : Type 0 where
  pub topic : String
  pub bytes : List ℕ
  pub len : ℕ
  pub timestamp : ℕ
  pub sequence : ℕ
  pub publisher_data : ℕ

-- What the allocator answers for a queue entry, for the copy of its topic and for that of its data.
pub record Answers : Type 0 where
  pub entry : ℕ
  pub topic : ℕ
  pub data_block : ℕ

-- A block that the allocator gives is not in use.
pub record IsFresh (b : Blocks) (f : Answers) : Type 0 where
  pub entry_free : b.entries f.entry ≡ none
  pub topic_free : b.topics f.topic ≡ none
  pub payload_free : b.payloads f.data_block ≡ none
