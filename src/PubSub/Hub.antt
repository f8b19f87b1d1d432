-- ===== src/PubSub/Hub.antt =====
-- src/loopyPubSub.c: the hub, with the subscriptions of each pattern as a linked list. The functions
-- as one thread runs them undisturbed; a walk over the list of a pattern runs on fuel, and is given
-- one round more than the pattern's `count`.
use Prim.Native.String.{String}
use loopy.Prelude.{
  ℕ, zero, suc, Bool, true, false, not, ◌&&◌, ◌||◌, Option, none, some, List, [], ◌∷◌, ltb, leb,
  ◌==◌, if◌then◌else◌,
}
use loopy.Prelude.Run.{Run, ok, out_of_fuel, ◌>>=◌}
use loopy.Prelude.Words.{add_word, sub_word}
use loopy.Prelude.Chain.{Node, Store, node, set, read}
use loopy.PubSub.{
  Event, unsubscribed, Blocks, Subscription, Publication, SubscriptionConfig,
  subscription_config_init, HubConfig, hub_config_init,
}
use loopy.PubSub.Queue.{free_queue}
use loopy.PubSub.RaxTopic.{RaxTopic}

-- `loopyPatternEntry`
pub record PatternEntry : Type 0 where
  pub pattern : String
  pub subscriptions : ℕ
  pub count : ℕ

-- `loopyPubSub`, without its lock and its loop, and with the blocks of its subscriptions and patterns.
pub record Hub (Tree : Type 0) : Type 0 where
  pub topics : Tree
  pub config : HubConfig
  pub sequence : ℕ
  pub messages_published : ℕ
  pub messages_delivered : ℕ
  pub messages_dropped : ℕ
  pub bytes_published : ℕ
  pub bytes_delivered : ℕ
  pub subscription_count : ℕ
  pub pattern_count : ℕ
  pub subs : Store (Node Subscription)
  pub patterns : Store PatternEntry

-- What `zcalloc` answers for a subscription and for a pattern entry, 0 for NULL (an entry whose name
-- finds no room is given back and counts as none), and whether the subscription's name and mutex can
-- be made.
pub record Memory : Type 0 where
  pub subscription : ℕ
  pub name : Bool
  pub mutex : Bool
  pub pattern_entry : ℕ

-- What `loopySubscribe` answers: NULL, NULL with `EAGAIN`, or the subscription.
pub data Subscribing : Type 0 where
  null again : Subscribing
  made : ℕ → Subscribing

-- A call of a callback: the message to the callback of a subscription, or an event of it.
pub data Notice : Type 0 where
  message : ℕ → Publication → Notice
  event : ℕ → Event → Notice

-- `if (sub->eventCallback) sub->eventCallback(sub, e, ...)`
abbrev pub tell : ℕ → Event → Subscription → List Notice
tell a e s = if s.event_callback == 0 then [] else (event a e ∷ [])

abbrev no_blocks : Blocks
no_blocks = record { entries = λ a. none; topics = λ a. none; payloads = λ a. none }

abbrev config_or_default : Option SubscriptionConfig → SubscriptionConfig
unfolding subscription_config_init
config_or_default none = subscription_config_init
config_or_default (some c) = c

-- The subscription that `loopySubscribe` fills in.
unfoldable pub new_subscription : String → ℕ → Option SubscriptionConfig → Subscription
unfolding config_or_default
new_subscription pattern callback config =
    let c = config_or_default config in
    record {
      pattern = pattern;
      callback = callback;
      event_callback = 0;
      user_data = c.user_data;
      event_user_data = 0;
      delivery_mode = c.delivery_mode;
      ack_mode = c.ack_mode;
      queue_size = c.queue_size;
      drop_on_full = c.drop_on_full;
      queue_head = 0;
      queue_tail = 0;
      queue_len = 0;
      messages_received = 0;
      messages_dropped = 0;
      blocks = no_blocks;
    }

module _ (r : RaxTopic) where
  open r use {Tree}

  -- `loopyPubSubNew`, where the allocations and the lock succeed
  unfoldable pub hub_new : Option HubConfig → Hub Tree
  unfolding hub_config_init
  hub_new config = record {
    topics = r.new;
    config = elim config [ none ↦ hub_config_init | some c ↦ c ];
    sequence = 0;
    messages_published = 0;
    messages_delivered = 0;
    messages_dropped = 0;
    bytes_published = 0;
    bytes_delivered = 0;
    subscription_count = 0;
    pattern_count = 0;
    subs = λ a. none;
    patterns = λ a. none;
  }

  -- The entry of a pattern, new where there is none; NULL where it cannot be made or bound.
  unfoldable pub find_or_bind : Memory → Hub Tree → String → ℕ × Hub Tree
  find_or_bind m h pattern = elim (r.get h.topics pattern) [
    | some u ↦ (u, h)
    | none ↦
        if m.pattern_entry == 0 then (0, h) else elim (r.bind h.topics pattern m.pattern_entry) [
          | none ↦ (0, h)
          | some t ↦ (
            m.pattern_entry,
            record h {
              topics = t;
              patterns =
                  set h.patterns m.pattern_entry
                    (some (record { pattern = pattern; subscriptions = 0; count = 0 }));
              pattern_count = add_word h.pattern_count 1;
            },
          )
        ]
  ]

  -- the subscription becomes the first one of its pattern
  unfoldable pub prepend : ℕ → Subscription → ℕ → Hub Tree → Run (Hub Tree)
  prepend a s u h = do
    e ← read h.patterns u
    ok (record h {
      subs = set h.subs a (some (node e.subscriptions s));
      patterns =
          set h.patterns u (some (record e { subscriptions = a; count = add_word e.count 1 }));
      subscription_count = add_word h.subscription_count 1;
    })

  -- `loopySubscribe`; a new subscription has no event callback to be told.
  unfoldable pub subscribe :
      Memory → Hub Tree → String → ℕ → Option SubscriptionConfig → Run (Subscribing × Hub Tree)
  unfolding find_or_bind prepend new_subscription
  subscribe m h pattern callback config =
      if callback == 0
      then ok (null, h)
      else if ltb 0 h.config.max_subscriptions
          && leb h.config.max_subscriptions h.subscription_count
      then ok (again, h)
      else if (m.subscription == 0) || (not m.name) || (not m.mutex)
      then ok (null, h)
      else (do
        let (u, g) = find_or_bind m h pattern
        if u == 0 then ok (null, g) else (do
          q ← prepend m.subscription (new_subscription pattern callback config) u g
          ok (made m.subscription, q)))

-- Whether the walk of `loopyUnsubscribe` finds the subscription, and the head and the subscriptions
-- then; `*pp` is the `nextSamePattern` of `prev`, or the head where that is 0.
unfoldable pub remove_sub :
    ℕ
    → (a next head prev p : ℕ) → Store (Node Subscription)
    → Run (Bool × ℕ × Store (Node Subscription))
remove_sub zero a next head prev p subs = out_of_fuel
remove_sub (suc k) a next head prev p subs =
    if p == 0
    then ok (false, head, subs)
    else if p == a
    then (if prev == 0
        then ok (true, next, subs)
        else (do n ← read subs prev; ok (true, head, set subs prev (some (node next n.value)))))
    else (do n ← read subs p; remove_sub k a next head p n.next subs)

module _ (r : RaxTopic) where
  open r use {Tree}

  -- The pattern without its last subscription goes.
  unfoldable pub leave : String → ℕ → PatternEntry → Hub Tree → Hub Tree
  leave pattern u e h =
      if e.count == 0
      then record h {
        topics = r.unbind h.topics pattern;
        patterns = set h.patterns u none;
        pattern_count = sub_word h.pattern_count 1;
      }
      else record h { patterns = set h.patterns u (some e) }

  -- The part of `loopyUnsubscribe` under the lock, for the pattern at `u`.
  unfoldable pub take_out : ℕ → Node Subscription → ℕ → Hub Tree → Run (Hub Tree)
  unfolding remove_sub leave
  take_out a n u h = do
    e ← read h.patterns u
    (found, head, subs) ← remove_sub (suc e.count) a n.next e.subscriptions 0 e.subscriptions h.subs
    let left = record e {
      subscriptions = head;
      count = if found then sub_word e.count 1 else e.count;
    }
    let q = leave n.value.pattern u left (record h { subs = subs })
    ok (record q { subscription_count = sub_word q.subscription_count 1 })

  -- `loopyUnsubscribe`
  unfoldable pub unsubscribe : ℕ → Hub Tree → Run (Bool × List Notice × Hub Tree)
  unfolding take_out
  unsubscribe a h = if a == 0 then ok (false, [], h) else (do
    n ← read h.subs a
    elim (r.get h.topics n.value.pattern) [
      | none ↦ ok (false, [], h)
      | some u ↦ (do
        q ← take_out a n u h
        b ← free_queue (suc n.value.queue_len) n.value.queue_head n.value.blocks
        ok (true, tell a unsubscribed n.value, record q { subs = set q.subs a none }))
    ])

  -- `loopySubscriptionOnEvent`
  unfoldable pub on_event : ℕ → ℕ → ℕ → Hub Tree → Run (Hub Tree)
  on_event a callback user_data h = if a == 0 then ok h else (do
    n ← read h.subs a
    let s = record n.value { event_callback = callback; event_user_data = user_data }
    ok (record h { subs = set h.subs a (some (node n.next s)) }))

  -- `loopyHasSubscribers`
  unfoldable pub has_subscribers : Hub Tree → String → Bool
  has_subscribers h pattern = r.exists h.topics pattern

  -- `loopyCountSubscribers`
  unfoldable pub count_subscribers : Hub Tree → String → Run ℕ
  count_subscribers h pattern = elim (r.get h.topics pattern) [
    | none ↦ ok 0
    | some u ↦ (do e ← read h.patterns u; ok e.count)
  ]
