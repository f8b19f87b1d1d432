-- ===== src/PubSub/HubTests.antt =====
-- src/loopyPubSub.c: a small hub, and the theorems about hubs at concrete inputs.
use Prim.Native.String.{String}
use loopy.Prelude.{ℕ, ◌+◌, ◌≤◌, ◌≡◌, refl, sym, ap, ◌∙◌, true, Option, none, some, [], ◌∷◌, arith}
use loopy.Prelude.Run.{ok, Returns}
use loopy.Prelude.Tally.{tally}
use loopy.Prelude.Chain.{node, set, read, holds, Chain, Chain-unique, end, link}
use mathlib.Core.Path.{subst}
use loopy.PubSub.{ack_manual, deliver_queue, unsubscribed}
use loopy.PubSub.Tests.{two, two-IsSound, blocks_at, published}
use loopy.PubSub.Hub.{PatternEntry, Hub, Memory, tell, subscribe, unsubscribe}
use loopy.PubSub.Counts.{IsPattern, IsHub}
use loopy.PubSub.Subscribing.{IsFreshFor, Joined, subscribe-IsHub}
use loopy.PubSub.Unsubscribing.{unsubscribe-IsHub}
use loopy.PubSub.Publish.{publish, match_count, deliver_on}
use loopy.PubSub.Delivery.{IsReady, AllReady}
use loopy.PubSub.Publishing.{ReadyAt, publish-IsHub}
use loopy.PubSub.Limits.{Within, deliver_on-Within}
use loopy.PubSub.HashTopic.{get_hash, hash_entries, found_hash, hash_topic}

-- A hub with one subscription, at 5, of the pattern "#", whose entry is at 100.
abbrev one_entry : PatternEntry
one_entry = record { pattern = "#"; subscriptions = 5; count = 1 }

abbrev small_hub : Hub (Option ℕ)
small_hub = record {
  topics = some 100;
  config = record {
    separator = 46;
    star_wildcard = 42;
    hash_wildcard = 35;
    max_subscriptions = 2;
    enable_stats = true;
  };
  sequence = 8;
  messages_published = 2;
  messages_delivered = 2;
  messages_dropped = 0;
  bytes_published = 2;
  bytes_delivered = 2;
  subscription_count = 1;
  pattern_count = 1;
  subs = set (λ a. none) 5 (some (node 0 (two ack_manual)));
  patterns = set (λ a. none) 100 (some one_entry);
}

hash-IsPattern : IsPattern small_hub.subs small_hub.patterns "#" 100
unfolding set
hash-IsPattern = record {
  ne = omega arith;
  e = one_entry;
  here = refl;
  named = refl;
  xs = (5, two ack_manual) ∷ [];
  chain = link (omega arith) refl refl end;
  counted = refl;
  belong = (refl, tt);
}

small_hub-each :
    (k : String) (u : ℕ)
    → get_hash small_hub.topics k ≡ some u
    → IsPattern small_hub.subs small_hub.patterns k u
small_hub-each k u e =
    let (same, made) = found_hash (some 100) k u e in
    let at_u : u ≡ 100 = cc in rw (same, at_u) hash-IsPattern

small_hub-IsHub : IsHub hash_topic small_hub
unfolding tally set
small_hub-IsHub = record {
  each = small_hub-each;
  once = λ u. ground arith;
  subscriptions = refl;
  patterns = refl;
  small = omega arith;
  few = omega arith;
}

abbrev room_at_6 : Memory
room_at_6 = record { subscription = 6; name = true; mutex = true; pattern_entry = 101 }

room_at_6-IsFreshFor : IsFreshFor hash_topic small_hub room_at_6
unfolding set
room_at_6-IsFreshFor = record { sub_free = refl; entry_free = refl }

subscribe-IsHub_example :
    Returns
      (λ (got, q). IsHub hash_topic q × Joined hash_topic small_hub (got, q))
      (subscribe hash_topic room_at_6 small_hub "#" 1 none)
subscribe-IsHub_example =
    subscribe-IsHub hash_topic room_at_6 small_hub "#" 1 none small_hub-IsHub room_at_6-IsFreshFor
      (omega arith) (omega arith)

-- The one list of subscriptions.
only-five :
    (k : String) (u : ℕ) (p : IsPattern small_hub.subs small_hub.patterns k u)
    → u ≡ 100
    → p.xs ≡ (5, two ack_manual) ∷ []
unfolding set
only-five k u p at_u =
    let here : some one_entry ≡ some p.e = ap small_hub.patterns (sym at_u) ∙ p.here in
    let same : p.e ≡ one_entry = cc in
    Chain-unique p.xs ((5, two ack_manual) ∷ []) 5
      (subst (λ (e : PatternEntry). Chain small_hub.subs e.subscriptions p.xs) same p.chain)
      (link (omega arith) refl refl end)

found_small : get_hash small_hub.topics (two ack_manual).pattern ≡ some 100
unfolding get_hash
found_small = refl

standing_at_5 : small_hub.subs 5 ≡ some (node 0 (two ack_manual))
unfolding set
standing_at_5 = refl

unsubscribe-IsHub_example :
    Returns
      (λ (done, notices, h').
        (done ≡ true)
        × (notices ≡ tell 5 unsubscribed (two ack_manual))
        × IsHub hash_topic h'
        × (h'.subscription_count + 1 ≡ 1)
        × (h'.subs 5 ≡ none))
      (unsubscribe hash_topic 5 small_hub)
unsubscribe-IsHub_example =
    unsubscribe-IsHub hash_topic small_hub 5 0 100 (two ack_manual) small_hub-IsHub found_small
      standing_at_5
      (ap (holds 5) (only-five "#" 100 (small_hub-IsHub.each "#" 100 found_small) refl))
      (two-IsSound ack_manual)

two-IsReady : IsReady (blocks_at 9) (two ack_manual)
unfolding set
two-IsReady = record {
  sound = two-IsSound ack_manual;
  fresh = λ given. record { entry_free = refl; topic_free = refl; payload_free = refl };
  room = omega arith;
}

small_hub-ReadyAt :
    ReadyAt hash_topic small_hub.topics small_hub.patterns
      (λ a. blocks_at 9)
      (hash_entries small_hub.topics)
      small_hub.subs
small_hub-ReadyAt k u some_left e p =
    let (same, made) = found_hash (some 100) k u e in
    subst (AllReady (λ a. blocks_at 9)) (sym (only-five k u p (let at_u = made in cc)))
      (two-IsReady, tt)

one_match : match_count hash_topic small_hub "t" ≡ ok 1
unfolding match_count set read
one_match = refl

publish-IsHub_example :
    Returns
      (λ (delivered, notices, h').
        IsHub hash_topic h' × (h'.subscription_count ≡ 1) × (delivered ≤ 1))
      (publish hash_topic (λ a. blocks_at 9) 100 small_hub "t" (1 ∷ []) 1 0)
publish-IsHub_example =
    publish-IsHub hash_topic (λ a. blocks_at 9) 100 small_hub "t" (1 ∷ []) 1 0 1 small_hub-IsHub
      small_hub-ReadyAt one_match

two-Within : Within (two ack_manual)
two-Within = record { limited = omega arith; drops = refl; within = omega arith }

deliver_on-Within_example :
    Returns
      (λ (t, d). Within t)
      (deliver_on deliver_queue
        (blocks_at 9)
        (published 9)
        5
        (two ack_manual)
        (record { delivered = 0; dropped = 0; notices = [] }))
deliver_on-Within_example =
    deliver_on-Within deliver_queue (blocks_at 9) (published 9) 5 (two ack_manual)
      (record { delivered = 0; dropped = 0; notices = [] }) two-IsReady two-Within
