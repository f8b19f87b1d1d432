-- ===== src/PubSub/Delivery.antt =====
-- src/loopyPubSub.c: what `publishToPattern` does to the subscriptions of one pattern.
use Prim.Native.String.{String}
use loopy.Prelude.{
  ℕ, zero, suc, ◌+◌, ◌≤◌, ◌<◌, ◌≡◌, ◌≢◌, refl, ap, ◌∙◌, false, ◌&&◌, ◌||◌, some, [], ◌∷◌, arith,
  ◌==◌,
}
use loopy.Prelude.Run.{
  Run, ok, ◌>>=◌, Returns, returns, Returns-map, Returns-bind, Returns-if, Returns-of,
  Returns-unbind,
}
use loopy.Prelude.Words.{word}
use loopy.Prelude.Chain.{
  Node, Store, Cells, node, set, set-same, set-other, read-ok, size, holds, Chain, end, link,
  Chain-set,
}
use loopy.PubSub.{
  DeliveryMode, deliver_sync, deliver_async, deliver_queue, Subscription, Answers, IsFresh,
  Publication,
}
use loopy.PubSub.Publish.{Progress, is_full, deliver_on, publish_list}
use loopy.PubSub.Sound.{IsSound, enqueue-IsSound}
use loopy.PubSub.Counts.{Belong}

-- The same, over the list itself: each subscription once, in order.
unfoldable pub deliver_each :
    (ℕ → Answers)
    → Publication
    → Cells Subscription
    → Progress
    → Run (Cells Subscription × Progress)
unfolding deliver_on
deliver_each alloc m [] c = ok ([], c)
deliver_each alloc m ((a, s) ∷ xs) c = do
  (s', c') ← deliver_on s.delivery_mode (alloc a) m a s c
  (ys, d) ← deliver_each alloc m xs c'
  ok ((a, s') ∷ ys, d)

-- The nodes of two lists have the same addresses.
abbrev pub SamePlaces : Cells Subscription → Cells Subscription → Type 0
SamePlaces xs ys = (c : ℕ) → holds c ys ≡ holds c xs

-- The list from `p` is `ys` then, and no other block has changed.
pub record Walked (subs : Store (Node Subscription)) (p : ℕ) (xs ys : Cells Subscription)
    (subs' : Store (Node Subscription)) : Type 0 where
  pub chain : Chain subs' p ys
  pub places : SamePlaces xs ys
  pub same : (c : ℕ) → holds c xs ≡ false → subs' c ≡ subs c

-- The walk over the blocks does what `deliver_each` does over the list.
pub publish_list-Walked :
    (alloc : ℕ → Answers) (m : Publication) (xs : Cells Subscription) (k p : ℕ)
    (subs : Store (Node Subscription)) (c : Progress)
    (Post : Cells Subscription × Progress → Type 0)
    → Chain subs p xs
    → size xs < k
    → Returns Post (deliver_each alloc m xs c)
    → Returns
        (λ (subs', d). (ys : Cells Subscription) × Walked subs p xs ys subs' × Post (ys, d))
        (publish_list k alloc m p subs c)
unfolding publish_list deliver_each
publish_list-Walked alloc m xs zero p subs c Post chain fuel r = absurd (omega arith)
publish_list-Walked alloc m [] (suc k) p subs c Post end fuel r =
    returns ([], record { chain = end; places = λ d. refl; same = λ d o. refl }, Returns-of r refl)
publish_list-Walked alloc m ((a, s) ∷ xs) (suc k) p subs c Post (link {next} ne here out chain) fuel
      r =
    let some_sub : (a == 0) ≡ false = ground arith in
    let ((s', c'), e, rest) = Returns-unbind (deliver_on s.delivery_mode (alloc a) m a s c) r in
    let ((zs, d'), e', last) = Returns-unbind (deliver_each alloc m xs c') rest in
    let subs1 : Store (Node Subscription) = set subs a (some (node next s')) in
    let tail : Returns (λ (ys, d). Post ((a, s') ∷ ys, d)) (deliver_each alloc m xs c') =
      rw e' (returns (Returns-of last refl)) in
    rw (some_sub, read-ok subs ne here, e)
      (Returns-map
        (publish_list-Walked alloc m xs k next subs1 c' (λ (ys, d). Post ((a, s') ∷ ys, d))
          (Chain-set a (some (node next s')) chain out) (omega arith) tail)
        λ (subs', d) (ys, w, post). (
          (a, s') ∷ ys,
          record {
            chain =
                link ne (w.same a out ∙ set-same subs a (some (node next s'))) (w.places a ∙ out)
                  w.chain;
            places = λ b. ap (λ x. (b == a) || x) (w.places b);
            same = λ b o.
                w.same b (ground arith) ∙ set-other subs (some (node next s')) (ground arith);
          },
          post,
        ))

-- The queue of a subscription is sound, and what the allocator answers for it is not in use.
pub record IsReady (f : Answers) (s : Subscription) : Type 0 where
  pub sound : IsSound s
  pub fresh : f.entry ≢ 0 → IsFresh s.blocks f
  pub room : suc s.queue_len < word

-- What a delivery leaves: the queue is sound, and at most one of the counters has gone up, by one.
record Delivered (s : Subscription) (c : Progress) (s' : Subscription) (c' : Progress)
    : Type 0 where
  sound : IsSound s'
  named : s'.pattern ≡ s.pattern
  counted : c'.delivered + c'.dropped ≤ suc (c.delivered + c.dropped)

-- The statistics are no part of that.
still :
    {s : Subscription} {received dropped : ℕ}
    → IsSound s
    → IsSound (record s { messages_received = received; messages_dropped = dropped })
still q = record { xs = q.xs; chain = q.chain; tail = q.tail; len = q.len; small = q.small }

deliver-Delivered :
    (mode : DeliveryMode) (f : Answers) (m : Publication) (a : ℕ) (s : Subscription) (c : Progress)
    → IsReady f s
    → Returns (λ (s', c'). Delivered s c s' c') (deliver_on mode f m a s c)
unfolding deliver_on
deliver-Delivered deliver_sync f m a s c q =
    let w = q.sound in returns (record { sound = still w; named = refl; counted = omega arith })
deliver-Delivered deliver_async f m a s c q =
    returns (record { sound = q.sound; named = refl; counted = omega arith })
deliver-Delivered deliver_queue f m a s c q =
    Returns-if (is_full s && s.drop_on_full)
      (λ full.
        returns
          (record { sound = let w = q.sound in still w; named = refl; counted = omega arith }))
      λ room.
        Returns-if (f.entry == 0)
          (λ no_entry. returns (record { sound = q.sound; named = refl; counted = omega arith }))
          λ some_entry.
            let given : f.entry ≢ 0 = ground arith in
            Returns-bind (enqueue-IsSound f m s q.sound given (q.fresh given) q.room)
              λ t (sound, modes).
                returns (record { sound = sound; named = modes.named; counted = omega arith })

-- Each subscription of a list is ready for a publication.
abbrev pub AllReady : (ℕ → Answers) → Cells Subscription → Type 0
AllReady alloc [] = Unit
AllReady alloc ((a, s) ∷ xs) = IsReady (alloc a) s × AllReady alloc xs

abbrev pub AllSound : Cells Subscription → Type 0
AllSound [] = Unit
AllSound ((a, s) ∷ xs) = IsSound s × AllSound xs

-- What `deliver_each` leaves of a list.
pub record Served (pattern : String) (xs : Cells Subscription) (c : Progress)
    (ys : Cells Subscription) (d : Progress) : Type 0 where
  pub sound : AllSound ys
  pub belong : Belong pattern ys
  pub length : size ys ≡ size xs
  pub counted : d.delivered + d.dropped ≤ size xs + (c.delivered + c.dropped)

deliver_each-Served :
    (alloc : ℕ → Answers) (m : Publication) (pattern : String) (xs : Cells Subscription)
    (c : Progress)
    → AllReady alloc xs
    → Belong pattern xs
    → Returns (λ (ys, d). Served pattern xs c ys d) (deliver_each alloc m xs c)
unfolding deliver_each
deliver_each-Served alloc m pattern [] c ready belong =
    returns (record { sound = tt; belong = tt; length = refl; counted = omega arith })
deliver_each-Served alloc m pattern ((a, s) ∷ xs) c (own, ready) (named, belong) =
    Returns-bind (deliver-Delivered s.delivery_mode (alloc a) m a s c own) λ (s', c') one.
      Returns-bind (deliver_each-Served alloc m pattern xs c' ready belong) λ (ys, d) rest.
        returns (record {
          sound = (one.sound, rest.sound);
          belong = (one.named ∙ named, rest.belong);
          length = ap suc rest.length;
          counted = omega (arith, one.counted, rest.counted);
        })

-- `publishToPattern` on the list of a pattern whose subscriptions are ready returns; the list has the
-- same subscriptions, with sound queues; no other block has changed; and at most as many deliveries
-- and drops are counted as there are subscriptions.
pub publish_list-Served :
    (alloc : ℕ → Answers) (m : Publication) (pattern : String) (xs : Cells Subscription) (k p : ℕ)
    (subs : Store (Node Subscription)) (c : Progress)
    → Chain subs p xs
    → size xs < k
    → AllReady alloc xs
    → Belong pattern xs
    → Returns
        (λ (subs', d).
          (ys : Cells Subscription) × Walked subs p xs ys subs' × Served pattern xs c ys d)
        (publish_list k alloc m p subs c)
publish_list-Served alloc m pattern xs k p subs c chain fuel ready belong =
    publish_list-Walked alloc m xs k p subs c (λ (ys, d). Served pattern xs c ys d) chain fuel
      (deliver_each-Served alloc m pattern xs c ready belong)
