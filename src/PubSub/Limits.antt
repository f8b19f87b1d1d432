-- ===== src/PubSub/Limits.antt =====
-- src/loopyPubSub.c: the limit on the length of a queue.
use loopy.Prelude.{ℕ, ◌≤◌, ◌<◌, ◌≡◌, ◌≢◌, refl, ◌∙◌, if_cases, true, ◌&&◌, arith, ◌==◌}
use loopy.Prelude.Run.{
  Run, ok, ◌>>=◌, Returns, returns, Returns-if, Returns-value, fault, out_of_fuel, ok-injective,
}
use loopy.Prelude.Words.{add_word}
use mathlib.Core.Path.{subst}
use loopy.PubSub.Sound.{enqueue-IsSound}
use loopy.PubSub.Delivery.{IsReady}
use loopy.PubSub.{
  Blocks, DeliveryMode, deliver_sync, deliver_async, deliver_queue, Subscription, Answers,
  Publication,
}
use loopy.PubSub.Queue.{enqueue}
use loopy.PubSub.Publish.{Progress, is_full, deliver_on}

-- What an added entry does to the fields that the limit is about.
record Longer (s t : Subscription) : Type 0 where
  len : t.queue_len ≡ add_word s.queue_len 1
  size : t.queue_size ≡ s.queue_size
  drop : t.drop_on_full ≡ s.drop_on_full

with_blocks-Longer :
    (call : Run Blocks) (s base t : Subscription)
    → Longer s base
    → (call >>= λ b. ok (record base { blocks = b })) ≡ ok t
    → Longer s t
with_blocks-Longer (ok b) s base t l e =
    subst (Longer s) (ok-injective e) (record { len = l.len; size = l.size; drop = l.drop })
with_blocks-Longer fault s base t l e = cc
with_blocks-Longer out_of_fuel s base t l e = cc

enqueue-Longer :
    (f : Answers) (m : Publication) (s t : Subscription) → enqueue f m s ≡ ok t → Longer s t
unfolding enqueue
enqueue-Longer f m s t =
    if_cases (λ r. r ≡ ok t → Longer s t) (s.queue_tail == 0)
      (λ first e.
        subst (Longer s) (ok-injective e) (record { len = refl; size = refl; drop = refl }))
      (λ behind.
        with_blocks-Longer _ s
          (record s {
            queue_tail = f.entry;
            queue_len = add_word s.queue_len 1;
            messages_received = add_word s.messages_received 1;
          })
          t (record { len = refl; size = refl; drop = refl }))

-- A limit is set, full queues drop, and the queue is within its limit.
pub record Within (s : Subscription) : Type 0 where
  pub limited : 0 < s.queue_size
  pub drops : s.drop_on_full ≡ true
  pub within : s.queue_len ≤ s.queue_size

-- A delivery, in whichever mode, to a subscription that is ready for it leaves a queue within its
-- limit where full queues drop.
pub deliver_on-Within :
    (mode : DeliveryMode) (f : Answers) (m : Publication) (a : ℕ) (s : Subscription) (c : Progress)
    → IsReady f s
    → Within s
    → Returns (λ (t, d). Within t) (deliver_on mode f m a s c)
unfolding deliver_on
deliver_on-Within deliver_sync f m a s c ready q =
    returns (record { limited = q.limited; drops = q.drops; within = q.within })
deliver_on-Within deliver_async f m a s c ready q = returns q
deliver_on-Within deliver_queue f m a s c ready q =
    Returns-if (is_full s && s.drop_on_full)
      (λ full. returns (record { limited = q.limited; drops = q.drops; within = q.within }))
      λ room.
        Returns-if (f.entry == 0) (λ no_entry. returns q)
          λ some_entry.
            let given : f.entry ≢ 0 = ground arith in
            let (t, e, _) =
              Returns-value
                (enqueue-IsSound f m s ready.sound given (ready.fresh given) ready.room) in
            let l = enqueue-Longer f m s t e in
            let not_full : s.queue_len < s.queue_size =
              let drops = q.drops in let limited = q.limited in ground arith in
            rw e (
              returns (record {
                limited = omega (arith, l.size, q.limited);
                drops = l.drop ∙ q.drops;
                within = omega (arith, l.len, l.size);
              }))
