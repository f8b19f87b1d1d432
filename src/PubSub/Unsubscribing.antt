-- ===== src/PubSub/Unsubscribing.antt =====
-- src/loopyPubSub.c: `loopyUnsubscribe` takes the subscription out of its list, keeps the lists and
-- the counters of the hub in agreement, and frees the queue.
use Prim.Native.String.{String}
use loopy.Prelude.{
  some-injective, ℕ, suc, ◌+◌, ◌≤◌, ◌<◌, ◌≡◌, ◌≢◌, refl, sym, ap, ◌∙◌, inl, inr, true, false, none,
  some, [], ◌∷◌, ◌++◌, arith, ◌==◌, if◌then◌else◌, if_cases,
}
use loopy.Prelude.Run.{Returns, returns, Returns-bind}
use loopy.Prelude.Words.{sub_word}
use loopy.Prelude.Tally.{tally, occurs, tally-insert, tally-change, tally-le}
use loopy.Prelude.Chain.{
  Node, Store, Cells, node, set, set-same, set-other, read-ok, size, size-append, holds,
  holds-middle, held_at, not_twice, Chain-at, Chain-set,
}
use loopy.PubSub.{unsubscribed, Subscription}
use loopy.PubSub.RaxTopic.{RaxTopic}
use loopy.PubSub.Hub.{PatternEntry, Hub, leave, tell, take_out, unsubscribe}
use loopy.PubSub.Sound.{IsSound}
use loopy.PubSub.Counts.{
  String-cases, elsewhere, Belong, IsPattern, IsPattern-frame, count_in, counts, IsHub, apart,
  bound-occurs, tally_at,
}
use loopy.PubSub.Removal.{TakenOut, free_queue-Freed, remove_sub_lem, value_of}

Belong-without :
    (k : String) (ys : Cells Subscription) (a : ℕ) (s : Subscription) (zs : Cells Subscription)
    → Belong k (ys ++ ((a, s) ∷ zs))
    → Belong k (ys ++ zs)
Belong-without k [] a s zs (own, all) = all
Belong-without k ((b, w) ∷ ys) a s zs (own, all) = (own, Belong-without k ys a s zs all)

module _ (r : RaxTopic) where
  open r use {Tree, get, entries}

  module _ (h : Hub Tree) (k : String) (u a start : ℕ) (subs' : Store (Node Subscription))
      (ys : Cells Subscription) (s : Subscription) (zs : Cells Subscription) (q : IsHub r h)
      (bound : get h.topics k ≡ some u) (split : (q.each k u bound).xs ≡ ys ++ ((a, s) ∷ zs))
      (o : TakenOut h.subs start (ys ++ ((a, s) ∷ zs)) (ys ++ zs) subs') where
    -- What another pattern's list needs.
    spared :
        (j : String) (v c : ℕ) (ej : get h.topics j ≡ some v)
        → j ≢ k
        → holds c (q.each j v ej).xs ≡ true
        → set subs' a none c ≡ h.subs c
    spared j v c ej other inside =
        let out =
          rw split at (elsewhere j k v u c (q.each j v ej) (q.each k u bound) other inside) in
        let (rest, apart_a) = holds-middle c ys a s zs out in
        set-other subs' none apart_a ∙ o.same c out

    own_size : (q.each k u bound).e.count ≡ size (ys ++ zs) + 1
    own_size =
        let p = q.each k u bound in
        omega (arith, p.counted, ap size split, size-append ys ((a, s) ∷ zs), size-append ys zs)

    counted_in : (q.each k u bound).e.count ≤ h.subscription_count
    counted_in =
        let p = q.each k u bound in
        omega (
          arith,
          q.subscriptions,
          ap count_in p.here,
          tally-le (counts r h) u (entries h.topics) (bound-occurs r h k u q bound),
        )

    abbrev left : PatternEntry
    left = record (q.each k u bound).e {
      subscriptions = start;
      count = sub_word (q.each k u bound).e.count 1;
    }

    left_IsPattern : IsPattern (set subs' a none) (set h.patterns u (some left)) k u
    left_IsPattern =
        let p = q.each k u bound in
        let small = q.small in
        record {
          ne = p.ne;
          e = left;
          here = set-same h.patterns u (some left);
          named = p.named;
          xs = ys ++ zs;
          chain = Chain-set a none o.chain (not_twice ys a s zs (rw split at p.chain));
          counted = omega (arith, own_size, counted_in);
          belong = Belong-without k ys a s zs (rw split at p.belong);
        }

    -- The pattern keeps the others of its subscriptions.
    kept-IsHub : IsHub r (record h {
      patterns = set h.patterns u (some left);
      subscription_count = sub_word h.subscription_count 1;
      subs = set subs' a none;
    })
    kept-IsHub =
        let p = q.each k u bound in
        record {
          each = λ j v ej. elim (String-cases j k) [
            | inl same ↦
                let at_u : v ≡ u = some-injective (sym ej ∙ ap (get h.topics) same ∙ bound) in
                rw (same, at_u) left_IsPattern
            | inr other ↦
                IsPattern-frame j v (q.each j v ej) (λ c inside. spared j v c ej other inside)
                  (set-other h.patterns (some left) (apart r h j k v u q ej bound other))
          ];
          once = q.once;
          subscriptions = omega (
            arith,
            q.subscriptions,
            tally_at r h k u p.e left q bound p.here,
            own_size,
            counted_in,
            q.small,
          );
          patterns = q.patterns;
          small = omega arith;
          few = q.few;
        }

    -- The pattern goes with its last subscription.
    gone-IsHub :
        (q.each k u bound).e.count ≡ 1
        → IsHub r (record h {
          topics = r.unbind h.topics k;
          patterns = set h.patterns u none;
          pattern_count = sub_word h.pattern_count 1;
          subscription_count = sub_word h.subscription_count 1;
          subs = set subs' a none;
        })
    gone-IsHub one =
        let p = q.each k u bound in
        let (xs, rest, before, after) = r.unbind_entry h.topics k u bound in
        let drop = λ (f : ℕ → ℕ).
          ap (tally f) before
          ∙ (tally-insert f xs rest k u ∙ ap (λ n. n + f u) (sym (ap (tally f) after))) in
        let f' = λ (v : ℕ). count_in (set h.patterns u none v) in
        let change =
          tally-change (counts r h) f' u (xs ++ rest)
            (λ v ne. ap count_in (set-other h.patterns none ne)) in
        let self : ◌≡◌ {A = ℕ} (if u == u then 1 else 0) 1 = ground arith in
        let alone : occurs u (xs ++ rest) ≡ 0 = omega (
          arith,
          bound-occurs r h k u q bound,
          drop (λ w. if w == u then 1 else 0),
          ap (occurs u) after,
          self,
        ) in
        record {
          each = λ j v ej. elim (String-cases j k) [
            | inl same ↦
                let gone : none ≡ some v =
                  sym (r.get-unbind h.topics k) ∙ ap (get (r.unbind h.topics k)) (sym same) ∙ ej in
                absurd (cc)
            | inr other ↦
                let ej' = sym (r.get_other-unbind h.topics k j other) ∙ ej in
                IsPattern-frame j v (q.each j v ej') (λ c inside. spared j v c ej' other inside)
                  (set-other h.patterns none (apart r h j k v u q ej' bound other))
          ];
          once = λ v. omega (arith, drop (λ w. if w == v then 1 else 0), q.once v);
          subscriptions = omega (
            arith,
            q.subscriptions,
            q.small,
            drop (counts r h),
            ap (tally (counts r h)) after,
            ap (tally f') after,
            rw alone at change,
            ap count_in p.here,
            one,
          );
          patterns = omega (arith, drop (λ v. 1), q.patterns, q.few);
          small = omega (arith, q.small);
          few = omega arith;
        }

  -- What `loopyUnsubscribe` does under the lock, and the block given back after it.
  abbrev Left : Hub Tree → ℕ → Hub Tree → Type 0
  Left h a h' =
      IsHub r (record h' { subs = set h'.subs a none })
      × (h'.subscription_count + 1 ≡ h.subscription_count)

  take_out-Left :
      (h : Hub Tree) (u a next : ℕ) (ys : Cells Subscription) (s : Subscription)
      (zs : Cells Subscription) (q : IsHub r h) (bound : get h.topics s.pattern ≡ some u)
      → (q.each s.pattern u bound).xs ≡ ys ++ ((a, s) ∷ zs)
      → h.subs a ≡ some (node next s)
      → Returns (Left h a) (take_out r a (node next s) u h)
  unfolding take_out leave
  take_out-Left h u a next ys s zs q bound split own =
      let p = q.each s.pattern u bound in
      let few : size ys ≤ p.e.count =
        omega (arith, p.counted, ap size split, size-append ys ((a, s) ∷ zs)) in
      let some_subs : p.e.count ≤ h.subscription_count = omega (
        arith,
        q.subscriptions,
        ap count_in p.here,
        tally-le (counts r h) u (entries h.topics) (bound-occurs r h s.pattern u q bound),
      ) in
      let at_least_one : 0 < p.e.count =
        omega (arith, p.counted, ap size split, size-append ys ((a, s) ∷ zs)) in
      let small = q.small in
      let one_less : sub_word h.subscription_count 1 + 1 ≡ h.subscription_count = omega arith in
      rw (read-ok h.patterns p.ne p.here) (
        Returns-bind
          (remove_sub_lem a next s zs ys p.e.count p.e.subscriptions h.subs (rw split at p.chain)
            own few)
          λ (found, start, subs') (hits, o). rw hits (
            returns (
              if_cases
                (λ (g : Hub Tree).
                  Left h a (record g { subscription_count = sub_word g.subscription_count 1 }))
                (sub_word p.e.count 1 == 0)
                (λ last_one. (
                  gone-IsHub h s.pattern u a start subs' ys s zs q bound split o (ground arith),
                  one_less,
                ))
                (λ others.
                  (kept-IsHub h s.pattern u a start subs' ys s zs q bound split o, one_less)))))

  -- A subscription that stands in the list of its pattern, with a sound queue, is unsubscribed:
  -- loopyUnsubscribe returns true and tells the event callback, the lists and the two counters
  -- agree then as they did, with one subscription less, and the subscription's block is given
  -- back.
  pub unsubscribe-IsHub :
      (h : Hub Tree) (a next u : ℕ) (s : Subscription) (q : IsHub r h)
      (bound : get h.topics s.pattern ≡ some u)
      → h.subs a ≡ some (node next s)
      → holds a (q.each s.pattern u bound).xs ≡ true
      → IsSound s
      → Returns
          (λ (done, notices, h').
            (done ≡ true)
            × (notices ≡ tell a unsubscribed s)
            × IsHub r h'
            × (h'.subscription_count + 1 ≡ h.subscription_count)
            × (h'.subs a ≡ none))
          (unsubscribe r a h)
  unfolding unsubscribe
  unsubscribe-IsHub h a next u s q bound own inside sound =
      let p = q.each s.pattern u bound in
      let (ys, t, zs, split) = held_at a p.xs inside in
      let (ne, (next', found)) = Chain-at ys a t zs (rw split at p.chain) in
      let same : t ≡ s = value_of (sym found ∙ own) in
      let some_sub : (a == 0) ≡ false = ground arith in
      rw (some_sub, read-ok h.subs ne own, bound)
        (Returns-bind (take_out-Left h u a next ys s zs q bound (rw same at split) own)
          λ h' (hub, less).
            Returns-bind
              (free_queue-Freed sound.xs (suc s.queue_len) s.queue_head s.blocks sound.chain
                (let few = sound.len in omega arith))
              λ b freed. returns (refl, refl, hub, less, set-same h'.subs a none))
