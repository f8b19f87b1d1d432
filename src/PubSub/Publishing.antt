-- ===== src/PubSub/Publishing.antt =====
-- src/loopyPubSub.c: publishing keeps the lists and the counters of the hub in agreement.
use Prim.Native.String.{String}
use loopy.Prelude.{
  some-injective, ℕ, suc, ◌+◌, ◌≤◌, ◌<◌, ◌≡◌, ◌≢◌, refl, sym, ap, ◌∙◌, inl, inr, some, List, [],
  ◌∷◌, arith, ◌==◌, if◌then◌else◌, if_cases,
}
use loopy.Prelude.Run.{ok, Returns, returns, Returns-map, Returns-bind, ok-injective}
use loopy.Prelude.Tally.{tally, occurs}
use loopy.Prelude.Chain.{Node, Store, Cells, read-ok, size}
use loopy.PubSub.{Subscription, Answers, Publication}
use loopy.PubSub.RaxTopic.{RaxTopic, All}
use loopy.PubSub.Hub.{PatternEntry, Hub}
use loopy.PubSub.Publish.{Progress, publish_all, count_publish, publish, match_count}
use loopy.PubSub.Walks.{match_count-tally}
use loopy.PubSub.Counts.{
  String-cases, IsPattern, IsPattern-frame, count_in, counts, IsHub, elsewhere,
}
use loopy.PubSub.Delivery.{AllReady, Walked, Served, publish_list-Served}

occurs-head :
    (k : String) (u : ℕ) (es : List (String × ℕ)) → occurs u ((k, u) ∷ es) ≡ suc (occurs u es)
unfolding tally
occurs-head k u es =
    let self : ◌≡◌ {A = ℕ} (if u == u then 1 else 0) 1 = ground arith in omega (arith, self)

occurs-tail : (k : String) (u v : ℕ) (es : List (String × ℕ)) → occurs v es ≤ occurs v ((k, u) ∷ es)
unfolding tally
occurs-tail k u v es = omega arith

more :
    (k : String) (u v : ℕ) (es : List (String × ℕ)) → 0 < occurs v es → 0 < occurs v ((k, u) ∷ es)
more k u v es left = omega (arith, occurs-tail k u v es)

module _ (r : RaxTopic) where
  open r use {Tree, get, entries}

  abbrev Each : Tree → Store PatternEntry → Store (Node Subscription) → Type 0
  Each t patterns subs = (k : String) (u : ℕ) → get t k ≡ some u → IsPattern subs patterns k u

  -- The subscriptions of the patterns among `es` are ready.
  abbrev pub ReadyAt :
      Tree
      → Store PatternEntry
      → (ℕ → Answers)
      → List (String × ℕ)
      → Store (Node Subscription)
      → Type 0
  ReadyAt t patterns alloc es subs =
      (k : String) (u : ℕ)
      → 0 < occurs u es
      → get t k ≡ some u
      → (p : IsPattern subs patterns k u) → AllReady alloc p.xs

  module _ (t : Tree) (patterns : Store PatternEntry) (alloc : ℕ → Answers) (m : Publication) where
    -- The hub behind the first pattern.
    Walked-Each :
        (k : String) (u : ℕ) (subs subs' : Store (Node Subscription)) (c d : Progress)
        (ys : Cells Subscription) (each : Each t patterns subs) (bound : get t k ≡ some u)
        → Walked subs (each k u bound).e.subscriptions (each k u bound).xs ys subs'
        → Served k (each k u bound).xs c ys d
        → Each t patterns subs'
    Walked-Each k u subs subs' c d ys each bound w s j v ej =
        let p = each k u bound in
        elim (String-cases j k) [
          | inl same ↦
              let at_u : v ≡ u = some-injective (sym ej ∙ ap (get t) same ∙ bound) in
              rw (same, at_u)
                (record {
                  ne = p.ne;
                  e = p.e;
                  here = p.here;
                  named = p.named;
                  xs = ys;
                  chain = w.chain;
                  counted = p.counted ∙ sym s.length;
                  belong = s.belong;
                })
          | inr other ↦
              IsPattern-frame j v (each j v ej)
                (λ c inside. w.same c (elsewhere j k v u c (each j v ej) p other inside)) refl
        ]

    -- The patterns behind the first one are as ready as they were.
    Walked-ReadyAt :
        (k : String) (u : ℕ) (es : List (String × ℕ)) (subs subs' : Store (Node Subscription))
        (c d : Progress) (ys : Cells Subscription) (each : Each t patterns subs)
        (bound : get t k ≡ some u)
        → Walked subs (each k u bound).e.subscriptions (each k u bound).xs ys subs'
        → Served k (each k u bound).xs c ys d
        → ((v : ℕ) → occurs v ((k, u) ∷ es) ≤ 1)
        → ReadyAt t patterns alloc ((k, u) ∷ es) subs
        → ReadyAt t patterns alloc es subs'
    Walked-ReadyAt k u es subs subs' c d ys each bound w s once ready j v left ej p' =
        let now = Walked-Each k u subs subs' c d ys each bound w s in
        let other : j ≢ k = λ same.
          let at_u : v ≡ u = some-injective (sym ej ∙ ap (get t) same ∙ bound) in
          let self : ◌≡◌ {A = ℕ} (if u == u then 1 else 0) 1 = ground arith in
          let again : 0 < occurs u es = rw at_u at left in
          omega (arith, occurs-head k u es, once u, again) in
        let of_k : IsPattern subs' patterns k u = record {
          ne = (each k u bound).ne;
          e = (each k u bound).e;
          here = (each k u bound).here;
          named = (each k u bound).named;
          xs = ys;
          chain = w.chain;
          counted = (each k u bound).counted ∙ sym s.length;
          belong = s.belong;
        } in
        ready j v (more k u v es left) ej (
          IsPattern-frame j v p'
            (λ b inside.
              sym (w.same b (sym (w.places b) ∙ elsewhere j k v u b p' of_k other inside)))
            refl)

    publish_all-Served :
        (es : List (String × ℕ)) (subs : Store (Node Subscription)) (c : Progress)
        → Each t patterns subs
        → All (λ k u. get t k ≡ some u) es
        → ((v : ℕ) → occurs v es ≤ 1)
        → ReadyAt t patterns alloc es subs
        → Returns
            (λ (subs', d).
              Each t patterns subs'
              × (d.delivered + d.dropped
                  ≤ tally (λ u. count_in (patterns u)) es + (c.delivered + c.dropped)))
            (publish_all alloc m patterns es subs c)
    unfolding publish_all tally
    publish_all-Served [] subs c each all once ready = returns (each, omega arith)
    publish_all-Served ((k, u) ∷ es) subs c each (bound, all) once ready =
        let p = each k u bound in
        let here : 0 < occurs u ((k, u) ∷ es) = omega (arith, occurs-head k u es) in
        let counted : count_in (patterns u) ≡ size p.xs = ap count_in p.here ∙ p.counted in
        rw (read-ok patterns p.ne p.here) (
          Returns-bind
            (publish_list-Served alloc m k p.xs (suc p.e.count) p.e.subscriptions subs c p.chain
              (omega (arith, p.counted)) (ready k u here bound p) p.belong)
            λ (subs', d) (ys, w, s).
              Returns-map
                (publish_all-Served es subs' d (Walked-Each k u subs subs' c d ys each bound w s)
                  all (λ v. omega (arith, once v, occurs-tail k u v es))
                  (Walked-ReadyAt k u es subs subs' c d ys each bound w s once ready))
                λ (subs'', d') (each', total). (each', omega (arith, total, s.counted, counted)))

  -- Two hubs with the same patterns and the same counters.
  Each-IsHub :
      (h g : Hub Tree)
      → IsHub r h
      → Each g.topics g.patterns g.subs
      → g.topics ≡ h.topics
      → g.patterns ≡ h.patterns
      → g.subscription_count ≡ h.subscription_count
      → g.pattern_count ≡ h.pattern_count
      → IsHub r g
  Each-IsHub h g q each topics patterns subscriptions pattern_count = record {
    each = each;
    once = λ v. rw topics (q.once v);
    subscriptions = rw (subscriptions, topics, patterns) q.subscriptions;
    patterns = rw (pattern_count, topics) q.patterns;
    small = rw subscriptions q.small;
    few = rw pattern_count q.few;
  }

  -- loopyPublishEx on a hub whose subscriptions that match are ready returns; the lists and the
  -- two counters agree then as they did; and its answer, the number of deliveries, is at most
  -- what loopyMatchCount answers for the topic.
  pub publish-IsHub :
      (alloc : ℕ → Answers) (now : ℕ) (h : Hub Tree) (topic : String) (bytes : List ℕ)
      (len publisher_data n : ℕ)
      → IsHub r h
      → ReadyAt h.topics h.patterns alloc (r.matches h.topics topic) h.subs
      → match_count r h topic ≡ ok n
      → Returns
          (λ (delivered, notices, h').
            IsHub r h' × (h'.subscription_count ≡ h.subscription_count) × (delivered ≤ n))
          (publish r alloc now h topic bytes len publisher_data)
  unfolding publish count_publish
  publish-IsHub alloc now h topic bytes len publisher_data n q ready matched =
      let counted : tally (counts r h) (r.matches h.topics topic) ≡ n =
        ok-injective (sym (match_count-tally r h q topic) ∙ matched) in
      Returns-bind
        (publish_all-Served h.topics h.patterns alloc _ (r.matches h.topics topic) h.subs _ q.each
          (r.matches_bound h.topics topic)
          (λ v.
            omega (arith, r.matches_within h.topics topic (λ w. if w == v then 1 else 0), q.once v))
          ready)
        λ (subs', d) (each, total).
          let few : d.delivered ≤ n = omega (arith, total, counted) in
          returns (
            if_cases
              (λ (g : Hub Tree).
                IsHub r g × (g.subscription_count ≡ h.subscription_count) × (d.delivered ≤ n))
              h.config.enable_stats (λ on. (Each-IsHub h _ q each refl refl refl refl, refl, few))
              (λ off. (Each-IsHub h _ q each refl refl refl refl, refl, few)))
