-- ===== src/PubSub/Subscribing.antt =====
-- src/loopyPubSub.c: `loopySubscribe` keeps the lists and the counters of the hub in agreement, and
-- keeps to the limit.
use Prim.Native.String.{String}
use mathlib.Core.Bool.{true≢false}
use loopy.Prelude.{
  some-injective, ℕ, ◌+◌, ◌≤◌, ◌<◌, ◌≡◌, ◌≢◌, refl, sym, ap, ◌∙◌, ◌⊎◌, inl, inr, false, not, ◌&&◌,
  ◌||◌, Option, none, some, [], ◌∷◌, arith, ltb, leb, ◌==◌, if◌then◌else◌, Bool-cases, Option-cases,
}
use loopy.Prelude.Run.{Returns, returns, Returns-bind, Returns-if}
use loopy.Prelude.Words.{word, add_word}
use loopy.Prelude.Tally.{tally, tally-insert, tally-change, tally-le}
use loopy.Prelude.Chain.{
  node, set, set-same, set-other, read-ok, holds, end, link, Chain-set, unused-holds,
}
use loopy.PubSub.{Subscription, SubscriptionConfig}
use loopy.PubSub.RaxTopic.{RaxTopic}
use loopy.PubSub.Hub.{
  PatternEntry, Hub, Memory, Subscribing, null, again, made, new_subscription, find_or_bind,
  prepend, subscribe,
}
use loopy.PubSub.Counts.{
  String-cases, IsPattern, IsPattern-frame, count_in, counts, IsHub, apart, unused_of, bound-occurs,
  tally_at,
}

within_limit :
    {limit count : ℕ} → (ltb 0 limit && leb limit count) ≡ false → (limit ≡ 0) ⊎ (count < limit)
within_limit {limit} below = elim (Bool-cases (limit == 0)) [
  | inl none_set ↦ inl (ground arith)
  | inr one_set ↦ inr (ground arith)
]

module _ (r : RaxTopic) where
  open r use {Tree, get, entries}

  -- `prepend` of a new subscription to a bound pattern.
  prepend-IsHub :
      (a : ℕ) (s : Subscription) (u : ℕ) (h : Hub Tree)
      → IsHub r h
      → get h.topics s.pattern ≡ some u
      → a ≢ 0
      → h.subs a ≡ none
      → h.subscription_count + 1 < word
      → Returns
          (λ q.
            IsHub r q × (q.subscription_count ≡ h.subscription_count + 1) × (q.config ≡ h.config))
          (prepend r a s u h)
  unfolding prepend
  prepend-IsHub a s u h q bound given free room =
      let p = q.each s.pattern u bound in
      let e' : PatternEntry = record p.e { subscriptions = a; count = add_word p.e.count 1 } in
      let own : p.e.count ≤ h.subscription_count = omega (
        arith,
        q.subscriptions,
        ap count_in p.here,
        tally-le (counts r h) u (entries h.topics) (bound-occurs r h s.pattern u q bound),
      ) in
      let grown : add_word p.e.count 1 ≡ p.e.count + 1 = omega arith in
      let alone = unused-holds a p.chain free in
      let joined : IsPattern (set h.subs a (some (node p.e.subscriptions s)))
          (set h.patterns u (some e')) s.pattern u =
        record {
          ne = p.ne;
          e = e';
          here = set-same h.patterns u (some e');
          named = p.named;
          xs = (a, s) ∷ p.xs;
          chain =
              link given (set-same h.subs a (some (node p.e.subscriptions s))) alone
                (Chain-set a (some (node p.e.subscriptions s)) p.chain alone);
          counted = omega (arith, grown, p.counted);
          belong = (refl, p.belong);
        } in
      let after : IsHub r (record h {
        subs = set h.subs a (some (node p.e.subscriptions s));
        patterns = set h.patterns u (some e');
        subscription_count = add_word h.subscription_count 1;
      }) =
        record {
          each = λ k v ek. elim (String-cases k s.pattern) [
            | inl same ↦
                let at_u : v ≡ u = some-injective (sym ek ∙ ap (get h.topics) same ∙ bound) in
                rw (same, at_u) joined
            | inr other ↦
                IsPattern-frame k v (q.each k v ek)
                  (λ c inside. set-other h.subs (some (node p.e.subscriptions s)) (λ hit.
                    true≢false (
                      sym inside
                      ∙ ap (λ x. holds x (q.each k v ek).xs) hit
                      ∙ unused-holds a (q.each k v ek).chain free)))
                  (set-other h.patterns (some e') (apart r h k s.pattern v u q ek bound other))
          ];
          once = q.once;
          subscriptions =
              omega (arith, q.subscriptions, tally_at r h s.pattern u p.e e' q bound p.here, grown);
          patterns = q.patterns;
          small = omega arith;
          few = q.few;
        } in
      rw (read-ok h.patterns p.ne p.here) (returns (after, omega arith, refl))

  -- What is asked of the allocator: a block that it gives is not in use.
  pub record IsFreshFor (h : Hub Tree) (m : Memory) : Type 0 where
    pub sub_free : h.subs m.subscription ≡ none
    pub entry_free : h.patterns m.pattern_entry ≡ none

  -- `find_or_bind` answers NULL or the entry of the pattern.
  abbrev Found : Hub Tree → String → ℕ × Hub Tree → Type 0
  Found h pattern (u, g) =
      IsHub r g
      × ((u ≡ 0) ⊎ (get g.topics pattern ≡ some u))
      × (g.subs ≡ h.subs)
      × (g.subscription_count ≡ h.subscription_count)
      × (g.config ≡ h.config)

  bind-IsHub :
      (h : Hub Tree) (pattern : String) (u : ℕ) (t : Tree)
      → IsHub r h
      → get h.topics pattern ≡ none
      → r.bind h.topics pattern u ≡ some t
      → u ≢ 0
      → h.patterns u ≡ none
      → h.pattern_count + 1 < word
      → IsHub r (record h {
        topics = t;
        patterns =
            set h.patterns u (some (record { pattern = pattern; subscriptions = 0; count = 0 }));
        pattern_count = add_word h.pattern_count 1;
      })
  bind-IsHub h pattern u t q unbound e given free room =
      let e' : PatternEntry = record { pattern = pattern; subscriptions = 0; count = 0 } in
      let (xs, ys, before, after) = r.bind_entry h.topics t pattern u unbound e in
      let add = λ (f : ℕ → ℕ).
        ap (tally f) after
        ∙ (tally-insert f xs ys pattern u ∙ ap (λ n. n + f u) (sym (ap (tally f) before))) in
      let none_at_u = unused_of r h u (entries h.topics) q free (r.entries_bound h.topics) in
      let f' = λ (v : ℕ). count_in (set h.patterns u (some e') v) in
      let change = rw none_at_u at (
        tally-change (counts r h) f' u (entries h.topics)
          (λ v ne. ap count_in (set-other h.patterns (some e') ne))) in
      let own : f' u ≡ 0 = ap count_in (set-same h.patterns u (some e')) in
      record {
        each = λ k v ek. elim (String-cases k pattern) [
          | inl same ↦
              let at_u : v ≡ u =
                some-injective (sym ek ∙ ap (get t) same ∙ r.get-bind h.topics t pattern u e) in
              rw (same, at_u)
                (record {
                  ne = given;
                  e = e';
                  here = set-same h.patterns u (some e');
                  named = refl;
                  xs = [];
                  chain = end;
                  counted = refl;
                  belong = tt;
                })
          | inr other ↦
              let p = q.each k v (sym (r.get_other-bind h.topics t pattern k u e other) ∙ ek) in
              IsPattern-frame k v p (λ c inside. refl)
                (set-other h.patterns (some e') (λ hit. let here = p.here in cc))
        ];
        once = λ v. elim (Bool-cases (u == v)) [
          | inl hit ↦
              let at_u : v ≡ u = ground arith in
              rw at_u (ground (arith, add (λ w. if w == u then 1 else 0)))
          | inr miss ↦ ground (arith, add (λ w. if w == v then 1 else 0), q.once v)
        ];
        subscriptions = omega (arith, add f', change, own, q.subscriptions);
        patterns = omega (arith, add (λ v. 1), q.patterns);
        small = q.small;
        few = omega arith;
      }

  find_or_bind-Found :
      (m : Memory) (h : Hub Tree) (pattern : String)
      → IsHub r h
      → IsFreshFor h m
      → h.pattern_count + 1 < word
      → Found h pattern (find_or_bind r m h pattern)
  unfolding find_or_bind
  find_or_bind-Found m h pattern q fresh room = elim (Option-cases (get h.topics pattern)) [
    | inr (u, bound) ↦ rw (bound, find_or_bind) (q, inr bound, refl, refl, refl)
    | inl unbound ↦ elim (Bool-cases (m.pattern_entry == 0)) [
      | inl no_entry ↦ rw (unbound, no_entry, find_or_bind) (q, inl refl, refl, refl, refl)
      | inr some_entry ↦ elim (Option-cases (r.bind h.topics pattern m.pattern_entry)) [
        | inl refused ↦
            rw (unbound, some_entry, refused, find_or_bind) (q, inl refl, refl, refl, refl)
        | inr (t, e) ↦
            rw (unbound, some_entry, e, find_or_bind)
              (
                bind-IsHub h pattern m.pattern_entry t q unbound e (ground arith) fresh.entry_free
                    room,
                inr (r.get-bind h.topics t pattern m.pattern_entry e),
                refl,
                refl,
                refl,
              )
      ]
    ]
  ]

  -- What `loopySubscribe` answers and does to the number of subscriptions.
  abbrev pub Joined : Hub Tree → Subscribing × Hub Tree → Type 0
  Joined h (null, q) = q.subscription_count ≡ h.subscription_count
  Joined h (again, q) =
      (q.subscription_count ≡ h.subscription_count)
      × (0 < h.config.max_subscriptions)
      × (h.config.max_subscriptions ≤ h.subscription_count)
  Joined h (made a, q) =
      (q.subscription_count ≡ h.subscription_count + 1)
      × ((h.config.max_subscriptions ≡ 0) ⊎ (h.subscription_count < h.config.max_subscriptions))

  -- loopySubscribe returns, where the blocks that the allocator gives are not in use and no
  -- counter wraps; the lists and the two counters agree then as they did; and a subscription is
  -- made only under the limit, where one is set, and counts.
  pub subscribe-IsHub :
      (m : Memory) (h : Hub Tree) (pattern : String) (callback : ℕ)
      (config : Option SubscriptionConfig)
      → IsHub r h
      → IsFreshFor h m
      → h.subscription_count + 1 < word
      → h.pattern_count + 1 < word
      → Returns
          (λ (got, q). IsHub r q × Joined h (got, q))
          (subscribe r m h pattern callback config)
  unfolding subscribe
  subscribe-IsHub m h pattern callback config q fresh room few =
      Returns-if (callback == 0) (λ e. returns (q, refl))
        λ some_callback.
          Returns-if
            (ltb 0 h.config.max_subscriptions
              && leb h.config.max_subscriptions h.subscription_count)
            (λ at_limit. returns (q, (refl, ground arith, ground arith)))
            λ below.
              Returns-if ((m.subscription == 0) || (not m.name) || (not m.mutex))
                (λ no_memory. returns (q, refl))
                λ memory.
                  let (u, g) = find_or_bind r m h pattern in
                  let (hub, found, same_subs, same_count, same_config) =
                    find_or_bind-Found m h pattern q fresh few in
                  let s = new_subscription pattern callback config in
                  Returns-if (u == 0) (λ no_entry. returns (hub, same_count))
                    λ some_entry. elim found [
                      | inl nowhere ↦ absurd (ground (arith, nowhere))
                      | inr bound ↦
                          Returns-bind
                            (prepend-IsHub m.subscription s u g hub bound (ground arith)
                              (ap (λ x. x m.subscription) same_subs ∙ fresh.sub_free)
                              (omega (arith, same_count)))
                            λ g' (hub', count, same_config').
                              returns (hub', (omega (arith, count, same_count), within_limit below))
                    ]
