-- ===== src/PubSub/Walks.antt =====
-- src/loopyPubSub.c: what the walks over the patterns that change nothing come to.
use Prim.Native.String.{String}
use loopy.Prelude.{ℕ, zero, suc, ◌+◌, ◌<◌, ◌≡◌, ap, ◌∙◌, false, List, [], ◌∷◌, some, arith, ◌==◌}
use loopy.Prelude.Run.{ok}
use loopy.Prelude.Words.{word, add_word}
use loopy.Prelude.Tally.{tally}
use loopy.Prelude.Chain.{Node, Store, Cells, read-ok, size, Chain, end, link}
use loopy.PubSub.{Subscription}
use loopy.PubSub.RaxTopic.{RaxTopic, All}
use loopy.PubSub.Hub.{Hub}
use loopy.PubSub.Publish.{add_counts, match_count}
use loopy.PubSub.Rest.{iterate_list, iterate_patterns, iterate_subscriptions}
use loopy.PubSub.Counts.{count_in, counts, IsHub}

iterate_list_lem :
    (f : ℕ → ℕ) (subs : Store (Node Subscription)) (xs : Cells Subscription) (k p c : ℕ)
    → ((a : ℕ) → f a ≡ 0)
    → Chain subs p xs
    → size xs < k
    → iterate_list k f p subs c ≡ ok (c + size xs, false)
unfolding iterate_list
iterate_list_lem f subs xs zero p c go chain fuel = absurd (omega arith)
iterate_list_lem f subs [] (suc k) p c go end fuel = ap (λ n. ok (n, false)) (omega arith)
iterate_list_lem f subs ((a, s) ∷ xs) (suc k) p c go (link {next} ne here out chain) fuel =
    let some_sub : (a == 0) ≡ false = ground arith in
    rw
      (
        some_sub,
        read-ok subs ne here,
        go a,
        iterate_list_lem f subs xs k next (suc c) go chain (omega arith),
      )
      (ap (λ n. ok (n, false)) (omega arith))

module _ (r : RaxTopic) (h : Hub r.Tree) (q : IsHub r h) where
  iterate_patterns_lem :
      (f : ℕ → ℕ) (es : List (String × ℕ)) (c : ℕ)
      → ((a : ℕ) → f a ≡ 0)
      → All (λ k u. r.get h.topics k ≡ some u) es
      → iterate_patterns f h.patterns es h.subs c ≡ ok (c + tally (counts r h) es)
  unfolding iterate_patterns tally
  iterate_patterns_lem f [] c go all = ap ok (omega arith)
  iterate_patterns_lem f ((k, u) ∷ es) c go (bound, all) =
      let p = q.each k u bound in
      let counted : count_in (h.patterns u) ≡ size p.xs = ap count_in p.here ∙ p.counted in
      rw
        (
          read-ok h.patterns p.ne p.here,
          iterate_list_lem f h.subs p.xs (suc p.e.count) p.e.subscriptions c go p.chain
              (omega (arith, p.counted)),
          iterate_patterns_lem f es (c + size p.xs) go all,
        )
        (ap ok (omega (arith, counted)))

  -- `loopyIterateSubscriptions` with a callback that never asks to stop visits as many subscriptions as
  -- the hub's counter says.
  pub iterate-counts :
      (f : ℕ → ℕ) → ((a : ℕ) → f a ≡ 0) → iterate_subscriptions r f h ≡ ok h.subscription_count
  unfolding iterate_subscriptions
  iterate-counts f go =
      iterate_patterns_lem f (r.entries h.topics) 0 go (r.entries_bound h.topics)
      ∙ ap ok (omega (arith, q.subscriptions))

  add_counts_lem :
      (es : List (String × ℕ)) (c : ℕ)
      → All (λ k u. r.get h.topics k ≡ some u) es
      → c + tally (counts r h) es < word
      → add_counts h.patterns es c ≡ ok (c + tally (counts r h) es)
  unfolding add_counts tally
  add_counts_lem [] c all room = ap ok (omega arith)
  add_counts_lem ((k, u) ∷ es) c (bound, all) room =
      let p = q.each k u bound in
      let here : count_in (h.patterns u) ≡ p.e.count = ap count_in p.here in
      let grown : add_word c p.e.count ≡ c + p.e.count = omega (arith, here) in
      rw
        (
          read-ok h.patterns p.ne p.here,
          grown,
          add_counts_lem es (c + p.e.count) all (omega (arith, here)),
        )
        (ap ok (omega (arith, here)))

  -- `loopyMatchCount` is the sum of the counts of the patterns that match.
  pub match_count-tally :
      (topic : String) → match_count r h topic ≡ ok (tally (counts r h) (r.matches h.topics topic))
  unfolding match_count
  match_count-tally topic =
      add_counts_lem (r.matches h.topics topic) 0 (r.matches_bound h.topics topic)
        (omega (arith, r.matches_within h.topics topic (counts r h), q.subscriptions, q.small))
      ∙ ap ok (omega arith)
