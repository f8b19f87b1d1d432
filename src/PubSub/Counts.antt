-- ===== src/PubSub/Counts.antt =====
-- src/loopyPubSub.c: the lists of the patterns and the two counters of a hub agree.
use Prim.Native.String.{String}
use text.Mathlib.Text.{◌==◌ as str_eq}
use text.Mathlib.TextEquality.{eq_iff}
use mathlib.Core.Bool.{true≢false}
use loopy.Prelude.{
  ℕ, ◌+◌, ◌≤◌, ◌<◌, ◌≡◌, ◌≢◌, refl, sym, ap, ◌∙◌, ◌⊎◌, inl, inr, true, false, Option, none, some,
  List, [], ◌∷◌, arith, ◌==◌, if◌then◌else◌, Bool-cases,
}
use loopy.Prelude.Words.{word}
use loopy.Prelude.Tally.{tally, occurs, tally-insert, tally-change}
use loopy.Prelude.Chain.{
  Node, Store, Cells, set, set-same, set-other, size, holds, Chain, end, link, Chain-frame,
}
use loopy.PubSub.{Subscription}
use loopy.PubSub.RaxTopic.{RaxTopic, All}
use loopy.PubSub.Hub.{PatternEntry, Hub}

pub String-cases : (j k : String) → (j ≡ k) ⊎ (j ≢ k)
String-cases j k = elim (Bool-cases (str_eq j k)) [
  | inl e ↦ inl ((eq_iff j k).0 e)
  | inr e ↦ inr (λ same. true≢false (sym ((eq_iff j k).1 same) ∙ e))
]

-- Every subscription of a list has the pattern.
abbrev pub Belong : String → Cells Subscription → Type 0
Belong pattern [] = Unit
Belong pattern ((a, s) ∷ xs) = (s.pattern ≡ pattern) × Belong pattern xs

-- At `u` stands the entry of a pattern: its list leads through its subscriptions, which it counts.
pub record IsPattern (subs : Store (Node Subscription)) (patterns : Store PatternEntry)
    (pattern : String) (u : ℕ) : Type 0 where
  pub ne : u ≢ 0
  pub e : PatternEntry
  pub here : patterns u ≡ some e
  pub named : e.pattern ≡ pattern
  pub xs : Cells Subscription
  pub chain : Chain subs e.subscriptions xs
  pub counted : e.count ≡ size xs
  pub belong : Belong pattern xs

abbrev pub count_in : Option PatternEntry → ℕ
count_in none = 0
count_in (some e) = e.count

module _ {subs : Store (Node Subscription)} where
  -- A subscription in the list of a pattern has that pattern.
  pub held-pattern :
      (k : String) (c : ℕ) {p : ℕ} {xs : Cells Subscription}
      → Chain subs p xs
      → Belong k xs
      → holds c xs ≡ true
      → (n : Node Subscription) × (subs c ≡ some n) × (n.value.pattern ≡ k)
  held-pattern k c end all inside = absurd (true≢false (sym inside))
  held-pattern k c (link {a} ne e out chain) (own, all) inside = elim (Bool-cases (c == a)) [
    | inl hit ↦ let same : c ≡ a = ground arith in (_, ap subs same ∙ e, own)
    | inr miss ↦ held-pattern k c chain all (rw miss at inside)
  ]

  -- A pattern survives a change of its subscriptions' blocks that spares those of its list, and one
  -- of the entries that spares its own.
  abbrev pub IsPattern-frame :
      {patterns : Store PatternEntry} {subs' : Store (Node Subscription)}
      {patterns' : Store PatternEntry} (k : String) (u : ℕ)
      → (p : IsPattern subs patterns k u) → ((c : ℕ) → holds c p.xs ≡ true → subs' c ≡ subs c)
      → patterns' u ≡ patterns u
      → IsPattern subs' patterns' k u
  IsPattern-frame k u p same here = record {
    ne = p.ne;
    e = p.e;
    here = here ∙ p.here;
    named = p.named;
    xs = p.xs;
    chain = Chain-frame p.chain same;
    counted = p.counted;
    belong = p.belong;
  }

module _ {subs : Store (Node Subscription)} {patterns : Store PatternEntry} where
  -- Two patterns have different entries.
  pub entries_apart :
      (j k : String) (v u : ℕ)
      → IsPattern subs patterns j v
      → IsPattern subs patterns k u
      → j ≢ k
      → v ≢ u
  entries_apart j k v u a b ne same =
      let here : some a.e ≡ some b.e = sym a.here ∙ ap patterns same ∙ b.here in
      let one : a.e ≡ b.e = cc in
      ne (sym a.named ∙ ap (λ (x : PatternEntry). x.pattern) one ∙ b.named)

  -- A subscription in the list of one pattern is not in that of another.
  pub elsewhere :
      (j k : String) (v u c : ℕ)
      → (p : IsPattern subs patterns j v) → (q : IsPattern subs patterns k u) → j ≢ k
      → holds c p.xs ≡ true
      → holds c q.xs ≡ false
  elsewhere j k v u c p q ne inside = elim (Bool-cases (holds c q.xs)) [
    | inr out ↦ out
    | inl both ↦
        let (n, at_j, of_j) = held-pattern j c p.chain p.belong inside in
        let (m, at_k, of_k) = held-pattern k c q.chain q.belong both in
        let found : some n ≡ some m = sym at_j ∙ at_k in
        let one : n ≡ m = cc in
        absurd (ne (sym of_j ∙ ap (λ (x : Node Subscription). x.value.pattern) one ∙ of_k))
  ]

module _ (r : RaxTopic) where
  open r use {Tree, get, entries}

  abbrev pub counts : Hub Tree → ℕ → ℕ
  counts h u = count_in (h.patterns u)

  -- Each bound pattern has its entry, the hub's counters are the numbers of the subscriptions and of
  -- the patterns, and no entry belongs to two patterns.
  pub record IsHub (h : Hub Tree) : Type 0 where
    pub each : (k : String) (u : ℕ) → get h.topics k ≡ some u → IsPattern h.subs h.patterns k u
    pub once : (u : ℕ) → occurs u (entries h.topics) ≤ 1
    pub subscriptions : h.subscription_count ≡ tally (counts h) (entries h.topics)
    pub patterns : h.pattern_count ≡ tally (λ u. 1) (entries h.topics)
    pub small : h.subscription_count < word
    pub few : h.pattern_count < word

  -- Two patterns have different entries.
  pub apart :
      (h : Hub Tree) (j k : String) (v u : ℕ)
      → IsHub h
      → get h.topics j ≡ some v
      → get h.topics k ≡ some u
      → j ≢ k
      → v ≢ u
  apart h j k v u q ej ek ne = entries_apart j k v u (q.each j v ej) (q.each k u ek) ne

  pub unused_of :
      (h : Hub Tree) (u : ℕ) (es : List (String × ℕ))
      → IsHub h
      → h.patterns u ≡ none
      → All (λ k v. get h.topics k ≡ some v) es
      → occurs u es ≡ 0
  unfolding tally
  unused_of h u [] q gone all = refl
  unused_of h u ((k, v) ∷ es) q gone (bound, all) =
      let p = q.each k v bound in
      let other : v ≢ u = λ same. let here = p.here in cc in
      ground (arith, unused_of h u es q gone all)

  pub bound-occurs :
      (h : Hub Tree) (k : String) (u : ℕ)
      → IsHub h
      → get h.topics k ≡ some u
      → occurs u (entries h.topics) ≡ 1
  bound-occurs h k u q e =
      let (xs, ys, split) = r.get_entry h.topics k u e in
      let self : ◌≡◌ {A = ℕ} (if u == u then 1 else 0) 1 = ground arith in
      omega (
        arith,
        q.once u,
        ap (occurs u) split,
        tally-insert (λ w. if w == u then 1 else 0) xs ys k u,
        self,
      )

  -- A change of one pattern's count changes the sum by as much.
  pub tally_at :
      (h : Hub Tree) (k : String) (u : ℕ) (e e' : PatternEntry)
      → IsHub h
      → get h.topics k ≡ some u
      → h.patterns u ≡ some e
      → tally (λ v. count_in (set h.patterns u (some e') v)) (entries h.topics) + e.count
        ≡ tally (counts h) (entries h.topics) + e'.count
  tally_at h k u e e' q bound here =
      let f' = λ (v : ℕ). count_in (set h.patterns u (some e') v) in
      let one = bound-occurs h k u q bound in
      let change =
        tally-change (counts h) f' u (entries h.topics)
          (λ v ne. ap count_in (set-other h.patterns (some e') ne)) in
      let before : counts h u ≡ e.count = ap count_in here in
      let after : f' u ≡ e'.count = ap count_in (set-same h.patterns u (some e')) in
      omega (arith, rw one at change, before, after)
