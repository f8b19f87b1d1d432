-- ===== src/PubSub/Removal.antt =====
-- src/loopyPubSub.c: the two walks of `loopyUnsubscribe`, which take a subscription out of the list of
-- its pattern and free the entries of its queue.
use mathlib.Core.Bool.{true≢false}
use loopy.Prelude.{
  ℕ, zero, suc, ◌≤◌, ◌<◌, ◌≡◌, ◌≢◌, refl, sym, ap, ◌∙◌, inl, inr, true, false, Option, none, some,
  [], ◌∷◌, ◌++◌, arith, ◌==◌, Bool-cases,
}
use loopy.Prelude.Run.{Returns, returns, Returns-map}
use loopy.Prelude.Chain.{
  Node, Store, Cells, node, set-same, set-other, set-none, read-ok, size, holds, holds-middle,
  Chain, Chain-Link, end, link, Chain-set,
}
use loopy.PubSub.{Entry, Blocks, Subscription}
use loopy.PubSub.Queue.{free_entry, free_queue}
use loopy.PubSub.Hub.{remove_sub}

-- The loop that frees the entries returns, and then none of them is in use.
pub free_queue-Freed :
    (xs : Cells Entry) (k p : ℕ) (b : Blocks)
    → Chain b.entries p xs
    → size xs < k
    → Returns
        (λ b'.
          ((a : ℕ) → holds a xs ≡ true → b'.entries a ≡ none)
          × ((a : ℕ) → b.entries a ≡ none → b'.entries a ≡ none))
        (free_queue k p b)
unfolding free_queue free_entry
free_queue-Freed xs zero p b c fuel = absurd (omega arith)
free_queue-Freed [] (suc k) p b end fuel =
    returns (λ a inside. absurd (true≢false (sym inside)), λ a e. e)
free_queue-Freed ((a, v) ∷ xs) (suc k) p b (link ne e out c) fuel =
    let apart : (a == 0) ≡ false = ground arith in
    rw (apart, read-ok b.entries ne e)
      (Returns-map
        (free_queue-Freed xs k _ (free_entry a v b) (Chain-set a none c out) (omega arith))
        λ b' (freed, still). (
          λ d inside. elim (Bool-cases (d == a)) [
            | inl hit ↦
                let same : d ≡ a = ground arith in rw same (still a (set-same b.entries a none))
            | inr miss ↦ freed d (rw miss at inside)
          ],
          λ d gone. still d (set-none b.entries a d gone),
        ))

next_of :
    {p q : ℕ} {s t : Subscription}
    → ◌≡◌ {A = Option (Node Subscription)} (some (node p s)) (some (node q t))
    → p ≡ q
next_of e = cc

pub value_of :
    {p q : ℕ} {s t : Subscription}
    → ◌≡◌ {A = Option (Node Subscription)} (some (node p s)) (some (node q t))
    → s ≡ t
value_of e = ap (λ (n : Node Subscription). n.value) (node_of e)
  where
    node_of :
        {m n : Node Subscription} → ◌≡◌ {A = Option (Node Subscription)} (some m) (some n) → m ≡ n
    node_of e = cc

-- The list without the subscription at `a`, from `start`; blocks of no other list are touched.
pub record TakenOut (subs : Store (Node Subscription)) (start : ℕ) (xs left : Cells Subscription)
    (subs' : Store (Node Subscription)) : Type 0 where
  pub chain : Chain subs' start left
  pub same : (c : ℕ) → holds c xs ≡ false → subs' c ≡ subs c

module _ (a next : ℕ) (s : Subscription) (zs : Cells Subscription) where
  TakenOut-cons :
      (ys : Cells Subscription) (prev : ℕ) (t : Subscription) (b : ℕ) (w : Subscription)
      (subs subs' : Store (Node Subscription))
      → prev ≢ 0
      → subs prev ≡ some (node b t)
      → holds prev ((b, w) ∷ (ys ++ ((a, s) ∷ zs))) ≡ false
      → TakenOut subs b ((b, w) ∷ (ys ++ ((a, s) ∷ zs))) ((b, w) ∷ (ys ++ zs)) subs'
      → TakenOut subs prev
          ((prev, t) ∷ (b, w) ∷ (ys ++ ((a, s) ∷ zs)))
          ((prev, t) ∷ (b, w) ∷ (ys ++ zs))
          subs'
  TakenOut-cons ys prev t b w subs subs' ne e out o =
      let (spared, other) = holds-middle prev ((b, w) ∷ ys) a s zs out in
      record {
        chain = link ne (o.same prev out ∙ e) spared o.chain;
        same = λ d outside. o.same d (ground arith);
      }

  -- The walk from behind the subscription `prev`.
  remove_sub-TakenOut :
      (ys : Cells Subscription) (k head prev p : ℕ) (t : Subscription)
      (subs : Store (Node Subscription))
      → prev ≢ 0
      → subs prev ≡ some (node p t)
      → holds prev (ys ++ ((a, s) ∷ zs)) ≡ false
      → Chain subs p (ys ++ ((a, s) ∷ zs))
      → subs a ≡ some (node next s)
      → size ys < k
      → Returns
          (λ (found, start, subs').
            (found ≡ true)
            × (start ≡ head)
            × TakenOut subs prev ((prev, t) ∷ (ys ++ ((a, s) ∷ zs))) ((prev, t) ∷ (ys ++ zs)) subs')
          (remove_sub k a next head prev p subs)
  unfolding remove_sub
  remove_sub-TakenOut ys zero head prev p t subs ne e out c own fuel = absurd (omega arith)
  remove_sub-TakenOut [] (suc k) head prev p t subs ne e out c own fuel =
      let l = Chain-Link c in
      let some_sub : (p == 0) ≡ false = let nb = l.ne in let start = l.start in ground arith in
      let found : (p == a) ≡ true = let start = l.start in ground arith in
      let behind : (prev == 0) ≡ false = ground arith in
      let spared : holds prev zs ≡ false = ground arith in
      let on : l.next ≡ next = next_of (sym l.here ∙ own) in
      rw (some_sub, found, behind, read-ok subs ne e)
        (returns (
          refl,
          refl,
          record {
            chain =
                link ne (set-same subs prev (some (node next t))) spared
                  (Chain-set prev (some (node next t)) (rw on at l.rest) spared);
            same = λ d o. set-other subs (some (node next t)) (ground arith);
          },
        ))
  remove_sub-TakenOut ((b, w) ∷ ys) (suc k) head prev p t subs ne e out c own fuel =
      let l = Chain-Link c in
      let (spared, other) = holds-middle b ys a s zs l.out in
      let some_sub : (b == 0) ≡ false = let nb = l.ne in ground arith in
      let miss : (b == a) ≡ false = ground arith in
      rw (l.start, some_sub, miss, read-ok subs l.ne l.here)
        (Returns-map
          (remove_sub-TakenOut ys k head b l.next w subs l.ne l.here l.out l.rest own (omega arith))
          λ (found, start, subs') (yes', same_head, o).
            (yes', same_head, TakenOut-cons ys prev t b w subs subs' ne (rw l.start at e) out o))

  -- What the walk answers, where the subscription stands in the list.
  pub remove_sub_lem :
      (ys : Cells Subscription) (k p : ℕ) (subs : Store (Node Subscription))
      → Chain subs p (ys ++ ((a, s) ∷ zs))
      → subs a ≡ some (node next s)
      → size ys ≤ k
      → Returns
          (λ (found, start, subs').
            (found ≡ true) × TakenOut subs start (ys ++ ((a, s) ∷ zs)) (ys ++ zs) subs')
          (remove_sub (suc k) a next p 0 p subs)
  unfolding remove_sub
  remove_sub_lem [] k p subs c own fuel =
      let l = Chain-Link c in
      let some_sub : (p == 0) ≡ false = let nb = l.ne in let start = l.start in ground arith in
      let found : (p == a) ≡ true = let start = l.start in ground arith in
      let on : l.next ≡ next = next_of (sym l.here ∙ own) in
      rw (some_sub, found) (returns (refl, record { chain = rw on at l.rest; same = λ d o. refl }))
  remove_sub_lem ((b, w) ∷ ys) k p subs c own fuel =
      let l = Chain-Link c in
      let (spared, other) = holds-middle b ys a s zs l.out in
      let some_sub : (b == 0) ≡ false = let nb = l.ne in ground arith in
      let miss : (b == a) ≡ false = ground arith in
      rw (l.start, some_sub, miss, read-ok subs l.ne l.here)
        (Returns-map
          (remove_sub-TakenOut ys k b b l.next w subs l.ne l.here l.out l.rest own (omega arith))
          λ (found, start, subs') (yes', same_head, o). (yes', rw same_head o))
