-- ===== src/PubSub/Sound.antt =====
-- src/loopyPubSub.c: what holds of a queue whichever calls are made, and what an acknowledgement of
-- the last entry does to it.
use loopy.Prelude.{
  ℕ, suc, ◌≤◌, ◌<◌, ◌≡◌, ◌≢◌, refl, sym, ap, ◌∙◌, ◌⊎◌, inl, inr, true, false, not, none, [], ◌∷◌,
  ◌++◌, arith, ◌==◌, if◌then◌else◌, Bool-cases, if_cases,
}
use mathlib.Core.Path.{subst}
use loopy.Prelude.Run.{Run, ok, ◌>>=◌, Returns, returns, Returns-map, Returns-bind, Returns-if}
use loopy.Prelude.Words.{word}
use loopy.Prelude.Chain.{
  Cells, read-ok, size, size-append, last, last-snoc, snoc_cases, Chain, Chain-nil, Chain-Link,
  last-rest, last-append, from_start, Chain-set,
}
use loopy.PubSub.{Entry, Subscription, Publication, Answers, IsFresh}
use loopy.PubSub.Queue.{entry_of, enqueue, is_queue, is_manual, free_entry, drop_head, ack, receive}
use loopy.PubSub.Fifo.{SameModes, Added, enqueue-first, enqueue-behind}
use loopy.PubSub.Acks.{absent, ack-Acked, ack-absent}

-- The head leads through blocks in use to NULL, the last pointer is NULL or leads to the last of
-- them, and they are at most as many as the counter says.
pub record IsSound (s : Subscription) : Type 0 where
  pub xs : Cells Entry
  pub chain : Chain s.blocks.entries s.queue_head xs
  pub tail : (s.queue_tail ≡ 0) ⊎ (s.queue_tail ≡ last xs)
  pub len : size xs ≤ s.queue_len
  pub small : s.queue_len < word

-- The calls that touch a queue.
pub data QueueCall : Type 0 where
  adds : Answers → Publication → QueueCall
  receives : QueueCall
  acknowledges : ℕ → QueueCall

abbrev pub step : QueueCall → Subscription → Run Subscription
step (adds f m) s = enqueue f m s
step receives s = receive s >>= λ (got, t). ok t
step (acknowledges sequence) s = ack s sequence >>= λ (found, t). ok t

-- A block for the entry is there and not in use, and the counter does not wrap.
abbrev pub Ready : QueueCall → Subscription → Type 0
Ready (adds f m) s = (f.entry ≢ 0) × IsFresh s.blocks f × (suc s.queue_len < word)
Ready receives s = Unit
Ready (acknowledges sequence) s = Unit

Added-IsSound :
    (f : Answers) (s : Subscription) (xs : Cells Entry)
    → size xs ≤ suc s.queue_len
    → suc s.queue_len < word
    → last xs ≡ f.entry
    → (t : Subscription) → Added f s xs t
    → IsSound t × SameModes s t
Added-IsSound f s xs few room at_end t d = (
  record {
    xs = xs;
    chain = d.chain;
    tail = inr (d.tail ∙ sym at_end);
    len = omega (arith, d.len);
    small = omega (arith, d.len);
  },
  d.modes,
)

longer :
    {n : ℕ} (ys : Cells Entry) (a b : ℕ) (v w : Entry)
    → size (ys ++ ((a, v) ∷ [])) ≤ n
    → size (ys ++ ((a, v) ∷ (b, w) ∷ [])) ≤ suc n
longer ys a b v w few =
    omega (arith, size-append ys ((a, v) ∷ []), size-append ys ((a, v) ∷ (b, w) ∷ []))

pub enqueue-IsSound :
    (f : Answers) (m : Publication) (s : Subscription)
    → IsSound s
    → f.entry ≢ 0
    → IsFresh s.blocks f
    → suc s.queue_len < word
    → Returns (λ t. IsSound t × SameModes s t) (enqueue f m s)
enqueue-IsSound f m s q given fresh room =
    let first : s.queue_tail ≡ 0 → Returns (λ t. IsSound t × SameModes s t) (enqueue f m s) =
      λ no_tail.
        Returns-map (enqueue-first f m s given fresh no_tail)
          (Added-IsSound f s ((f.entry, entry_of f m) ∷ []) (omega arith) room refl) in
    elim q.tail [
      | inl e ↦ first e
      | inr e ↦ elim (snoc_cases q.xs) [
        | inl n ↦ first (e ∙ ap last n)
        | inr (ys, a, v, x) ↦
            Returns-map
              (enqueue-behind f m s given fresh ys a v (rw x at q.chain)
                (e ∙ ap last x ∙ last-snoc ys a v))
              (Added-IsSound f s (ys ++ ((a, v) ∷ (f.entry, entry_of f m) ∷ []))
                (longer ys a f.entry v (entry_of f m) (rw x at q.len)) room
                (last-append ys (a, v) ((f.entry, entry_of f m) ∷ [])))
      ]
    ]

receive-IsSound_from :
    (s : Subscription) (xs : Cells Entry)
    → Chain s.blocks.entries s.queue_head xs
    → (s.queue_tail ≡ 0) ⊎ (s.queue_tail ≡ last xs)
    → size xs ≤ s.queue_len
    → IsSound s
    → Returns (λ (got, t). IsSound t) (receive s)
unfolding receive drop_head free_entry
receive-IsSound_from s [] c tail len q =
    let nothing : (s.queue_head == 0) ≡ true = let none_left = Chain-nil c in ground arith in
    Returns-if (not (is_queue s.delivery_mode)) (λ e. returns q) λ e. rw nothing (returns q)
receive-IsSound_from s ((a, v) ∷ xs) c tail len q =
    let l = from_start (Chain-Link c) in
    let some_head : (s.queue_head == 0) ≡ false = let ne = l.ne in ground arith in
    Returns-if (not (is_queue s.delivery_mode)) (λ e. returns q)
      λ e.
        rw (some_head, read-ok s.blocks.entries l.ne l.here)
          (returns (
            if_cases IsSound (is_manual s.ack_mode) (λ m. q)
              λ m. record {
                xs = xs;
                chain = Chain-set s.queue_head none l.rest l.out;
                tail = elim tail [
                  | inl e ↦ inl (rw e (ground arith))
                  | inr e ↦ inr (rw e (last-rest a v xs l.rest))
                ];
                len = omega (arith, q.small);
                small = omega arith;
              }))

receive-IsSound : (s : Subscription) → IsSound s → Returns (λ (got, t). IsSound t) (receive s)
receive-IsSound s q = receive-IsSound_from s q.xs q.chain q.tail q.len q

-- The first entry with a sequence number.
pub first_with :
    (sequence : ℕ) (xs : Cells Entry)
    → (absent sequence xs ≡ true)
      ⊎ ((ys : Cells Entry) × (b : ℕ) × (w : Entry) × (zs : Cells Entry) × (xs
            ≡ ys ++ ((b, w) ∷ zs))
          × (w.sequence ≡ sequence)
          × (absent sequence ys ≡ true))
first_with sequence [] = inl refl
first_with sequence ((a, v) ∷ xs) = elim (Bool-cases (v.sequence == sequence)) [
  | inl e ↦ inr ([], a, v, xs, refl, ground arith, refl)
  | inr e ↦ elim (first_with sequence xs) [
    | inl n ↦ inl (rw e n)
    | inr (ys, b, w, zs, x, hit, miss) ↦
        inr ((a, v) ∷ ys, b, w, zs, ap (◌∷◌ (a, v)) x, hit, rw e miss)
  ]
]

-- The last pointer without the entry at `b`.
tail_without :
    (tail : ℕ) (ys : Cells Entry) (b : ℕ) (w : Entry) (zs : Cells Entry)
    → (tail ≡ 0) ⊎ (tail ≡ last (ys ++ ((b, w) ∷ zs)))
    → ◌≡◌ {A = ℕ} (if tail == b then 0 else tail) 0
      ⊎ ◌≡◌ {A = ℕ} (if tail == b then 0 else tail) (last (ys ++ zs))
tail_without tail ys b w zs (inl e) = inl (rw e (ground arith))
tail_without tail ys b w [] (inr e) =
    let at_b : tail ≡ b = e ∙ last-snoc ys b w in inl (ground arith)
tail_without tail ys b w (z ∷ zs) (inr e) =
    let same : tail ≡ last (ys ++ (z ∷ zs)) =
      e ∙ last-append ys (b, w) (z ∷ zs) ∙ sym (last-append ys z zs) in
    elim (Bool-cases (tail == b)) [ inl hit ↦ inl (rw hit refl) | inr miss ↦ inr (rw miss same) ]

ack-other :
    (s : Subscription) (sequence : ℕ)
    → is_manual s.ack_mode ≡ false
    → IsSound s
    → Returns (λ (found, t). IsSound t) (ack s sequence)
unfolding ack
ack-other s sequence other q = rw other (returns q)

ack-IsSound :
    (s : Subscription) (sequence : ℕ)
    → IsSound s
    → Returns (λ (found, t). IsSound t) (ack s sequence)
ack-IsSound s sequence q = elim (Bool-cases (is_manual s.ack_mode)) [
  | inl manual ↦ elim (first_with sequence q.xs) [
    | inl none_has ↦ rw (ack-absent s manual sequence q.xs q.chain none_has q.len) (returns q)
    | inr (ys, b, w, zs, x, hit, miss) ↦
        subst (λ n. Returns (λ (found, t). IsSound t) (ack s n)) hit
          (Returns-map
            (ack-Acked s manual ys b w zs (rw x at q.chain)
              (subst (λ n. absent n ys ≡ true) (sym hit) miss)
              (omega (arith, size-append ys ((b, w) ∷ zs), rw x at q.len)))
            λ (found, t) (hits, chain, tail, len, modes). record {
              xs = ys ++ zs;
              chain = chain;
              tail = rw tail (tail_without s.queue_tail ys b w zs (rw x at q.tail));
              len = omega (
                arith,
                len,
                q.small,
                size-append ys zs,
                size-append ys ((b, w) ∷ zs),
                rw x at q.len,
              );
              small = omega (arith, len);
            })
  ]
  | inr other ↦ ack-other s sequence other q
]

-- Every call on a sound queue, an addition, a receipt or an acknowledgement, returns without an
-- access to NULL or to a block that is not in use, and leaves a sound queue, where an added entry
-- gets a block that is not in use and the counter does not wrap.
pub step-IsSound :
    (c : QueueCall) (s : Subscription) → IsSound s → Ready c s → Returns IsSound (step c s)
step-IsSound (adds f m) s q (given, fresh, room) =
    Returns-map (enqueue-IsSound f m s q given fresh room) λ t (sound, modes). sound
step-IsSound receives s q ready = Returns-bind (receive-IsSound s q) λ (got, t) r. returns r
step-IsSound (acknowledges sequence) s q ready =
    Returns-bind (ack-IsSound s sequence q) λ (found, t) r. returns r
