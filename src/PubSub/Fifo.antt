-- ===== src/PubSub/Fifo.antt =====
-- src/loopyPubSub.c: the queue of a subscription holds what was published, in that order.
use loopy.Prelude.{
  ℕ, suc, ◌<◌, ◌≡◌, ◌≢◌, refl, sym, ap, ◌∙◌, inl, inr, true, false, none, some, [], ◌∷◌, ◌++◌,
  arith, ◌==◌,
}
use loopy.Prelude.Run.{ok, Returns, returns, Returns-map}
use loopy.Prelude.Words.{word, add_word}
use loopy.Prelude.Lists.{++-assoc}
use loopy.Prelude.Chain.{
  Node, Store, Cells, node, set, set-same, set-other, read-ok, size, size-append, last, last-snoc,
  snoc_cases, Chain, Chain-nil, Chain-Link, last-rest, end, link, Chain-set, Chain-snoc, Chain-last,
}
use loopy.PubSub.{deliver_queue, Entry, Subscription, Publication, Answers, IsFresh}
use loopy.PubSub.Queue.{
  entry_of, new_entry, free_entry, set_next, enqueue, is_manual, message_of, drop_head, receive,
}

-- The entries of a queue are `xs`, in order, and the fields of the queue agree with them.
pub record IsQueue (s : Subscription) (xs : Cells Entry) : Type 0 where
  pub chain : Chain s.blocks.entries s.queue_head xs
  pub tail : s.queue_tail ≡ last xs
  pub len : s.queue_len ≡ size xs
  pub small : s.queue_len < word

-- The pattern and the two modes are those of `s`.
pub record SameModes (s t : Subscription) : Type 0 where
  pub named : t.pattern ≡ s.pattern
  pub delivery : t.delivery_mode ≡ s.delivery_mode
  pub acks : t.ack_mode ≡ s.ack_mode

-- What `enqueue` makes of `s`: the list of entries is `xs`, the last of which is the new one.
pub record Added (f : Answers) (s : Subscription) (xs : Cells Entry) (t : Subscription)
    : Type 0 where
  pub chain : Chain t.blocks.entries t.queue_head xs
  pub tail : t.queue_tail ≡ f.entry
  pub len : t.queue_len ≡ add_word s.queue_len 1
  pub modes : SameModes s t

module _ (f : Answers) (m : Publication) (s : Subscription) (given : f.entry ≢ 0)
    (fresh : IsFresh s.blocks f) where
  -- without a last entry the new one becomes the head
  pub enqueue-first :
      s.queue_tail ≡ 0 → Returns (Added f s ((f.entry, entry_of f m) ∷ [])) (enqueue f m s)
  unfolding enqueue new_entry
  enqueue-first no_tail =
      let first : (s.queue_tail == 0) ≡ true = ground arith in
      rw first (
        returns (record {
          chain =
              link given (set-same s.blocks.entries f.entry (some (node 0 (entry_of f m)))) refl
                end;
          tail = refl;
          len = refl;
          modes = record { named = refl; delivery = refl; acks = refl };
        }))

  pub enqueue-behind :
      (ys : Cells Entry) (a : ℕ) (v : Entry)
      → Chain s.blocks.entries s.queue_head (ys ++ ((a, v) ∷ []))
      → s.queue_tail ≡ a
      → Returns (Added f s (ys ++ ((a, v) ∷ (f.entry, entry_of f m) ∷ []))) (enqueue f m s)
  unfolding enqueue new_entry set_next
  enqueue-behind ys a v c at_a =
      let h : Store (Node Entry) = set s.blocks.entries f.entry (some (node 0 (entry_of f m))) in
      let (ne, e) = Chain-last ys a v c in
      let apart : (s.queue_tail == 0) ≡ false = ground arith in
      let other : a ≢ f.entry = λ same. let gone = fresh.entry_free in cc in
      let still : h a ≡ some (node 0 v) =
        set-other s.blocks.entries (some (node 0 (entry_of f m))) other ∙ e in
      rw (apart, at_a, read-ok h ne still)
        (returns (record {
          chain = Chain-snoc ys a f.entry v (entry_of f m) c given fresh.entry_free;
          tail = refl;
          len = refl;
          modes = record { named = refl; delivery = refl; acks = refl };
        }))

  Added-IsQueue :
      (xs : Cells Entry) {t : Subscription}
      → s.queue_len ≡ size xs
      → suc s.queue_len < word
      → Added f s (xs ++ ((f.entry, entry_of f m) ∷ [])) t
      → IsQueue t (xs ++ ((f.entry, entry_of f m) ∷ [])) × SameModes s t
  Added-IsQueue xs {t} len room d = (
    record {
      chain = d.chain;
      tail = d.tail ∙ sym (last-snoc xs f.entry (entry_of f m));
      len = omega (arith, d.len, size-append xs ((f.entry, entry_of f m) ∷ []));
      small = omega (arith, d.len);
    },
    d.modes,
  )

  pub enqueue-IsQueue :
      (xs : Cells Entry)
      → IsQueue s xs
      → suc s.queue_len < word
      → Returns
          (λ t. IsQueue t (xs ++ ((f.entry, entry_of f m) ∷ [])) × SameModes s t)
          (enqueue f m s)
  enqueue-IsQueue xs q room = elim (snoc_cases xs) [
    | inl e ↦
        Returns-map (enqueue-first (q.tail ∙ ap last e)) λ t d. Added-IsQueue xs q.len room (rw e d)
    | inr (ys, a, v, e) ↦
        Returns-map
          (enqueue-behind ys a v (rw e at q.chain) (q.tail ∙ ap last e ∙ last-snoc ys a v))
          λ t d.
            Added-IsQueue xs q.len room
              (rw (e, ++-assoc ys ((a, v) ∷ []) ((f.entry, entry_of f m) ∷ [])) d)
  ]

-- `loopySubscriptionReceive` where a message leaves the queue: what it returns, and the queue then.
module _ (s : Subscription) (queued : s.delivery_mode ≡ deliver_queue) where
  pub receive-empty : IsQueue s [] → receive s ≡ ok (none, s)
  unfolding receive
  receive-empty q =
      let nothing : (s.queue_head == 0) ≡ true = rw (Chain-nil q.chain) refl in
      rw (queued, nothing) refl

  pub receive-IsQueue :
      (a : ℕ) (v : Entry) (xs : Cells Entry)
      → IsQueue s ((a, v) ∷ xs)
      → is_manual s.ack_mode ≡ false
      → Returns (λ (got, t). (got ≡ some (message_of v)) × IsQueue t xs × SameModes s t) (receive s)
  unfolding receive drop_head free_entry
  receive-IsQueue a v xs q auto =
      let l = Chain-Link q.chain in
      let some_head : (s.queue_head == 0) ≡ false =
        let ne = l.ne in let start = l.start in ground arith in
      rw (queued, some_head, l.start, read-ok s.blocks.entries l.ne l.here, auto)
        (returns (
          refl,
          record {
            chain = Chain-set a none l.rest l.out;
            tail = rw q.tail (last-rest a v xs l.rest);
            len = omega (arith, q.len, q.small);
            small = omega arith;
          },
          record { named = refl; delivery = refl; acks = refl },
        ))
