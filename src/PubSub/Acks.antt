-- ===== src/PubSub/Acks.antt =====
-- src/loopyPubSub.c: `loopySubscriptionAck`, which takes the entry with a sequence number out of the
-- queue.
use loopy.Prelude.{
  ℕ, zero, suc, ◌≤◌, ◌<◌, ◌≡◌, ◌≢◌, refl, ◌∙◌, Bool, true, false, none, some, [], ◌∷◌, ◌++◌, arith,
  ◌==◌, if◌then◌else◌,
}
use loopy.Prelude.Run.{ok, Returns, returns, Returns-map}
use loopy.Prelude.Words.{sub_word}
use loopy.Prelude.Chain.{
  Node, Store, Cells, node, set, set-same, set-other, read-ok, size, holds, holds-middle, Chain,
  Chain-Link, Link, end, link, Chain-set,
}
use loopy.PubSub.{Entry, Subscription}
use loopy.PubSub.Queue.{free_entry, set_next, is_manual, unlink, take_entry, ack_loop, ack}
use loopy.PubSub.Fifo.{SameModes}

-- No entry has the sequence number.
abbrev pub absent : ℕ → Cells Entry → Bool
absent sequence [] = true
absent sequence ((a, v) ∷ xs) = if v.sequence == sequence then false else absent sequence xs

-- The walk comes to NULL, and nothing has changed.
ack_loop-absent :
    (sequence prev : ℕ) (s : Subscription) (k p : ℕ) (xs : Cells Entry)
    → Chain s.blocks.entries p xs
    → absent sequence xs ≡ true
    → size xs < k
    → ack_loop k sequence prev p s ≡ ok (false, s)
unfolding ack_loop
ack_loop-absent sequence prev s zero p xs c miss fuel = absurd (omega arith)
ack_loop-absent sequence prev s (suc k) p [] end miss fuel = refl
ack_loop-absent sequence prev s (suc k) p ((a, v) ∷ xs) (link ne e out c) miss fuel =
    let apart : (a == 0) ≡ false = ground arith in
    let other : (v.sequence == sequence) ≡ false = ground arith in
    rw (apart, read-ok s.blocks.entries ne e, other)
      (ack_loop-absent sequence a s k _ xs c (rw other at miss) (omega arith))

abbrev from_itself :
    {h : Store (Node Entry)} {p a : ℕ} {v : Entry} {xs : Cells Entry}
    → Link h p a v xs
    → Link h a a v xs
from_itself l = record {
  start = refl;
  ne = l.ne;
  next = l.next;
  here = l.here;
  out = l.out;
  rest = l.rest;
}

-- `s` without the entry at `b`: the list from `start` is `left`, and the entries that are neither in
-- `left` nor `b` are as they were.
record Removed (s : Subscription) (b start : ℕ) (left : Cells Entry) (t : Subscription)
    : Type 0 where
  chain : Chain t.blocks.entries start left
  same : (a : ℕ) → holds a left ≡ false → a ≢ b → t.blocks.entries a ≡ s.blocks.entries a
  head : t.queue_head ≡ s.queue_head
  tail : t.queue_tail ≡ (if s.queue_tail == b then 0 else s.queue_tail)
  len : t.queue_len ≡ sub_word s.queue_len 1
  modes : SameModes s t

module _ (sequence : ℕ) (b : ℕ) (w : Entry) (zs : Cells Entry) (hit : w.sequence ≡ sequence) where
  -- The entry is the next one behind `prev`.
  take_entry-Removed :
      (s : Subscription) (prev : ℕ) (u : Entry)
      → prev ≢ 0
      → s.blocks.entries prev ≡ some (node b u)
      → holds prev ((b, w) ∷ zs) ≡ false
      → (l : Link s.blocks.entries b b w zs)
      → Returns
          (λ (found, t). (found ≡ true) × Removed s b prev ((prev, u) ∷ zs) t)
          (take_entry prev b (node l.next w) s)
  unfolding take_entry unlink set_next free_entry
  take_entry-Removed s prev u ne e out l =
      let h : Store (Node Entry) = set s.blocks.entries prev (some (node l.next u)) in
      let apart : (prev == 0) ≡ false = ground arith in
      let other : prev ≢ b = ground arith in
      let spared : holds prev zs ≡ false = ground arith in
      rw (apart, read-ok s.blocks.entries ne e)
        (returns (
          refl,
          record {
            chain =
                link ne
                  (set-other h none other ∙ set-same s.blocks.entries prev (some (node l.next u)))
                  spared
                  (Chain-set b none (Chain-set prev (some (node l.next u)) l.rest spared) l.out);
            same = λ a o n.
                set-other h none n
                ∙ set-other s.blocks.entries (some (node l.next u)) (ground arith);
            head = refl;
            tail = refl;
            len = refl;
            modes = record { named = refl; delivery = refl; acks = refl };
          },
        ))

  -- One node more before the list.
  Removed-cons :
      (s t : Subscription) (prev : ℕ) (u : Entry) (a : ℕ) (v : Entry) (ys : Cells Entry)
      → prev ≢ 0
      → s.blocks.entries prev ≡ some (node a u)
      → holds prev ((a, v) ∷ (ys ++ ((b, w) ∷ zs))) ≡ false
      → Removed s b a ((a, v) ∷ (ys ++ zs)) t
      → Removed s b prev ((prev, u) ∷ (a, v) ∷ (ys ++ zs)) t
  Removed-cons s t prev u a v ys ne e out r =
      let (spared, other) = holds-middle prev ((a, v) ∷ ys) b w zs out in
      record {
        chain = link ne (r.same prev spared other ∙ e) spared r.chain;
        same = λ c o n. r.same c (ground arith) n;
        head = r.head;
        tail = r.tail;
        len = r.len;
        modes = r.modes;
      }

  -- The walk from behind the entry `prev`.
  ack_loop-Removed :
      (ys : Cells Entry) (s : Subscription) (k prev p : ℕ) (u : Entry)
      → prev ≢ 0
      → s.blocks.entries prev ≡ some (node p u)
      → holds prev (ys ++ ((b, w) ∷ zs)) ≡ false
      → Chain s.blocks.entries p (ys ++ ((b, w) ∷ zs))
      → absent sequence ys ≡ true
      → size ys < k
      → Returns
          (λ (found, t). (found ≡ true) × Removed s b prev ((prev, u) ∷ (ys ++ zs)) t)
          (ack_loop k sequence prev p s)
  unfolding ack_loop
  ack_loop-Removed ys s zero prev p u ne e out c miss fuel = absurd (omega arith)
  ack_loop-Removed [] s (suc k) prev p u ne e out c miss fuel =
      let l = Chain-Link c in
      let apart : (b == 0) ≡ false = let nb = l.ne in ground arith in
      let found : (w.sequence == sequence) ≡ true = rw hit (ground arith) in
      rw (l.start, apart, read-ok s.blocks.entries l.ne l.here, found)
        (take_entry-Removed s prev u ne (rw l.start at e) out (from_itself l))
  ack_loop-Removed ((a, v) ∷ ys) s (suc k) prev p u ne e out c miss fuel =
      let l = Chain-Link c in
      let apart : (a == 0) ≡ false = let na = l.ne in ground arith in
      let other : (v.sequence == sequence) ≡ false = ground arith in
      rw (l.start, apart, read-ok s.blocks.entries l.ne l.here, other)
        (Returns-map
          (ack_loop-Removed ys s k a l.next v l.ne l.here l.out l.rest (rw other at miss)
            (omega arith))
          λ (found, t) (hits, r). (hits, Removed-cons s t prev u a v ys ne (rw l.start at e) out r))

-- What an acknowledgement that finds the entry at `b` answers, and the queue then.
abbrev pub Acked : Subscription → ℕ → Cells Entry → Bool × Subscription → Type 0
Acked s b left (found, t) =
    (found ≡ true)
    × Chain t.blocks.entries t.queue_head left
    × (t.queue_tail ≡ (if s.queue_tail == b then 0 else s.queue_tail))
    × (t.queue_len ≡ sub_word s.queue_len 1)
    × SameModes s t

module _ (s : Subscription) where
  ack_loop-Acked :
      (p : ℕ) (ys : Cells Entry) (b : ℕ) (w : Entry) (zs : Cells Entry) (k : ℕ)
      → s.queue_head ≡ p
      → Chain s.blocks.entries p (ys ++ ((b, w) ∷ zs))
      → absent w.sequence ys ≡ true
      → size ys ≤ k
      → Returns (Acked s b (ys ++ zs)) (ack_loop (suc k) w.sequence 0 p s)
  unfolding ack_loop take_entry unlink free_entry
  ack_loop-Acked p [] b w zs k start c miss fuel =
      let l = Chain-Link c in
      let apart : (b == 0) ≡ false = let nb = l.ne in ground arith in
      let found : (w.sequence == w.sequence) ≡ true = ground arith in
      rw (l.start, apart, read-ok s.blocks.entries l.ne l.here, found)
        (returns (
          refl,
          Chain-set b none l.rest l.out,
          refl,
          refl,
          record { named = refl; delivery = refl; acks = refl },
        ))
  ack_loop-Acked p ((a, v) ∷ ys) b w zs k start c miss fuel =
      let l = Chain-Link c in
      let apart : (a == 0) ≡ false = let na = l.ne in ground arith in
      let other : (v.sequence == w.sequence) ≡ false = ground arith in
      rw (l.start, apart, read-ok s.blocks.entries l.ne l.here, other)
        (Returns-map
          (ack_loop-Removed w.sequence b w zs refl ys s k a l.next v l.ne l.here l.out l.rest
            (rw other at miss) (omega arith))
          λ (found, t) (hits, r).
            (hits, rw (r.head, start, l.start) r.chain, r.tail, r.len, r.modes))

  -- An acknowledgement takes out the first entry that has the sequence number, and no other.
  pub ack-Acked :
      is_manual s.ack_mode ≡ true
      → (ys : Cells Entry) (b : ℕ) (w : Entry) (zs : Cells Entry)
      → Chain s.blocks.entries s.queue_head (ys ++ ((b, w) ∷ zs))
      → absent w.sequence ys ≡ true
      → size ys ≤ s.queue_len
      → Returns (Acked s b (ys ++ zs)) (ack s w.sequence)
  unfolding ack
  ack-Acked manual ys b w zs c miss fuel =
      rw manual (ack_loop-Acked s.queue_head ys b w zs s.queue_len refl c miss fuel)

  -- One of a sequence number that no entry has answers false and changes nothing.
  pub ack-absent :
      is_manual s.ack_mode ≡ true
      → (sequence : ℕ) (xs : Cells Entry) → Chain s.blocks.entries s.queue_head xs
      → absent sequence xs ≡ true
      → size xs ≤ s.queue_len
      → ack s sequence ≡ ok (false, s)
  unfolding ack
  ack-absent manual sequence xs c miss fuel =
      rw manual
        (ack_loop-absent sequence 0 s (suc s.queue_len) s.queue_head xs c miss (omega arith))
