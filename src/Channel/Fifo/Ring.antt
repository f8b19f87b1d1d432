-- ===== src/Channel/Fifo/Ring.antt =====
-- src/loopyChannel.c: `spscTrySend` and `spscTryRecv` as calls on the list of the ring's elements.
use Prim.Native.Nat.{bit_and}
use mathlib.Core.List.{head-eq_of_cons-eq, tail-eq_of_cons-eq}
use loopy.Prelude.{
  ℕ, ◌+◌, ◌≡◌, refl, sym, ap, ◌∙◌, Bool, true, false, not, ◌&&◌, List, [], ◌∷◌, ◌++◌, arith, ltb,
  ◌==◌, if◌then◌else◌,
}
use loopy.Prelude.Run.{ok, Returns, returns, Returns-map, Returns-if, ◌>>=◌}
use loopy.Prelude.Array.{store, load}
use loopy.Prelude.Words.{add_word}
use loopy.Prelude.Ring.{length, length-stamps}
use loopy.Channel.Fifo.Moves.{
  RingHolds, RingHolds-of, SameRing, RoomFound, ElementFound, find_room-RoomFound,
  find_element-ElementFound, push-Holds, pop-Holds,
}
use loopy.Channel.{Status, Received}
use loopy.Channel.Spsc.{Spsc, find_room, spsc_try_send, find_element, spsc_try_recv, spsc_len}
use loopy.Channel.Spsc.Invariant.{slot, IsRing, contents, in_word}

module _ {A : Type 0} where
  module _ (cap size : ℕ) (l : List A) where
    -- The ring takes an element of its size while it has fewer than its capacity.
    abbrev pub accepts : ℕ → Bool
    accepts len = (len == size) && ltb (length l) cap

    abbrev pub SendHolds : A → ℕ → Bool × Spsc A → Type 0
    SendHolds v len (sent, s) =
        (sent ≡ accepts len) × RingHolds cap size s (if accepts len then l ++ (v ∷ []) else l)

    RingHolds-length : (s : Spsc A) (h : RingHolds cap size s l) → length l ≡ h.n
    RingHolds-length s h =
        ap length (sym h.holds) ∙ length-stamps s.buffer.cell (s.mask + 1) (slot s s.tail) h.n

    pub spsc_len-length : (s : Spsc A) → RingHolds cap size s l → spsc_len s ≡ length l
    unfolding spsc_len
    spsc_len-length s h = omega (
      arith,
      h.ring_ok.head_at,
      h.ring_ok.tail_word,
      in_word s h.n h.m h.c h.ring_ok,
      RingHolds-length s h,
    )

    pub spsc_try_send-Holds :
        (v : A) (len : ℕ) (s : Spsc A)
        → RingHolds cap size s l
        → Returns (SendHolds v len) (spsc_try_send s v len)
    unfolding spsc_try_send
    spsc_try_send-Holds v len s h =
        Returns-if (not (len == s.element_size)) (λ e. returns (rw (refused e) (refl, h)))
          (λ e. searched e (find_room s) (find_room-RoomFound s h.n h.m h.c h.ring_ok))
      where
        refused : not (len == s.element_size) ≡ true → accepts len ≡ false
        refused e = ground (arith, e, h.size_is)

        searched :
            not (len == s.element_size) ≡ false
            → (p : Bool × Spsc A) → RoomFound s h.n h.m h.c h.ring_ok p
            → Returns (SendHolds v len) (
                let (room, s') = p in
                if room
                then (do
                  b ← store s'.buffer (bit_and s'.head s'.mask) v
                  ok (true, record s' { buffer = b; head = add_word s'.head 1 }))
                else ok (false, s'))
        searched e (room, s') (found, same, (m', r', more)) =
            Returns-if room
              (λ t. Returns-map (push-Holds s' h.n m' h.c r' v (more t)) (λ (b, s'') (sent, h').
                rw (accepted t) (
                  sent,
                  RingHolds-of (same.capacity_same ∙ h.capacity_is) (same.size_same ∙ h.size_is)
                      (ap (λ x. x ++ (v ∷ [])) (same.holds_same ∙ h.holds)) h',
                )))
              (λ t. returns (
                rw (declined t) (
                  refl,
                  record {
                    capacity_is = same.capacity_same ∙ h.capacity_is;
                    size_is = same.size_same ∙ h.size_is;
                    n = h.n;
                    m = m';
                    c = h.c;
                    ring_ok = r';
                    holds = same.holds_same ∙ h.holds;
                  },
                )))
          where
            accepted : room ≡ true → accepts len ≡ true
            accepted t = ground (arith, e, h.size_is, t, found, RingHolds-length s h, h.capacity_is)

            declined : room ≡ false → accepts len ≡ false
            declined t = ground (arith, t, found, RingHolds-length s h, h.capacity_is)

    -- What a receiver gets of the list, and what is left of it
    abbrev pub oldest : List A → Received A × List A
    oldest [] = (Received.failed Status.empty, [])
    oldest (x ∷ xs) = (Received.bytes x, xs)

    abbrev pub received : ℕ → Received A × List A
    received len = if ltb len size then (Received.failed Status.invalid, l) else oldest l

    abbrev pub RecvHolds : ℕ → Received A × Spsc A → Type 0
    RecvHolds len (r, s) = (r ≡ (received len).0) × RingHolds cap size s ((received len).1)

    pub spsc_try_recv-Holds :
        (len : ℕ) (s : Spsc A)
        → RingHolds cap size s l
        → Returns (RecvHolds len) (spsc_try_recv s len)
    unfolding spsc_try_recv
    spsc_try_recv-Holds len s h =
        Returns-if (ltb len s.element_size) (λ e. returns (rw (tested ∙ e) (refl, h)))
          (λ e.
            Returns-map
              (searched l h.holds (RingHolds-length s h) (find_element s)
                (find_element-ElementFound s h.n h.m h.c h.ring_ok))
              (λ r' p. rw (tested ∙ e) p))
      where
        tested : ltb len size ≡ ltb len s.element_size
        tested = ap (λ x. ltb len x) (sym h.size_is)

        same_list :
            (s' : Spsc A)
            → SameRing s s' h.n
            → (c' : ℕ) → IsRing s' h.n h.m c'
            → {k : List A} → contents s h.n ≡ k
            → RingHolds cap size s' k
        same_list s' same c' r' e = record {
          capacity_is = same.capacity_same ∙ h.capacity_is;
          size_is = same.size_same ∙ h.size_is;
          n = h.n;
          m = h.m;
          c = c';
          ring_ok = r';
          holds = same.holds_same ∙ e;
        }

        searched :
            (k : List A)
            → contents s h.n ≡ k
            → length k ≡ h.n
            → (p : Bool × Spsc A) → ElementFound s h.n h.m h.c h.ring_ok p
            → Returns
                (λ (r' : Received A × Spsc A).
                  (r'.0 ≡ (oldest k).0) × RingHolds cap size (r'.1) ((oldest k).1))
                (let (present, s') = p in
                  if present
                  then (do
                    v ← load s'.buffer (bit_and s'.tail s'.mask)
                    ok (Received.bytes v, record s' { tail = add_word s'.tail 1 }))
                  else ok (Received.failed Status.empty, s'))
        searched [] e z (present, s') (found, same, (c', r', more)) =
            Returns-if present (λ t. absurd (ground (arith, t, found, z)))
              (λ t. returns (refl, same_list s' same c' r' e))
        searched (x ∷ xs) e z (present, s') (found, same, (c', r', more)) =
            Returns-if present
              (λ t.
                Returns-map (pop-Holds s' h.n h.m c' r' (more t))
                  (λ (b, s'') (y, ys, shape, is_y, h'). (
                    is_y
                        ∙ ap (λ o. Received.bytes o)
                            (head-eq_of_cons-eq (sym shape ∙ same.holds_same ∙ e)),
                    RingHolds-of (same.capacity_same ∙ h.capacity_is) (same.size_same ∙ h.size_is)
                        (tail-eq_of_cons-eq (sym shape ∙ same.holds_same ∙ e)) h',
                  )))
              (λ t. absurd (ground (arith, t, found, z)))
