-- ===== src/Channel/Fifo/Queue.antt =====
-- src/loopyChannel.c: `mpmcTrySend` and `mpmcTryRecv` as calls on the list of the queue's elements.
use loopy.Prelude.{
  ℕ, ◌≡◌, refl, sym, ap, ◌∙◌, true, false, not, List, [], ◌∷◌, ◌++◌, arith, ltb, ◌==◌,
  if◌then◌else◌,
}
use mathlib.Core.Bool.{true≢false}
use loopy.Prelude.Run.{Run, out_of_fuel, Returns, returns, Returns-bind, Returns-if, ◌>>=◌}
use loopy.Prelude.Ring.{length, length-stamps}
use loopy.Channel.{ChannelType, Status, Received}
use loopy.Channel.Mpmc.{Mpmc, Turn, mpmc_send_turn, mpmc_recv_turn}
use loopy.Channel.Mpmc.Queue.{
  IsQueue, contents, SendPost, RecvPost, mpmc_send_turn-Post, mpmc_recv_turn-Post,
}
use loopy.Channel.State.{Channel}
use loopy.Channel.Calls.{
  end_turn, mpmc_try_send, mpmc_try_recv, mpmc_send, mpmc_recv, mpmc_send_loop, mpmc_recv_loop,
}
use loopy.Channel.Fifo.{wrong_length, nothing_left, fifo_send, fifo_recv}

module _ {A : Type 0} where
  -- A queue of `cap` elements of `size` bytes that holds `l`
  pub record QueueHolds (cap size : ℕ) (q : Mpmc A) (l : List A) : Type 0 where
    pub capacity_is : q.capacity ≡ cap
    pub size_is : q.element_size ≡ size
    pub queue_ok : IsQueue q
    pub holds : contents q ≡ l

  pub QueueHolds-length :
      (cap size : ℕ) (q : Mpmc A) (l : List A) → QueueHolds cap size q l → q.count ≡ length l
  QueueHolds-length cap size q l h =
      sym (length-stamps q.buffer.cell q.capacity q.tail q.count) ∙ ap length h.holds

  module _ (cap size : ℕ) (ch : Channel A) (l : List A) (h : QueueHolds cap size ch.mpmc l) where
    -- The answer to a call is the one of the specification, and the queue holds what it leaves.
    abbrev pub Agrees : {X : Type 0} → X × List A → X × Channel A → Type 0
    Agrees (x, k) (y, ch') =
        (q : Mpmc A) × (y ≡ x) × (ch' ≡ record ch { mpmc = q }) × QueueHolds cap size q k

    count_is : ch.mpmc.count ≡ length l
    count_is = QueueHolds-length cap size ch.mpmc l h

    abbrev may_send : A → Status × List A
    may_send v = if ltb (length l) cap then (Status.ok, l ++ (v ∷ [])) else (Status.full, l)

    end_send_turn-Agrees :
        (v : A) (go_on : Channel A → Run (Status × Channel A)) (r : Turn Status × Mpmc A)
        → ch.closed ≡ false
        → SendPost ch.closed false v ch.mpmc (r.0) (r.1)
        → Returns (Agrees (may_send v)) (end_turn ch go_on r)
    end_send_turn-Agrees v go_on (t, q) o (SendPost.is_closed e) = absurd (true≢false (sym e ∙ o))
    end_send_turn-Agrees v go_on (t, q) o (SendPost.is_full e b more) =
        returns (rw no_room (ch.mpmc, refl, refl, h))
      where
        no_room : ltb (length l) cap ≡ false
        no_room = ground (arith, more, h.capacity_is, count_is)
    end_send_turn-Agrees v go_on (t, q) o (SendPost.waits e b more) = absurd (true≢false (sym b))
    end_send_turn-Agrees v go_on (t, q) o (SendPost.stored e less j c z more) = returns (
        rw room (
          q,
          refl,
          refl,
          record {
            capacity_is = c ∙ h.capacity_is;
            size_is = z ∙ h.size_is;
            queue_ok = j;
            holds = more ∙ ap (λ x. x ++ (v ∷ [])) h.holds;
          },
        ))
      where
        room : ltb (length l) cap ≡ true
        room = ground (arith, less, h.capacity_is, count_is)

    abbrev may_recv : List A → Received A × List A
    may_recv [] = (Received.failed (if ch.closed then Status.closed else Status.empty), [])
    may_recv (x ∷ xs) = (Received.bytes x, xs)

    none_left :
        (k : List A)
        → length k ≡ 0
        → may_recv k ≡ (Received.failed (if ch.closed then Status.closed else Status.empty), k)
    none_left [] e = refl
    none_left (x ∷ xs) e = absurd (omega (arith, e))

    end_recv_turn-Agrees :
        (go_on : Channel A → Run (Received A × Channel A)) (r : Turn (Received A) × Mpmc A)
        → RecvPost ch.closed false ch.mpmc (r.0) (r.1)
        → Returns (Agrees (may_recv l)) (end_turn ch go_on r)
    end_recv_turn-Agrees go_on (t, q) (RecvPost.is_closed e z) =
        returns (rw (none_left l (sym count_is ∙ z), e) (ch.mpmc, refl, refl, h))
    end_recv_turn-Agrees go_on (t, q) (RecvPost.is_empty e z) =
        returns (rw (none_left l (sym count_is ∙ z), e) (ch.mpmc, refl, refl, h))
    end_recv_turn-Agrees go_on (t, q) (RecvPost.waits e b z) = absurd (true≢false (sym b))
    end_recv_turn-Agrees go_on (t, q) (RecvPost.taken v j c z less) = returns (
        rw (ap may_recv (sym h.holds ∙ less)) (
          q,
          refl,
          refl,
          record {
            capacity_is = c ∙ h.capacity_is;
            size_is = z ∙ h.size_is;
            queue_ok = j;
            holds = refl;
          },
        ))

    sending :
        (v : A)
        → ch.closed ≡ false
        → (go_on : Channel A → Run (Status × Channel A))
        → Returns
            (Agrees (may_send v))
            (mpmc_send_turn ch.closed false v ch.mpmc >>= end_turn ch go_on)
    sending v o go_on =
        Returns-bind (mpmc_send_turn-Post ch.mpmc h.queue_ok ch.closed false v)
          (λ r p. end_send_turn-Agrees v go_on r o p)

    receiving :
        (go_on : Channel A → Run (Received A × Channel A))
        → Returns
            (Agrees (may_recv l))
            (mpmc_recv_turn ch.closed false ch.mpmc >>= end_turn ch go_on)
    receiving go_on =
        Returns-bind (mpmc_recv_turn-Post ch.mpmc h.queue_ok ch.closed false)
          (λ r p. end_recv_turn-Agrees go_on r p)

    module _ (t : ChannelType) (wrong : wrong_length t ≡ Status.invalid) where
      fifo_send-wrong :
          (v : A) (len : ℕ)
          → ch.closed ≡ false
          → not (len == ch.mpmc.element_size) ≡ true
          → fifo_send t cap size ch.closed l v len ≡ (Status.invalid, l)
      unfolding fifo_send
      fifo_send-wrong v len o e = rw (o, sym h.size_is, e, wrong) refl

      fifo_send-right :
          (v : A) (len : ℕ)
          → ch.closed ≡ false
          → not (len == ch.mpmc.element_size) ≡ false
          → fifo_send t cap size ch.closed l v len ≡ may_send v
      unfolding fifo_send
      fifo_send-right v len o e = rw (o, sym h.size_is, e) refl

      pub mpmc_try_send-Agrees :
          (v : A) (len : ℕ)
          → ch.closed ≡ false
          → Returns (Agrees (fifo_send t cap size ch.closed l v len)) (mpmc_try_send v len ch)
      unfolding mpmc_try_send mpmc_send mpmc_send_loop
      mpmc_try_send-Agrees v len o =
          Returns-if (not (len == ch.mpmc.element_size))
            (λ e. returns (rw (fifo_send-wrong v len o e) (ch.mpmc, refl, refl, h)))
            (λ e. rw (fifo_send-right v len o e) (sending v o (λ _. out_of_fuel)))

    module _ (t : ChannelType)
        (none_left_is : nothing_left t ch.closed
          ≡ (if ch.closed then Status.closed else Status.empty)) where
      fifo_recv-wrong :
          (len : ℕ)
          → ltb len ch.mpmc.element_size ≡ true
          → fifo_recv t cap size ch.closed l len ≡ (Received.failed Status.invalid, l)
      unfolding fifo_recv
      fifo_recv-wrong len e = rw (sym h.size_is, e) refl

      fifo_recv-right :
          (len : ℕ)
          → ltb len ch.mpmc.element_size ≡ false
          → fifo_recv t cap size ch.closed l len ≡ may_recv l
      unfolding fifo_recv
      fifo_recv-right len e =
          ap (λ b. if b then (Received.failed Status.invalid, l) else oldest_of l)
            (ap (ltb len) (sym h.size_is) ∙ e)
          ∙ oldest_is l
        where
          oldest_of : List A → Received A × List A
          oldest_of k = elim k [
            | [] ↦ (Received.failed (nothing_left t ch.closed), [])
            | x ∷ xs ↦ (Received.bytes x, xs)
          ]

          oldest_is : (k : List A) → oldest_of k ≡ may_recv k
          oldest_is [] = ap (λ s. (Received.failed s, [])) none_left_is
          oldest_is (x ∷ xs) = refl

      pub mpmc_try_recv-Agrees :
          (len : ℕ) → Returns (Agrees (fifo_recv t cap size ch.closed l len)) (mpmc_try_recv len ch)
      unfolding mpmc_try_recv mpmc_recv mpmc_recv_loop
      mpmc_try_recv-Agrees len =
          Returns-if (ltb len ch.mpmc.element_size)
            (λ e. returns (rw (fifo_recv-wrong len e) (ch.mpmc, refl, refl, h)))
            (λ e. rw (fifo_recv-right len e) (receiving (λ _. out_of_fuel)))
