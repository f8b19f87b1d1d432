-- ===== src/Channel/Async/Order.antt =====
-- src/loopyChannel.c: the order in which `asyncHandler` makes the sends that are pending.
use mathlib.Core.List.{reverse, reverse_aux}
use mathlib.Core.Path.{subst}
use mathlib.Core.Bool.{true≢false}
use loopy.Prelude.{
  ℕ, ◌+◌, ◌≤◌, ◌<◌, ◌≡◌, refl, sym, ap, ◌∙◌, Bool, true, false, ◌&&◌, Option, none, some, List, [],
  ◌∷◌, ◌++◌, arith, ltb, ◌==◌, if_cases,
}
use loopy.Prelude.Lists.{++-assoc, ++-nil}
use loopy.Prelude.Run.{Returns, returns, Returns-bind}
use loopy.Prelude.Ring.{length, length-snoc}
use loopy.Channel.{ChannelType, Status}
use loopy.Channel.State.{Channel, PendingOp}
use loopy.Channel.Fifo.{fifo_send}
use loopy.Channel.Fifo.Refine.{Represents, try_send-After}
use loopy.Channel.Async.{Called, send_async, call_back, run_op, run_ops, async_handler}

length-reverse_aux {ℓ} :
    {A : Type ℓ} (l r : List A) → length (reverse_aux l r) ≡ length l + length r
length-reverse_aux [] r = omega arith
length-reverse_aux (x ∷ xs) r = omega (arith, length-reverse_aux xs (x ∷ r))

module _ {A : Type 0} (size user_data : ℕ) (cb : Option ℕ) where
  -- `loopyChannelSendAsync` for one element after the other, with the same callback
  abbrev pub queue_sends : List A → Channel A → Channel A
  queue_sends [] ch = ch
  queue_sends (v ∷ vs) ch = queue_sends vs ((send_async true true v size cb user_data ch).1)

  abbrev sends : List A → List (PendingOp A)
  sends [] = []
  sends (v ∷ vs) = PendingOp.send v size cb user_data ∷ sends vs

  asked :
      (v : A) (ch : Channel A)
      → ch.has_async ≡ true
      → (send_async true true v size cb user_data ch).1
        ≡ record ch { pending = PendingOp.send v size cb user_data ∷ ch.pending }
  unfolding send_async
  asked v ch a =
      if_cases
        (λ (r : Bool × Channel A).
          r.1 ≡ record ch { pending = PendingOp.send v size cb user_data ∷ ch.pending })
        (ch.has_async && true && true) (λ _. refl)
        (λ e. absurd (true≢false (sym (ap (λ b. b && true && true) a) ∙ e)))

  queue_sends-pending :
      (vs us : List A) (ch : Channel A)
      → ch.has_async ≡ true
      → ch.pending ≡ sends us
      → queue_sends vs ch ≡ record ch { pending = sends (reverse_aux vs us) }
  queue_sends-pending [] us ch a e = ap (λ p. record ch { pending = p }) e
  queue_sends-pending (v ∷ vs) us ch a e =
      ap (queue_sends vs) (asked v ch a)
      ∙ queue_sends-pending vs (v ∷ us)
          (record ch { pending = PendingOp.send v size cb user_data ∷ ch.pending }) a
          (ap (λ p. PendingOp.send v size cb user_data ∷ p) e)

module _ {A : Type 0} (t : ChannelType) (cap size user_data : ℕ) (cb : Option ℕ)
    (callback_of : Called A → Channel A → Channel A) (buffers : ℕ → Bool)
    (quiet : (c : Called A) (ch : Channel A) → callback_of c ch ≡ ch) where
  call_back-quiet :
      (o : Option ℕ) (f : ℕ → Called A) (ch : Channel A) → call_back callback_of o f ch ≡ ch
  unfolding call_back
  call_back-quiet none f ch = refl
  call_back-quiet (some c) f ch = quiet (f c) ch

  fifo_send-room :
      (l : List A) (v : A)
      → length l < cap
      → fifo_send t cap size false l v size ≡ (Status.ok, l ++ (v ∷ []))
  unfolding fifo_send
  fifo_send-room l v h = rw (same, room) refl
    where
      same : size == size ≡ true
      same = ground arith

      room : ltb (length l) cap ≡ true
      room = ground (arith, h)

  one :
      (l : List A) (v : A) (n : ℕ) (ch : Channel A)
      → length l < cap
      → Represents cap size t false l ch
      → Returns
          (Represents cap size t false (l ++ (v ∷ [])))
          (run_op callback_of buffers n (PendingOp.send v size cb user_data) ch)
  unfolding run_op
  one l v n ch h r =
      Returns-bind (try_send-After cap size t false l v size ch r) (λ (s, ch') (e, r'). returns (
        rw (call_back-quiet cb (λ f. Called.sent f s user_data) ch') (
          subst (λ (p : Status × List A). Represents cap size t false (p.1) ch')
            (fifo_send-room l v h) r')))

  run_ops-sends :
      (vs l : List A) (n : ℕ) (ch : Channel A)
      → length l + length vs ≤ cap
      → Represents cap size t false l ch
      → Returns
          (Represents cap size t false (l ++ vs))
          (run_ops callback_of buffers n (sends size user_data cb vs) ch)
  unfolding run_ops run_op
  run_ops-sends [] l n ch h r = rw (++-nil l) (returns r)
  run_ops-sends (v ∷ vs) l n ch h r = Returns-bind (one l v n ch (omega (arith, h)) r) (λ ch' r'.
      subst
        (λ k.
          Returns (Represents cap size t false k)
            (run_ops callback_of buffers (n + 1) (sends size user_data cb vs) ch'))
        (++-assoc l (v ∷ []) vs)
        (run_ops-sends vs (l ++ (v ∷ [])) (n + 1) ch' (omega (arith, h, length-snoc l v)) r'))

  -- Asynchronous sends, asked of an open channel of any type that has an asynchronous handle,
  -- with nothing pending, room for all of them, allocations that succeed, and callbacks that
  -- leave the channel as it is: when the loop's handler runs, the channel holds them behind its
  -- elements in the reverse of the order in which they were asked for.
  pub async_handler-reverse :
      (vs l : List A) (ch : Channel A)
      → ch.has_async ≡ true
      → ch.pending ≡ []
      → length l + length vs ≤ cap
      → Represents cap size t false l ch
      → Returns
          (Represents cap size t false (l ++ reverse vs))
          (async_handler callback_of buffers (queue_sends size user_data cb vs ch))
  unfolding async_handler
  async_handler-reverse vs l ch a e h r =
      subst
        (λ c.
          Returns (Represents cap size t false (l ++ reverse vs))
            (run_ops callback_of buffers 0 c.pending (record c { pending = [] })))
        (sym (queue_sends-pending size user_data cb vs [] ch a e))
        (run_ops-sends (reverse vs) l 0 (record ch { pending = [] })
          (omega (arith, h, length-reverse_aux vs []))
          (record {
            type_is = r.type_is;
            closed_is = r.closed_is;
            holding = r.holding;
            accounts = r.accounts;
          }))
