-- ===== src/Channel/Blocking.antt =====
-- src/loopyChannel.c: `loopyChannelSend` on a ring, where it may block. The other threads run while
-- it sleeps.
use loopy.Prelude.{
  ℕ, zero, suc, ◌+◌, ◌≤◌, ◌<◌, ◌≡◌, ◌≢◌, refl, sym, ap, ◌∙◌, ◌⊎◌, inl, inr, Bool, true, false, not,
  ◌&&◌, List, arith, ltb, leb, ◌==◌, if_cases, Bool-cases,
}
use mathlib.Core.Path.{subst}
use mathlib.Core.Bool.{true≢false}
use loopy.Prelude.Run.{Run, ok, out_of_fuel, Returns, returns, Returns-bind, Returns-if}
use loopy.Prelude.Words.{sub_word}
use loopy.Channel.{ChannelType, Status}
use loopy.Channel.Spsc.{Spsc, spsc_try_send}
use loopy.Channel.State.{Channel}
use loopy.Channel.Calls.{
  Outside, count_send_blocked, end_send, spsc_send_loop, channel_send_on, channel_send,
}
use loopy.Channel.Fifo.Moves.{RingHolds}
use loopy.Channel.Fifo.Ring.{spsc_try_send-Holds}

module _ {A : Type 0} (out : Outside A) where
  -- What the other threads leave as it is
  abbrev pub Keeps : (Channel A → Type 0) → Type 0
  Keeps P = (n : ℕ) (ch : Channel A) → P ch → P (out.others n ch)

  -- An open ring channel that blocks without a timeout, for elements of `size` bytes
  abbrev pub IsOpen : ℕ → Channel A → Type 0
  IsOpen size ch =
      (ch.closed ≡ false) × (ch.spsc.element_size ≡ size) × (ch.config.send_timeout ≡ 0)

  wrong_length-refused :
      (s : Spsc A) (v : A) (len : ℕ) → len ≢ s.element_size → spsc_try_send s v len ≡ ok (false, s)
  unfolding spsc_try_send
  wrong_length-refused s v len d =
      if_cases (λ r. r ≡ ok (false, s)) (not (len == s.element_size)) (λ _. refl)
        (λ e. absurd (true≢false (sym tested ∙ e)))
    where
      tested : not (len == s.element_size) ≡ true
      tested = ground (arith, d)

  spsc_send_loop-stuck :
      (size fuel n : ℕ) (v : A) (len : ℕ) (ch : Channel A)
      → len ≢ size
      → Keeps (IsOpen size)
      → IsOpen size ch
      → spsc_send_loop out fuel n v len ch ≡ out_of_fuel
  unfolding spsc_send_loop spsc_try_send
  spsc_send_loop-stuck size zero n v len ch d k i = refl
  spsc_send_loop-stuck size (suc fuel) n v len ch d k i = rw refused (
      if_cases Stuck ch.closed (λ e. absurd (true≢false (sym e ∙ i.0)))
        (λ _.
          if_cases Stuck (ltb 0 ch.config.send_timeout && _)
            (λ e. absurd (true≢false (sym e ∙ untimed _)))
            (λ _.
              spsc_send_loop-stuck size fuel (n + 1) v len (out.others n (count_send_blocked ch)) d
                k (k n (count_send_blocked ch) i))))
    where
      Stuck : Run (Status × Channel A) → Type 0
      Stuck r = r ≡ out_of_fuel

      refused : spsc_try_send ch.spsc v len ≡ ok (false, ch.spsc)
      refused = wrong_length-refused ch.spsc v len (λ e. d (e ∙ i.1))

      untimed : (b : Bool) → ltb 0 ch.config.send_timeout && b ≡ false
      untimed b = ap (λ x. ltb 0 x && b) (i.2)

  -- A ring with a timeout of `t` microseconds that holds some elements
  abbrev pub IsTimed : (cap size t : ℕ) → Channel A → Type 0
  IsTimed cap size t ch = (l : List A) × RingHolds cap size ch.spsc l × (ch.config.send_timeout ≡ t)

  abbrev pub Ended : Status × Channel A → Type 0
  Ended (s, ch) = (s ≡ Status.ok) ⊎ ((s ≡ Status.closed) ⊎ (s ≡ Status.timeout))

  module _ (cap size t last : ℕ) (some_time : 0 < t)
      (over : t ≤ sub_word (out.clock (last + 1)) (out.clock 0))
      (k : Keeps (IsTimed cap size t)) where
    spsc_send_loop-Ended :
        (fuel n : ℕ) (v : A) (len : ℕ) (ch : Channel A)
        → n + fuel ≡ last + 1
        → IsTimed cap size t ch
        → 0 < fuel
        → Returns Ended (spsc_send_loop out fuel n v len ch)
    unfolding spsc_send_loop end_send
    spsc_send_loop-Ended zero n v len ch e i p = absurd (omega (arith, p))
    spsc_send_loop-Ended (suc fuel) n v len ch e (l, h, u) p =
        Returns-bind (spsc_try_send-Holds cap size l v len ch.spsc h) (λ (sent, s) (c, j).
          Returns-if sent (λ _. returns (inl refl))
            (λ _.
              Returns-if ch.closed (λ _. returns (inr (inl refl)))
                (λ _.
                  Returns-if
                    (ltb 0 ch.config.send_timeout
                      && leb ch.config.send_timeout (sub_word (out.clock (n + 1)) (out.clock 0)))
                    (λ _. returns (inr (inr refl)))
                    (λ f.
                      spsc_send_loop-Ended fuel (n + 1) v len _ (omega (arith, e)) (k n _ (_, j, u))
                        (left f)))))
      where
        timed_out :
            n ≡ last
            → ltb 0 ch.config.send_timeout
                && leb ch.config.send_timeout (sub_word (out.clock (n + 1)) (out.clock 0))
              ≡ true
        timed_out here = rw (here, u, pos, long) refl
          where
            pos : ltb 0 t ≡ true
            pos = ground (arith, some_time)

            long : leb t (sub_word (out.clock (last + 1)) (out.clock 0)) ≡ true
            long = ground (arith, over)

        left :
            ltb 0 ch.config.send_timeout
                && leb ch.config.send_timeout (sub_word (out.clock (n + 1)) (out.clock 0))
              ≡ false
            → 0 < fuel
        left f = elim (Bool-cases (ltb 0 fuel)) [
          | inl y ↦ ground (arith, y)
          | inr y ↦ absurd (true≢false (sym (timed_out (at_last y)) ∙ f))
        ]
          where
            at_last : ltb 0 fuel ≡ false → n ≡ last
            at_last y = ground (arith, y, e)

  -- A blocking send to a ring with an element of another length than the ring's never returns, while
  -- the channel stays open and has no timeout: however many rounds it is given, it needs more.
  pub channel_send-stuck :
      (size fuel : ℕ) (v : A) (len : ℕ) (ch : Channel A)
      → ch.type ≡ ChannelType.spsc
      → ch.config.blocking ≡ true
      → len ≢ size
      → Keeps (IsOpen size)
      → IsOpen size ch
      → channel_send out fuel v len ch ≡ out_of_fuel
  unfolding channel_send channel_send_on
  channel_send-stuck size fuel v len ch e b d k i =
      if_cases (λ r. r ≡ out_of_fuel) ch.closed (λ c. absurd (true≢false (sym c ∙ i.0)))
        (λ _.
          subst (λ u. channel_send_on out fuel u v len ch ≡ out_of_fuel) (sym e)
            (if_cases (λ r. r ≡ out_of_fuel) ch.config.blocking
              (λ _. spsc_send_loop-stuck size fuel 0 v len ch d k i)
              (λ c. absurd (true≢false (sym b ∙ c)))))

  -- A blocking send to a ring with a timeout returns, in as many rounds as it takes the clock to pass
  -- the timeout, and says that the element is sent, that the channel is closed or that the time is
  -- over; the other threads may do anything by which the ring still holds some elements.
  pub channel_send-Ended :
      (cap size t last : ℕ) (v : A) (len : ℕ) (ch : Channel A)
      → ch.type ≡ ChannelType.spsc
      → ch.config.blocking ≡ true
      → 0 < t
      → t ≤ sub_word (out.clock (last + 1)) (out.clock 0)
      → Keeps (IsTimed cap size t)
      → IsTimed cap size t ch
      → Returns Ended (channel_send out (last + 1) v len ch)
  unfolding channel_send channel_send_on
  channel_send-Ended cap size t last v len ch e b some_time over k i =
      Returns-if ch.closed (λ _. returns (inr (inl refl)))
        (λ _.
          subst (λ u. Returns Ended (channel_send_on out (last + 1) u v len ch)) (sym e)
            (Returns-if ch.config.blocking
              (λ _.
                spsc_send_loop-Ended cap size t last some_time over k (last + 1) 0 v len ch
                  (omega arith) i (omega arith))
              (λ c. absurd (true≢false (sym b ∙ c)))))
