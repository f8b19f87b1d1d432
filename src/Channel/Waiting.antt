-- ===== src/Channel/Waiting.antt =====
-- src/loopyChannel.c: `loopyChannelSend` on a queue under a mutex, where it may block. The other
-- threads run while it waits.
use mathlib.Core.Path.{subst}
use mathlib.Core.Bool.{true≢false}
use loopy.Prelude.{
  ℕ, zero, suc, ◌+◌, ◌<◌, ◌≡◌, refl, sym, ◌∙◌, ◌⊎◌, inl, inr, true, false, not, ◌&&◌, arith, ltb,
  ◌==◌, if◌then◌else◌, Bool-cases,
}
use loopy.Prelude.Run.{Run, ok, Returns, returns, Returns-bind, Returns-if, ◌>>=◌}
use loopy.Channel.{ChannelType, Status}
use loopy.Channel.Mpmc.{Mpmc, Turn}
use loopy.Channel.Mpmc.Queue.{IsQueue, SendPost, mpmc_send_turn-Post}
use loopy.Channel.State.{Channel}
use loopy.Channel.Calls.{
  Outside, count_send_blocked, end_turn, end_send, mpmc_send, mpmc_send_loop, channel_send,
  channel_send_on,
}

module _ {A : Type 0} where
  -- The element is sent or has the wrong length, the channel is closed, or the time is over.
  abbrev pub Answered : Status × Channel A → Type 0
  Answered (s, ch) =
      (s ≡ Status.ok) ⊎ ((s ≡ Status.invalid) ⊎ ((s ≡ Status.closed) ⊎ (s ≡ Status.timeout)))

  -- The other threads keep the queue under its mutex in order.
  abbrev pub KeepsQueue : Outside A → Type 0
  KeepsQueue out = (n : ℕ) (ch : Channel A) → IsQueue ch.mpmc → IsQueue (out.others n ch).mpmc

  module _ (out : Outside A) (timeout last : ℕ) (some_time : 0 < timeout)
      (over : out.expires last ≡ true) (keeps : KeepsQueue out) where
    end_send_turn-Answered :
        (n : ℕ) (v : A) (ch : Channel A) (go_on : Channel A → Run (Status × Channel A))
        → ((ch' : Channel A) → IsQueue ch'.mpmc → Returns Answered (go_on ch'))
        → (r : Turn Status × Mpmc A) → IsQueue ch.mpmc
        → SendPost ch.closed true v ch.mpmc (r.0) (r.1)
        → Returns Answered (end_turn ch go_on r)
    end_send_turn-Answered n v ch go_on h r i (SendPost.is_closed e) =
        returns (inr (inr (inl refl)))
    end_send_turn-Answered n v ch go_on h r i (SendPost.is_full e b f) = absurd (true≢false b)
    end_send_turn-Answered n v ch go_on h r i (SendPost.waits e b f) = h ch i
    end_send_turn-Answered n v ch go_on h r i (SendPost.stored e room j c z more) =
        returns (inl refl)

    mpmc_send_loop-Answered :
        (fuel n : ℕ) (v : A) (ch : Channel A)
        → n + fuel ≡ last + 1
        → 0 < fuel
        → IsQueue ch.mpmc
        → Returns Answered (mpmc_send_loop out true timeout fuel n v ch)
    unfolding mpmc_send_loop
    mpmc_send_loop-Answered zero n v ch e p i = absurd (omega (arith, p))
    mpmc_send_loop-Answered (suc fuel) n v ch e p i =
        Returns-bind (mpmc_send_turn-Post ch.mpmc i ch.closed true v) (λ r q.
          end_send_turn-Answered n v ch waited
            (λ ch' j.
              Returns-if (ltb 0 timeout && out.expires n) (λ _. returns (inr (inr (inr refl))))
                (λ f.
                  mpmc_send_loop-Answered fuel (n + 1) v (out.others n (count_send_blocked ch'))
                    (omega (arith, e)) (left f) (keeps n (count_send_blocked ch') j)))
            r i q)
      where
        waited : Channel A → Run (Status × Channel A)
        waited ch' =
            let woken = out.others n (count_send_blocked ch') in
            let rest = mpmc_send_loop out true timeout fuel (n + 1) v woken in
            if ltb 0 timeout && out.expires n then ok (Status.timeout, woken) else rest

        timed_out : n ≡ last → ltb 0 timeout && out.expires n ≡ true
        timed_out here = rw (here, over, pos) refl
          where
            pos : ltb 0 timeout ≡ true
            pos = ground (arith, some_time)

        left : ltb 0 timeout && out.expires n ≡ false → 0 < fuel
        left f = elim (Bool-cases (ltb 0 fuel)) [
          | inl y ↦ ground (arith, y)
          | inr y ↦ absurd (true≢false (sym (timed_out (at_last y)) ∙ f))
        ]
          where
            at_last : ltb 0 fuel ≡ false → n ≡ last
            at_last y = ground (arith, y, e)

    end_send-status : (s : Status) (ch : Channel A) → (end_send (s, ch)).0 ≡ s
    unfolding end_send
    end_send-status Status.ok ch = refl
    end_send-status Status.error ch = refl
    end_send-status Status.invalid ch = refl
    end_send-status Status.timeout ch = refl
    end_send-status Status.closed ch = refl
    end_send-status Status.full ch = refl
    end_send-status Status.empty ch = refl

    end_send-Answered : (r : Status × Channel A) → Answered r → Answered (end_send r)
    end_send-Answered (s, ch) p = rw (end_send-status s ch) p

    mpmc_send-Answered :
        (v : A) (len : ℕ) (ch : Channel A)
        → IsQueue ch.mpmc
        → Returns Answered (mpmc_send out true timeout (last + 1) v len ch >>= λ r. ok (end_send r))
    unfolding mpmc_send
    mpmc_send-Answered v len ch i = Returns-bind answered (λ r p. returns (end_send-Answered r p))
      where
        answered : Returns Answered (mpmc_send out true timeout (last + 1) v len ch)
        answered =
            Returns-if (not (len == ch.mpmc.element_size)) (λ _. returns (inr (inl refl)))
              (λ _. mpmc_send_loop-Answered (last + 1) 0 v ch (omega arith) (omega arith) i)

  -- A blocking send to a queue under a mutex, with a timeout: when a wait of it ends since its time is
  -- over, the call has returned by then, and says that the element is sent or has a wrong length, that
  -- the channel is closed or that the time is over; the other threads may do anything that keeps the
  -- queue in order.
  pub channel_send-Answered :
      (out : Outside A) (last : ℕ) (v : A) (len : ℕ) (ch : Channel A)
      → (ch.type ≡ ChannelType.mpsc) ⊎ (ch.type ≡ ChannelType.mpmc)
      → ch.config.blocking ≡ true
      → 0 < ch.config.send_timeout
      → out.expires last ≡ true
      → KeepsQueue out
      → IsQueue ch.mpmc
      → Returns Answered (channel_send out (last + 1) v len ch)
  unfolding channel_send channel_send_on
  channel_send-Answered out last v len ch t b some_time over keeps i =
      Returns-if ch.closed (λ _. returns (inr (inr (inl refl))))
        (λ _. elim t [
          | inl e ↦
              subst (λ u. Returns Answered (channel_send_on out (last + 1) u v len ch)) (sym e)
                sends
          | inr e ↦
              subst (λ u. Returns Answered (channel_send_on out (last + 1) u v len ch)) (sym e)
                sends
        ])
    where
      sends : Returns Answered (
          mpmc_send out ch.config.blocking ch.config.send_timeout (last + 1) v len ch >>= λ r.
          ok (end_send r))
      sends =
          subst
            (λ blocks. Returns Answered (
              mpmc_send out blocks ch.config.send_timeout (last + 1) v len ch >>= λ r.
              ok (end_send r)))
            (sym b)
            (mpmc_send-Answered out ch.config.send_timeout last some_time over keeps v len ch i)
