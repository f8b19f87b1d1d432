-- ===== src/Channel/Calls.antt =====
-- src/loopyChannel.c: the calls that send to a channel and receive from it. An element that is sent
-- has a length in bytes, and a buffer to receive into has one.
use loopy.Prelude.{ℕ, zero, suc, ◌+◌, Bool, false, not, ◌&&◌, ltb, leb, ◌==◌, if◌then◌else◌}
use loopy.Prelude.Run.{Run, ok, out_of_fuel, ◌>>=◌}
use loopy.Prelude.Words.{add_word, sub_word, raise}
use loopy.Channel.{ChannelType, Status, Received}
use loopy.Channel.Spsc.{spsc_try_send, spsc_try_recv}
use loopy.Channel.Mpmc.{Mpmc, Turn, mpmc_send_turn, mpmc_recv_turn}
use loopy.Channel.State.{Channel, channel_len}

-- What goes on around a call that blocks: what the other threads make of the channel while it sleeps
-- or waits for the nth time, what the clock says in microseconds when it reads it for the nth time,
-- and whether its nth wait ends since its time is over.
pub record Outside (A : Type 0) : Type 0 where
  pub others : ℕ → Channel A → Channel A
  pub clock : ℕ → ℕ
  pub expires : ℕ → Bool

abbrev pub if_sent : Bool → Status
if_sent b = if b then Status.ok else Status.full

module _ {A : Type 0} where
  -- The counters that a call raises by one
  abbrev pub count_sent : Channel A → Channel A
  count_sent ch = record ch {
    stats = record ch.stats {
      total_sent = add_word ch.stats.total_sent 1;
      peak_usage = raise ch.stats.peak_usage (channel_len ch);
    };
  }

  abbrev pub count_received : Channel A → Channel A
  count_received ch = record ch {
    stats = record ch.stats { total_received = add_word ch.stats.total_received 1 };
  }

  abbrev pub count_send_failed : Channel A → Channel A
  count_send_failed ch = record ch {
    stats = record ch.stats { send_failed = add_word ch.stats.send_failed 1 };
  }

  abbrev pub count_recv_failed : Channel A → Channel A
  count_recv_failed ch = record ch {
    stats = record ch.stats { recv_failed = add_word ch.stats.recv_failed 1 };
  }

  abbrev pub count_send_blocked : Channel A → Channel A
  count_send_blocked ch = record ch {
    stats = record ch.stats { send_blocked = add_word ch.stats.send_blocked 1 };
  }

  abbrev pub count_recv_blocked : Channel A → Channel A
  count_recv_blocked ch = record ch {
    stats = record ch.stats { recv_blocked = add_word ch.stats.recv_blocked 1 };
  }

  -- The end of `loopyChannelSend` and of `loopyChannelTrySend`
  unfoldable pub end_send : Status × Channel A → Status × Channel A
  end_send (Status.ok, ch) = (Status.ok, count_sent ch)
  end_send (s, ch) = (s, count_send_failed ch)

  unfoldable pub end_try_send : Status × Channel A → Status × Channel A
  end_try_send (Status.ok, ch) = (Status.ok, count_sent ch)
  end_try_send (Status.full, ch) = (Status.full, ch)
  end_try_send (s, ch) = (s, count_send_failed ch)

  -- The end of `loopyChannelRecv` and of `loopyChannelTryRecv`: the size of an element is positive.
  unfoldable pub end_recv : Received A × Channel A → Received A × Channel A
  end_recv (Received.bytes v, ch) = (Received.bytes v, count_received ch)
  end_recv (Received.failed s, ch) = (Received.failed s, count_recv_failed ch)

  unfoldable pub end_try_recv : Received A × Channel A → Received A × Channel A
  end_try_recv (Received.bytes v, ch) = (Received.bytes v, count_received ch)
  end_try_recv (Received.failed Status.empty, ch) = (Received.failed Status.empty, ch)
  end_try_recv (Received.failed s, ch) = (Received.failed s, count_recv_failed ch)

  -- A turn ends the call, or the thread waits and goes on as told.
  abbrev pub end_turn :
      {R : Type 0}
      → Channel A
      → (Channel A → Run (R × Channel A))
      → Turn R × Mpmc A
      → Run (R × Channel A)
  end_turn ch go_on (Turn.answer r, q) = ok (r, record ch { mpmc = q })
  end_turn ch go_on (Turn.wait, q) = go_on (record ch { mpmc = q })

  module _ (out : Outside A) (blocking : Bool) (timeout : ℕ) where
    -- The loop of `mpmcSend`, from its nth wait on
    unfoldable pub mpmc_send_loop : (fuel n : ℕ) → A → Channel A → Run (Status × Channel A)
    unfolding mpmc_send_turn
    mpmc_send_loop zero n v ch = out_of_fuel
    mpmc_send_loop (suc fuel) n v ch =
        mpmc_send_turn ch.closed blocking v ch.mpmc
        >>= end_turn ch (λ ch'.
          let woken = out.others n (count_send_blocked ch') in
          let rest = mpmc_send_loop fuel (n + 1) v woken in
          if ltb 0 timeout && out.expires n then ok (Status.timeout, woken) else rest)

    unfoldable pub mpmc_recv_loop : (fuel n : ℕ) → Channel A → Run (Received A × Channel A)
    unfolding mpmc_recv_turn
    mpmc_recv_loop zero n ch = out_of_fuel
    mpmc_recv_loop (suc fuel) n ch =
        mpmc_recv_turn ch.closed blocking ch.mpmc
        >>= end_turn ch (λ ch'.
          let woken = out.others n (count_recv_blocked ch') in
          let rest = mpmc_recv_loop fuel (n + 1) woken in
          if ltb 0 timeout && out.expires n
          then ok (Received.failed Status.timeout, woken)
          else rest)

    unfoldable pub mpmc_send : ℕ → A → ℕ → Channel A → Run (Status × Channel A)
    unfolding mpmc_send_loop
    mpmc_send fuel v len ch =
        if not (len == ch.mpmc.element_size)
        then ok (Status.invalid, ch)
        else mpmc_send_loop fuel 0 v ch

    unfoldable pub mpmc_recv : ℕ → ℕ → Channel A → Run (Received A × Channel A)
    unfolding mpmc_recv_loop
    mpmc_recv fuel len ch =
        if ltb len ch.mpmc.element_size
        then ok (Received.failed Status.invalid, ch)
        else mpmc_recv_loop fuel 0 ch

  module _ (out : Outside A) where
    -- The loop of `loopyChannelSend` for a ring, from its nth sleep on: the first reading of the clock
    -- is before it.
    unfoldable pub spsc_send_loop : (fuel n : ℕ) → A → ℕ → Channel A → Run (Status × Channel A)
    unfolding spsc_try_send end_send
    spsc_send_loop zero n v len ch = out_of_fuel
    spsc_send_loop (suc fuel) n v len ch = do
      (sent, s) ← spsc_try_send ch.spsc v len
      let ch' = record ch { spsc = s } in
          let timeout = ch.config.send_timeout in
          let rest = spsc_send_loop fuel (n + 1) v len (out.others n (count_send_blocked ch')) in
          if sent
          then ok (end_send (Status.ok, ch'))
          else if ch'.closed
          then ok (Status.closed, count_send_failed ch')
          else if ltb 0 timeout && leb timeout (sub_word (out.clock (n + 1)) (out.clock 0))
          then ok (Status.timeout, count_send_failed ch')
          else rest

    unfoldable pub spsc_recv_loop : (fuel n : ℕ) → ℕ → Channel A → Run (Received A × Channel A)
    unfolding spsc_try_recv end_recv
    spsc_recv_loop zero n len ch = out_of_fuel
    spsc_recv_loop (suc fuel) n len ch = do
      (r, s) ← spsc_try_recv ch.spsc len
      let ch' = record ch { spsc = s } in
          let timeout = ch.config.recv_timeout in
          let rest = spsc_recv_loop fuel (n + 1) len (out.others n (count_recv_blocked ch')) in
          elim r [
            | Received.failed Status.empty ↦
                if ch'.closed
                then ok (Received.failed Status.closed, count_recv_failed ch')
                else if ltb 0 timeout && leb timeout (sub_word (out.clock (n + 1)) (out.clock 0))
                then ok (Received.failed Status.timeout, count_recv_failed ch')
                else rest
            | other ↦ ok (end_recv (other, ch'))
          ]

  -- No other thread runs.
  abbrev pub alone : Outside A
  alone = record { others = λ n ch. ch; clock = λ n. 0; expires = λ n. false }

  unfoldable pub mpmc_try_send : A → ℕ → Channel A → Run (Status × Channel A)
  unfolding mpmc_send
  mpmc_try_send v len ch = mpmc_send alone false 0 1 v len ch

  unfoldable pub mpmc_try_recv : ℕ → Channel A → Run (Received A × Channel A)
  unfolding mpmc_recv
  mpmc_try_recv len ch = mpmc_recv alone false 0 1 len ch

  -- The switch of `loopyChannelTrySend`, and the call
  unfoldable pub try_send_on : ChannelType → A → ℕ → Channel A → Run (Status × Channel A)
  unfolding spsc_try_send mpmc_try_send
  try_send_on ChannelType.spsc v len ch = do
    (sent, s) ← spsc_try_send ch.spsc v len
    ok (if_sent sent, record ch { spsc = s })
  try_send_on _ v len ch = mpmc_try_send v len ch

  unfoldable pub try_send : A → ℕ → Channel A → Run (Status × Channel A)
  unfolding try_send_on end_try_send
  try_send v len ch =
      if ch.closed
      then ok (Status.closed, count_send_failed ch)
      else (do r ← try_send_on ch.type v len ch; ok (end_try_send r))

  -- The switch of `loopyChannelTryRecv`, and the call
  unfoldable pub try_recv_on : ChannelType → ℕ → Channel A → Run (Received A × Channel A)
  unfolding spsc_try_recv mpmc_try_recv
  try_recv_on ChannelType.spsc len ch = do
    (r, s) ← spsc_try_recv ch.spsc len
    ok (r, record ch { spsc = s })
  try_recv_on _ len ch = mpmc_try_recv len ch

  unfoldable pub try_recv : ℕ → Channel A → Run (Received A × Channel A)
  unfolding try_recv_on end_try_recv
  try_recv len ch = do r ← try_recv_on ch.type len ch; ok (end_try_recv r)

  module _ (out : Outside A) (fuel : ℕ) where
    -- The switch of `loopyChannelSend`, and the call
    unfoldable pub channel_send_on : ChannelType → A → ℕ → Channel A → Run (Status × Channel A)
    unfolding spsc_try_send spsc_send_loop mpmc_send end_send
    channel_send_on ChannelType.spsc v len ch =
        if ch.config.blocking then spsc_send_loop out fuel 0 v len ch else (do
          (sent, s) ← spsc_try_send ch.spsc v len
          ok (end_send (if_sent sent, record ch { spsc = s })))
    channel_send_on _ v len ch = do
      r ← mpmc_send out ch.config.blocking ch.config.send_timeout fuel v len ch
      ok (end_send r)

    unfoldable pub channel_send : A → ℕ → Channel A → Run (Status × Channel A)
    unfolding channel_send_on
    channel_send v len ch =
        if ch.closed
        then ok (Status.closed, count_send_failed ch)
        else channel_send_on ch.type v len ch

    -- The switch of `loopyChannelRecv`, and the call
    unfoldable pub channel_recv_on : ChannelType → ℕ → Channel A → Run (Received A × Channel A)
    unfolding spsc_try_recv spsc_recv_loop mpmc_recv end_recv
    channel_recv_on ChannelType.spsc len ch =
        if ch.config.blocking
        then spsc_recv_loop out fuel 0 len ch
        else (do (r, s) ← spsc_try_recv ch.spsc len; ok (end_recv (r, record ch { spsc = s })))
    channel_recv_on _ len ch = do
      r ← mpmc_recv out ch.config.blocking ch.config.recv_timeout fuel len ch
      ok (end_recv r)

    unfoldable pub channel_recv : ℕ → Channel A → Run (Received A × Channel A)
    unfolding channel_recv_on
    channel_recv len ch = channel_recv_on ch.type len ch
