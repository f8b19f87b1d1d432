-- ===== src/Channel/Mpmc/Threads.antt =====
-- src/loopyChannel.c: `mpmcSend` and `mpmcRecv` in many threads, and `loopyChannelClose`. A turn under
-- the mutex is one step, taken where it loads `closed`, and a call that waits can go on at any time,
-- since a condition may wake a thread without a signal. The length tests have been passed.
use loopy.Prelude.{
  ℕ, zero, suc, ◌+◌, ◌-◌, List, [], ◌∷◌, ◌++◌, Bool, true, false, Option, none, some,
}
use mathlib.Core.Option.{map}
use loopy.Prelude.Run.{Run, ok, ◌>>=◌}
use loopy.Channel.{Status, Received}
use loopy.Channel.Mpmc.{Mpmc, Turn, mpmc_send_turn, mpmc_recv_turn}

pub data Choice (A : Type 0) : Type 0 where
  -- A call starts: the flag says whether it may wait.
  send : Bool → A → Choice A
  recv : Bool → Choice A
  -- One of those that wait goes on, or gives up since its time is over: for a sender, with its place
  -- among them.
  wake_sender : ℕ → Choice A
  wake_receiver : Choice A
  expire_sender : ℕ → Choice A
  expire_receiver : Choice A
  close : Choice A

-- `senders` are the elements of the calls that wait for room, and `receivers` the number of those
-- that wait for an element.
pub record World (A : Type 0) : Type 0 where
  pub queue : Mpmc A
  pub closed : Bool
  pub senders : List A
  pub receivers : ℕ
  pub sent : List A
  pub received : List A

module _ {A : Type 0} where
  -- What the threads see of a turn that has left the queue `q`
  unfoldable pub after_send : A → World A → Turn Status × Mpmc A → World A
  after_send v w (Turn.wait, q) = record w { queue = q; senders = w.senders ++ (v ∷ []) }
  after_send v w (Turn.answer Status.ok, q) = record w { queue = q; sent = w.sent ++ (v ∷ []) }
  after_send v w (Turn.answer _, q) = record w { queue = q }

  unfoldable pub after_recv : World A → Turn (Received A) × Mpmc A → World A
  after_recv w (Turn.wait, q) = record w { queue = q; receivers = w.receivers + 1 }
  after_recv w (Turn.answer (Received.bytes v), q) = record w {
    queue = q;
    received = w.received ++ (v ∷ []);
  }
  after_recv w (Turn.answer (Received.failed s), q) = record w { queue = q }

  unfoldable pub send_turn : Bool → A → World A → Run (World A)
  unfolding after_send
  send_turn blocking v w = do r ← mpmc_send_turn w.closed blocking v w.queue; ok (after_send v w r)

  unfoldable pub recv_turn : Bool → World A → Run (World A)
  unfolding after_recv
  recv_turn blocking w = do r ← mpmc_recv_turn w.closed blocking w.queue; ok (after_recv w r)

  -- A list without the element at a place
  unfoldable pub pick : ℕ → List A → Option (A × List A)
  pick i [] = none
  pick zero (v ∷ vs) = some (v, vs)
  pick (suc i) (v ∷ vs) = map (λ (x, xs). (x, v ∷ xs)) (pick i vs)

  unfoldable pub wake_send : Option (A × List A) → World A → Run (World A)
  unfolding send_turn
  wake_send none w = ok w
  wake_send (some (v, vs)) w = send_turn true v (record w { senders = vs })

  unfoldable pub wake_recv : ℕ → World A → Run (World A)
  unfolding recv_turn
  wake_recv zero w = ok w
  wake_recv (suc n) w = recv_turn true (record w { receivers = n })

  unfoldable pub expire_send : Option (A × List A) → World A → World A
  expire_send none w = w
  expire_send (some (v, vs)) w = record w { senders = vs }

  unfoldable pub mpmc_step : Choice A → World A → Run (World A)
  unfolding send_turn recv_turn pick wake_send wake_recv expire_send
  mpmc_step (send blocking v) w = send_turn blocking v w
  mpmc_step (recv blocking) w = recv_turn blocking w
  mpmc_step (wake_sender i) w = wake_send (pick i w.senders) w
  mpmc_step wake_receiver w = wake_recv w.receivers w
  mpmc_step (expire_sender i) w = ok (expire_send (pick i w.senders) w)
  mpmc_step expire_receiver w = ok (record w { receivers = w.receivers - 1 })
  mpmc_step close w = ok (record w { closed = true })

  unfoldable pub mpmc_go : World A → List (Choice A) → Run (World A)
  unfolding mpmc_step
  mpmc_go w [] = ok w
  mpmc_go w (c ∷ cs) = mpmc_step c w >>= λ w'. mpmc_go w' cs

  -- An open channel of which no thread has made a call.
  abbrev pub fresh : Mpmc A → World A
  fresh q = record {
    queue = q;
    closed = false;
    senders = [];
    receivers = 0;
    sent = [];
    received = [];
  }
