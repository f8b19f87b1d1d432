-- ===== src/Channel/Tests.antt =====
-- src/loopyChannel.c: the theorems on channels at concrete inputs.
use loopy.Prelude.{
  ℕ, ◌≡◌, refl, sym, true, false, none, some, List, [], ◌∷◌, ◌++◌, arith, inr, ◌==◌,
}
use loopy.Prelude.Run.{out_of_fuel, Returns}
use loopy.Prelude.Array.{Array}
use loopy.Channel.{ChannelType, Status, Received}
use loopy.Channel.Spsc.{Spsc}
use loopy.Channel.Spsc.Fifo.{
  IsEmptyRing, fresh-Inv, InOrder, NoRace, ring_go-InOrder, ring_go-NoRace,
}
use loopy.Channel.Spsc.Threads
use loopy.Channel.Mpmc.{Mpmc}
use loopy.Channel.Mpmc.Threads as Many
use loopy.Channel.Mpmc.Order
use loopy.Channel.Mpmc.Closing.{Closes, mpmc_go-Closes}
use loopy.Channel.Mpmc.Waking.{NoneWait, broadcast, mpmc_go-NoneWait}
use loopy.Channel.State.{Channel, Config, no_stats, no_mpmc, channel_new}
use loopy.Channel.Calls.{Outside, channel_send}
use loopy.Channel.Fifo.{Call, Answer, calls, fifo_calls}
use loopy.Channel.Fifo.Moves.{RingHolds}
use loopy.Channel.Fifo.Refine.{Represents}
use loopy.Channel.Fifo.New.{all_given, IsSound, new-calls-Answers}
use loopy.Channel.Blocking.{Ended, channel_send-stuck, channel_send-Ended}
use loopy.Channel.Fifo.Trips.{sends, recvs, all_sent, all_got, new-calls-all_got}
use loopy.Channel.Waiting.{Answered, channel_send-Answered}
use loopy.Channel.Mpmc.Queue.{IsQueue}
use loopy.Channel.Async.{async_handler}
use loopy.Channel.Async.Order.{queue_sends, async_handler-reverse}

abbrev four_cells : Array ℕ
four_cells = record { len = 4; cell = λ i. 0 }

abbrev small_ring : Spsc ℕ
small_ring = record {
  buffer = four_cells;
  capacity = 3;
  element_size = 8;
  mask = 3;
  head = 0;
  cached_tail = 0;
  tail = 0;
  cached_head = 0;
}

small_ring-IsEmptyRing : IsEmptyRing small_ring
small_ring-IsEmptyRing = record {
  mask_ok = record { ones = 2; power = refl; fits = omega arith };
  in_block = omega arith;
  in_mask = omega arith;
  tail_word = omega arith;
  head_at = refl;
  cached_tail_at = refl;
  cached_head_at = refl;
}

ring_go-InOrder_example : Returns (InOrder 3) (
    Threads.ring_go
      (Threads.fresh small_ring)
      (Threads.send 7 ∷ Threads.produce ∷ Threads.recv ∷ Threads.produce ∷ Threads.consume ∷ []))
ring_go-InOrder_example =
    ring_go-InOrder small_ring
      (Threads.send 7 ∷ Threads.produce ∷ Threads.recv ∷ Threads.produce ∷ Threads.consume ∷ [])
      small_ring-IsEmptyRing

ring_go-NoRace_example : Returns NoRace (
    Threads.ring_go (Threads.fresh small_ring) (
      Threads.send 7
      ∷ Threads.produce
      ∷ Threads.produce
      ∷ Threads.recv
      ∷ Threads.consume
      ∷ Threads.send 8
      ∷ []))
ring_go-NoRace_example =
    ring_go-NoRace small_ring
      (Threads.send 7
        ∷ Threads.produce
        ∷ Threads.produce
        ∷ Threads.recv
        ∷ Threads.consume
        ∷ Threads.send 8
        ∷ [])
      small_ring-IsEmptyRing

-- A queue under a mutex
abbrev small_queue : Mpmc ℕ
small_queue = record {
  buffer = four_cells;
  capacity = 4;
  element_size = 8;
  head = 0;
  tail = 0;
  count = 0;
}

small_queue-IsEmptyQueue : Order.IsEmptyQueue small_queue
small_queue-IsEmptyQueue = record {
  in_block = omega arith;
  in_word = omega arith;
  none_yet = refl;
  tail_lt = omega arith;
  head_at = refl;
}

mpmc_go-InOrder_example : Returns (Order.InOrder 4) (
    Many.mpmc_go (Many.fresh small_queue) (
      Many.recv true ∷ Many.send true 7 ∷ Many.send false 8 ∷ Many.wake_receiver ∷ Many.close ∷ []))
mpmc_go-InOrder_example =
    Order.mpmc_go-InOrder small_queue
      (Many.recv true ∷ Many.send true 7 ∷ Many.send false 8 ∷ Many.wake_receiver ∷ Many.close ∷ [])
      small_queue-IsEmptyQueue

mpmc_go-Closes_example :
    Returns
      (Closes (Many.send true 9 ∷ Many.recv false ∷ []))
      (Many.mpmc_go (Many.fresh small_queue) (Many.send true 7 ∷ Many.send true 8 ∷ []))
mpmc_go-Closes_example =
    mpmc_go-Closes small_queue (Many.send true 7 ∷ Many.send true 8 ∷ [])
      (Many.send true 9 ∷ Many.recv false ∷ []) small_queue-IsEmptyQueue

mpmc_go-NoneWait_example :
    Returns
      (λ w. Returns NoneWait (Many.mpmc_go w (Many.close ∷ broadcast w.senders w.receivers)))
      (Many.mpmc_go (Many.fresh small_queue) (Many.recv true ∷ Many.recv true ∷ []))
mpmc_go-NoneWait_example =
    mpmc_go-NoneWait small_queue (Many.recv true ∷ Many.recv true ∷ []) small_queue-IsEmptyQueue

-- A channel of four elements of eight bytes, for many producers and one consumer
abbrev four_eights : Config
four_eights = record {
  type = ChannelType.mpsc;
  capacity = 4;
  element_size = 8;
  blocking = false;
  send_timeout = 0;
  recv_timeout = 0;
}

four_eights-IsSound : IsSound (λ (i : ℕ). i) four_eights
four_eights-IsSound = record {
  some_size = omega arith;
  some_room = omega arith;
  few = omega arith;
  fits = omega arith;
}

abbrev some_calls : List (Call ℕ)
some_calls = Call.send 7 8 ∷ Call.send 9 4 ∷ Call.close ∷ Call.recv 8 ∷ Call.recv 8 ∷ []

new-calls-Answers_example :
    (ch : Channel ℕ) × (channel_new all_given (λ i. i) 5 none four_eights ≡ (some ch, 6))
    × Returns (λ r. r.0 ≡ fifo_calls ChannelType.mpsc 4 8 some_calls false []) (calls some_calls ch)
new-calls-Answers_example =
    new-calls-Answers (λ i. i) four_eights 5 none some_calls four_eights-IsSound

some_calls-answers :
    fifo_calls ChannelType.mpsc 4 8 some_calls false []
    ≡ Answer.sent Status.ok
      ∷ Answer.sent Status.invalid
      ∷ Answer.closed
      ∷ Answer.got (Received.bytes 7)
      ∷ Answer.got (Received.failed Status.closed)
      ∷ []
unfolding fifo_calls
some_calls-answers = refl

new-calls-all_got_example :
    (ch : Channel ℕ) × (channel_new all_given (λ i. i) 5 none four_eights ≡ (some ch, 6))
    × Returns
        (λ r. r.0 ≡ all_sent (7 ∷ 9 ∷ []) ++ all_got (7 ∷ 9 ∷ []))
        (calls (sends 8 (7 ∷ 9 ∷ []) ++ recvs 8 (7 ∷ 9 ∷ [])) ch)
new-calls-all_got_example =
    new-calls-all_got (λ i. i) four_eights 5 none (7 ∷ 9 ∷ []) four_eights-IsSound (omega arith)

-- A ring channel that blocks, with a timeout in microseconds
abbrev blocking_ring : ℕ → Channel ℕ
blocking_ring time = record {
  id = 0;
  type = ChannelType.spsc;
  loop = none;
  user_data = 0;
  spsc = small_ring;
  mpmc = no_mpmc (λ i. 0);
  config = record {
    type = ChannelType.spsc;
    capacity = 3;
    element_size = 8;
    blocking = true;
    send_timeout = time;
    recv_timeout = 0;
  };
  closed = false;
  has_async = false;
  pending = [];
  stats = no_stats;
}

-- No other thread runs, and the clock goes on by a microsecond at each reading.
abbrev ticking : Outside ℕ
ticking = record { others = λ n ch. ch; clock = λ n. n; expires = λ n. false }

channel_send-stuck_example : channel_send ticking 100 7 4 (blocking_ring 0) ≡ out_of_fuel
channel_send-stuck_example =
    channel_send-stuck ticking 8 100 7 4 (blocking_ring 0) refl refl (omega arith) (λ n ch i. i)
      (refl, refl, refl)

small_ring-RingHolds : RingHolds 3 8 small_ring []
small_ring-RingHolds = record {
  capacity_is = refl;
  size_is = refl;
  n = (fresh-Inv small_ring small_ring-IsEmptyRing).n;
  m = (fresh-Inv small_ring small_ring-IsEmptyRing).m;
  c = (fresh-Inv small_ring small_ring-IsEmptyRing).c;
  ring_ok = (fresh-Inv small_ring small_ring-IsEmptyRing).ring_ok;
  holds = sym (fresh-Inv small_ring small_ring-IsEmptyRing).fifo;
}

channel_send-Ended_example : Returns (Ended ticking) (channel_send ticking 5 7 4 (blocking_ring 5))
channel_send-Ended_example =
    channel_send-Ended ticking 3 8 5 4 7 4 (blocking_ring 5) refl refl (omega arith) (omega arith)
      (λ n ch i. i) ([], small_ring-RingHolds, refl)

-- A channel that is its own event loop's
abbrev looped : Channel ℕ
looped = record (blocking_ring 0) { loop = some 1; has_async = true }

looped-Represents : Represents 3 8 ChannelType.spsc false [] looped
looped-Represents = record {
  type_is = refl;
  closed_is = refl;
  holding = small_ring-RingHolds;
  accounts = record { received_word = omega arith; balance = refl; peak = omega arith };
}

async_handler-reverse_example :
    Returns
      (Represents 3 8 ChannelType.spsc false (9 ∷ 8 ∷ 7 ∷ []))
      (async_handler (λ c ch. ch) (λ n. true) (queue_sends 8 1 (some 2) (7 ∷ 8 ∷ 9 ∷ []) looped))
async_handler-reverse_example =
    async_handler-reverse ChannelType.spsc 3 8 1 (some 2) (λ c ch. ch) (λ n. true) (λ c ch. refl)
      (7 ∷ 8 ∷ 9 ∷ []) [] looped refl refl (omega arith) looped-Represents

-- A channel that many threads share, and a wait that ends at its third time
abbrev shared : Channel ℕ
shared = record (blocking_ring 9) { type = ChannelType.mpmc; mpmc = small_queue }

abbrev patient : Outside ℕ
patient = record { others = λ n ch. ch; clock = λ n. n; expires = λ n. n == 2 }

small_queue-IsQueue : IsQueue small_queue
small_queue-IsQueue = (Order.fresh-Inv small_queue small_queue-IsEmptyQueue).queue_ok

channel_send-Answered_example : Returns Answered (channel_send patient 3 7 8 shared)
channel_send-Answered_example =
    channel_send-Answered patient 2 7 8 shared (inr refl) refl (omega arith) refl (λ n ch i. i)
      small_queue-IsQueue
