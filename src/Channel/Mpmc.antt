-- ===== src/Channel/Mpmc.antt =====
-- src/loopyChannel.c: the queue under a mutex, of many producers and many consumers. What a thread
-- does between it takes the mutex and lets go of it, or waits, is one turn. An element of
-- `elementSize` bytes is a value of `A`.
pub mod Queue
pub mod Threads
pub mod Order
pub mod Closing
pub mod Waking
use loopy.Prelude.{
  ℕ, ◌*◌, ◌/◌, ◌%◌, Bool, true, false, not, ◌&&◌, Option, none, some, leb, ◌==◌, if◌then◌else◌,
}
use loopy.Prelude.Run.{Run, ok, fault, out_of_fuel, ◌>>=◌}
use loopy.Prelude.Array.{Array, load, store}
use loopy.Prelude.Words.{word, add_word, sub_word}
use loopy.Channel.{Status, Received}

-- `loopyChannelMPMC`, but for the mutex and the two conditions
pub record Mpmc (A : Type 0) : Type 0 where
  pub buffer : Array A
  pub capacity : ℕ
  pub element_size : ℕ
  pub head : ℕ
  pub tail : ℕ
  pub count : ℕ

-- How a turn ends: the thread waits on a condition, or the call has its answer.
pub data Turn (R : Type 0) : Type 0 where
  wait : Turn R
  answer : R → Turn R

module _ {A : Type 0} where
  -- `got` says whether `zmalloc` gives the block, `junk` what is in it, and the next three whether
  -- the mutex and the conditions can be made.
  unfoldable pub mpmc_init :
      (got mutex not_empty not_full : Bool) → (ℕ → A) → ℕ → ℕ → Option (Mpmc A)
  mpmc_init got mutex not_empty not_full junk capacity size =
      if got && mutex && not_empty && not_full
      then some (record {
        buffer = record { len = capacity * size % word / size; cell = junk };
        capacity = capacity;
        element_size = size;
        head = 0;
        tail = 0;
        count = 0;
      })
      else none

  -- `mpmcSend` from where it has the mutex
  unfoldable pub mpmc_send_turn : (closed blocking : Bool) → A → Mpmc A → Run (Turn Status × Mpmc A)
  mpmc_send_turn closed blocking v q =
      if leb q.capacity q.count
      then (if closed
          then ok (Turn.answer Status.closed, q)
          else if not blocking
          then ok (Turn.answer Status.full, q)
          else ok (Turn.wait, q))
      else if closed
      then ok (Turn.answer Status.closed, q)
      else (do
        b ← store q.buffer q.head v
        ok (
          Turn.answer Status.ok,
          record q {
            buffer = b;
            head = add_word q.head 1 % q.capacity;
            count = add_word q.count 1;
          },
        ))

  -- `mpmcRecv` from where it has the mutex
  unfoldable pub mpmc_recv_turn :
      (closed blocking : Bool) → Mpmc A → Run (Turn (Received A) × Mpmc A)
  mpmc_recv_turn closed blocking q =
      if q.count == 0
      then (if closed
          then ok (Turn.answer (Received.failed Status.closed), q)
          else if not blocking
          then ok (Turn.answer (Received.failed Status.empty), q)
          else ok (Turn.wait, q))
      else (do
        v ← load q.buffer q.tail
        ok (
          Turn.answer (Received.bytes v),
          record q { tail = add_word q.tail 1 % q.capacity; count = sub_word q.count 1 },
        ))

  unfoldable pub mpmc_len : Mpmc A → ℕ
  mpmc_len q = q.count

  unfoldable pub mpmc_is_full : Mpmc A → Bool
  mpmc_is_full q = leb q.capacity q.count

  unfoldable pub mpmc_is_empty : Mpmc A → Bool
  mpmc_is_empty q = q.count == 0
