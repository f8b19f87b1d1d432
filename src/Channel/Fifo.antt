-- ===== src/Channel/Fifo.antt =====
-- src/loopyChannel.c: a channel as what its calls promise, a queue of bounded length that gives back
-- the elements in their order. The calls that do not wait are made here one after the other.
pub mod Account
pub mod Moves
pub mod Ring
pub mod Queue
pub mod Leaves
pub mod Refine
pub mod New
pub mod Trips
use loopy.Prelude.{ℕ, ◌+◌, Bool, true, false, not, List, [], ◌∷◌, ◌++◌, ltb, ◌==◌, if◌then◌else◌}
use loopy.Prelude.Run.{Run, ok, fault, out_of_fuel, ◌>>=◌}
use loopy.Prelude.Ring.{length}
use loopy.Channel.{ChannelType, Status, Received}
use loopy.Channel.State.{Channel, channel_close}
use loopy.Channel.Calls.{try_send, try_recv}

-- A call: what to send and its length in bytes, or the size of the buffer to receive into.
pub data Call (A : Type 0) : Type 0 where
  send : A → ℕ → Call A
  recv : ℕ → Call A
  close : Call A

pub data Answer (A : Type 0) : Type 0 where
  sent : Status → Answer A
  got : Received A → Answer A
  closed : Answer A

-- What the calls of a type may tell apart: a ring calls an element of another length a full channel,
-- and a closed channel without elements an empty one.
abbrev pub wrong_length : ChannelType → Status
wrong_length ChannelType.spsc = Status.full
wrong_length _ = Status.invalid

abbrev pub nothing_left : ChannelType → Bool → Status
nothing_left ChannelType.spsc shut = Status.empty
nothing_left _ shut = if shut then Status.closed else Status.empty

module _ {A : Type 0} where
  -- The calls on a channel
  unfoldable pub call : Call A → Channel A → Run (Answer A × Channel A)
  unfolding try_send try_recv channel_close
  call (send v len) ch = do (s, ch') ← try_send v len ch; ok (Answer.sent s, ch')
  call (recv len) ch = do (r, ch') ← try_recv len ch; ok (Answer.got r, ch')
  call close ch = ok (Answer.closed, channel_close ch)

  unfoldable pub calls : List (Call A) → Channel A → Run (List (Answer A) × Channel A)
  unfolding call
  calls [] ch = ok ([], ch)
  calls (c ∷ cs) ch = do (a, ch') ← call c ch; (rest, last) ← calls cs ch'; ok (a ∷ rest, last)

  -- A queue of elements of `size` bytes, of length `cap` at most: the calls on its elements, with
  -- whether it is shut
  module _ (t : ChannelType) (cap size : ℕ) where
    unfoldable pub fifo_send : Bool → List A → A → ℕ → Status × List A
    fifo_send shut l v len =
        if shut
        then (Status.closed, l)
        else if not (len == size)
        then (wrong_length t, l)
        else if ltb (length l) cap
        then (Status.ok, l ++ (v ∷ []))
        else (Status.full, l)

    unfoldable pub fifo_recv : Bool → List A → ℕ → Received A × List A
    fifo_recv shut l len = if ltb len size then (Received.failed Status.invalid, l) else elim l [
      | [] ↦ (Received.failed (nothing_left t shut), [])
      | x ∷ xs ↦ (Received.bytes x, xs)
    ]

    unfoldable pub fifo_calls : List (Call A) → Bool → List A → List (Answer A)
    unfolding fifo_send fifo_recv
    fifo_calls [] shut l = []
    fifo_calls (send v len ∷ cs) shut l =
        let (s, l') = fifo_send shut l v len in Answer.sent s ∷ fifo_calls cs shut l'
    fifo_calls (recv len ∷ cs) shut l =
        let (r, l') = fifo_recv shut l len in Answer.got r ∷ fifo_calls cs shut l'
    fifo_calls (close ∷ cs) shut l = Answer.closed ∷ fifo_calls cs true l
