-- ===== src/Channel/Async.antt =====
-- src/loopyChannel.c: sends and receives that the event loop makes later, and what its handler does
-- with those that are pending.
pub mod Order
use loopy.Prelude.{
  ℕ, ◌+◌, Bool, true, false, ◌&&◌, Option, none, some, List, [], ◌∷◌, if◌then◌else◌,
}
use loopy.Prelude.Run.{Run, ok, fault, out_of_fuel, ◌>>=◌}
use loopy.Channel.{Status, Received}
use loopy.Channel.State.{Channel, PendingOp}
use loopy.Channel.Calls.{try_send, try_recv}

-- A callback that the handler makes, with its arguments
pub data Called (A : Type 0) : Type 0 where
  sent : (callback : ℕ) → Status → (user_data : ℕ) → Called A
  received : (callback : ℕ) → Received A → (user_data : ℕ) → Called A

module _ {A : Type 0} where
  -- `got_op` and `got_copy` say whether there is memory for the operation and for the element.
  unfoldable pub send_async :
      (got_op got_copy : Bool) → A → ℕ → Option ℕ → ℕ → Channel A → Bool × Channel A
  send_async got_op got_copy v len callback user_data ch =
      if ch.has_async && got_op && got_copy
      then (true, record ch { pending = PendingOp.send v len callback user_data ∷ ch.pending })
      else (false, ch)

  unfoldable pub recv_async : (got_op : Bool) → Option ℕ → ℕ → Channel A → Bool × Channel A
  recv_async got_op callback user_data ch =
      if ch.has_async && got_op
      then (true, record ch { pending = PendingOp.recv callback user_data ∷ ch.pending })
      else (false, ch)

  unfoldable pub call_back :
      (Called A → Channel A → Channel A) → Option ℕ → (ℕ → Called A) → Channel A → Channel A
  call_back callback_of none f ch = ch
  call_back callback_of (some cb) f ch = callback_of (f cb) ch

  -- What a callback does to the channel, and whether there is a buffer for the nth operation
  module _ (callback_of : Called A → Channel A → Channel A) (buffers : ℕ → Bool) where
    unfoldable pub run_op : ℕ → PendingOp A → Channel A → Run (Channel A)
    unfolding try_send try_recv call_back
    run_op n (PendingOp.send v len cb user_data) ch = do
      (s, ch') ← try_send v len ch
      ok (call_back callback_of cb (λ f. Called.sent f s user_data) ch')
    run_op n (PendingOp.recv cb user_data) ch =
        if buffers n
        then (do
          (r, ch') ← try_recv ch.config.element_size ch
          ok (call_back callback_of cb (λ f. Called.received f r user_data) ch'))
        else ok ch

    unfoldable pub run_ops : ℕ → List (PendingOp A) → Channel A → Run (Channel A)
    unfolding run_op
    run_ops n [] ch = ok ch
    run_ops n (op ∷ ops) ch = do ch' ← run_op n op ch; run_ops (n + 1) ops ch'

    -- `asyncHandler`
    unfoldable pub async_handler : Channel A → Run (Channel A)
    unfolding run_ops
    async_handler ch = run_ops 0 ch.pending (record ch { pending = [] })
