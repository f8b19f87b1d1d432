-- ===== src/Channel/Select.antt =====
-- src/loopyChannel.c: `loopyChannelSelect`, over channels that are known by their addresses.
use loopy.Prelude.{
  ℕ, zero, suc, ◌+◌, ◌-◌, Bool, false, Option, none, some, List, [], ◌∷◌, ltb, ◌==◌, if◌then◌else◌,
}
use loopy.Prelude.Run.{Run, ok, out_of_fuel, ◌>>=◌}
use loopy.Prelude.Array.{update}
use loopy.Prelude.Int.{ℤ, pos, negsuc}
use loopy.Prelude.Words.{word, add_word}
use loopy.Channel.{Status, Received}
use loopy.Channel.State.{Channel}
use loopy.Channel.Calls.{try_send, try_recv}

-- `loopyChannelCase`, without its result
pub record Case (A : Type 0) : Type 0 where
  pub channel : ℕ
  pub send : Bool
  pub element : A
  pub len : ℕ

-- The result of a case: the number of bytes sent, the element received, or a status
pub data Outcome (A : Type 0) : Type 0 where
  sent : ℕ → Outcome A
  got : A → Outcome A
  failed : Status → Outcome A

unfoldable pub deadline_of : (start : ℕ) → (timeout : ℤ) → ℕ
deadline_of start (negsuc n) = word - 1
deadline_of start (pos zero) = 0
deadline_of start (pos (suc n)) = add_word start (n + 1)

unfoldable pub is_poll : ℤ → Bool
is_poll (negsuc n) = false
is_poll (pos n) = n == 0

module _ {A : Type 0} where
  -- What makes a case ready
  unfoldable pub send_outcome : ℕ → Status → Option (Outcome A)
  send_outcome len Status.ok = some (Outcome.sent len)
  send_outcome len Status.full = none
  send_outcome len s = some (Outcome.failed s)

  unfoldable pub recv_outcome : Received A → Option (Outcome A)
  recv_outcome (Received.bytes v) = some (Outcome.got v)
  recv_outcome (Received.failed Status.empty) = none
  recv_outcome (Received.failed s) = some (Outcome.failed s)

  unfoldable pub try_case : Case A → (ℕ → Channel A) → Run (Option (Outcome A) × (ℕ → Channel A))
  unfolding try_send try_recv send_outcome recv_outcome
  try_case c chs =
      if c.send
      then (do
        (s, ch) ← try_send c.element c.len (chs c.channel)
        ok (send_outcome c.len s, update chs c.channel ch))
      else (do
        (r, ch) ← try_recv c.len (chs c.channel)
        ok (recv_outcome r, update chs c.channel ch))

  -- The pass over the cases from the `i`th one on: the first ready one, with its outcome
  unfoldable pub try_cases :
      ℕ → List (Case A) → (ℕ → Channel A) → Run (Option (ℕ × Outcome A) × (ℕ → Channel A))
  unfolding try_case
  try_cases i [] chs = ok (none, chs)
  try_cases i (c ∷ cs) chs = do
    (o, chs') ← try_case c chs
    elim o [ none ↦ try_cases (i + 1) cs chs' | some x ↦ ok (some (i, x), chs') ]

  -- What the other threads make of the channels in the nth sleep, and the nth reading of the clock;
  -- no result stands for -1.
  module _ (others : ℕ → (ℕ → Channel A) → ℕ → Channel A) (clock : ℕ → ℕ) (timeout : ℤ) where
    unfoldable pub select_loop :
        (fuel n : ℕ)
        → List (Case A)
        → (ℕ → Channel A)
        → Run (Option (ℕ × Outcome A) × (ℕ → Channel A))
    unfolding try_cases deadline_of is_poll
    select_loop zero n cs chs = out_of_fuel
    select_loop (suc fuel) n cs chs = do
      (o, chs') ← try_cases 0 cs chs
      let woken = others n chs' in
          let rest = select_loop fuel (n + 1) cs woken in
          elim o [
            | some x ↦ ok (some x, chs')
            | none ↦
                if is_poll timeout
                then ok (none, chs')
                else if ltb (clock (n + 1)) (deadline_of (clock 0) timeout)
                then rest
                else ok (none, woken)
          ]

    unfoldable pub channel_select :
        ℕ → List (Case A) → (ℕ → Channel A) → Run (Option (ℕ × Outcome A) × (ℕ → Channel A))
    unfolding select_loop
    channel_select fuel [] chs = ok (none, chs)
    channel_select fuel (c ∷ cs) chs = select_loop fuel 0 (c ∷ cs) chs
