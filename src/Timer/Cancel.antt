-- ===== src/Timer/Cancel.antt =====
-- src/loopyTimer.c: `loopyTimerCancel`, and the wrapper that the wheel calls, around the user's
-- callback. What the callback does to the timers is a list of actions.
use loopy.Prelude.{
  ℕ, Bool, true, false, not, Option, none, some, List, [], ◌∷◌, ◌==◌, if◌then◌else◌,
}
use loopy.Prelude.Run.{Run, fault, ok, ◌>>=◌}
use loopy.Prelude.Chain.{read}
use loopy.Timer.{TimerWheel, Timer, Timers, Answers, put, timer_set_data, create_timer}

-- A call that the program makes, from a callback or outside of one.
pub data Action : Type 0 where
  cancelling : ℕ → Action
  creating : Answers → (loop start every cb user_data : ℕ) → Action
  setting : (timer user_data : ℕ) → Action

module _ (k : TimerWheel) where
  open k use {Wheel, entry, unregister, answered}

  -- `loopyUnregisterTimer`
  unfoldable pub unregister_timer : Timers Wheel → ℕ → Run (Timers Wheel)
  unregister_timer w id = elim w.wheel [
    | none ↦ fault
    | some wheel ↦ ok (record w { wheel = some (unregister wheel id) })
  ]

  -- The first half of `loopyTimerCancel`: the timer is no longer registered, nor active.
  unfoldable pub deactivate : Timers Wheel → ℕ → Timer → Run (Timers Wheel)
  unfolding unregister_timer
  deactivate w a t =
      if t.is_active
      then (unregister_timer w t.timer_id >>= λ x.
          ok (put x a (some (record t { is_active = false }))))
      else ok w

  -- `loopyTimerCancel`
  unfoldable pub cancel : Timers Wheel → ℕ → Run (Timers Wheel)
  unfolding deactivate
  cancel w a =
      if a == 0
      then ok w
      else read w.blocks a >>= λ t.
          deactivate w a t >>= λ x. if t.in_callback then ok x else ok (put x a none)

  -- A call of the program.
  unfoldable pub act : Timers Wheel → Action → Run (Timers Wheel)
  unfolding cancel
  act w (cancelling a) = cancel w a
  act w (creating m loop start every cb user_data) =
      ok (create_timer k m w loop start every cb user_data).1
  act w (setting a user_data) = timer_set_data w a user_data >>= λ r. ok r.1

  -- A user's callback.
  unfoldable pub callback : Timers Wheel → List Action → Run (Timers Wheel)
  unfolding act
  callback w [] = ok w
  callback w (x ∷ xs) = act w x >>= λ y. callback y xs

  -- `timer->inCallback = ...`
  abbrev pub mark : Timers Wheel → ℕ → Timer → Bool → Timers Wheel
  mark w a t inside = put w a (some (record t { in_callback = inside }))

  -- The end of the wrapper, after the user's callback: the wheel's answer, and the timers.
  unfoldable pub finish_callback : Bool → ℕ → Timers Wheel → Run (Bool × Timers Wheel)
  finish_callback is_periodic a w = read w.blocks a >>= λ t.
      let done = mark w a t false in
      if not t.is_active
      then ok (false, put done a none)
      else if is_periodic
      then ok (true, done)
      else ok (false, put done a none)

  -- `timerWheelCallbackWrapper`
  unfoldable pub callback_wrapper : Timers Wheel → ℕ → List Action → Run (Bool × Timers Wheel)
  unfolding callback finish_callback
  callback_wrapper w a actions =
      if a == 0
      then ok (false, w)
      else read w.blocks a >>= λ t.
          if not t.is_active
          then ok (false, w)
          else (if t.cb == 0 then ok (mark w a t true) else callback (mark w a t true) actions)
            >>= finish_callback t.is_periodic a

  -- The wheel goes on with the callback's answer.
  abbrev pub answered_in : Option Wheel → ℕ → Bool → Option Wheel
  answered_in none i keep = none
  answered_in (some wheel) i keep = some (answered wheel i keep)

  abbrev pub answer : ℕ → Bool × Timers Wheel → Timers Wheel
  answer i (keep, w) = record w { wheel = answered_in w.wheel i keep }

  -- What is registered in the loop's wheel.
  abbrev pub entry_in : Option Wheel → ℕ → Option (ℕ × Bool)
  entry_in none i = none
  entry_in (some wheel) i = entry wheel i

  -- `timerWheelProcessTimerEvents` at the identifier `i` that is due: the wheel calls the wrapper
  -- with the client that is registered.
  unfoldable pub fire : Timers Wheel → ℕ → List Action → Run (Timers Wheel)
  unfolding callback_wrapper
  fire w i actions = elim (entry_in w.wheel i) [
    | none ↦ ok w
    | some (a, repeats) ↦ callback_wrapper w a actions >>= λ r. ok (answer i r)
  ]
