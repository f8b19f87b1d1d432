-- ===== src/Timer.antt =====
-- src/loopyTimer.c: one-shot and periodic timers over the timer wheel of the datakit library, and the
-- two calls of src/loopy.c that reach the wheel. The timers are blocks at addresses, 0 is NULL, and a
-- timer that is freed is no block. This file has the state, the creation and the queries; the timers
-- are those of one loop. The wheel is a parameter.
pub mod Cancel
pub mod Invariant
pub mod Registering
pub mod Creating
pub mod Cancelling
pub mod Touched
pub mod Actions
pub mod Firing
pub mod Runs
mod Tests
use Prim.Native.String.{String}
use text.Mathlib.Text.{◌==◌ as str_eq}
use loopy.Prelude.{
  ℕ, ◌*◌, ◌%◌, ◌≡◌, ◌≢◌, Bool, true, false, not, ◌&&◌, Option, none, some, ◌==◌, if◌then◌else◌,
}
use loopy.Prelude.Run.{Run, ok, ◌>>=◌}
use loopy.Prelude.Words.{word}
use loopy.Prelude.Chain.{Store, set, read}

-- The timer wheel: identifiers that are registered with a client, here the address of a timer, and
-- that repeat or do not. An identifier that has been given is not given again.
pub record TimerWheel : Type 1 where
  pub Wheel : Type 0
  -- `timerWheelNew`; the answer NULL is the caller's argument.
  pub new : Wheel
  -- What is registered under an identifier, and whether it repeats.
  pub entry : Wheel → ℕ → Option (ℕ × Bool)
  -- whether an identifier has been given
  pub issued : Wheel → ℕ → Bool
  -- `timerWheelRegister`, with the delay and the interval; it gives 0 where it fails.
  pub register : Wheel → ℕ → ℕ → ℕ → ℕ × Wheel
  -- `timerWheelUnregister`
  pub unregister : Wheel → ℕ → Wheel
  -- what the wheel does once the callback of an identifier has returned
  pub answered : Wheel → ℕ → Bool → Wheel
  pub entry-new : (i : ℕ) → entry new i ≡ none
  pub entry-issued : (w : Wheel) (i : ℕ) (e : ℕ × Bool) → entry w i ≡ some e → issued w i ≡ true
  pub register_unissued :
      (w : Wheel) (start every client : ℕ)
      → (register w start every client).0 ≢ 0
      → issued w (register w start every client).0 ≡ false
  -- The identifier that is given is registered; the others stay.
  pub entry-register :
      (w : Wheel) (start every client i : ℕ)
      → (register w start every client).0 ≢ 0
      → entry (register w start every client).1 i ≡ (
          if i == (register w start every client).0
          then some (client, not (every == 0))
          else entry w i)
  -- A registration that fails registers nothing.
  pub entry-refused :
      (w : Wheel) (start every client i : ℕ)
      → (register w start every client).0 ≡ 0
      → entry (register w start every client).1 i ≡ entry w i
  pub issued-register :
      (w : Wheel) (start every client i : ℕ)
      → issued w i ≡ true
      → issued (register w start every client).1 i ≡ true
  pub entry-unregister :
      (w : Wheel) (id i : ℕ) → entry (unregister w id) i ≡ (if i == id then none else entry w i)
  pub issued-unregister : (w : Wheel) (id i : ℕ) → issued (unregister w id) i ≡ issued w i
  -- A callback that answers false is over, one that answers true is kept where it repeats.
  pub entry-answered_false :
      (w : Wheel) (id i : ℕ) → entry (answered w id false) i ≡ (if i == id then none else entry w i)
  pub entry-answered_true :
      (w : Wheel) (id client i : ℕ)
      → entry w id ≡ some (client, true)
      → entry (answered w id true) i ≡ entry w i
  pub issued-answered :
      (w : Wheel) (id i : ℕ) (keep : Bool) → issued (answered w id keep) i ≡ issued w i

-- `loopyTimer`
pub record Timer : Type 0 where
  pub loop : ℕ
  pub timer_id : ℕ
  pub cb : ℕ
  pub user_data : ℕ
  pub is_periodic : Bool
  pub is_active : Bool
  pub in_callback : Bool

-- The timers of a loop, its wheel, which is `none` until the first timer, and `lastError`.
pub record Timers (Wheel : Type 0) : Type 0 where
  pub blocks : Store Timer
  pub wheel : Option Wheel
  pub last_error : String

-- What the allocator answers a creation: the address of the block, NULL where it has none, and
-- whether a wheel can be made.
pub record Answers : Type 0 where
  pub block : ℕ
  pub wheel : Bool

module _ {Wheel : Type 0} where
  -- `setError`
  unfoldable pub set_timer_error : Timers Wheel → String → Timers Wheel
  set_timer_error w message = record w { last_error = message }

  -- `loopyTimerGetError`
  unfoldable pub get_timer_error : Timers Wheel → Option String
  get_timer_error w = if str_eq w.last_error "" then none else some w.last_error

  -- `*timer` is written.
  abbrev pub put : Timers Wheel → ℕ → Option Timer → Timers Wheel
  put w a x = record w { blocks = set w.blocks a x }

  -- `loopyTimerIsActive`
  unfoldable pub timer_is_active : Timers Wheel → ℕ → Run Bool
  timer_is_active w a = if a == 0 then ok false else read w.blocks a >>= λ t. ok t.is_active

  -- `loopyTimerGetLoop`
  unfoldable pub timer_get_loop : Timers Wheel → ℕ → Run ℕ
  timer_get_loop w a = if a == 0 then ok 0 else read w.blocks a >>= λ t. ok t.loop

  -- `loopyTimerGetData`
  unfoldable pub timer_get_data : Timers Wheel → ℕ → Run ℕ
  timer_get_data w a = if a == 0 then ok 0 else read w.blocks a >>= λ t. ok t.user_data

  -- `loopyTimerSetData`
  unfoldable pub timer_set_data : Timers Wheel → ℕ → ℕ → Run (Bool × Timers Wheel)
  timer_set_data w a data_ =
      if a == 0
      then ok (false, w)
      else read w.blocks a >>= λ t.
          if not t.is_active
          then ok (false, w)
          else ok (true, put w a (some (record t { user_data = data_ })))

module _ (k : TimerWheel) where
  open k use {Wheel, new, register}

  -- `timerWheelRegister(l->timer, ...)`
  unfoldable pub register_in : Timers Wheel → Wheel → ℕ → ℕ → ℕ → ℕ × Timers Wheel
  register_in w wheel start every client =
      let (id, after) = register wheel start every client in (id, record w { wheel = some after })

  -- `loopyRegisterTimer`; `made` is whether `timerWheelNew` gives a wheel.
  unfoldable pub register_timer : Bool → Timers Wheel → ℕ → ℕ → ℕ → ℕ × Timers Wheel
  unfolding register_in
  register_timer made w start every client = elim w.wheel [
    | none ↦ if made then register_in w new start every client else (0, w)
    | some wheel ↦ register_in w wheel start every client
  ]

  -- The timer that is filled in before its registration.
  abbrev pub new_timer : (loop every cb user_data : ℕ) → Timer
  new_timer loop every cb user_data = record {
    loop = loop;
    timer_id = 0;
    cb = cb;
    user_data = user_data;
    is_periodic = not (every == 0);
    is_active = true;
    in_callback = false;
  }

  -- The end of `createTimer`, with what the registration gives.
  unfoldable pub registered : ℕ → Timer → ℕ × Timers Wheel → ℕ × Timers Wheel
  unfolding set_timer_error
  registered a t (id, w) =
      if id == 0
      then (0, put (set_timer_error w "Failed to register timer with event loop") a none)
      else (a, record (put w a (some (record t { timer_id = id }))) { last_error = "" })

  -- `createTimer`
  unfoldable pub create_timer :
      Answers → Timers Wheel → (loop start every cb user_data : ℕ) → ℕ × Timers Wheel
  unfolding set_timer_error registered register_timer
  create_timer m w loop start every cb user_data =
      if loop == 0
      then (0, set_timer_error w "NULL event loop")
      else if cb == 0
      then (0, set_timer_error w "NULL callback")
      else if m.block == 0
      then (0, set_timer_error w "Memory allocation failed")
      else let t = new_timer loop every cb user_data in
        registered m.block t (register_timer m.wheel (put w m.block (some t)) start every m.block)

  -- `loopyTimerOneShot`, `loopyTimerOneShotMs`, `loopyTimerOneShotSeconds`
  unfoldable pub one_shot :
      Answers → Timers Wheel → (loop delay cb user_data : ℕ) → ℕ × Timers Wheel
  unfolding create_timer
  one_shot m w loop delay cb user_data = create_timer m w loop delay 0 cb user_data

  unfoldable pub one_shot_ms :
      Answers → Timers Wheel → (loop delay cb user_data : ℕ) → ℕ × Timers Wheel
  unfolding one_shot
  one_shot_ms m w loop delay cb user_data = one_shot m w loop (delay * 1000 % word) cb user_data

  unfoldable pub one_shot_seconds :
      Answers → Timers Wheel → (loop delay cb user_data : ℕ) → ℕ × Timers Wheel
  unfolding one_shot
  one_shot_seconds m w loop delay cb user_data =
      one_shot m w loop (delay * 1000000 % word) cb user_data

  -- `loopyTimerPeriodic`, `...Delayed`, `...Ms`, `...Seconds`
  unfoldable pub periodic :
      Answers → Timers Wheel → (loop interval cb user_data : ℕ) → ℕ × Timers Wheel
  unfolding create_timer
  periodic m w loop interval cb user_data = create_timer m w loop interval interval cb user_data

  unfoldable pub periodic_delayed :
      Answers → Timers Wheel → (loop start interval cb user_data : ℕ) → ℕ × Timers Wheel
  unfolding create_timer
  periodic_delayed m w loop start interval cb user_data =
      create_timer m w loop start interval cb user_data

  unfoldable pub periodic_ms :
      Answers → Timers Wheel → (loop interval cb user_data : ℕ) → ℕ × Timers Wheel
  unfolding periodic
  periodic_ms m w loop interval cb user_data =
      periodic m w loop (interval * 1000 % word) cb user_data

  unfoldable pub periodic_seconds :
      Answers → Timers Wheel → (loop interval cb user_data : ℕ) → ℕ × Timers Wheel
  unfolding periodic
  periodic_seconds m w loop interval cb user_data =
      periodic m w loop (interval * 1000000 % word) cb user_data
