-- ===== src/Timer/Tests.antt =====
-- src/loopyTimer.c: a wheel that numbers its timers, and the theorems at concrete timers.
use mathlib.Core.Path.{subst}
use loopy.Prelude.{
  some-injective, ap, ℕ, ◌+◌, ◌≡◌, ◌≢◌, refl, sym, Bool, true, false, not, Option, none, some, List,
  [], ◌∷◌, arith, ◌==◌, ◌∙◌, ◌^◌, leb, if◌then◌else◌,
}
use loopy.Prelude.Run.{Run, ok, fault, out_of_fuel, Returns, ok-injective}
use loopy.Prelude.Chain.{set, read}
use loopy.Timer.{
  TimerWheel, Timer, Timers, Answers, create_timer, registered, register_timer, register_in,
  set_timer_error, get_timer_error, one_shot, one_shot_ms, timer_set_data,
}
use loopy.Timer.Cancel.{
  Action, cancelling, creating, cancel, act, callback, mark, finish_callback, callback_wrapper,
  fire, deactivate, unregister_timer,
}
use loopy.Timer.Invariant.{idle, IsTimers}
use loopy.Timer.Creating.{Created, create_timer-Created}
use loopy.Timer.Cancelling.{Cancelled, cancel-cancel}
use loopy.Timer.Actions.{AllAllowed, live}
use loopy.Timer.Firing.{Fired, fire-Fired}
use loopy.Timer.Runs.{no_timers, Reached, begun, called, fired, Reached-Goes, Goes, IsDue}

-- The identifiers up to `given` have been given.
record Numbers : Type 0 where
  given : ℕ
  table : ℕ → Option (ℕ × Bool)

abbrev number_entry : Numbers → ℕ → Option (ℕ × Bool)
number_entry w i = if leb i w.given then w.table i else none

abbrev registering : Numbers → ℕ → ℕ → ℕ → ℕ × Numbers
registering w start every client = (
  w.given + 1,
  record {
    given = w.given + 1;
    table = λ i. if i == w.given + 1 then some (client, not (every == 0)) else w.table i;
  },
)

abbrev dropping : Numbers → ℕ → Numbers
dropping w id = record w { table = λ i. if i == id then none else w.table i }

abbrev answering : Numbers → ℕ → Bool → Numbers
answering w id keep = if keep then w else dropping w id

entry-issued_lem :
    (w : Numbers) (i : ℕ) (e : ℕ × Bool) → number_entry w i ≡ some e → leb i w.given ≡ true
entry-issued_lem w i e here = ground arith

entry-registering :
    (w : Numbers) (start every client i : ℕ)
    → number_entry (registering w start every client).1 i
      ≡ (if i == w.given + 1 then some (client, not (every == 0)) else number_entry w i)
entry-registering w start every client i = ground arith

entry-dropping :
    (w : Numbers) (id i : ℕ)
    → number_entry (dropping w id) i ≡ (if i == id then none else number_entry w i)
entry-dropping w id i = ground arith

answering-given :
    (w : Numbers) (id i : ℕ) (keep : Bool) → leb i (answering w id keep).given ≡ leb i w.given
answering-given w id i true = refl
answering-given w id i false = refl

entry-none : (i : ℕ) → number_entry (record { given = 0; table = λ j. none }) i ≡ none
entry-none i = ground arith

not_given : (w : Numbers) → leb (w.given + 1) w.given ≡ false
not_given w = ground arith

still_given : (w : Numbers) (i : ℕ) → leb i w.given ≡ true → leb i (w.given + 1) ≡ true
still_given w i e = ground arith

given_some : (w : Numbers) → w.given + 1 ≢ 0
given_some w = ground arith

abbrev numbering : TimerWheel
numbering = record {
  Wheel = Numbers;
  new = record { given = 0; table = λ i. none };
  entry = number_entry;
  issued = λ w i. leb i w.given;
  register = registering;
  unregister = dropping;
  answered = answering;
  entry-new = entry-none;
  entry-issued = entry-issued_lem;
  register_unissued = λ w start every client ne. not_given w;
  entry-register = λ w start every client i ne. entry-registering w start every client i;
  entry-refused = λ w start every client i zero. absurd (given_some w zero);
  issued-register = λ w start every client i e. still_given w i e;
  entry-unregister = entry-dropping;
  issued-unregister = λ w id i. refl;
  entry-answered_false = entry-dropping;
  entry-answered_true = λ w id client i e. refl;
  issued-answered = answering-given;
}

abbrev block_at : ℕ → Answers
block_at a = record { block = a; wheel = true }

-- A timer of every millisecond at 7, and then also one that fires once, at 9.
abbrev start_7 : Action
start_7 = creating (block_at 7) 1 1000 1000 70 0

abbrev start_9 : Action
start_9 = creating (block_at 9) 1 500 0 90 0

abbrev one_timer : Timers Numbers
one_timer = (create_timer numbering (block_at 7) (no_timers numbering) 1 1000 1000 70 0).1

abbrev two_timers : Timers Numbers
two_timers = (create_timer numbering (block_at 9) one_timer 1 500 0 90 0).1

one-Reached : Reached numbering one_timer
unfolding act
one-Reached = called start_7 begun (λ ne. refl) refl

two-Reached : Reached numbering two_timers
unfolding act create_timer registered register_timer register_in set
two-Reached = called start_9 one-Reached (λ ne. refl) refl

two-IsTimers : IsTimers numbering idle two_timers
two-IsTimers = (Reached-Goes numbering two-Reached).0

-- The callback of the timer at 7 cancels the one at 9 and itself.
abbrev cancel_both : List Action
cancel_both = cancelling 9 ∷ cancelling 7 ∷ []

abbrev timer_7 : Timer
timer_7 = record {
  loop = 1;
  timer_id = 1;
  cb = 70;
  user_data = 0;
  is_periodic = true;
  is_active = true;
  in_callback = false;
}

abbrev timer_9 : Timer
timer_9 = record {
  loop = 1;
  timer_id = 2;
  cb = 90;
  user_data = 0;
  is_periodic = false;
  is_active = true;
  in_callback = false;
}

both_allowed : AllAllowed numbering (mark numbering two_timers 7 timer_7 true) cancel_both
unfolding create_timer registered register_timer register_in set act cancel deactivate
    unregister_timer read
both_allowed = (
  live timer_9 refl,
  λ y e. (
    live (record timer_7 { in_callback = true })
        (ap (λ (x : Timers Numbers). x.blocks 7) (sym (ok-injective e))),
    λ z e'. tt,
  ),
)

both-IsDue : IsDue numbering two_timers 1 cancel_both
unfolding IsDue create_timer registered register_timer register_in set
both-IsDue a r t e here =
    let at : 7 ≡ a = ap (λ p. p.0) (some-injective e) in
    let it : timer_7 ≡ t = some-injective (ap two_timers.blocks at ∙ here) in
    subst (λ p. AllAllowed numbering (mark numbering two_timers p t true) cancel_both) at
      (subst (λ u. AllAllowed numbering (mark numbering two_timers 7 u true) cancel_both) it
        both_allowed)

-- What a call leaves; the calls below return.
abbrev left_by : Run (Timers Numbers) → Timers Numbers
left_by (ok w) = w
left_by fault = no_timers numbering
left_by out_of_fuel = no_timers numbering

abbrev none_left : Timers Numbers
none_left = left_by (fire numbering two_timers 1 cancel_both)

none_left-Reached : Reached numbering none_left
unfolding create_timer registered register_timer register_in set act cancel deactivate
    unregister_timer read fire callback_wrapper callback finish_callback
none_left-Reached = fired 1 cancel_both two-Reached both-IsDue refl

Reached-Goes_example : Goes numbering none_left
Reached-Goes_example = Reached-Goes numbering none_left-Reached

-- The callback of the timer at 7 that does nothing leaves it pending; the one at 9 fires once.
runs_on : (left_by (fire numbering two_timers 1 [])).wheel ≡ two_timers.wheel
unfolding create_timer registered register_timer register_in set read fire callback_wrapper callback
    finish_callback
runs_on = refl

fires_once : (left_by (fire numbering two_timers 2 [])).blocks 9 ≡ none
unfolding create_timer registered register_timer register_in set read fire callback_wrapper callback
    finish_callback
fires_once = refl

milliseconds_wrap :
    (one_shot_ms numbering (block_at 7) (no_timers numbering) 1 (2 ^ 61) 70 0)
    ≡ one_shot numbering (block_at 7) (no_timers numbering) 1 0 70 0
unfolding one_shot_ms
milliseconds_wrap = refl

says_why :
    get_timer_error (create_timer numbering (block_at 0) two_timers 1 5 5 110 0).1
    ≡ some "Memory allocation failed"
unfolding create_timer set_timer_error get_timer_error
says_why = refl

-- The data of a timer that has been cancelled in its callback cannot be changed.
refuses_data :
    timer_set_data (mark numbering two_timers 7 (record timer_7 { is_active = false }) true) 7 5
    ≡ ok (false, mark numbering two_timers 7 (record timer_7 { is_active = false }) true)
unfolding timer_set_data read set
refuses_data = refl

fire-Fired_example :
    Returns
      (Fired numbering two_timers cancel_both 1 7 timer_7)
      (fire numbering two_timers 1 cancel_both)
unfolding create_timer registered register_timer register_in set
fire-Fired_example =
    fire-Fired numbering two-IsTimers 7 timer_7 refl cancel_both both_allowed 1 refl

create_timer-Created_example :
    Created numbering idle
      (block_at 11)
      two_timers
      1
      5
      5
      110
      0
      (create_timer numbering (block_at 11) two_timers 1 5 5 110 0)
unfolding create_timer registered register_timer register_in set
create_timer-Created_example =
    create_timer-Created numbering idle (block_at 11) two_timers 1 5 5 110 0 two-IsTimers λ ne. refl

cancel-cancel_example :
    Returns
      (λ x. Cancelled numbering idle two_timers 7 timer_7 x × (cancel numbering x 7 ≡ fault))
      (cancel numbering two_timers 7)
unfolding create_timer registered register_timer register_in set
cancel-cancel_example = cancel-cancel numbering two-IsTimers 7 timer_7 refl
