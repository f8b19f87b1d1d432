-- ===== src/Timer/Actions.antt =====
-- src/loopyTimer.c: every call that a program makes, and so every callback that makes such calls, keeps
-- what holds of the timers and returns.
use loopy.Prelude.{ℕ, ◌≡◌, ◌≢◌, refl, false, not, none, some, List, [], ◌∷◌, ◌==◌, arith}
use loopy.Prelude.Run.{ok, Returns, returns, Returns-bind, Returns-if, Returns-map, Returns-value}
use loopy.Prelude.Chain.{read-ok}
use loopy.Timer.{TimerWheel, Timer, Timers, timer_set_data}
use loopy.Timer.Cancel.{Action, cancelling, creating, setting, cancel, act, callback}
use loopy.Timer.Invariant.{Busy, IsTimers, ne_null}
use loopy.Timer.Touched.{touched-IsTimers, touched-IsBusy}
use loopy.Timer.Creating.{create_timer-Created}
use loopy.Timer.Cancelling.{cancel-Cancelled}

module _ (k : TimerWheel) where
  open k use {Wheel}

  -- A handle that a program may use: NULL, or of a timer that is not freed.
  pub data IsHandle (w : Timers Wheel) (a : ℕ) : Type 0 where
    null : a ≡ 0 → IsHandle w a
    live : (t : Timer) → w.blocks a ≡ some t → IsHandle w a

  -- A call on such a handle, or one for which the allocator has an unused block.
  abbrev pub IsAllowed : Timers Wheel → Action → Type 0
  IsAllowed w (cancelling a) = IsHandle w a
  IsAllowed w (creating m loop start every cb user_data) = m.block ≢ 0 → w.blocks m.block ≡ none
  IsAllowed w (setting a user_data) = IsHandle w a

  -- All the calls of a callback, each at the timers that it finds.
  abbrev pub AllAllowed : Timers Wheel → List Action → Type 0
  AllAllowed w [] = Unit
  AllAllowed w (x ∷ xs) = IsAllowed w x × ((y : Timers Wheel) → act k w x ≡ ok y → AllAllowed y xs)

  module _ {b : Busy} where
    set_data-IsTimers :
        {w : Timers Wheel} (a user_data : ℕ)
        → IsTimers k b w
        → IsHandle w a
        → Returns (λ r. IsTimers k b r.1) (timer_set_data w a user_data)
    unfolding timer_set_data
    set_data-IsTimers a user_data q (null e) = rw e (returns q)
    set_data-IsTimers {w} a user_data q (live t here) =
        let ne = ne_null k q a t here in
        let apart : (a == 0) ≡ false = ground arith in
        let p = q.each a t here in
        rw (apart, read-ok w.blocks ne here)
          (Returns-if (not t.is_active) (λ off. returns q)
            λ on. returns (
              touched-IsTimers k q a t (record t { user_data = user_data }) here refl refl refl b
                w.wheel (λ i. refl) (λ i. refl) p.running p.lasting (λ c ne apart. refl)
                λ some_at.
                  touched-IsBusy k q a t (record t { user_data = user_data }) here refl refl refl b
                    (q.busy some_at)))

    cancel-IsTimers :
        {w : Timers Wheel} (a : ℕ)
        → IsTimers k b w
        → IsHandle w a
        → Returns (IsTimers k b) (cancel k w a)
    unfolding cancel
    cancel-IsTimers a q (null e) = rw e (returns q)
    cancel-IsTimers a q (live t here) = Returns-map (cancel-Cancelled k q a t here) λ x c. c.timers

    pub act-IsTimers :
        {w : Timers Wheel} (x : Action)
        → IsTimers k b w
        → IsAllowed w x
        → Returns (IsTimers k b) (act k w x)
    unfolding act
    act-IsTimers (cancelling a) q allowed = cancel-IsTimers a q allowed
    act-IsTimers {w} (creating m loop start every cb user_data) q allowed =
        returns (create_timer-Created k b m w loop start every cb user_data q allowed).timers
    act-IsTimers (setting a user_data) q allowed =
        Returns-bind (set_data-IsTimers a user_data q allowed) λ r kept. returns kept

    pub callback-IsTimers :
        (xs : List Action) {w : Timers Wheel}
        → IsTimers k b w
        → AllAllowed w xs
        → Returns (IsTimers k b) (callback k w xs)
    unfolding callback
    callback-IsTimers [] q allowed = returns q
    callback-IsTimers (x ∷ xs) {w} q (first, rest) =
        let (y, e, kept) = Returns-value (act-IsTimers x q first) in
        rw e (callback-IsTimers xs kept (rest y e))
