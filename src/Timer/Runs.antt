-- ===== src/Timer/Runs.antt =====
-- src/loopyTimer.c: the states that a program reaches from a loop without timers, by its own calls and
-- by the callbacks that the wheel makes.
use loopy.Prelude.{ℕ, ◌≡◌, refl, inl, inr, Bool, true, none, some, List, Option-cases}
use loopy.Prelude.Run.{ok, Returns, returns, Returns-value, Returns-of, Returns-map}
use loopy.Timer.{TimerWheel, Timer, Timers}
use loopy.Timer.Cancel.{Action, act, mark, entry_in, fire}
use loopy.Timer.Invariant.{idle, IsTimers}
use loopy.Timer.Actions.{IsAllowed, AllAllowed, act-IsTimers}
use loopy.Timer.Firing.{fire-Fired}

module _ (k : TimerWheel) where
  open k use {Wheel}

  abbrev pub no_timers : Timers Wheel
  no_timers = record { blocks = λ a. none; wheel = none; last_error = "" }

  -- What a callback of the identifier `i` may do.
  unfoldable pub IsDue : Timers Wheel → ℕ → List Action → Type 0
  IsDue w i actions =
      (a : ℕ) (r : Bool) (t : Timer)
      → entry_in k w.wheel i ≡ some (a, r)
      → w.blocks a ≡ some t
      → AllAllowed k (mark k w a t true) actions

  pub data Reached : Timers Wheel → Type 0 where
    begun : Reached no_timers
    called :
        {w y : Timers Wheel} (x : Action)
        → Reached w
        → IsAllowed k w x
        → act k w x ≡ ok y
        → Reached y
    fired :
        {w y : Timers Wheel} (i : ℕ) (actions : List Action)
        → Reached w
        → IsDue w i actions
        → fire k w i actions ≡ ok y
        → Reached y

  no_timers-IsTimers : IsTimers k idle no_timers
  no_timers-IsTimers = record {
    null = refl;
    each = λ a t here. absurd cc;
    owned = λ i e here. absurd cc;
    busy = λ ne. absurd (ne refl);
  }

  fire-IsTimers :
      {w : Timers Wheel} (i : ℕ) (actions : List Action)
      → IsTimers k idle w
      → IsDue w i actions
      → Returns (IsTimers k idle) (fire k w i actions)
  unfolding fire IsDue
  fire-IsTimers {w} i actions q due = elim (Option-cases (entry_in k w.wheel i)) [
    | inl e ↦ rw (e, fire) (returns q)
    | inr ((a, r), e) ↦
        let o = q.owned i (a, r) e in
        Returns-map (fire-Fired k q a o.t o.here actions (due a r o.t e o.here) i e) λ y f. f.timers
  ]

  kept_lem : {w : Timers Wheel} → Reached w → IsTimers k idle w
  kept_lem begun = no_timers-IsTimers
  kept_lem (called x reached allowed e) = Returns-of (act-IsTimers k x (kept_lem reached) allowed) e
  kept_lem (fired i actions reached due e) =
      Returns-of (fire-IsTimers i actions (kept_lem reached) due) e

  -- The wheel and the blocks agree, and the next call and the next firing return.
  abbrev pub Goes : Timers Wheel → Type 0
  Goes w =
      IsTimers k idle w
      × ((x : Action) → IsAllowed k w x → (y : Timers Wheel) × (act k w x ≡ ok y))
      × ((i : ℕ) (actions : List Action)
          → IsDue w i actions
          → (y : Timers Wheel) × (fire k w i actions ≡ ok y))

  -- In every state that a program reaches from a loop without timers, by creations,
  -- cancellations and changes of data, outside of callbacks and in them, on handles of timers
  -- that are not freed and with unused blocks from the allocator, every identifier pending in
  -- the wheel leads to an active timer that is not freed and has that identifier, every timer
  -- that is not freed is active and pending, and the next such call and the next firing return.
  pub Reached-Goes : {w : Timers Wheel} → Reached w → Goes w
  Reached-Goes reached =
      let q = kept_lem reached in
      (
        q,
        λ x allowed. let (y, e, kept) = Returns-value (act-IsTimers k x q allowed) in (y, e),
        λ i actions due. let (y, e, kept) = Returns-value (fire-IsTimers i actions q due) in (y, e),
      )
