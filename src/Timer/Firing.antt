-- ===== src/Timer/Firing.antt =====
-- src/loopyTimer.c: what the wheel's call of `timerWheelCallbackWrapper` does to the timers: the user's
-- callback, with every call that it may make, and what comes after it.
use mathlib.Core.Path.{subst}
use loopy.Prelude.{
  some-injective, ℕ, ◌≡◌, ◌≢◌, refl, sym, ap, ◌∙◌, Bool, true, false, not, ◌&&◌, Option, none, some,
  List, ◌==◌, if◌then◌else◌, arith,
}
use loopy.Prelude.Run.{
  ok, ◌>>=◌, Returns, returns, Returns-bind, Returns-if, Returns-map, Returns-value,
}
use loopy.Prelude.Chain.{set, set-same, set-other, set-set, read-ok}
use loopy.Timer.{TimerWheel, Timer, Timers}
use loopy.Timer.Cancel.{
  Action, callback, mark, finish_callback, callback_wrapper, answer, answered_in, entry_in, fire,
}
use loopy.Timer.Invariant.{
  Busy, idle, Dropped, Dropped-at, issued_in, IsTimers, ne_null, freed-IsTimers,
}
use loopy.Timer.Touched.{touched-IsTimers}
use loopy.Timer.Actions.{AllAllowed, callback-IsTimers}

module _ (k : TimerWheel) where
  open k use {Wheel, answered, entry-answered_false, entry-answered_true, issued-answered}

  answered-Dropped :
      (wheel : Option Wheel) (i : ℕ) → Dropped k wheel (answered_in k wheel i false) i
  answered-Dropped none i = record { entries = λ j. ground arith; given = λ j. refl }
  answered-Dropped (some v) i = record {
    entries = entry-answered_false v i;
    given = λ j. issued-answered v i j false;
  }

  answered-kept :
      (wheel : Option Wheel) (i a : ℕ)
      → entry_in k wheel i ≡ some (a, true)
      → ((j : ℕ) → entry_in k (answered_in k wheel i true) j ≡ entry_in k wheel j)
        × ((j : ℕ) → issued_in k (answered_in k wheel i true) j ≡ issued_in k wheel j)
  answered-kept none i a here = absurd cc
  answered-kept (some v) i a here =
      (λ j. entry-answered_true v i a j here, λ j. issued-answered v i j true)

  -- What a callback of the identifier `i`, which the wheel has for the timer `t` at `a`, leaves. `v`
  -- and `s` are the timers and the timer at the end of the user's part of it.
  pub record Fired (w : Timers Wheel) (actions : List Action) (i a : ℕ) (t : Timer)
      (y : Timers Wheel) : Type 0 where
    pub timers : IsTimers k idle y
    pub v : Timers Wheel
    pub s : Timer
    pub ran : t.cb ≢ 0 → callback k (mark k w a t true) actions ≡ ok v
    pub there : v.blocks a ≡ some s
    pub others : (c : ℕ) → c ≢ a → y.blocks c ≡ v.blocks c
    pub kept :
        (s.is_active && t.is_periodic) ≡ true
        → (y.blocks a ≡ some (record s { in_callback = false }))
          × (entry_in k y.wheel i ≡ some (a, true))
    pub freed :
        (s.is_active && t.is_periodic) ≡ false → (y.blocks a ≡ none) × (entry_in k y.wheel i ≡ none)

  entered-IsTimers :
      {w : Timers Wheel} (q : IsTimers k idle w) (a : ℕ) (t : Timer)
      → w.blocks a ≡ some t
      → IsTimers k (record { at = a; id = t.timer_id; repeats = t.is_periodic }) (mark k w a t true)
  entered-IsTimers {w} q a t here =
      let inside : Timer = record t { in_callback = true } in
      touched-IsTimers k q a t inside here refl refl refl
        (record { at = a; id = t.timer_id; repeats = t.is_periodic }) w.wheel (λ i. refl)
        (λ i. refl) (ground arith) (λ off. refl) (λ c ne apart. ground arith)
        λ ne. record {
          t = inside;
          here = set-same w.blocks a (some inside);
          own = refl;
          repeats = refl;
        }

  -- The wheel's answer after the end of a callback.
  module _ (b : Busy) (v : Timers Wheel) (q : IsTimers k b v) (some_at : b.at ≢ 0) where
    abbrev Ended : Timers Wheel → Timer → Timers Wheel → Type 0
    Ended v s y =
        IsTimers k idle y
        × ((c : ℕ) → c ≢ b.at → y.blocks c ≡ v.blocks c)
        × ((s.is_active && b.repeats) ≡ true
            → (y.blocks b.at ≡ some (record s { in_callback = false }))
              × (entry_in k y.wheel b.id ≡ some (b.at, true)))
        × ((s.is_active && b.repeats) ≡ false
            → (y.blocks b.at ≡ none) × (entry_in k y.wheel b.id ≡ none))

    freed-Ended :
        (s : Timer) (x : Option Timer)
        → v.blocks b.at ≡ some s
        → s.timer_id ≡ b.id
        → (s.is_active && b.repeats) ≡ false
        → Ended v s
            (answer k b.id (false, record v { blocks = set (set v.blocks b.at x) b.at none }))
    freed-Ended s x here own off = rw (set-set v.blocks b.at x none) (
      freed-IsTimers k q b.at s here
          (subst (Dropped k v.wheel (answered_in k v.wheel b.id false)) (sym own)
            (answered-Dropped v.wheel b.id))
          idle v.last_error (λ c ne apart. ground arith) (λ ne. absurd (ne refl)),
      λ c apart. set-other v.blocks none apart,
      λ on. absurd cc,
      λ e. (set-same v.blocks b.at none, Dropped-at k (answered-Dropped v.wheel b.id)),
    )

    kept-Ended :
        (s : Timer)
        → v.blocks b.at ≡ some s
        → s.timer_id ≡ b.id
        → s.is_periodic ≡ b.repeats
        → (s.is_active && b.repeats) ≡ true
        → Ended v s (answer k b.id (true, mark k v b.at s false))
    kept-Ended s here own kind on =
        let back : Timer = record s { in_callback = false } in
        let p = q.each b.at s here in
        let repeats : b.repeats ≡ true = ground arith in
        let active : s.is_active ≡ true = ground arith in
        let here_entry : entry_in k v.wheel b.id ≡ some (b.at, true) =
          ap (entry_in k v.wheel) (sym own)
          ∙ p.pending active
          ∙ ap (λ r. some (b.at, r)) (kind ∙ repeats) in
        let (entries, given) = answered-kept v.wheel b.id b.at here_entry in
        (
          touched-IsTimers k q b.at s back here refl refl refl idle
              (answered_in k v.wheel b.id true) entries given (ground arith) (λ off. absurd cc)
              (λ c ne apart. ground arith) (λ ne. absurd (ne refl)),
          λ c apart. set-other v.blocks (some back) apart,
          λ e. (set-same v.blocks b.at (some back), entries b.id ∙ here_entry),
          λ off. absurd cc,
        )

    finish_callback-Ended :
        Returns
          (λ r. (s : Timer) × (v.blocks b.at ≡ some s) × Ended v s (answer k b.id r))
          (finish_callback k b.repeats b.at v)
    unfolding finish_callback
    finish_callback-Ended =
        let o = q.busy some_at in
        let s = o.t in
        let back : Option Timer = some (record s { in_callback = false }) in
        rw (read-ok v.blocks some_at o.here) (
          Returns-if (not s.is_active)
            (λ off. returns (s, o.here, freed-Ended s back o.here o.own (ground arith)))
            λ on.
              Returns-if b.repeats
                (λ repeats. returns (s, o.here, kept-Ended s o.here o.own o.repeats (ground arith)))
                (λ once. returns (s, o.here, freed-Ended s back o.here o.own (ground arith))))

  module _ {w : Timers Wheel} (q : IsTimers k idle w) (a : ℕ) (t : Timer)
      (here : w.blocks a ≡ some t) (actions : List Action)
      (allowed : AllAllowed k (mark k w a t true) actions) where
    abbrev running : Busy
    running = record { at = a; id = t.timer_id; repeats = t.is_periodic }

    callback_lem :
        Returns
          (λ v. IsTimers k running v × (t.cb ≢ 0 → callback k (mark k w a t true) actions ≡ ok v))
          (if t.cb == 0 then ok (mark k w a t true) else callback k (mark k w a t true) actions)
    callback_lem =
        let inside = entered-IsTimers q a t here in
        Returns-if (t.cb == 0)
          (λ e.
            let is_null : t.cb ≡ 0 = ground arith in returns (inside, λ ne. absurd (ne is_null)))
          λ e.
            let (v, ran, kept) = Returns-value (callback-IsTimers k actions inside allowed) in
            rw ran (returns (kept, λ ne. refl))

    callback_wrapper-Fired :
        t.is_active ≡ true
        → Returns
            (λ r. Fired w actions t.timer_id a t (answer k t.timer_id r))
            (callback_wrapper k w a actions)
    unfolding callback_wrapper
    callback_wrapper-Fired on =
        let ne = ne_null k q a t here in
        let apart : (a == 0) ≡ false = ground arith in
        rw (apart, read-ok w.blocks ne here)
          (Returns-if (not t.is_active) (λ off. absurd cc)
            λ still. Returns-bind callback_lem λ v (kept, ran).
              Returns-map (finish_callback-Ended running v kept ne)
                λ r (s, there, (timers, others, keeps, frees)). record {
                  timers = timers;
                  v = v;
                  s = s;
                  ran = ran;
                  there = there;
                  others = others;
                  kept = keeps;
                  freed = frees;
                })

    -- Where the wheel and the blocks agree, a firing of an identifier that is pending returns
    -- for every callback that makes allowed calls, and they agree again; the timer is kept,
    -- pending, where it repeats and the callback has not cancelled it, and is freed and no
    -- longer pending else; the end of the callback changes no other timer's block.
    pub fire-Fired :
        (i : ℕ) {repeats : Bool}
        → entry_in k w.wheel i ≡ some (a, repeats)
        → Returns (Fired w actions i a t) (fire k w i actions)
    unfolding fire
    fire-Fired i e =
        let o = q.owned i _ e in
        let one = some-injective (sym o.here ∙ here) in
        let own : t.timer_id ≡ i = ap (λ (s : Timer). s.timer_id) (sym one) ∙ o.own in
        rw (e, fire)
          (subst
            (λ j.
              Returns (Fired w actions j a t)
                (callback_wrapper k w a actions >>= λ r. ok (answer k j r)))
            own
            (Returns-bind
              (callback_wrapper-Fired (ap (λ (s : Timer). s.is_active) (sym one) ∙ o.active))
              λ r done. returns done))
