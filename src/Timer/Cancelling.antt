-- ===== src/Timer/Cancelling.antt =====
-- src/loopyTimer.c: `loopyTimerCancel` takes a timer out of the wheel and frees it, and keeps what
-- holds of the timers; a second call on the same handle reads freed memory.
use loopy.Prelude.{
  ℕ, ◌≡◌, ◌≢◌, refl, sym, ◌∙◌, ◌⊎◌, inl, inr, Bool, true, false, Option, none, some, ◌==◌,
  if◌then◌else◌, Bool-cases, arith,
}
use loopy.Prelude.Run.{fault, ok, Returns, returns, Returns-bind, Returns-if, Returns-map}
use loopy.Prelude.Chain.{set, set-same, set-other, set-set, read, read-ok}
use loopy.Timer.{TimerWheel, Timer, Timers}
use loopy.Timer.Cancel.{unregister_timer, deactivate, cancel, entry_in}
use loopy.Timer.Invariant.{
  Busy, Dropped, Dropped-at, Dropped-other, IsTimers, ne_null, freed-IsTimers, stopped-IsTimers,
}

module _ (k : TimerWheel) where
  open k use {Wheel, unregister, entry-unregister, issued-unregister}

  -- What `loopyTimerCancel` leaves, while the callback of `b` runs.
  pub record Cancelled (b : Busy) (w : Timers Wheel) (a : ℕ) (t : Timer) (x : Timers Wheel)
      : Type 0 where
    pub timers : IsTimers k b x
    pub gone : entry_in k x.wheel t.timer_id ≡ none
    pub entries : (i : ℕ) → i ≢ t.timer_id → entry_in k x.wheel i ≡ entry_in k w.wheel i
    pub others : (c : ℕ) → c ≢ a → x.blocks c ≡ w.blocks c
    pub freed : a ≢ b.at → x.blocks a ≡ none
    pub stopped : a ≡ b.at → (s : Timer) × (x.blocks a ≡ some s) × (s.is_active ≡ false)

  unregister-Dropped :
      (w : Timers Wheel) (wheel : Option Wheel) (id : ℕ) {e : ℕ × Bool}
      → entry_in k wheel id ≡ some e
      → Returns
          (λ x. (new : Option Wheel) × (x ≡ record w { wheel = new }) × Dropped k wheel new id)
          (unregister_timer k (record w { wheel = wheel }) id)
  unfolding unregister_timer
  unregister-Dropped w none id here = absurd cc
  unregister-Dropped w (some v) id here =
      let d : Dropped k (some v) (some (unregister v id)) id = record {
        entries = entry-unregister v id;
        given = issued-unregister v id;
      } in
      returns (some (unregister v id), refl, d)

  module _ {b : Busy} {w : Timers Wheel} (q : IsTimers k b w) (a : ℕ) (t : Timer)
      (here : w.blocks a ≡ some t) where
    abbrev off : Timer
    off = record t { is_active = false }

    Cancelled-freed :
        (new : Option Wheel) (x : Option Timer)
        → Dropped k w.wheel new t.timer_id
        → a ≢ b.at
        → Cancelled b w a t (record w { blocks = set (set w.blocks a x) a none; wheel = new })
    Cancelled-freed new x d apart = rw (set-set w.blocks a x none) record {
      timers =
          freed-IsTimers k q a t here d b w.last_error (λ c some_c ne. refl)
            λ ne.
              let o = q.busy ne in
              record {
                t = o.t;
                here = set-other w.blocks none (λ e. apart (sym e)) ∙ o.here;
                own = o.own;
                repeats = o.repeats;
              };
      gone = Dropped-at k d;
      entries = Dropped-other k d;
      others = λ c. set-other w.blocks none;
      freed = λ ne. set-same w.blocks a none;
      stopped = λ e. absurd (apart e);
    }

    Cancelled-stopped :
        (new : Option Wheel)
        → Dropped k w.wheel new t.timer_id
        → a ≡ b.at
        → Cancelled b w a t (record w { blocks = set w.blocks a (some off); wheel = new })
    Cancelled-stopped new d inside = record {
      timers = stopped-IsTimers k q a t here d inside;
      gone = Dropped-at k d;
      entries = Dropped-other k d;
      others = λ c. set-other w.blocks (some off);
      freed = λ apart. absurd (apart inside);
      stopped = λ e. (off, set-same w.blocks a (some off), refl);
    }

    Cancelled-already : t.is_active ≡ false → Cancelled b w a t w
    Cancelled-already over =
        let p = q.each a t here in
        record {
          timers = q;
          gone = p.over over;
          entries = λ i apart. refl;
          others = λ c apart. refl;
          freed = λ apart. absurd (apart (p.lasting over));
          stopped = λ e. (t, here, over);
        }

    -- The first half of the function.
    abbrev Deactivated : Timers Wheel → Type 0
    Deactivated x =
        ((new : Option Wheel) × Dropped k w.wheel new t.timer_id
          × (x ≡ record w { blocks = set w.blocks a (some off); wheel = new }))
        ⊎ ((x ≡ w) × (t.is_active ≡ false))

    pub cancel-Cancelled : Returns (Cancelled b w a t) (cancel k w a)
    unfolding cancel deactivate
    cancel-Cancelled =
        let ne = ne_null k q a t here in
        let apart : (a == 0) ≡ false = ground arith in
        let p = q.each a t here in
        let in_own : t.in_callback ≡ true → a ≡ b.at = λ e. let it = p.running in ground arith in
        let not_own : t.in_callback ≡ false → a ≢ b.at = λ e. let it = p.running in ground arith in
        rw (apart, read-ok w.blocks ne here)
          (Returns-bind {Post = Deactivated}
            (Returns-if t.is_active
              (λ on.
                Returns-bind (unregister-Dropped w w.wheel t.timer_id (p.pending on))
                  λ x (new, e, d). returns (inl (new, d, rw e refl)))
              (λ over. returns (inr (refl, over))))
            λ x done. elim done [
              | inl (new, d, e) ↦ rw e (
                  Returns-if t.in_callback (λ on. returns (Cancelled-stopped new d (in_own on)))
                    (λ out. returns (Cancelled-freed new (some off) d (not_own out))))
              | inr (e, over) ↦ rw e (
                  Returns-if t.in_callback (λ on. returns (Cancelled-already over))
                    (λ out. absurd (not_own out (p.lasting over))))
            ])

    again_lem :
        {x : Timers Wheel}
        → Cancelled b w a t x
        → cancel k x a ≡ (if a == b.at then ok x else fault)
    unfolding cancel deactivate read
    again_lem {x} c =
        let ne = ne_null k q a t here in
        let apart : (a == 0) ≡ false = ground arith in
        elim (Bool-cases (a == b.at)) [
          | inl own ↦
              let (s, there, over) = c.stopped (ground arith) in
              let inside : s.in_callback ≡ true = (c.timers.each a s there).running ∙ own in
              rw (apart, there, over, inside, own) refl
          | inr other ↦ let gone = c.freed (ground arith) in rw (apart, gone, other) refl
        ]

    -- Where the wheel and the blocks agree, loopyTimerCancel of a timer that is not freed
    -- returns and they agree again; its identifier is no longer pending, the others stay, and so
    -- do the blocks of the other timers; the timer is freed, or, in its own callback, only
    -- inactive; a second call on it faults, or, in its own callback, changes nothing.
    pub cancel-cancel :
        Returns
          (λ x. Cancelled b w a t x × (cancel k x a ≡ (if a == b.at then ok x else fault)))
          (cancel k w a)
    cancel-cancel = Returns-map cancel-Cancelled λ x c. (c, again_lem c)
