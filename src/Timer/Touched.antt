-- ===== src/Timer/Touched.antt =====
-- src/loopyTimer.c: a change of a timer's block that leaves its identifier, its kind, and whether it is
-- active.
use mathlib.Core.Path.{subst}
use loopy.Prelude.{
  some-injective, ℕ, ◌≡◌, ◌≢◌, sym, ap, ◌∙◌, inl, inr, Bool, false, Option, some, ◌==◌, Bool-cases,
  arith,
}
use loopy.Prelude.Chain.{set, set-same, set-other}
use loopy.Timer.{TimerWheel, Timer, Timers}
use loopy.Timer.Cancel.{entry_in}
use loopy.Timer.Invariant.{Busy, set_each, issued_in, IsTimer, IsOwned, IsBusy, IsTimers, ne_null}
use loopy.Timer.Registering.{IsTimer-keep}

module _ (k : TimerWheel) where
  open k use {Wheel}

  -- The block of a timer changes, but not its identifier, its kind, and whether it is active.
  module _ {b : Busy} {w : Timers Wheel} (q : IsTimers k b w) (a : ℕ) (t t' : Timer)
      (here : w.blocks a ≡ some t) (id : t'.timer_id ≡ t.timer_id) (on : t'.is_active ≡ t.is_active)
      (kind : t'.is_periodic ≡ t.is_periodic) where
    touched-IsOwned :
        (i : ℕ) (e : ℕ × Bool) → IsOwned k w.blocks i e → IsOwned k (set w.blocks a (some t')) i e
    touched-IsOwned i e o = elim (Bool-cases (e.0 == a)) [
      | inl hit ↦
          let same : e.0 ≡ a = ground arith in
          let one = some-injective (sym here ∙ ap w.blocks (sym same) ∙ o.here) in
          record {
            t = t';
            here = ap (set w.blocks a (some t')) same ∙ set-same w.blocks a (some t');
            own = id ∙ ap (λ (s : Timer). s.timer_id) one ∙ o.own;
            active = on ∙ ap (λ (s : Timer). s.is_active) one ∙ o.active;
          }
      | inr miss ↦
          let apart : e.0 ≢ a = ground arith in
          record {
            t = o.t;
            here = set-other w.blocks (some t') apart ∙ o.here;
            own = o.own;
            active = o.active;
          }
    ]

    pub touched-IsBusy : (b' : Busy) → IsBusy k b' w.blocks → IsBusy k b' (set w.blocks a (some t'))
    touched-IsBusy b' o = elim (Bool-cases (b'.at == a)) [
      | inl hit ↦
          let same : b'.at ≡ a = ground arith in
          let one = some-injective (sym here ∙ ap w.blocks (sym same) ∙ o.here) in
          record {
            t = t';
            here = ap (set w.blocks a (some t')) same ∙ set-same w.blocks a (some t');
            own = id ∙ ap (λ (s : Timer). s.timer_id) one ∙ o.own;
            repeats = kind ∙ ap (λ (s : Timer). s.is_periodic) one ∙ o.repeats;
          }
      | inr miss ↦
          let apart : b'.at ≢ a = ground arith in
          record {
            t = o.t;
            here = set-other w.blocks (some t') apart ∙ o.here;
            own = o.own;
            repeats = o.repeats;
          }
    ]

    pub touched-IsTimers :
        (b' : Busy) (new : Option Wheel)
        → ((i : ℕ) → entry_in k new i ≡ entry_in k w.wheel i)
        → ((i : ℕ) → issued_in k new i ≡ issued_in k w.wheel i)
        → t'.in_callback ≡ (a == b'.at)
        → (t.is_active ≡ false → a ≡ b'.at)
        → ((c : ℕ) → c ≢ 0 → c ≢ a → (c == b'.at) ≡ (c == b.at))
        → (b'.at ≢ 0 → IsBusy k b' (set w.blocks a (some t')))
        → IsTimers k b'
            (record { blocks = set w.blocks a (some t'); wheel = new; last_error = w.last_error })
    touched-IsTimers b' new entries given running lasting others busy =
        let p = q.each a t here in
        let changed : IsTimer k new b'.at a t' = record {
          pending = λ e.
              ap (entry_in k new) id
              ∙ entries t.timer_id
              ∙ p.pending (sym on ∙ e)
              ∙ ap (λ r. some (a, r)) (sym kind);
          over = λ e. ap (entry_in k new) id ∙ entries t.timer_id ∙ p.over (sym on ∙ e);
          given = ap (issued_in k new) id ∙ given t.timer_id ∙ p.given;
          running = running;
          lasting = λ e. lasting (sym on ∙ e);
        } in
        record {
          null = set-other w.blocks (some t') (λ e. ne_null k q a t here (sym e)) ∙ q.null;
          each =
              set_each w.blocks a (some t')
                (λ s e. subst (IsTimer k new b'.at a) (some-injective e) changed)
                λ c s apart there.
                  let spared =
                    IsTimer-keep k (λ i e. given i ∙ e) (entries s.timer_id) (q.each c s there) in
                  let same = others c (ne_null k q c s there) apart in
                  record {
                    pending = spared.pending;
                    over = spared.over;
                    given = spared.given;
                    running = spared.running ∙ sym same;
                    lasting = λ e. let it = spared.lasting e in ground arith;
                  };
          owned = λ i e there. touched-IsOwned i e (q.owned i e (sym (entries i) ∙ there));
          busy = busy;
        }
