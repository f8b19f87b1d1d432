-- ===== src/Timer/Invariant.antt =====
-- src/loopyTimer.c: what holds of the timers of a loop: the wheel and the blocks agree.
use Prim.Native.String.{String}
use mathlib.Core.Path.{subst}
use loopy.Prelude.{
  some-injective, ℕ, ◌≡◌, ◌≢◌, refl, sym, ap, ◌∙◌, inl, inr, Bool, true, false, Option, none, some,
  ◌==◌, if◌then◌else◌, Bool-cases, arith,
}
use loopy.Prelude.Chain.{Store, set, set-same, set-other, set-none}
use loopy.Timer.{TimerWheel, Timer, Timers}
use loopy.Timer.Cancel.{entry_in}

-- The timer whose callback runs, with its identifier and whether it repeats; NULL where none runs.
pub record Busy : Type 0 where
  pub at : ℕ
  pub id : ℕ
  pub repeats : Bool

abbrev pub idle : Busy
idle = record { at = 0; id = 0; repeats = false }

-- What holds of every block after a change of one, where it holds of the new one and of the others.
pub set_each :
    {P : ℕ → Timer → Type 0} (h : Store Timer) (a : ℕ) (x : Option Timer)
    → ((t : Timer) → x ≡ some t → P a t)
    → ((c : ℕ) (t : Timer) → c ≢ a → h c ≡ some t → P c t)
    → (c : ℕ) (t : Timer) → set h a x c ≡ some t
    → P c t
set_each {P} h a x new old c t here = elim (Bool-cases (c == a)) [
  | inl e ↦
      let same : c ≡ a = ground arith in
      subst (λ b. P b t) (sym same)
        (new t (sym (set-same h a x) ∙ ap (set h a x) (sym same) ∙ here))
  | inr e ↦ let apart : c ≢ a = ground arith in old c t apart (sym (set-other h x apart) ∙ here)
]

module _ (k : TimerWheel) where
  open k use {Wheel, issued}

  abbrev pub issued_in : Option Wheel → ℕ → Bool
  issued_in none i = false
  issued_in (some wheel) i = issued wheel i

  -- A timer, while the callback of the timer at `busy` runs: an active timer is registered under its
  -- identifier, as one-shot or periodic, and one that is not active lasts for the rest of its
  -- callback only.
  pub record IsTimer (wheel : Option Wheel) (busy a : ℕ) (t : Timer) : Type 0 where
    pub pending : t.is_active ≡ true → entry_in k wheel t.timer_id ≡ some (a, t.is_periodic)
    pub over : t.is_active ≡ false → entry_in k wheel t.timer_id ≡ none
    pub given : issued_in wheel t.timer_id ≡ true
    pub running : t.in_callback ≡ (a == busy)
    pub lasting : t.is_active ≡ false → a ≡ busy

  -- An entry of the wheel leads to an active timer with the entry's identifier.
  pub record IsOwned (h : Store Timer) (i : ℕ) (e : ℕ × Bool) : Type 0 where
    pub t : Timer
    pub here : h e.0 ≡ some t
    pub own : t.timer_id ≡ i
    pub active : t.is_active ≡ true

  -- The timer whose callback runs is not freed.
  pub record IsBusy (b : Busy) (h : Store Timer) : Type 0 where
    pub t : Timer
    pub here : h b.at ≡ some t
    pub own : t.timer_id ≡ b.id
    pub repeats : t.is_periodic ≡ b.repeats

  pub record IsTimers (b : Busy) (w : Timers Wheel) : Type 0 where
    pub null : w.blocks 0 ≡ none
    pub each : (a : ℕ) (t : Timer) → w.blocks a ≡ some t → IsTimer w.wheel b.at a t
    pub owned : (i : ℕ) (e : ℕ × Bool) → entry_in k w.wheel i ≡ some e → IsOwned w.blocks i e
    pub busy : b.at ≢ 0 → IsBusy b w.blocks

  pub ne_null :
      {b : Busy} {w : Timers Wheel} (q : IsTimers b w) (a : ℕ) (t : Timer)
      → w.blocks a ≡ some t
      → a ≢ 0
  ne_null {w} q a t here e = let it : w.blocks a ≡ none = ap w.blocks e ∙ q.null in cc

  -- The wheel without one identifier.
  pub record Dropped (old new : Option Wheel) (id : ℕ) : Type 0 where
    pub entries : (i : ℕ) → entry_in k new i ≡ (if i == id then none else entry_in k old i)
    pub given : (i : ℕ) → issued_in new i ≡ issued_in old i

  module _ {old new : Option Wheel} {id : ℕ} (d : Dropped old new id) where
    pub Dropped-at : entry_in k new id ≡ none
    Dropped-at = let it : (id == id) ≡ true = ground arith in rw it at (d.entries id)

    pub Dropped-other : (i : ℕ) → i ≢ id → entry_in k new i ≡ entry_in k old i
    Dropped-other i apart = let it : (i == id) ≡ false = ground arith in rw it at (d.entries i)

    Dropped-entry :
        (i : ℕ) (e : ℕ × Bool) → entry_in k new i ≡ some e → (i ≢ id) × (entry_in k old i ≡ some e)
    Dropped-entry i e here =
        let apart : i ≢ id =
          λ same. let it : entry_in k new i ≡ none = ap (entry_in k new) same ∙ Dropped-at in cc in
        (apart, sym (Dropped-other i apart) ∙ here)

    -- What the drop leaves of a timer with another identifier, or of one that is not active.
    IsTimer-drop :
        {busy busy' a : ℕ} {t : Timer}
        → (t.is_active ≡ true → t.timer_id ≢ id)
        → (a == busy') ≡ (a == busy)
        → IsTimer old busy a t
        → IsTimer new busy' a t
    IsTimer-drop {a} {t} apart same q = record {
      pending = λ on. Dropped-other t.timer_id (apart on) ∙ q.pending on;
      over = λ off. elim (Bool-cases (t.timer_id == id)) [
        | inl e ↦ rw e at (d.entries t.timer_id)
        | inr e ↦ (rw e at (d.entries t.timer_id)) ∙ q.over off
      ];
      given = d.given t.timer_id ∙ q.given;
      running = q.running ∙ sym same;
      lasting = λ off. let it = q.lasting off in ground arith;
    }

  module _ {b : Busy} {w : Timers Wheel} (q : IsTimers b w) (a : ℕ) (t : Timer)
      (here : w.blocks a ≡ some t) {new : Option Wheel} (d : Dropped w.wheel new t.timer_id) where
    -- Another active timer has another identifier.
    other_id :
        (c : ℕ) (s : Timer)
        → c ≢ a
        → w.blocks c ≡ some s
        → s.is_active ≡ true
        → s.timer_id ≢ t.timer_id
    other_id c s apart there on same =
        let mine = (q.each c s there).pending on in
        elim (Bool-cases t.is_active) [
          | inl e ↦
              let yours = (q.each a t here).pending e in
              let both = sym mine ∙ ap (entry_in k w.wheel) same ∙ yours in
              apart (ap (λ p. p.0) (some-injective both))
          | inr e ↦
              let gone : entry_in k w.wheel s.timer_id ≡ none =
                ap (entry_in k w.wheel) same ∙ (q.each a t here).over e in
              cc
        ]

    IsOwned-drop :
        (x : Option Timer) (i : ℕ) (e : ℕ × Bool)
        → entry_in k new i ≡ some e
        → IsOwned (set w.blocks a x) i e
    IsOwned-drop x i e there =
        let (apart, before) = Dropped-entry d i e there in
        let o = q.owned i e before in
        let elsewhere : e.0 ≢ a = λ same.
          let one = some-injective (sym o.here ∙ ap w.blocks same ∙ here) in
          apart (sym o.own ∙ ap (λ (s : Timer). s.timer_id) one) in
        record {
          t = o.t;
          here = set-other w.blocks x elsewhere ∙ o.here;
          own = o.own;
          active = o.active;
        }

    -- A timer is taken from the wheel and freed; where its callback ran, none runs afterwards.
    pub freed-IsTimers :
        (b' : Busy) (error : String)
        → ((c : ℕ) → c ≢ 0 → c ≢ a → (c == b'.at) ≡ (c == b.at))
        → (b'.at ≢ 0 → IsBusy b' (set w.blocks a none))
        → IsTimers b' (record { blocks = set w.blocks a none; wheel = new; last_error = error })
    freed-IsTimers b' error same busy = record {
      null = set-none w.blocks a 0 q.null;
      each =
          set_each w.blocks a none (λ s e. absurd cc)
            λ c s apart there.
              IsTimer-drop d (other_id c s apart there) (same c (ne_null q c s there) apart)
                (q.each c s there);
      owned = IsOwned-drop none;
      busy = busy;
    }

    -- A timer is taken from the wheel in its own callback: it is no longer active.
    pub stopped-IsTimers :
        a ≡ b.at
        → IsTimers b (record {
          blocks = set w.blocks a (some (record t { is_active = false }));
          wheel = new;
          last_error = w.last_error;
        })
    stopped-IsTimers inside =
        let off : Timer = record t { is_active = false } in
        let stopped : IsTimer new b.at a off = record {
          pending = λ on. absurd cc;
          over = λ e. Dropped-at d;
          given = d.given t.timer_id ∙ (q.each a t here).given;
          running = (q.each a t here).running;
          lasting = λ e. inside;
        } in
        record {
          null = set-other w.blocks (some off) (λ e. ne_null q a t here (sym e)) ∙ q.null;
          each =
              set_each w.blocks a (some off)
                (λ s e. subst (IsTimer new b.at a) (some-injective e) stopped)
                λ c s apart there.
                  IsTimer-drop d (other_id c s apart there) refl (q.each c s there);
          owned = IsOwned-drop (some off);
          busy = λ ne.
              let o = q.busy ne in
              let one = some-injective (sym here ∙ ap w.blocks inside ∙ o.here) in
              record {
                t = off;
                here = ap (set w.blocks a (some off)) (sym inside) ∙ set-same w.blocks a (some off);
                own = ap (λ (s : Timer). s.timer_id) one ∙ o.own;
                repeats = ap (λ (s : Timer). s.is_periodic) one ∙ o.repeats;
              };
        }
