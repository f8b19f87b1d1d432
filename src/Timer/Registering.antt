-- ===== src/Timer/Registering.antt =====
-- src/loopy.c: what `loopyRegisterTimer` leaves in the wheel, which may have to be made first.
use loopy.Prelude.{
  ℕ, ◌≡◌, ◌≢◌, refl, ap, ◌∙◌, Bool, true, false, not, Option, none, some, ◌==◌, if◌then◌else◌,
}
use loopy.Timer.{TimerWheel, Timer, Timers, register_in, register_timer}
use loopy.Timer.Cancel.{entry_in}
use loopy.Timer.Invariant.{issued_in, IsTimer}

module _ (k : TimerWheel) where
  open k use {
    Wheel, new, entry-new, entry-issued, register, register_unissued, entry-register, entry-refused,
    issued-register,
  }

  -- What a registration of `client` leaves in the wheel, with the identifier that it gives.
  pub record Registered (old after : Option Wheel) (id client : ℕ) (repeats : Bool) : Type 0 where
    pub given : (i : ℕ) → issued_in k old i ≡ true → issued_in k after i ≡ true
    pub refused : id ≡ 0 → (i : ℕ) → entry_in k after i ≡ entry_in k old i
    pub unissued : id ≢ 0 → issued_in k old id ≡ false
    pub granted :
        id ≢ 0
        → (i : ℕ)
        → entry_in k after i ≡ (if i == id then some (client, repeats) else entry_in k old i)

  pub entry_in-issued :
      (wheel : Option Wheel) (i : ℕ) (e : ℕ × Bool)
      → entry_in k wheel i ≡ some e
      → issued_in k wheel i ≡ true
  entry_in-issued none i e here = absurd cc
  entry_in-issued (some v) i e here = entry-issued v i e here

  pub register_timer-Registered :
      (made : Bool) (w : Timers Wheel) (wheel : Option Wheel) (start every client : ℕ)
      → let r = register_timer k made (record w { wheel = wheel }) start every client in
        (r.1 ≡ record w { wheel = r.1.wheel })
        × Registered wheel r.1.wheel r.0 client (not (every == 0))
  unfolding register_timer register_in
  register_timer-Registered made w (some v) start every client = (
    refl,
    record {
      given = issued-register v start every client;
      refused = λ zero i. entry-refused v start every client i zero;
      unissued = register_unissued v start every client;
      granted = λ ne i. entry-register v start every client i ne;
    },
  )
  register_timer-Registered true w none start every client = (
    refl,
    record {
      given = λ i e. absurd cc;
      refused = λ zero i. entry-refused new start every client i zero ∙ entry-new i;
      unissued = λ ne. refl;
      granted = λ ne i.
          entry-register new start every client i ne
          ∙ ap
              (λ e.
                if i == (register new start every client).0
                then some (client, not (every == 0))
                else e)
              (entry-new i);
    },
  )
  register_timer-Registered false w none start every client = (
    refl,
    record {
      given = λ i e. e;
      refused = λ zero i. refl;
      unissued = λ ne. refl;
      granted = λ ne i. absurd (ne refl);
    },
  )

  -- A timer that a change of the wheel spares.
  pub IsTimer-keep :
      {wheel after : Option Wheel} {busy a : ℕ} {t : Timer}
      → ((i : ℕ) → issued_in k wheel i ≡ true → issued_in k after i ≡ true)
      → entry_in k after t.timer_id ≡ entry_in k wheel t.timer_id
      → IsTimer k wheel busy a t
      → IsTimer k after busy a t
  IsTimer-keep {t} keep same p = record {
    pending = λ on. same ∙ p.pending on;
    over = λ off. same ∙ p.over off;
    given = keep t.timer_id p.given;
    running = p.running;
    lasting = p.lasting;
  }
