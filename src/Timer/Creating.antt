-- ===== src/Timer/Creating.antt =====
-- src/loopyTimer.c: `createTimer` registers a timer, or leaves everything as it was, and says why.
use Prim.Native.String.{String}
use mathlib.Core.Path.{subst}
use loopy.Prelude.{
  some-injective, ℕ, ◌≡◌, ◌≢◌, refl, sym, ap, ◌∙◌, inl, inr, Bool, true, false, not, Option, none,
  some, ◌==◌, Bool-cases, Option-cases, arith, if_cases,
}
use loopy.Prelude.Chain.{set, set-same, set-other, set-set, set-absent}
use loopy.Timer.{
  TimerWheel, Timer, Timers, Answers, new_timer, set_timer_error, register_timer, registered,
  create_timer, get_timer_error, put,
}
use loopy.Timer.Cancel.{entry_in}
use loopy.Timer.Registering.{Registered, register_timer-Registered, entry_in-issued, IsTimer-keep}
use loopy.Timer.Invariant.{Busy, issued_in, set_each, IsTimer, IsOwned, IsTimers}

module _ (k : TimerWheel) where
  open k use {Wheel}

  module _ (b : Busy) (m : Answers) (w : Timers Wheel) (loop start every cb user_data : ℕ) where
    abbrev filled : Timer
    filled = new_timer k loop every cb user_data

    -- The call of the wheel.
    abbrev asked : ℕ × Timers Wheel
    asked = register_timer k m.wheel (put w m.block (some filled)) start every m.block

    -- Why no timer is made, with the message.
    pub data Reason : String → Type 0 where
      null_loop : loop ≡ 0 → Reason "NULL event loop"
      null_callback : cb ≡ 0 → Reason "NULL callback"
      no_memory : m.block ≡ 0 → Reason "Memory allocation failed"
      not_registered : asked.0 ≡ 0 → Reason "Failed to register timer with event loop"

    -- None of the reasons holds, and the new timer is pending under the identifier that the wheel
    -- gave, which was not in use.
    pub record IsMade (r : ℕ × Timers Wheel) : Type 0 where
      pub some_loop : loop ≢ 0
      pub some_callback : cb ≢ 0
      pub some_block : m.block ≢ 0
      pub at : r.0 ≡ m.block
      pub id : ℕ
      pub given : id ≡ asked.0
      pub some_id : id ≢ 0
      pub here : r.1.blocks r.0 ≡ some (record filled { timer_id = id })
      pub pending : entry_in k r.1.wheel id ≡ some (r.0, not (every == 0))
      pub unused : entry_in k w.wheel id ≡ none
      pub entries : (i : ℕ) → i ≢ id → entry_in k r.1.wheel i ≡ entry_in k w.wheel i
      pub silent : get_timer_error r.1 ≡ none

    pub record Created (r : ℕ × Timers Wheel) : Type 0 where
      pub timers : IsTimers k b r.1
      pub others : (c : ℕ) → c ≢ r.0 → r.1.blocks c ≡ w.blocks c
      pub made : r.0 ≢ 0 → IsMade r
      pub refused :
          r.0 ≡ 0
          → (message : String) × Reason message
            × (get_timer_error r.1 ≡ some message)
            × ((i : ℕ) → entry_in k r.1.wheel i ≡ entry_in k w.wheel i)

    module _ (q : IsTimers k b w) where
      Created-error :
          (message : String)
          → Reason message
          → get_timer_error (set_timer_error w message) ≡ some message
          → Created (0, set_timer_error w message)
      unfolding set_timer_error
      Created-error message reason e = record {
        timers = record { null = q.null; each = q.each; owned = q.owned; busy = q.busy };
        others = λ c apart. refl;
        made = λ ne. absurd (ne refl);
        refused = λ zero. (message, reason, e, λ i. refl);
      }

      module _ (ne : m.block ≢ 0) (free : w.blocks m.block ≡ none) (id : ℕ) (after : Option Wheel)
          (s : Registered k w.wheel after id m.block (not (every == 0))) where
        not_registered_lem :
            id ≡ 0
            → asked.0 ≡ 0
            → Created (
              0,
              put
                  (set_timer_error
                    (record w { blocks = set w.blocks m.block (some filled); wheel = after })
                    "Failed to register timer with event loop")
                  m.block
                  none,
            )
        unfolding set_timer_error get_timer_error
        not_registered_lem zero refused =
            rw (set-set w.blocks m.block (some filled) none, set-absent w.blocks m.block free)
              record {
                timers = record {
                  null = q.null;
                  each = λ c t here.
                      IsTimer-keep k s.given (s.refused zero t.timer_id) (q.each c t here);
                  owned = λ i e there. q.owned i e (sym (s.refused zero i) ∙ there);
                  busy = q.busy;
                };
                others = λ c apart. refl;
                made = λ ne. absurd (ne refl);
                refused = λ e. (_, not_registered refused, refl, s.refused zero);
              }

        module _ (ok_id : id ≢ 0) where
          own_entry : entry_in k after id ≡ some (m.block, not (every == 0))
          own_entry = let it : (id == id) ≡ true = ground arith in rw it at (s.granted ok_id id)

          other_entry : (i : ℕ) → i ≢ id → entry_in k after i ≡ entry_in k w.wheel i
          other_entry i apart =
              let it : (i == id) ≡ false = ground arith in rw it at (s.granted ok_id i)

          unused_entry : entry_in k w.wheel id ≡ none
          unused_entry = elim (Option-cases (entry_in k w.wheel id)) [
            | inl gone ↦ gone
            | inr (e, here) ↦
                let it = entry_in-issued k w.wheel id e here in
                let none_yet = s.unissued ok_id in absurd cc
          ]

          abbrev fresh_timer : Timer
          fresh_timer = record filled { timer_id = id }

          not_busy : m.block ≢ b.at
          not_busy same =
              let o = q.busy (λ e. ne (same ∙ e)) in
              let gone : w.blocks b.at ≡ none = ap w.blocks (sym same) ∙ free in
              let here : w.blocks b.at ≡ some o.t = o.here in cc

          fresh-IsTimer : IsTimer k after b.at m.block fresh_timer
          fresh-IsTimer = record {
            pending = λ on. own_entry;
            over = λ off. absurd cc;
            given = entry_in-issued k after id _ own_entry;
            running = let apart = not_busy in ground arith;
            lasting = λ off. absurd cc;
          }

          fresh-IsOwned :
              (i : ℕ) (e : ℕ × Bool)
              → entry_in k after i ≡ some e
              → IsOwned k (set w.blocks m.block (some fresh_timer)) i e
          fresh-IsOwned i e there = elim (Bool-cases (i == id)) [
            | inl hit ↦
                let same : i ≡ id = ground arith in
                let it =
                  some-injective (sym own_entry ∙ ap (entry_in k after) (sym same) ∙ there) in
                record {
                  t = fresh_timer;
                  here =
                      ap (set w.blocks m.block (some fresh_timer)) (ap (λ p. p.0) (sym it))
                      ∙ set-same w.blocks m.block (some fresh_timer);
                  own = sym same;
                  active = refl;
                }
            | inr miss ↦
                let apart : i ≢ id = ground arith in
                let o = q.owned i e (sym (other_entry i apart) ∙ there) in
                let elsewhere : e.0 ≢ m.block = λ same.
                  let gone : w.blocks e.0 ≡ none = ap w.blocks same ∙ free in
                  let here : w.blocks e.0 ≡ some o.t = o.here in cc in
                record {
                  t = o.t;
                  here = set-other w.blocks (some fresh_timer) elsewhere ∙ o.here;
                  own = o.own;
                  active = o.active;
                }
          ]

          fresh-IsTimers :
              (error : String)
              → IsTimers k b (record {
                blocks = set w.blocks m.block (some fresh_timer);
                wheel = after;
                last_error = error;
              })
          fresh-IsTimers error = record {
            null = set-other w.blocks (some fresh_timer) (λ e. ne (sym e)) ∙ q.null;
            each =
                set_each w.blocks m.block (some fresh_timer)
                  (λ t e. subst (IsTimer k after b.at m.block) (some-injective e) fresh-IsTimer)
                  λ c t apart there.
                    let p = q.each c t there in
                    let unlike : t.timer_id ≢ id = λ same.
                      let old : issued_in k w.wheel id ≡ true =
                        ap (issued_in k w.wheel) (sym same) ∙ p.given in
                      let none_yet = s.unissued ok_id in cc in
                    IsTimer-keep k s.given (other_entry t.timer_id unlike) p;
            owned = fresh-IsOwned;
            busy = λ some_at.
                let o = q.busy some_at in
                record {
                  t = o.t;
                  here = set-other w.blocks (some fresh_timer) (λ e. not_busy (sym e)) ∙ o.here;
                  own = o.own;
                  repeats = o.repeats;
                };
          }

          made_lem :
              loop ≢ 0
              → cb ≢ 0
              → id ≡ asked.0
              → Created (
                m.block,
                record {
                  blocks = set (set w.blocks m.block (some filled)) m.block (some fresh_timer);
                  wheel = after;
                  last_error = "";
                },
              )
          unfolding get_timer_error
          made_lem some_loop some_callback given =
              rw (set-set w.blocks m.block (some filled) (some fresh_timer)) record {
                timers = fresh-IsTimers "";
                others = λ c apart. set-other w.blocks (some fresh_timer) apart;
                made = λ made. record {
                  some_loop = some_loop;
                  some_callback = some_callback;
                  some_block = ne;
                  at = refl;
                  id = id;
                  given = given;
                  some_id = ok_id;
                  here = set-same w.blocks m.block (some fresh_timer);
                  pending = own_entry;
                  unused = unused_entry;
                  entries = other_entry;
                  silent = refl;
                };
                refused = λ zero. absurd (ne zero);
              }

      -- Where the wheel and the blocks agree and the block that the allocator gives is unused,
      -- createTimer keeps them in agreement and the other timers' blocks as they are. It answers
      -- the new timer only with a loop, a callback, a block and an identifier from the wheel,
      -- none of them NULL or 0; the timer is then pending under that identifier, which was not
      -- in use, as periodic exactly with an interval, the other entries stay, and the error is
      -- cleared. Or it answers NULL since one of the four is missing, with that reason's
      -- message, and nothing in the wheel changes.
      pub create_timer-Created :
          (m.block ≢ 0 → w.blocks m.block ≡ none)
          → Created (create_timer k m w loop start every cb user_data)
      unfolding create_timer registered set_timer_error get_timer_error
      create_timer-Created free =
          if_cases Created (loop == 0)
            (λ e. Created-error "NULL event loop" (null_loop (ground arith)) refl)
            λ l.
              if_cases Created (cb == 0)
                (λ e. Created-error "NULL callback" (null_callback (ground arith)) refl)
                λ c.
                  if_cases Created (m.block == 0)
                    (λ e. Created-error "Memory allocation failed" (no_memory (ground arith)) refl)
                    λ e.
                      let ne : m.block ≢ 0 = ground arith in
                      let (shape, s) =
                        register_timer-Registered k m.wheel (put w m.block (some filled)) w.wheel
                          start every m.block in
                      subst (λ x. Created (registered k m.block filled (asked.0, x))) (sym shape)
                        (if_cases Created (asked.0 == 0)
                          (λ zero.
                            not_registered_lem ne (free ne) asked.0 asked.1.wheel s (ground arith)
                              (ground arith))
                          (λ some_id.
                            made_lem ne (free ne) asked.0 asked.1.wheel s (ground arith)
                              (ground arith) (ground arith) refl))
