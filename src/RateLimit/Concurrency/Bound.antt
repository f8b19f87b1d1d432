-- ===== src/RateLimit/Concurrency/Bound.antt =====
-- src/loopyRateLimit.c: the limit of `loopyConcurrencyTryAcquire` and `loopyConcurrencyRelease` alone,
-- under every interleaving, where a thread releases only what it holds.
use loopy.Prelude.{
  ℕ, ◌+◌, ◌-◌, ◌≤◌, ◌<◌, ◌≡◌, ◌≢◌, refl, true, false, List, [], ◌∷◌, arith, ◌==◌, if◌then◌else◌,
  if_cases, sym,
}
use loopy.Prelude.Words.{word}
use loopy.Prelude.Sums.{sum_to, sum_to-change, le-sum_to, sum_to-zero}
use loopy.RateLimit.Concurrency.Race.{
  Pc, idle, load_fast, swap_fast, unlock, sub_release, lock_signal, Choice, acquire, release, go,
  Shared, World, race_step, race_go, quiet,
}

-- The slot that a thread is about to release.
abbrev pub leaving : Pc → ℕ
leaving sub_release = 1
leaving _ = 0

-- What a thread holds after a step: one slot more where its exchange succeeds, and one less from
-- where it decides to release one.
abbrev pub held_after : Choice → Pc → Shared → ℕ → ℕ
held_after go (swap_fast b c) s h = if s.current == c then h + 1 else h
held_after release idle s h = h - 1
held_after _ _ s h = h

-- A thread does not wait for a slot, and releases what it holds.
abbrev pub IsPaired : Choice → ℕ → Type 0
IsPaired acquire h = ⊥
IsPaired release h = 0 < h
IsPaired _ h = Unit {0}

module _ (max : ℕ) where
  abbrev PcOk : Pc → Type 0
  PcOk idle = Unit {0}
  PcOk (load_fast b) = b ≡ false
  PcOk (swap_fast b c) = (b ≡ false) × (c < max)
  PcOk unlock = Unit {0}
  PcOk sub_release = Unit {0}
  PcOk lock_signal = Unit {0}
  PcOk _ = ⊥

  record Moves (c : Choice) (pc : Pc) (s : Shared) (h : ℕ) (r : Pc × Shared) : Type 0 where
    pc_ok : PcOk r.0
    below : r.1.current ≤ max
    balance : r.1.current + (h + leaving pc) ≡ s.current + (held_after c pc s h + leaving r.0)

  race_step-Moves :
      (c : Choice) (pc : Pc) (s : Shared) (h : ℕ)
      → max < word
      → PcOk pc
      → IsPaired c h
      → s.current ≤ max
      → h + leaving pc ≤ s.current
      → Moves c pc s h (race_step max c pc s)
  unfolding race_step
  race_step-Moves c pc s h small ok paired below held = ground arith

  abbrev next : World → ℕ → Choice → World
  next w i c = record {
    shared = (race_step max c (w.pc i) w.shared).1;
    pc = λ j. if i == j then (race_step max c (w.pc i) w.shared).0 else w.pc j;
  }

  abbrev holding : World → (ℕ → ℕ) → ℕ → Choice → ℕ → ℕ
  holding w held i c j = if i == j then held_after c (w.pc i) w.shared (held i) else held j

  -- A schedule of `n` threads, which hold what `held` says.
  abbrev pub AllPaired : ℕ → World → (ℕ → ℕ) → List (ℕ × Choice) → Type 0
  AllPaired n w held [] = Unit
  AllPaired n w held ((i, c) ∷ rest) =
      (i < n) × IsPaired c (held i) × AllPaired n (next w i c) (holding w held i c) rest

  -- The slots that the threads hold at the end of a schedule.
  abbrev pub held_at_end : World → (ℕ → ℕ) → List (ℕ × Choice) → ℕ → ℕ
  held_at_end w held [] = held
  held_at_end w held ((i, c) ∷ rest) = held_at_end (next w i c) (holding w held i c) rest

  -- The slots that are taken: those that the threads hold, with those about to be released.
  abbrev pub taken : World → (ℕ → ℕ) → ℕ → ℕ
  taken w held n = sum_to (λ j. held j + leaving (w.pc j)) n

  record Kept (n : ℕ) (w : World) (held : ℕ → ℕ) : Type 0 where
    pcs : (j : ℕ) → PcOk (w.pc j)
    limited : w.shared.current ≤ max
    counted : w.shared.current ≡ taken w held n

  next-Kept :
      (n : ℕ) (w : World) (held : ℕ → ℕ) (i : ℕ) (c : Choice)
      → max < word
      → i < n
      → IsPaired c (held i)
      → Kept n w held
      → Kept n (next w i c) (holding w held i c)
  next-Kept n w held i c small inside paired q =
      let f : ℕ → ℕ = λ j. held j + leaving (w.pc j) in
      let g : ℕ → ℕ = λ j. holding w held i c j + leaving ((next w i c).pc j) in
      let m =
        race_step-Moves c (w.pc i) w.shared (held i) small (q.pcs i) paired q.limited
          (omega (arith, q.counted, le-sum_to f n i inside)) in
      let at : (i == i) ≡ true = ground arith in
      let own : g i
          ≡ held_after c (w.pc i) w.shared (held i)
            + leaving (race_step max c (w.pc i) w.shared).0 =
        rw at refl in
      let apart : (j : ℕ) → j ≢ i → g j ≡ f j =
        λ j ne. let miss : (i == j) ≡ false = ground arith in rw miss refl in
      record {
        pcs = λ j. if_cases PcOk (i == j) (λ e. m.pc_ok) (λ e. q.pcs j);
        limited = m.below;
        counted = omega (arith, q.counted, m.balance, own, sum_to-change f g n i inside apart);
      }

  race_go-Kept :
      (n : ℕ) (schedule : List (ℕ × Choice)) (w : World) (held : ℕ → ℕ)
      → max < word
      → AllPaired n w held schedule
      → Kept n w held
      → Kept n (race_go max w schedule) (held_at_end w held schedule)
  unfolding race_go
  race_go-Kept n [] w held small paired q = q
  race_go-Kept n ((i, c) ∷ rest) w held small (inside, now, later) q =
      race_go-Kept n rest (next w i c) (holding w held i c) small later
        (next-Kept n w held i c small inside now q)

  -- For a limit below 2^64, from threads that are idle and hold no slot, every schedule of the
  -- atomic operations of non-blocking acquisitions and of releases, where no thread waits for a
  -- slot or releases one that it does not hold, keeps the slots taken within the limit, and they
  -- are exactly those that the threads hold or are about to release.
  pub race_go-limited :
      (n : ℕ) (schedule : List (ℕ × Choice))
      → max < word
      → AllPaired n (quiet 0) (λ j. 0) schedule
      → let w = race_go max (quiet 0) schedule in
        (w.shared.current ≤ max)
        × (w.shared.current ≡ taken w (held_at_end (quiet 0) (λ j. 0) schedule) n)
  race_go-limited n schedule small paired =
      let q =
        race_go-Kept n schedule (quiet 0) (λ j. 0) small paired
          (record {
            pcs = λ j. tt;
            limited = omega arith;
            counted = sym (sum_to-zero (λ j. 0) n λ j h. refl);
          }) in
      (q.limited, q.counted)
