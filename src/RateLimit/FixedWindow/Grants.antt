-- ===== src/RateLimit/FixedWindow/Grants.antt =====
-- src/loopyRateLimit.c: how many requests a fixed window grants.
use loopy.Prelude.{
  ℕ, ◌+◌, ◌-◌, ◌≤◌, ◌<◌, ◌≡◌, refl, true, false, List, [], ◌∷◌, arith, ltb, if◌then◌else◌,
  Bool-cases, inl, inr,
}
use loopy.Prelude.Words.{word, add_word, sub_word}
use loopy.RateLimit.{Result, allowed}
use loopy.RateLimit.FixedWindow.{FixedWindow, fixed_window_maybe_reset, fixed_window_check}

-- The readings of one check.
abbrev pub Times : Type 0
Times = ℕ × ℕ

abbrev pub one_if_allowed : Result → ℕ
one_if_allowed allowed = 1
one_if_allowed _ = 0

module _ {Double : Type 0} (of_word : ℕ → Double) where
  -- How many of a sequence of checks are granted, and the window after them.
  unfoldable pub grants : FixedWindow → List Times → ℕ × FixedWindow
  grants w [] = (0, w)
  grants w ((now, later) ∷ ts) =
      let (r, i, w') = fixed_window_check of_word w now later in
      let (n, w'') = grants w' ts in (one_if_allowed r + n, w'')

  -- All checks are made before the window ends.
  abbrev pub InWindow : FixedWindow → List Times → Type 0
  InWindow w [] = Unit {0}
  InWindow w ((now, later) ∷ ts) = (now < add_word w.window_start w.window_ms) × InWindow w ts

  abbrev pub number : List Times → ℕ
  number [] = 0
  number (_ ∷ ts) = number ts + 1

  abbrev pub least : ℕ → ℕ → ℕ
  least a b = if ltb a b then a else b

  module _ (w : FixedWindow) (now later : ℕ) (h : now < add_word w.window_start w.window_ms) where
    open_window : fixed_window_maybe_reset w now ≡ w
    unfolding fixed_window_maybe_reset
    open_window = ground arith

    granted :
        ltb w.count w.max_requests ≡ true
        → w.max_requests < word
        → (one_if_allowed (fixed_window_check of_word w now later).0 ≡ 1)
          × ((fixed_window_check of_word w now later).2 ≡ record w { count = w.count + 1 })
    unfolding fixed_window_check
    granted e m = rw (open_window, e, counted) (refl, refl)
      where
        counted : add_word w.count 1 ≡ w.count + 1
        counted = ground arith

    refused :
        ltb w.count w.max_requests ≡ false
        → w.count < word
        → (one_if_allowed (fixed_window_check of_word w now later).0 ≡ 0)
          × ((fixed_window_check of_word w now later).2 ≡ w)
    unfolding fixed_window_check
    refused e m = rw (open_window, e, undone) (refl, refl)
      where
        undone : sub_word (add_word w.count 1) 1 ≡ w.count
        undone = omega arith

  -- The checks made before a window ends grant one request each until the limit is reached, and none
  -- from there on; the window counts the granted ones.
  pub grants-least :
      (ts : List Times) (w : FixedWindow)
      → InWindow w ts
      → w.count ≤ w.max_requests
      → w.max_requests < word
      → ((grants w ts).0 ≡ least (number ts) (w.max_requests - w.count))
        × ((grants w ts).1.count ≡ w.count + (grants w ts).0)
  unfolding grants
  grants-least [] w h k m = (ground arith, omega arith)
  grants-least ((now, later) ∷ ts) w (h, hs) k m = elim (Bool-cases (ltb w.count w.max_requests)) [
    | inl e ↦
        let (a, b) = granted w now later h e m in
        let (x, y) = grants-least ts (record w { count = w.count + 1 }) hs (ground arith) m in
        rw (a, b) (ground arith, ground arith)
    | inr e ↦
        let (a, b) = refused w now later h e (omega arith) in
        let (x, y) = grants-least ts w hs k m in rw (a, b) (ground arith, ground arith)
  ]
