-- ===== src/RateLimit/SlidingWindow/Limit.antt =====
-- src/loopyRateLimit.c: the limit of a sliding window: however the checks are spread over time, no
-- more than `maxRequests` of those granted lie in the window that ends with the last one.
use loopy.Prelude.{
  ℕ, zero, suc, ◌+◌, ◌≤◌, ◌≡◌, ◌∙◌, refl, Bool, true, false, List, [], ◌∷◌, ◌++◌, arith, leb,
  if◌then◌else◌, inl,
}
use mathlib.Core.Path.{subst}
use loopy.Prelude.Lists.{++-assoc}
use loopy.Prelude.Run.{Run, ok, ◌>>=◌, Returns, returns, Returns-if, Returns-bind, Returns-map}
use loopy.Prelude.Allocator.{Allocator, IsAllocator}
use loopy.RateLimit.{SlidingWindowConfig, Info, Result, allowed, denied, IsAnswer, verdict-IsAnswer}
use loopy.RateLimit.SlidingWindow.{
  SlidingWindow, sliding_window_init, sliding_window_take, sliding_window_fits,
  sliding_window_check,
}
use loopy.Prelude.Ring.{next, stamps}
use loopy.RateLimit.SlidingWindow.Bounds.{IsValid, times, Before, SameLimits}
use loopy.RateLimit.SlidingWindow.Rate.{
  cutoff, prune-Pruned, retry-Returns, reset_ms-Returns, take-Taken, Tracks, noted, Pruned-Tracks,
}

-- What a check that `fits` or not makes of a pruned window.
abbrev Answered : SlidingWindow → ℕ → Bool → SlidingWindow → Type 0
Answered w now fits w' =
    IsValid w' × SameLimits w w' × (times w' ≡ (if fits then times w ++ (now ∷ []) else times w))

answer-Answered :
    (w : SlidingWindow) (now : ℕ)
    → IsValid w
    → Returns
        (Answered w now (sliding_window_fits w))
        (if sliding_window_fits w then sliding_window_take w now else ok w)
answer-Answered w now v =
    Returns-if (sliding_window_fits w) (λ e. rw e (take-Taken w v now e))
      (λ e. rw e (returns (v, (refl, refl, refl), refl)))

Answered-Tracks :
    (w w' : SlidingWindow) (now c : ℕ) (hist : List ℕ) (fits : Bool)
    → Tracks hist c w
    → Answered w now fits w'
    → Tracks (noted hist (if fits then allowed else denied) now) c w'
Answered-Tracks w w' now c hist true t (v, l, e) = record {
  old = t.old;
  expired = t.expired;
  whole = rw (e, t.whole) (++-assoc t.old (times w) (now ∷ []));
}
Answered-Tracks w w' now c hist false t (v, l, e) = record {
  old = t.old;
  expired = t.expired;
  whole = rw e t.whole;
}

module _ {Double : Type 0} (of_word : ℕ → Double) where
  -- A check keeps the window valid and its configuration, and the history in step.
  abbrev pub Checked : SlidingWindow → List ℕ → ℕ → Result × Info Double × SlidingWindow → Type 0
  Checked w hist now (r, i, w') =
      IsValid w'
      × SameLimits w w'
      × Tracks (noted hist r now) (cutoff w.window_ms now) w'
      × IsAnswer r

  pub check-Checked :
      (w : SlidingWindow) (hist : List ℕ) (b now : ℕ)
      → IsValid w
      → b ≤ cutoff w.window_ms now
      → Tracks hist b w
      → Returns (Checked w hist now) (sliding_window_check of_word w now)
  unfolding sliding_window_check
  check-Checked w hist b now v h t = Returns-bind (prune-Pruned w now v) (λ w' p.
      Returns-bind (retry-Returns w' p.valid now (sliding_window_fits w')) (λ _ _.
        Returns-bind (reset_ms-Returns w' p.valid now) (λ _ _.
          Returns-bind (answer-Answered w' now p.valid) (λ w'' q. returns (
            q.0,
            (q.1.0 ∙ p.limits.0, q.1.1 ∙ p.limits.1, q.1.2 ∙ p.limits.2),
            Answered-Tracks w' w'' now (cutoff w.window_ms now) hist (sliding_window_fits w')
                (Pruned-Tracks w w' hist b (cutoff w.window_ms now) h t p) q,
            verdict-IsAnswer (sliding_window_fits w'),
          )))))

  -- Checks at the given times, and the times of those granted, the oldest first.
  unfoldable pub granted_times : SlidingWindow → List ℕ → List ℕ → Run (List ℕ × SlidingWindow)
  granted_times w hist [] = ok (hist, w)
  granted_times w hist (now ∷ ts) = do
    (r, i, w') ← sliding_window_check of_word w now
    granted_times w' (noted hist r now) ts

  -- How many of the times are at or after `c`.
  abbrev pub recent : ℕ → List ℕ → ℕ
  recent c [] = 0
  recent c (x ∷ xs) = (if leb c x then 1 else 0) + recent c xs

  -- The clock does not go back.
  abbrev pub Rising : ℕ → List ℕ → Type 0
  Rising t [] = Unit {0}
  Rising t (now ∷ ts) = (t ≤ now) × Rising now ts

  -- The time of the last check.
  abbrev pub latest : ℕ → List ℕ → ℕ
  latest t [] = t
  latest t (now ∷ ts) = latest now ts

  cutoff_mono : (m s t : ℕ) → s ≤ t → cutoff m s ≤ cutoff m t
  cutoff_mono m s t h = ground arith

  -- What holds after a sequence of checks that began with `w`.
  abbrev Ended : SlidingWindow → ℕ → List ℕ × SlidingWindow → Type 0
  Ended w end (hist, w') = IsValid w' × SameLimits w w' × Tracks hist (cutoff w.window_ms end) w'

  granted_times-Ended :
      (w w' : SlidingWindow) (hist : List ℕ) (t : ℕ) (ts : List ℕ)
      → IsValid w'
      → SameLimits w w'
      → Tracks hist (cutoff w.window_ms t) w'
      → Rising t ts
      → Returns (Ended w (latest t ts)) (granted_times w' hist ts)
  unfolding granted_times
  granted_times-Ended w w' hist t [] v l tr r = returns (v, l, tr)
  granted_times-Ended w w' hist t (now ∷ ts) v l tr (h, r) =
      Returns-bind (check-Checked w' hist (cutoff w.window_ms t) now v later tr) (λ a c.
        granted_times-Ended w a.2 (noted hist a.0 now) now ts c.0
          (c.1.0 ∙ l.0, c.1.1 ∙ l.1, c.1.2 ∙ l.2) (tracks a.0 a.2 c.2) r)
    where
      later : cutoff w.window_ms t ≤ cutoff w'.window_ms now
      later = rw l.1 (cutoff_mono w.window_ms t now h)

      tracks :
          (answer : Result) (w'' : SlidingWindow)
          → Tracks (noted hist answer now) (cutoff w'.window_ms now) w''
          → Tracks (noted hist answer now) (cutoff w.window_ms now) w''
      tracks answer w'' = subst (λ m. Tracks (noted hist answer now) (cutoff m now) w'') l.1

  recent_le :
      (f : ℕ → ℕ) (n t k c : ℕ) (old : List ℕ) → Before c old → recent c (old ++ stamps f n t k) ≤ k
  unfolding stamps
  recent_le f n t zero c [] p = omega arith
  recent_le f n t (suc k) c [] p = ground (arith, recent_le f n (next n t) k c [] tt)
  recent_le f n t k c (x ∷ xs) (h, p) = ground (arith, recent_le f n t k c xs p)

  fresh-IsValid :
      (a : Allocator) (c : SlidingWindowConfig)
      → IsAllocator a
      → a.zcalloc (sliding_window_init a c).capacity 8 ≡ true
      → IsValid (sliding_window_init a c)
  unfolding sliding_window_init
  fresh-IsValid a c ia got = record {
    in_block = rw got (omega arith);
    in_word = omega (arith, ia.zcalloc_fits (sliding_window_init a c).capacity 8 got);
    tail_in = ground arith;
    head_in = ground arith;
    few = omega arith;
    limited = omega arith;
    ahead = inl refl;
  }

  within_limit :
      (w : SlidingWindow) (end : ℕ) (r : List ℕ × SlidingWindow)
      → Ended w end r
      → recent (cutoff w.window_ms end) r.0 ≤ w.max_requests
  within_limit w end (hist, w') (v, l, t) = rw t.whole (
      omega (
        arith,
        l.2,
        v.limited,
        recent_le w'.entries.cell w'.capacity w'.tail w'.count (cutoff w.window_ms end) t.old
            t.expired,
      ))

  -- A new window with its block, checked at times that do not go back, answers every check, and of
  -- the granted requests no more than the limit lie in the window that ends with the last check.
  pub granted_times_limited :
      (a : Allocator) (c : SlidingWindowConfig)
      → IsAllocator a
      → a.zcalloc (sliding_window_init a c).capacity 8 ≡ true
      → (ts : List ℕ) → Rising 0 ts
      → Returns
          (λ r. recent (cutoff c.window_ms (latest 0 ts)) r.0 ≤ c.max_requests)
          (granted_times (sliding_window_init a c) [] ts)
  unfolding sliding_window_init stamps
  granted_times_limited a c ia got ts r =
      Returns-map
        (granted_times-Ended w w [] 0 ts (fresh-IsValid a c ia got) (refl, refl, refl) nothing r)
        (within_limit w (latest 0 ts))
    where
      w : SlidingWindow
      w = sliding_window_init a c

      nothing : Tracks [] (cutoff c.window_ms 0) w
      nothing = record { old = []; expired = tt; whole = refl }
