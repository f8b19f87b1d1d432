-- ===== src/Prelude/Ring.antt =====
-- A ring of `c` cells as the list of what `k` of them hold, the oldest first: the windows of
-- src/loopyRateLimit.c and the queues of src/loopyChannel.c.
use Prim.Native.Nat.{ℕ, zero, suc, ◌+◌, ◌-◌, ◌%◌, ◌<◌}
use mathlib.Core.Path.{◌≡◌, refl, ap}
use mathlib.Core.Logic.{◌⊎◌, inl, inr}
use mathlib.Core.Bool.{true}
use mathlib.Core.List.{List, [], ◌∷◌, ◌++◌}
use native.Mathlib.Nat.{mod-eq_of_lt, mod_self}
use native.Mathlib.Omega.{arith}
use loopy.Prelude.Tests.{◌==◌, if◌then◌else◌, Bool-cases}
use loopy.Prelude.Array.{update}
use loopy.Prelude.Words.{word, add_word}

-- The index behind `i` in a ring of `c` cells.
abbrev pub next : ℕ → ℕ → ℕ
next c i = if i + 1 == c then 0 else i + 1

pub next-mod : (c i : ℕ) → i < c → c < word → add_word i 1 % c ≡ next c i
next-mod c i h k = elim (Bool-cases (i + 1 == c)) [
  | inl e ↦ rw (e, wrapped, ends e) (mod_self c)
  | inr e ↦ rw (e, wrapped) (mod-eq_of_lt (ground arith))
]
  where
    wrapped : add_word i 1 ≡ i + 1
    wrapped = omega arith

    ends : i + 1 == c ≡ true → i + 1 ≡ c
    ends e = ground arith

pub next_lt : (c i : ℕ) → i < c → next c i < c
next_lt c i h = ground arith

-- The index `k` steps behind `t` is `h`.
abbrev pub Ahead : ℕ → ℕ → ℕ → ℕ → Type 0
Ahead c t k h = (t + k ≡ h) ⊎ (t + k ≡ h + c)

pub Ahead-next :
    (c t k h : ℕ) → t < c → h < c → k < c → Ahead c t (suc k) h → Ahead c (next c t) k h
Ahead-next c t k h p q r a = elim (Bool-cases (t + 1 == c)) [
  | inl e ↦ rw e (inl (ground arith))
  | inr e ↦ rw e (elim a [ inl b ↦ inl (omega (arith, b)) | inr b ↦ inr (omega (arith, b)) ])
]

pub Ahead-more :
    (c t k h : ℕ) → t < c → h < c → k < c → Ahead c t k h → Ahead c t (k + 1) (next c h)
Ahead-more c t k h p q r a = elim (Bool-cases (h + 1 == c)) [
  | inl e ↦ rw e (inr (elim a [ inl b ↦ ground (arith, b) | inr b ↦ ground (arith, b) ]))
  | inr e ↦ rw e (elim a [ inl b ↦ inl (omega (arith, b)) | inr b ↦ inr (omega (arith, b)) ])
]

abbrev pub length {ℓ} : {A : Type ℓ} → List A → ℕ
length [] = 0
length (x ∷ xs) = length xs + 1

module _ {ℓ} {A : Type ℓ} where
  -- What `k` cells from `t` on hold.
  unfoldable pub stamps : (ℕ → A) → ℕ → ℕ → ℕ → List A
  stamps f c t zero = []
  stamps f c t (suc k) = f t ∷ stamps f c (next c t) k

  -- A write to the cell behind them is not among them.
  pub stamps-other :
      (f : ℕ → A) (c t k h : ℕ) (v : A)
      → t < c
      → h < c
      → k < c
      → Ahead c t k h
      → stamps (update f h v) c t k ≡ stamps f c t k
  unfolding stamps
  stamps-other f c t zero h v p q r a = refl
  stamps-other f c t (suc k) h v p q r a =
      rw (stamps-other f c (next c t) k h v (next_lt c t p) q (omega arith) ahead, kept) refl
    where
      ahead : Ahead c (next c t) k h
      ahead = Ahead-next c t k h p q (omega arith) a

      kept : update f h v t ≡ f t
      kept = elim a [ inl b ↦ ground (arith, b) | inr b ↦ ground (arith, b) ]

  -- One cell more.
  pub stamps-snoc :
      (f : ℕ → A) (c t k h : ℕ)
      → t < c
      → h < c
      → k < c
      → Ahead c t k h
      → stamps f c t (suc k) ≡ stamps f c t k ++ (f h ∷ [])
  unfolding stamps
  stamps-snoc f c t zero h p q r a = ap (λ i. f i ∷ []) (here a)
    where
      here : Ahead c t 0 h → t ≡ h
      here (inl b) = omega (arith, b)
      here (inr b) = omega (arith, b)
  stamps-snoc f c t (suc k) h p q r a =
      rw (stamps-snoc f c (next c t) k h (next_lt c t p) q (omega arith) ahead) refl
    where
      ahead : Ahead c (next c t) k h
      ahead = Ahead-next c t k h p q (omega arith) a

  -- A write to the cell behind them, counted in.
  pub stamps-update :
      (f : ℕ → A) (c t k h : ℕ) (v : A)
      → t < c
      → h < c
      → k < c
      → Ahead c t k h
      → stamps (update f h v) c t (suc k) ≡ stamps f c t k ++ (v ∷ [])
  stamps-update f c t k h v p q r a =
      rw (stamps-snoc (update f h v) c t k h p q r a, stamps-other f c t k h v p q r a, written)
        refl
    where
      written : update f h v h ≡ v
      written = ground arith

  pub stamps_pos :
      (f : ℕ → A) (c t k : ℕ) → 0 < k → stamps f c t k ≡ f t ∷ stamps f c (next c t) (k - 1)
  unfolding stamps
  stamps_pos f c t zero h = absurd (omega (arith, h))
  stamps_pos f c t (suc k) h = ap (λ n. f t ∷ stamps f c (next c t) n) (omega arith)

  pub length-stamps : (f : ℕ → A) (c t k : ℕ) → length (stamps f c t k) ≡ k
  unfolding stamps
  length-stamps f c t zero = refl
  length-stamps f c t (suc k) = omega (arith, length-stamps f c (next c t) k)

  pub length-snoc : (l : List A) (v : A) → length (l ++ (v ∷ [])) ≡ length l + 1
  length-snoc [] v = refl
  length-snoc (x ∷ xs) v = ap (λ n. n + 1) (length-snoc xs v)
