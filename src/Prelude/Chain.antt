-- ===== src/Prelude/Chain.antt =====
-- Blocks at addresses and the lists that their `next` pointers form. The address 0 is NULL.
use Prim.Native.Nat.{ℕ, suc, ◌+◌}
use mathlib.Core.Path.{◌≡◌, refl, sym, ap, subst, ◌∙◌}
use mathlib.Core.Logic.{◌≢◌, ◌⊎◌, inl, inr}
use mathlib.Core.Bool.{Bool, true, false, ◌||◌, or_assoc, true≢false}
use mathlib.Core.Option.{Option, none, some}
use mathlib.Core.List.{List, [], ◌∷◌, ◌++◌}
use native.Mathlib.Omega.{arith}
use loopy.Prelude.Tests.{◌==◌, if◌then◌else◌, Bool-cases}
use loopy.Prelude.Run.{Run, ok, fault}

-- A block with a `next` pointer, and the rest of it.
pub record Node (V : Type 0) : Type 0 where
  pub next : ℕ
  pub value : V

abbrev pub Store : Type 0 → Type 0
Store A = ℕ → Option A

-- The addresses and the contents of the nodes of a list.
abbrev pub Cells : Type 0 → Type 0
Cells V = List (ℕ × V)

module _ {A : Type 0} where
  -- the block that stands at an address from now on, `none` where it is freed
  unfoldable pub set : Store A → ℕ → Option A → Store A
  set h p x a = if a == p then x else h a

  -- `*p`: a fault at NULL and where no block is
  unfoldable pub read : Store A → ℕ → Run A
  read h p = if p == 0 then fault else elim (h p) [ none ↦ fault | some n ↦ ok n ]

  pub read-ok : (h : Store A) {p : ℕ} {n : A} → p ≢ 0 → h p ≡ some n → read h p ≡ ok n
  unfolding read
  read-ok h {p} ne e = let apart : (p == 0) ≡ false = ground arith in rw (apart, e)

  pub set-same : (h : Store A) (p : ℕ) (x : Option A) → set h p x p ≡ x
  unfolding set
  set-same h p x = ground arith

  pub set-other : (h : Store A) {p a : ℕ} (x : Option A) → a ≢ p → set h p x a ≡ h a
  unfolding set
  set-other h x apart = ground arith

  pub set-none : (h : Store A) (p a : ℕ) → h a ≡ none → set h p none a ≡ none
  unfolding set
  set-none h p a gone = ground arith

  -- The later of two writes to a block counts.
  pub set-set : (h : Store A) (p : ℕ) (x y : Option A) → set (set h p x) p y ≡ set h p y
  unfolding set
  set-set h p x y =
      let at : (a : ℕ) → set (set h p x) p y a ≡ set h p y a = λ a. ground arith in λ i a. at a i

  pub set-absent : (h : Store A) (p : ℕ) → h p ≡ none → set h p none ≡ h
  unfolding set
  set-absent h p gone = let at : (a : ℕ) → set h p none a ≡ h a = λ a. ground arith in λ i a. at a i

module _ {V : Type 0} where
  abbrev pub node : ℕ → V → Node V
  node q v = record { next = q; value = v }

  abbrev pub size : Cells V → ℕ
  size [] = 0
  size (x ∷ xs) = suc (size xs)

  abbrev pub holds : ℕ → Cells V → Bool
  holds a [] = false
  holds a ((p, v) ∷ xs) = (a == p) || holds a xs

  -- The address of the last node, NULL where there is none.
  abbrev pub last : Cells V → ℕ
  last [] = 0
  last ((a, v) ∷ []) = a
  last (x ∷ y ∷ xs) = last (y ∷ xs)

  -- From an address the pointers lead through the nodes, which are distinct, to NULL.
  pub data Chain (h : Store (Node V)) : ℕ → Cells V → Type 0 where
    end : Chain h 0 []
    link :
        {a next : ℕ} {v : V} {xs : Cells V}
        → a ≢ 0
        → h a ≡ some (node next v)
        → holds a xs ≡ false
        → Chain h next xs
        → Chain h a ((a, v) ∷ xs)

  -- The first node of a chain.
  pub record Link (h : Store (Node V)) (p a : ℕ) (v : V) (xs : Cells V) : Type 0 where
    pub start : p ≡ a
    pub ne : a ≢ 0
    pub next : ℕ
    pub here : h a ≡ some (node next v)
    pub out : holds a xs ≡ false
    pub rest : Chain h next xs

  pub Chain-nil : {h : Store (Node V)} {p : ℕ} → Chain h p [] → p ≡ 0
  Chain-nil end = refl

  pub Chain-Link :
      {h : Store (Node V)} {p a : ℕ} {v : V} {xs : Cells V}
      → Chain h p ((a, v) ∷ xs)
      → Link h p a v xs
  Chain-Link (link ne e out c) = record {
    start = refl;
    ne = ne;
    next = _;
    here = e;
    out = out;
    rest = c;
  }

  -- The same, said of the address that the list starts from.
  pub from_start :
      {h : Store (Node V)} {p a : ℕ} {v : V} {xs : Cells V} → Link h p a v xs → Link h p p v xs
  from_start {h} {p} {v} {xs} l = subst (λ x. Link h p x v xs) (sym l.start) l

  pub last-append :
      (ys : Cells V) (z : ℕ × V) (zs : Cells V) → last (ys ++ (z ∷ zs)) ≡ last (z ∷ zs)
  last-append [] z zs = refl
  last-append (y ∷ []) z zs = refl
  last-append (y ∷ x ∷ ys) z zs = last-append (x ∷ ys) z zs

  -- `NULL` where the head was the last node, and the old last node else
  pub last-rest :
      {h : Store (Node V)} {p : ℕ} (a : ℕ) (v : V) (xs : Cells V)
      → Chain h p xs
      → (if p == 0 then 0 else last ((a, v) ∷ xs)) ≡ last xs
  last-rest a v [] end = refl
  last-rest a v ((b, w) ∷ xs) (link ne e out c) =
      let apart : (b == 0) ≡ false = ground arith in rw apart refl

  pub size-append : (xs ys : Cells V) → size (xs ++ ys) ≡ size xs + size ys
  size-append [] ys = omega arith
  size-append (x ∷ xs) ys = omega (arith, size-append xs ys)

  pub last-snoc : (xs : Cells V) (a : ℕ) (v : V) → last (xs ++ ((a, v) ∷ [])) ≡ a
  last-snoc [] a v = refl
  last-snoc (x ∷ []) a v = refl
  last-snoc (x ∷ y ∷ xs) a v = last-snoc (y ∷ xs) a v

  pub holds-append : (b : ℕ) (xs ys : Cells V) → holds b (xs ++ ys) ≡ (holds b xs || holds b ys)
  holds-append b [] ys = refl
  holds-append b ((p, w) ∷ xs) ys = rw (holds-append b xs ys, or_assoc)

  -- What a list does not hold, it does not hold without one of its nodes.
  pub holds-middle :
      (a : ℕ) (ys : Cells V) (b : ℕ) (w : V) (zs : Cells V)
      → holds a (ys ++ ((b, w) ∷ zs)) ≡ false
      → (holds a (ys ++ zs) ≡ false) × (a ≢ b)
  holds-middle a [] b w zs out = (ground arith, ground arith)
  holds-middle a ((c, u) ∷ ys) b w zs out =
      let (rest, apart) = holds-middle a ys b w zs (ground arith) in (ground arith, apart)

  pub holds-last : (xs : Cells V) (a : ℕ) (v : V) → holds (last ((a, v) ∷ xs)) ((a, v) ∷ xs) ≡ true
  holds-last [] a v = ground arith
  holds-last ((b, w) ∷ xs) a v = ground (arith, holds-last xs b w)

  pub snoc_cases :
      (xs : Cells V) → (xs ≡ []) ⊎ ((ys : Cells V) × (a : ℕ) × (v : V) × (xs ≡ ys ++ ((a, v) ∷ [])))
  snoc_cases [] = inl refl
  snoc_cases ((a, v) ∷ xs) = elim (snoc_cases xs) [
    | inl e ↦ inr ([], a, v, rw e)
    | inr (ys, b, w, e) ↦ inr ((a, v) ∷ ys, b, w, rw e)
  ]

module _ {V : Type 0} {h : Store (Node V)} where
  -- A chain survives a change that spares its nodes.
  pub Chain-frame :
      {g : Store (Node V)} {p : ℕ} {xs : Cells V}
      → Chain h p xs
      → ((a : ℕ) → holds a xs ≡ true → g a ≡ h a)
      → Chain g p xs
  Chain-frame end same = end
  Chain-frame (link {a} ne e out c) same =
      link ne (same a (ground arith) ∙ e) out (Chain-frame c λ b i. same b (ground arith))

  pub Chain-set :
      {p : ℕ} {xs : Cells V} (a : ℕ) (x : Option (Node V))
      → Chain h p xs
      → holds a xs ≡ false
      → Chain (set h a x) p xs
  unfolding set
  Chain-set a x c out = Chain-frame c (ground arith)

  pub unused-holds : {p : ℕ} {xs : Cells V} (a : ℕ) → Chain h p xs → h a ≡ none → holds a xs ≡ false
  unused-holds a end unused = refl
  unused-holds a (link ne e out c) unused = ground (arith, unused-holds a c unused)

  -- A chain that goes on to a new node `b` behind its last one, `a`.
  pub Chain-snoc :
      {p : ℕ} (xs : Cells V) (a b : ℕ) (v w : V)
      → Chain h p (xs ++ ((a, v) ∷ []))
      → b ≢ 0
      → h b ≡ none
      → Chain (set (set h b (some (node 0 w))) a (some (node b v))) p (xs ++ ((a, v) ∷ (b, w) ∷ []))
  unfolding set
  Chain-snoc [] a b v w (link ne e out end) fresh unused =
      link ne (ground arith) (ground arith) (link fresh (ground arith) refl end)
  Chain-snoc ((c, u) ∷ xs) a b v w (link ne e out c') fresh unused =
      let free_of : (holds c xs || ((c == a) || false)) ≡ false =
        rw (holds-append c xs ((a, v) ∷ [])) at out in
      let still : (holds c xs || ((c == a) || ((c == b) || false))) ≡ false = ground arith in
      link ne (ground arith) (rw (holds-append c xs ((a, v) ∷ (b, w) ∷ [])) still)
        (Chain-snoc xs a b v w c' fresh unused)

  -- The last node of a chain points nowhere.
  pub Chain-last :
      {p : ℕ} (xs : Cells V) (a : ℕ) (v : V)
      → Chain h p (xs ++ ((a, v) ∷ []))
      → (a ≢ 0) × (h a ≡ some (node 0 v))
  Chain-last [] a v (link ne e out end) = (ne, e)
  Chain-last (x ∷ xs) a v (link ne e out c) = Chain-last xs a v c

  -- The block of a node.
  pub Chain-at :
      {p : ℕ} (ys : Cells V) (a : ℕ) (v : V) (zs : Cells V)
      → Chain h p (ys ++ ((a, v) ∷ zs))
      → (a ≢ 0) × ((next : ℕ) × (h a ≡ some (node next v)))
  Chain-at [] a v zs (link {next} ne e out c) = (ne, (next, e))
  Chain-at (y ∷ ys) a v zs (link ne e out c) = Chain-at ys a v zs c

  -- No node stands in a chain twice.
  pub not_twice :
      {p : ℕ} (ys : Cells V) (a : ℕ) (v : V) (zs : Cells V)
      → Chain h p (ys ++ ((a, v) ∷ zs))
      → holds a (ys ++ zs) ≡ false
  not_twice [] a v zs (link ne e out c) = out
  not_twice ((b, w) ∷ ys) a v zs (link ne e out c) =
      let (rest, apart) = holds-middle b ys a v zs out in ground (arith, not_twice ys a v zs c)

node-injective :
    {V : Type 0} {p q : ℕ} {v w : V}
    → ◌≡◌ {A = Option (Node V)} (some (node p v)) (some (node q w))
    → (p ≡ q) × (v ≡ w)
node-injective e = (cc, cc)

-- The pointers from an address lead through one list only.
pub Chain-unique :
    {V : Type 0} {h : Store (Node V)} (xs ys : Cells V) (p : ℕ)
    → Chain h p xs
    → Chain h p ys
    → xs ≡ ys
Chain-unique [] [] p c d = refl
Chain-unique [] ((b, w) ∷ ys) p c d = absurd ((from_start (Chain-Link d)).ne (Chain-nil c))
Chain-unique ((a, v) ∷ xs) [] p c d = absurd ((from_start (Chain-Link c)).ne (Chain-nil d))
Chain-unique {h} ((a, v) ∷ xs) ((b, w) ∷ ys) p c d =
    let l = Chain-Link c in
    let m = Chain-Link d in
    let same : a ≡ b = sym l.start ∙ m.start in
    let (on, value) = node-injective (sym l.here ∙ ap h same ∙ m.here) in
    let rest = Chain-unique xs ys m.next (subst (λ q. Chain h q xs) on l.rest) m.rest in
    rw (same, value, rest) refl

-- Where a node of a list stands.
pub held_at :
    {V : Type 0} (a : ℕ) (xs : Cells V)
    → holds a xs ≡ true
    → (ys : Cells V) × (v : V) × (zs : Cells V) × (xs ≡ ys ++ ((a, v) ∷ zs))
held_at a [] inside = absurd (true≢false (sym inside))
held_at a ((b, w) ∷ xs) inside = elim (Bool-cases (a == b)) [
  | inl hit ↦ let same : b ≡ a = ground arith in ([], w, xs, rw same refl)
  | inr miss ↦
      let (ys, v, zs, e) = held_at a xs (rw miss at inside) in
      ((b, w) ∷ ys, v, zs, ap (◌∷◌ (b, w)) e)
]
