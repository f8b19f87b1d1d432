-- ===== src/PubSub/RaxTopic.antt =====
-- The topic matcher of the rax library, which is not part of this repository: a map from patterns to
-- pointers that finds the patterns which match a topic. A parameter of the code that calls it, with
-- the laws that this code relies on.
use Prim.Native.String.{String}
use loopy.Prelude.{ℕ, ◌≤◌, ◌≡◌, ◌≢◌, Bool, true, false, Option, none, some, List, [], ◌∷◌, ◌++◌}
use loopy.Prelude.Tally.{tally}

-- Of each pair of a pattern and a pointer.
abbrev pub All : (String → ℕ → Type 0) → List (String × ℕ) → Type 0
All P [] = Unit
All P ((k, u) ∷ es) = P k u × All P es

abbrev is_some : Option ℕ → Bool
is_some none = false
is_some (some u) = true

pub record RaxTopic : Type 1 where
  pub Tree : Type 0
  -- `raxTopicNewWithConfig`, where it succeeds
  pub new : Tree
  -- `raxTopicGet`, with `none` for NULL
  pub get : Tree → String → Option ℕ
  -- `raxTopicBind`, with `none` for a negative answer
  pub bind : Tree → String → ℕ → Option Tree
  pub unbind : Tree → String → Tree
  pub exists : Tree → String → Bool
  -- what `raxTopicMatch` and `raxTopicIterate` visit, in order
  pub matches : Tree → String → List (String × ℕ)
  pub entries : Tree → List (String × ℕ)
  pub get-new : (k : String) → get new k ≡ none
  pub entries-new : entries new ≡ []
  pub exists_lem : (t : Tree) (k : String) → exists t k ≡ is_some (get t k)
  -- What is visited is bound.
  pub matches_bound : (t : Tree) (topic : String) → All (λ k u. get t k ≡ some u) (matches t topic)
  pub entries_bound : (t : Tree) → All (λ k u. get t k ≡ some u) (entries t)
  -- A pattern is visited at most once by `raxTopicMatch`.
  pub matches_within :
      (t : Tree) (topic : String) (f : ℕ → ℕ) → tally f (matches t topic) ≤ tally f (entries t)
  -- A bound pattern has one of the entries.
  pub get_entry :
      (t : Tree) (k : String) (u : ℕ)
      → get t k ≡ some u
      → (xs : List (String × ℕ)) × (ys : List (String × ℕ)) × (entries t ≡ xs ++ ((k, u) ∷ ys))
  -- To bind a pattern that is not bound adds one entry.
  pub bind_entry :
      (t t' : Tree) (k : String) (u : ℕ)
      → get t k ≡ none
      → bind t k u ≡ some t'
      → (xs : List (String × ℕ)) × (ys : List (String × ℕ)) × (entries t ≡ xs ++ ys)
        × (entries t' ≡ xs ++ ((k, u) ∷ ys))
  pub get-bind : (t t' : Tree) (k : String) (u : ℕ) → bind t k u ≡ some t' → get t' k ≡ some u
  pub get_other-bind :
      (t t' : Tree) (k j : String) (u : ℕ) → bind t k u ≡ some t' → j ≢ k → get t' j ≡ get t j
  -- To unbind a pattern takes its entry away.
  pub unbind_entry :
      (t : Tree) (k : String) (u : ℕ)
      → get t k ≡ some u
      → (xs : List (String × ℕ)) × (ys : List (String × ℕ)) × (entries t ≡ xs ++ ((k, u) ∷ ys))
        × (entries (unbind t k) ≡ xs ++ ys)
  pub get-unbind : (t : Tree) (k : String) → get (unbind t k) k ≡ none
  pub get_other-unbind : (t : Tree) (k j : String) → j ≢ k → get (unbind t k) j ≡ get t j
