-- ===== src/Prelude/Rax.antt =====
-- The radix tree of the rax library, which is not part of this repository: a map from the bytes of a
-- key to a pointer. A parameter of the code that calls it, with the laws that this code relies on.
use Prim.Native.String.{String}
use Prim.Native.Nat.{ℕ}
use mathlib.Core.Path.{◌≡◌}
use mathlib.Core.Option.{Option, none, some}
use mathlib.Core.List.{List, [], ◌∷◌, ◌++◌}

-- What `raxTryInsert` does: it inserts, or finds the key, or is out of memory.
pub data TryInsert (Tree : Type 0) : Type 0 where
  inserted : Tree → TryInsert Tree
  exists : ℕ → TryInsert Tree
  out_of_memory : TryInsert Tree

pub record Rax : Type 1 where
  pub Tree : Type 0
  -- `raxNew`; the answer NULL is the caller's argument.
  pub new : Tree
  -- `raxFind`, with `none` for RAX_NOT_FOUND
  pub find : Tree → String → Option ℕ
  pub try_insert : Tree → String → ℕ → TryInsert Tree
  pub remove : Tree → String → Tree
  -- what an iterator from "^" visits, in order
  pub entries : Tree → List (String × ℕ)
  pub entries-new : entries new ≡ []
  -- A key that is found has one of the entries.
  pub find_entry :
      (t : Tree) (k : String) (u : ℕ)
      → find t k ≡ some u
      → (xs : List (String × ℕ)) × (ys : List (String × ℕ)) × (entries t ≡ xs ++ ((k, u) ∷ ys))
  -- A successful insertion adds one entry, under a key that was not there.
  pub insert_entry :
      (t t' : Tree) (k : String) (u : ℕ)
      → try_insert t k u ≡ inserted t'
      → (xs : List (String × ℕ)) × (ys : List (String × ℕ)) × (entries t ≡ xs ++ ys)
        × (entries t' ≡ xs ++ ((k, u) ∷ ys))
        × (find t k ≡ none)
        × (find t' k ≡ some u)
  -- A removal takes away the entry of the key.
  pub remove_entry :
      (t : Tree) (k : String) (u : ℕ)
      → find t k ≡ some u
      → (xs : List (String × ℕ)) × (ys : List (String × ℕ)) × (entries t ≡ xs ++ ((k, u) ∷ ys))
        × (entries (remove t k) ≡ xs ++ ys)
