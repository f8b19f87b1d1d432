-- ===== src/MaxHeap/Tests.antt =====
-- src/loopyMaxHeap.c: runs on small heaps, and the theorems at concrete inputs.
use loopy.Prelude.{
  ◌*◌, ◌^◌, ◌<◌, ◌≡◌, ◌↔◌, refl, true, false, some, none, arith, ◌==◌, if◌then◌else◌, leb, List, [],
  ◌∷◌,
}
use loopy.Prelude.Int.{ℤ, pos, negsuc}
use loopy.Prelude.Run.{Run, ok, ◌>>=◌, Returns}
use loopy.Prelude.Array.{load, store}
use loopy.Prelude.Allocator.{Allocator, IsAllocator}
use loopy.MaxHeap.{
  Heap, track, zero_entry, heap_swap, heap_bubble_up, heap_bubble_down, heap_grow, double_until,
  ensure_pos_map_capacity,
}
use loopy.MaxHeap.Ops.{insert, pop, remove, contains, find_index, remove_at, append_value}
use loopy.MaxHeap.Order.{IsValid, amount}
use loopy.MaxHeap.Insert.{Inserted, insert-Inserted}
use loopy.MaxHeap.Pop.{Popped, pop-Popped}
use loopy.MaxHeap.Find.{contains_iff}
use loopy.MaxHeap.Remove.{Removed, remove-Removed}

-- An allocator that gives every block of up to 2^20 bytes.
abbrev generous : Allocator
generous = record {
  zcalloc = λ n s. leb (n * s) (2 ^ 20);
  zrealloc = λ bytes. if leb bytes (2 ^ 20) then some (λ _. negsuc 8) else none;
}

generous-IsAllocator : IsAllocator generous
generous-IsAllocator = record {
  zcalloc_fits = λ n s e. ground arith;
  zrealloc_fits = λ bytes fresh e. ground arith;
}

-- The values 9, 4, 9: one value twice, with the position map at its second place.
abbrev twice_nine : Heap
twice_nine = record {
  entries = record { len = 4; cell = λ i. if i == 2 then pos 4 else pos 9 };
  pos_map = record {
    len = 10;
    cell = λ v.
        if v == 9
        then record { value = pos 9; heap_index = 3 }
        else if v == 4
        then record { value = pos 4; heap_index = 2 }
        else zero_entry;
  };
  size = 3;
  capacity = 3;
  pos_map_size = 10;
  allocated = false;
}

twice_nine-IsValid : IsValid twice_nine
twice_nine-IsValid = record {
  shape = omega arith;
  mapped = λ v p q. ground arith;
  heap = λ c p q. ground arith;
}

-- Insert 40, which grows both arrays, and -2; then take the values in order.
sorted_run : Run (List ℤ)
sorted_run = do
  (_, a) ← insert generous twice_nine (pos 40)
  (_, b) ← insert generous a (negsuc 1)
  (_, c) ← remove b (pos 9)
  (w, d) ← pop c
  (x, e) ← pop d
  (y, f) ← pop e
  (z, g) ← pop f
  ok (w ∷ x ∷ y ∷ z ∷ [])

sorted_run_lem : sorted_run ≡ ok (pos 40 ∷ pos 9 ∷ pos 4 ∷ negsuc 1 ∷ [])
unfolding sorted_run insert pop remove find_index remove_at append_value heap_grow
    ensure_pos_map_capacity double_until heap_bubble_up heap_bubble_down heap_swap load store track
sorted_run_lem = refl

insert-Inserted_example :
    Returns (Inserted generous twice_nine (pos 40)) (insert generous twice_nine (pos 40))
insert-Inserted_example =
    insert-Inserted generous generous-IsAllocator twice_nine (pos 40) twice_nine-IsValid
      (omega arith)

pop-Popped_example : Returns (Popped twice_nine) (pop twice_nine)
pop-Popped_example = pop-Popped twice_nine twice_nine-IsValid (omega arith)

contains_iff_example :
    Returns (λ b. (b ≡ true) ↔ (0 < amount twice_nine (pos 9))) (contains twice_nine (pos 9))
contains_iff_example = contains_iff twice_nine (pos 9) twice_nine-IsValid

remove-Removed_example : Returns (Removed twice_nine (pos 9)) (remove twice_nine (pos 9))
remove-Removed_example = remove-Removed twice_nine (pos 9) twice_nine-IsValid
