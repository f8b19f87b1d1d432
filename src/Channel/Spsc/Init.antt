-- ===== src/Channel/Spsc/Init.antt =====
-- src/loopyChannel.c: the ring that `spscInit` makes.
use native.Mathlib.Nat.{
  mul-div_cancel, mod-eq_of_lt, mul-le-mul_right, one-le-pow, pow-le-pow_right,
}
use loopy.Prelude.{ℕ, ◌+◌, ◌*◌, ◌/◌, ◌%◌, ◌^◌, ◌≤◌, ◌<◌, ◌≡◌, refl, ap, ◌∙◌, arith, true, some}
use loopy.Prelude.Words.{word, add_word, sub_word}
use loopy.Channel.Spsc.{Spsc, next_power_of_2, spsc_init}
use loopy.Channel.Spsc.Powers.{next_power_of_2_lem}
use loopy.Channel.Spsc.Fifo.{IsEmptyRing}

module _ {A : Type 0} (junk : ℕ → A) (capacity size : ℕ) where
  -- The ring for a number of slots
  abbrev with_slots : ℕ → Spsc A
  with_slots slots = record {
    buffer = record { len = slots * size % word / size; cell = junk };
    capacity = capacity;
    element_size = size;
    mask = sub_word slots 1;
    head = 0;
    cached_tail = 0;
    tail = 0;
    cached_head = 0;
  }

  init_slots :
      spsc_init true junk capacity size ≡ some (with_slots (next_power_of_2 (add_word capacity 1)))
  unfolding spsc_init
  init_slots = refl

  module _ (k slots : ℕ) (p : slots ≡ 2 ^ k) (q : k < 64) where
    slots_mask : sub_word slots 1 + 1 ≡ slots
    slots_mask = omega (
      arith,
      p,
      one-le-pow k 2 (omega arith),
      pow-le-pow_right {n = 2} (omega arith) {i = k} {j = 63} (omega (arith, q)),
    )

    slots_len : 0 < size → slots * size < word → slots * size % word / size ≡ slots
    slots_len h fits = rw (mod-eq_of_lt fits) (mul-div_cancel slots h)

    with_slots-IsEmptyRing :
        0 < size → slots * size < word → capacity < slots → IsEmptyRing (with_slots slots)
    with_slots-IsEmptyRing h fits more = record {
      mask_ok = record { ones = k; power = slots_mask ∙ p; fits = omega (arith, q) };
      in_block = omega (arith, slots_mask, slots_len h fits);
      in_mask = omega (arith, slots_mask, more);
      tail_word = omega arith;
      head_at = refl;
      cached_tail_at = refl;
      cached_head_at = refl;
    }

  -- A capacity below 2^63, and elements of some size for which twice the block that the capacity
  -- asks for can be addressed: when the block is given, the ring is an empty one of that
  -- capacity, for elements of that size.
  pub spsc_init-IsEmptyRing :
      capacity < 2 ^ 63
      → 0 < size
      → 2 * (capacity + 1) * size < word
      → (s : Spsc A) × (spsc_init true junk capacity size ≡ some s)
        × IsEmptyRing s
        × (s.capacity ≡ capacity)
        × (s.element_size ≡ size)
  spsc_init-IsEmptyRing few h fits =
      let (k, below, power, enough, at_most) =
        next_power_of_2_lem (capacity + 1) (omega arith) (omega (arith, few)) in
      (
        with_slots (next_power_of_2 (capacity + 1)),
        init_slots ∙ ap (λ n. some (with_slots (next_power_of_2 n))) no_wrap,
        with_slots-IsEmptyRing k (next_power_of_2 (capacity + 1)) power below h
            (omega (arith, fits, mul-le-mul_right size (le_of_lt at_most))) (omega (arith, enough)),
        refl,
        refl,
      )
    where
      le_of_lt : {a b : ℕ} → a < b → a ≤ b
      le_of_lt p = omega (arith, p)

      no_wrap : add_word capacity 1 ≡ capacity + 1
      no_wrap = omega (arith, few)
