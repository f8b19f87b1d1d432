-- ===== src/Channel/Spsc.antt =====
-- src/loopyChannel.c: the lock-free ring of one producer and one consumer, each function as its
-- thread runs it while the other rests. An element of `elementSize` bytes is a value of `A`.
pub mod Threads
pub mod Masks
pub mod Powers
pub mod Invariant
pub mod Steps
pub mod Fifo
pub mod Init
use Prim.Native.Nat.{bit_and, bit_or}
use loopy.Prelude.{
  ℕ, ◌-◌, ◌*◌, ◌/◌, ◌%◌, ◌^◌, Bool, true, false, not, Option, none, some, ltb, leb, ◌==◌,
  if◌then◌else◌,
}
use loopy.Prelude.Run.{Run, ok, fault, out_of_fuel, ◌>>=◌}
use loopy.Prelude.Array.{Array, load, store}
use loopy.Prelude.Words.{word, add_word, sub_word}
use loopy.Channel.{Status, Received}

-- `loopyChannelSPSC`
pub record Spsc (A : Type 0) : Type 0 where
  pub buffer : Array A
  pub capacity : ℕ
  pub element_size : ℕ
  pub mask : ℕ
  pub head : ℕ
  pub cached_tail : ℕ
  pub tail : ℕ
  pub cached_head : ℕ

-- `n |= n >> k`
unfoldable pub smear : ℕ → ℕ → ℕ
smear k n = bit_or n (n / 2 ^ k)

unfoldable pub smear_all : ℕ → ℕ
unfolding smear
smear_all n = smear 32 (smear 16 (smear 8 (smear 4 (smear 2 (smear 1 n)))))

unfoldable pub next_power_of_2 : ℕ → ℕ
unfolding smear_all
next_power_of_2 n = if n == 0 then 1 else add_word (smear_all (n - 1)) 1

module _ {A : Type 0} where
  -- `got` says whether `zmalloc` gives the block, and `junk` what is in it.
  unfoldable pub spsc_init : Bool → (ℕ → A) → ℕ → ℕ → Option (Spsc A)
  unfolding next_power_of_2
  spsc_init got junk capacity size =
      let slots = next_power_of_2 (add_word capacity 1) in
      if got
      then some (record {
        buffer = record { len = slots * size % word / size; cell = junk };
        capacity = capacity;
        element_size = size;
        mask = sub_word slots 1;
        head = 0;
        cached_tail = 0;
        tail = 0;
        cached_head = 0;
      })
      else none

  -- `count < capacity`, of a head and a tail
  abbrev pub has_room : Spsc A → ℕ → ℕ → Bool
  has_room s h t = ltb (bit_and (sub_word h t) s.mask) s.capacity

  -- The two tests, with the refreshed tail between them: is there room, and the ring after it.
  unfoldable pub find_room : Spsc A → Bool × Spsc A
  find_room s =
      if has_room s s.head s.cached_tail
      then (true, s)
      else (has_room s s.head s.tail, record s { cached_tail = s.tail })

  unfoldable pub spsc_try_send : Spsc A → A → ℕ → Run (Bool × Spsc A)
  unfolding find_room
  spsc_try_send s v len =
      if not (len == s.element_size)
      then ok (false, s)
      else (let (room, s') = find_room s in
          if room
          then (do
            b ← store s'.buffer (bit_and s'.head s'.mask) v
            ok (true, record s' { buffer = b; head = add_word s'.head 1 }))
          else ok (false, s'))

  -- Is there an element, and the ring after a refresh of the head.
  unfoldable pub find_element : Spsc A → Bool × Spsc A
  find_element s =
      if s.tail == s.cached_head
      then (not (s.tail == s.head), record s { cached_head = s.head })
      else (true, s)

  unfoldable pub spsc_try_recv : Spsc A → ℕ → Run (Received A × Spsc A)
  unfolding find_element
  spsc_try_recv s len =
      if ltb len s.element_size
      then ok (Received.failed Status.invalid, s)
      else (let (present, s') = find_element s in
          if present
          then (do
            v ← load s'.buffer (bit_and s'.tail s'.mask)
            ok (Received.bytes v, record s' { tail = add_word s'.tail 1 }))
          else ok (Received.failed Status.empty, s'))

  unfoldable pub spsc_len : Spsc A → ℕ
  spsc_len s = sub_word s.head s.tail

  unfoldable pub spsc_is_full : Spsc A → Bool
  spsc_is_full s = leb s.capacity (sub_word s.head s.tail)

  unfoldable pub spsc_is_empty : Spsc A → Bool
  spsc_is_empty s = s.head == s.tail
