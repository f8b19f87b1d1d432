-- ===== src/Channel/Fifo/New.antt =====
-- src/loopyChannel.c: what `loopyChannelNew` makes, and what calls on it answer.
use native.Mathlib.Nat.{mul-div_cancel, mod-eq_of_lt, mul-le-mul_right}
use loopy.Prelude.{
  ℕ, ◌+◌, ◌*◌, ◌/◌, ◌%◌, ◌^◌, ◌≤◌, ◌<◌, ◌≡◌, refl, sym, ap, true, false, Option, none, some, List,
  [], arith, ◌==◌, inl,
}
use mathlib.Core.Option.{map}
use loopy.Prelude.Run.{Returns, Returns-map}
use loopy.Prelude.Words.{word, add_word}
use loopy.Prelude.Ring.{stamps}
use loopy.Channel.{ChannelType}
use loopy.Channel.Spsc.{Spsc, spsc_init}
use loopy.Channel.Spsc.Fifo.{fresh-Inv}
use loopy.Channel.Spsc.Init.{spsc_init-IsEmptyRing}
use loopy.Channel.Mpmc.{Mpmc, mpmc_init}
use loopy.Channel.State.{
  Channel, Config, Given, no_spsc, no_mpmc, channel_new, channel_len, init_queue, async_ready,
}
use loopy.Channel.Fifo.{Call, calls, fifo_calls}
use loopy.Channel.Fifo.Account.{Accounts}
use loopy.Channel.Fifo.Leaves.{Holding, channel_len-length}
use loopy.Channel.Fifo.Moves.{RingHolds}
use loopy.Channel.Fifo.Queue.{QueueHolds}
use loopy.Channel.Fifo.Refine.{Represents, calls-Answers}

-- Whatever is asked for is given.
abbrev pub all_given : Given
all_given = record {
  memory = true;
  block = true;
  mutex = true;
  not_empty = true;
  not_full = true;
  async_mutex = true;
  async = true;
}

ready : (loop : Option ℕ) → async_ready all_given loop ≡ true
unfolding async_ready
ready none = refl
ready (some l) = refl

module _ {A : Type 0} (junk : ℕ → A) (c : Config) where
  -- An element has a size, there is room for one, and twice the block that the capacity asks for can
  -- be addressed.
  pub record IsSound : Type 0 where
    pub some_size : 0 < c.element_size
    pub some_room : 0 < c.capacity
    pub few : c.capacity < 2 ^ 63
    pub fits : 2 * (c.capacity + 1) * c.element_size < word

  module _ (v : IsSound) where
    new_ring :
        (s : Spsc A) × (spsc_init true junk c.capacity c.element_size ≡ some s)
        × RingHolds c.capacity c.element_size s []
    new_ring =
        let (s, e, empty, c_is, s_is) =
          spsc_init-IsEmptyRing junk c.capacity c.element_size v.few v.some_size v.fits in
        let i = fresh-Inv s empty in
        (
          s,
          e,
          record {
            capacity_is = c_is;
            size_is = s_is;
            n = i.n;
            m = i.m;
            c = i.c;
            ring_ok = i.ring_ok;
            holds = sym i.fifo;
          },
        )

    new_queue :
        (q : Mpmc A) × (mpmc_init true true true true junk c.capacity c.element_size ≡ some q)
        × QueueHolds c.capacity c.element_size q []
    unfolding mpmc_init stamps
    new_queue = (
      _,
      refl,
      record {
        capacity_is = refl;
        size_is = refl;
        queue_ok = record {
          in_block = omega (arith, block);
          in_word = omega (arith, v.few);
          bounded = omega arith;
          tail_lt = v.some_room;
          head_lt = v.some_room;
          ahead = inl refl;
        };
        holds = refl;
      },
    )
      where
        addressed : c.capacity * c.element_size < word
        addressed = omega (arith, v.fits, mul-le-mul_right c.element_size room_more)
          where
            room_more : c.capacity ≤ 2 * (c.capacity + 1)
            room_more = omega arith

        block : c.capacity * c.element_size % word / c.element_size ≡ c.capacity
        block = rw (mod-eq_of_lt addressed) (mul-div_cancel c.capacity v.some_size)

    init_queue-Holding :
        (t : ChannelType)
        → (s : Spsc A) × (q : Mpmc A) × (init_queue all_given junk t c.capacity c.element_size
            ≡ some (s, q))
          × Holding c.capacity c.element_size t s q []
    unfolding init_queue
    init_queue-Holding ChannelType.spsc =
        let (s, made, h) = new_ring in (s, no_mpmc junk, ap (map (λ x. (x, no_mpmc junk))) made, h)
    init_queue-Holding ChannelType.mpsc =
        let (q, made, h) = new_queue in (no_spsc junk, q, ap (map (λ x. (no_spsc junk, x))) made, h)
    init_queue-Holding ChannelType.mpmc =
        let (q, made, h) = new_queue in (no_spsc junk, q, ap (map (λ x. (no_spsc junk, x))) made, h)

    pub channel_new-Represents :
        (id : ℕ) (loop : Option ℕ)
        → (ch : Channel A) × (channel_new all_given junk id loop c ≡ (some ch, add_word id 1))
          × Represents c.capacity c.element_size c.type false [] ch
    unfolding channel_new
    channel_new-Represents id loop =
        let (s, q, made, h) = init_queue-Holding c.type in
        rw (sized, roomy, made, ready loop)
          (
            _,
            refl,
            record {
              type_is = refl;
              closed_is = refl;
              holding = h;
              accounts = record { received_word = omega arith; balance = refl; peak = omega arith };
            },
          )
      where
        sized : c.element_size == 0 ≡ false
        sized = ground (arith, v.some_size)

        roomy : c.capacity == 0 ≡ false
        roomy = ground (arith, v.some_room)

  -- For a sound configuration, a new channel's calls that do not wait, in any order and with any
  -- lengths, return, and answer as those on a queue of the given capacity that gives the elements
  -- back in their order.
  pub new-calls-Answers :
      (id : ℕ) (loop : Option ℕ) (cs : List (Call A))
      → IsSound
      → (ch : Channel A) × (channel_new all_given junk id loop c ≡ (some ch, add_word id 1))
        × Returns (λ r. r.0 ≡ fifo_calls c.type c.capacity c.element_size cs false []) (calls cs ch)
  new-calls-Answers id loop cs v =
      let (ch, e, r) = channel_new-Represents v id loop in
      (
        ch,
        e,
        Returns-map (calls-Answers c.capacity c.element_size c.type cs false [] ch r) (λ _ p. p.0),
      )

  -- For a sound configuration, after calls that do not wait on a new channel: the number of elements
  -- that have been sent is that of those received and those that the channel reports to hold, by
  -- counters of 64 bits, and the peak is no less than what it holds.
  new-calls-Accounts :
      (id : ℕ) (loop : Option ℕ) (cs : List (Call A))
      → IsSound
      → (ch : Channel A) × (channel_new all_given junk id loop c ≡ (some ch, add_word id 1))
        × Returns (λ r. Accounts (r.1).stats (channel_len (r.1))) (calls cs ch)
  new-calls-Accounts id loop cs v =
      let (ch, e, r) = channel_new-Represents v id loop in
      (
        ch,
        e,
        Returns-map (calls-Answers c.capacity c.element_size c.type cs false [] ch r)
            (λ (_, last) (_, (shut, l, p)).
              rw (channel_len-length c.capacity c.element_size c.type last l p.type_is p.holding)
                p.accounts),
      )
