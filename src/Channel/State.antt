-- ===== src/Channel/State.antt =====
-- src/loopyChannel.c and src/loopyChannel.h: a channel, with its configuration and its statistics. A
-- NULL in place of a channel, a configuration or data is not modelled, and no type but the three.
use loopy.Prelude.{
  ℕ, Bool, true, false, not, ◌&&◌, ◌||◌, Option, none, some, List, [], ◌==◌, if◌then◌else◌,
}
use mathlib.Core.Option.{map}
use loopy.Prelude.Words.{add_word}
use loopy.Channel.{ChannelType}
use loopy.Channel.Spsc.{Spsc, spsc_init, spsc_len, spsc_is_full, spsc_is_empty}
use loopy.Channel.Mpmc.{Mpmc, mpmc_init, mpmc_len, mpmc_is_full, mpmc_is_empty}

-- `loopyChannelConfig`; the timeouts are in microseconds.
pub record Config : Type 0 where
  pub type : ChannelType
  pub capacity : ℕ
  pub element_size : ℕ
  pub blocking : Bool
  pub send_timeout : ℕ
  pub recv_timeout : ℕ

unfoldable pub config_init : Config
config_init = record {
  type = ChannelType.spsc;
  capacity = 1024;
  element_size = 0;
  blocking = false;
  send_timeout = 0;
  recv_timeout = 0;
}

-- `loopyChannelStats`, and the counters of a channel
pub record Stats : Type 0 where
  pub total_sent : ℕ
  pub total_received : ℕ
  pub send_blocked : ℕ
  pub recv_blocked : ℕ
  pub send_failed : ℕ
  pub recv_failed : ℕ
  pub peak_usage : ℕ

abbrev pub no_stats : Stats
no_stats = record {
  total_sent = 0;
  total_received = 0;
  send_blocked = 0;
  recv_blocked = 0;
  send_failed = 0;
  recv_failed = 0;
  peak_usage = 0;
}

-- `loopyChannelPendingOp`: the element and its length, for a send; the callback, if there is one, and
-- the data for it.
pub data PendingOp (A : Type 0) : Type 0 where
  send : A → ℕ → Option ℕ → ℕ → PendingOp A
  recv : Option ℕ → ℕ → PendingOp A

-- `loopyChannel`. The type says which of the two queues is used. A loop, a callback and the user's
-- data are known by their addresses.
pub record Channel (A : Type 0) : Type 0 where
  pub id : ℕ
  pub type : ChannelType
  pub loop : Option ℕ
  pub user_data : ℕ
  pub spsc : Spsc A
  pub mpmc : Mpmc A
  pub config : Config
  pub closed : Bool
  pub has_async : Bool
  pub pending : List (PendingOp A)
  pub stats : Stats

-- What a new channel is given: the memory for it and for its block, the mutex and the two conditions
-- of a queue, and the mutex and the handle for asynchronous calls.
pub record Given : Type 0 where
  pub memory : Bool
  pub block : Bool
  pub mutex : Bool
  pub not_empty : Bool
  pub not_full : Bool
  pub async_mutex : Bool
  pub async : Bool

-- Is the asynchronous part made, where there is a loop for it.
unfoldable pub async_ready : Given → Option ℕ → Bool
async_ready g none = true
async_ready g (some l) = g.async_mutex && g.async

unfoldable pub with_loop : Option ℕ → Bool
with_loop none = false
with_loop (some l) = true

module _ {A : Type 0} where
  -- The part of the union that a type does not use
  abbrev pub no_spsc : (ℕ → A) → Spsc A
  no_spsc junk = record {
    buffer = record { len = 0; cell = junk };
    capacity = 0;
    element_size = 0;
    mask = 0;
    head = 0;
    cached_tail = 0;
    tail = 0;
    cached_head = 0;
  }

  abbrev pub no_mpmc : (ℕ → A) → Mpmc A
  no_mpmc junk = record {
    buffer = record { len = 0; cell = junk };
    capacity = 0;
    element_size = 0;
    head = 0;
    tail = 0;
    count = 0;
  }

  -- The switch over the type: the queue for it
  unfoldable pub init_queue :
      Given → (ℕ → A) → ChannelType → (capacity size : ℕ) → Option (Spsc A × Mpmc A)
  unfolding spsc_init mpmc_init
  init_queue g junk ChannelType.spsc capacity size =
      map (λ s. (s, no_mpmc junk)) (spsc_init g.block junk capacity size)
  init_queue g junk _ capacity size =
      map (λ q. (no_spsc junk, q))
        (mpmc_init g.block g.mutex g.not_empty g.not_full junk capacity size)

  -- `next_id` is `globalChannelId`, which a channel takes before its queue is made.
  unfoldable pub channel_new :
      Given → (ℕ → A) → (next_id : ℕ) → Option ℕ → Config → Option (Channel A) × ℕ
  unfolding init_queue async_ready with_loop
  channel_new g junk next_id loop c =
      if (c.element_size == 0) || (c.capacity == 0)
      then (none, next_id)
      else if not g.memory
      then (none, next_id)
      else elim (init_queue g junk c.type c.capacity c.element_size) [
        | none ↦ (none, add_word next_id 1)
        | some (s, q) ↦
            if async_ready g loop
            then (
              some (record {
                id = next_id;
                type = c.type;
                loop = loop;
                user_data = 0;
                spsc = s;
                mpmc = q;
                config = c;
                closed = false;
                has_async = with_loop loop;
                pending = [];
                stats = no_stats;
              }),
              add_word next_id 1,
            )
            else (none, add_word next_id 1)
      ]

  -- `loopyChannelClose`, without its broadcasts: a thread that waits may go on at any time in the
  -- schedules of Channel.Mpmc.Threads.
  unfoldable pub channel_close : Channel A → Channel A
  channel_close ch = record ch { closed = true }

  unfoldable pub channel_len : Channel A → ℕ
  unfolding spsc_len mpmc_len
  channel_len ch = elim ch.type [ ChannelType.spsc ↦ spsc_len ch.spsc | _ ↦ mpmc_len ch.mpmc ]

  unfoldable pub channel_cap : Channel A → ℕ
  channel_cap ch = elim ch.type [ ChannelType.spsc ↦ ch.spsc.capacity | _ ↦ ch.mpmc.capacity ]

  unfoldable pub channel_is_full : Channel A → Bool
  unfolding spsc_is_full mpmc_is_full
  channel_is_full ch = elim ch.type [
    | ChannelType.spsc ↦ spsc_is_full ch.spsc
    | _ ↦ mpmc_is_full ch.mpmc
  ]

  unfoldable pub channel_is_empty : Channel A → Bool
  unfolding spsc_is_empty mpmc_is_empty
  channel_is_empty ch = elim ch.type [
    | ChannelType.spsc ↦ spsc_is_empty ch.spsc
    | _ ↦ mpmc_is_empty ch.mpmc
  ]

  -- `loopyChannelGetStats` copies the counters, and `loopyChannelResetStats` sets them to zero.
  unfoldable pub channel_stats : Channel A → Stats
  channel_stats ch = ch.stats

  unfoldable pub channel_reset_stats : Channel A → Channel A
  channel_reset_stats ch = record ch { stats = no_stats }

  -- `loopyChannelSetData`
  unfoldable pub set_data : ℕ → Channel A → Channel A
  set_data user_data ch = record ch { user_data = user_data }
