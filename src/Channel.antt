-- ===== src/Channel.antt =====
-- src/loopyChannel.c and src/loopyChannel.h: channels between threads. This file has the types that
-- the two kinds of queue share.
pub mod Spsc
pub mod Mpmc
pub mod State
pub mod Calls
pub mod Fifo
pub mod Blocking
pub mod Waiting
pub mod Async
pub mod Select
mod Tests

-- `loopyChannelType`
pub data ChannelType : Type 0 where
  spsc mpsc mpmc : ChannelType

-- `loopyChannelStatus`
pub data Status : Type 0 where
  ok error invalid timeout closed full empty : Status

-- What a receiving function gives: the number of bytes with the element, or a negative status.
pub data Received (A : Type 0) : Type 0 where
  bytes : A → Received A
  failed : Status → Received A
