-- ===== src/Lib.antt =====
-- loopy is an event loop library in C. This development models its data structure for priorities,
-- its limiters, its channels between threads, its publish/subscribe hub and its timers; each part is
-- independent of the others and is called by the library's users.
--
-- src/loopyMaxHeap.c, a binary max-heap of 32-bit integers with a position map:
-- * MaxHeap has the state (`Heap` for `loopyMaxHeap`, `PosEntry`) and the helpers `heap_swap`,
--   `heap_bubble_up`, `heap_bubble_down`, `heap_grow` and `ensure_pos_map_capacity`; MaxHeap.Ops has
--   the operations, `insert` for `loopyMaxHeapInsert` and so on. Order has the invariant and counts
--   values; Count, Up, Down, Capacity, Insert, Pop, Find and Remove have the lemmas of what their
--   names say.
-- * Arrays are blocks of cells, and an access outside of a block is a fault. The loops run on fuel:
--   the index for `heap_bubble_up`, which halves it, one more than the size for `heap_bubble_down`,
--   which at least doubles its index, and one more than the needed size for the loop that doubles
--   the position map. The proofs show that none of them runs out.
--
-- src/loopyConcurrencyPool.c, slots shared by users with limits of their own:
-- * ConcurrencyPool has the state (`Pool`, `User`) and the functions on a user's handle
--   (`user_try_acquire` for `loopyConcurrencyUserTryAcquire`), Registry those that look a user up.
--   They run undisturbed there. Slots and Totals have what they do to the counters, Queries compares
--   `can_acquire` with the acquisition.
-- * Threads has the acquisitions and releases of several threads as a step per atomic operation;
--   Safety is about every schedule of them. A failure of a weak compare-and-exchange for no reason is
--   a choice of the schedule. The peaks and statistics, and changes of the users while threads run,
--   are not in that model.
-- * The users' radix tree (rax, under deps) is a parameter with its laws, Prelude.Rax.
--
-- src/loopyRateLimit.c, rate limiters by four algorithms and a limiter of concurrent work:
-- * RateLimit has the configurations. TokenBucket, LeakyBucket, SlidingWindow and FixedWindow have
--   the algorithms (`token_bucket_check` for `tokenBucketCheck`), Limiter the limiter over them
--   (`rate_limit_check` for `loopyRateLimitCheck`) with its statistics, Concurrency the limiter of
--   concurrent work. The functions of the buckets and of the sliding window hold a mutex, so they
--   are single steps. FixedWindow.Race and Concurrency.Race have the code that relies on atomic
--   operations as a step per operation. Concurrency.Bound is about schedules of the latter in
--   which no thread waits.
-- * Readings of the clock are arguments. `double` is a parameter, Prelude.Doubles, with laws of IEEE
--   arithmetic where a theorem needs them.
-- * The loop of `slidingWindowPrune` runs on fuel, one more than the count, which it lowers.
--   Prelude.Ring reads the ring as a list, Bounds has its invariant, Rate and Limit compare the
--   window with the history of all granted requests, Peek compares a peek with a check.
--
-- src/loopyChannel.c, queues of elements between threads:
-- * Channel has the types that all share. Channel.Spsc is the lock-free ring of one producer and one
--   consumer (`spsc_try_send` for `spscTrySend`): Masks, Powers and Init are about its positions, its
--   size and its making, and Threads has the two functions as a step per access to shared memory,
--   with Invariant, Steps and Fifo about every schedule of them.
-- * Channel.Mpmc is the queue under a mutex, as turns that end the call or wait (`mpmc_send_turn`
--   for `mpmcSend`): Queue is about one turn, Threads, Order, Closing and Waking about schedules of
--   the turns of many threads, with timeouts and `loopyChannelClose`.
-- * State has the channel itself (`channel_new` for `loopyChannelNew`) with its statistics, Calls its
--   sends and receives, Select `loopyChannelSelect`, Async the asynchronous calls and `asyncHandler`.
--   What other threads do while a call sleeps or waits, the readings of the clock and the ends of
--   timed waits are arguments (`Outside`).
-- * Fifo has the abstract specification, a list of bounded length; Fifo.Refine and Fifo.New are about
--   the refinement to it, and Fifo.Trips about elements sent and received again. Loops that sleep or
--   wait run on fuel, a unit for each round: Blocking (the ring) and Waiting (the queue) show how much
--   is enough with a timeout; the calls that do not wait take one round. Async.Order is about the
--   order of asynchronous sends.
-- * The accesses of the ring's threads are taken in one order in which each load sees the last store,
--   so what weaker orders of memory might allow beyond that is not in the model.
--
-- src/loopyPubSub.c, messages published under a topic for the subscriptions of the patterns it matches:
-- * PubSub has the data. PubSub.Queue is the message queue of a subscription, a linked list of blocks
--   with a pointer to its last entry (`receive` for `loopySubscriptionReceive`, `ack` for
--   `loopySubscriptionAck`, `enqueue` for the part of `publishToPattern` that adds an entry). A read
--   at NULL, or where no block is in use, is a fault. The blocks of a queue are kept with its
--   subscription, since no other queue points to them.
-- * Fifo, History, Acks, Sound, Receipt and Limits are about the queue: Fifo has the invariant of a
--   queue as a list, Sound the weaker one that all calls keep.
-- * Hub has the hub with the linked lists of subscriptions, one for each pattern (`subscribe` for
--   `loopySubscribe`, `unsubscribe` for `loopyUnsubscribe`), Publish `loopyPublishEx`, Rest the
--   statistics, the walk over all subscriptions and the end of the hub, Validate the checks of topics
--   and patterns. Counts has the hub's invariant; Subscribing, Removal, Unsubscribing, Delivery,
--   Publishing and Walks are about the operations.
-- * The matcher of topics (raxTopic, under deps) is a parameter with its laws, PubSub.RaxTopic. What
--   the allocator answers is an argument. Callbacks are recorded as notices in the order of their
--   calls, and leave the hub as it is. Each function runs undisturbed: the hub's lock and the queues'
--   mutexes are not in the model. A walk over a list runs on fuel, one round more than its counter
--   says; the proofs show that this is enough.
--
-- src/loopyTimer.c, one-shot and periodic timers, and the calls of src/loopy.c that they make:
-- * Timer has the state (`Timer` for `loopyTimer`, `Timers` for the timers of a loop with its wheel and
--   `lastError`), the creation (`create_timer` for `createTimer`, `one_shot`, `periodic` and their
--   variants) and the queries; Timer.Cancel has `loopyTimerCancel`, and the wrapper that the wheel
--   calls around the user's callback. A timer that is freed is no block, and a read of it is a fault.
-- * Invariant has what holds of the wheel and the blocks together. Registering, Creating, Cancelling,
--   Touched, Actions and Firing are about the operations, Runs about all that a program can reach.
-- * The timer wheel of datakit is a parameter with its laws, `TimerWheel`; `fire` is its call of the
--   wrapper for one identifier that is due. The laws say which identifiers are registered, not when
--   they are due. A user's callback is the list of the calls on timers that it makes, and runs no
--   loop of its own. The timers are those of one loop, which is not deleted; an address of another
--   loop is not told apart. What the allocator answers is an argument.
--
-- Prelude has the shared names and models: calls that end with a value, a fault or without fuel
-- (Run), C arrays (Array), the allocator of datakit as a parameter (Allocator), 64-bit words
-- (Words), 32-bit integers (Int), sums (Sums, Tally), rings as lists (Ring), blocks at addresses with
-- the lists that their pointers form (Chain) and bitwise operations (Bits). The Tests modules have
-- runs and the theorems at concrete inputs.
--
-- Not modelled: handles that are NULL in the heap's and the hub's functions, handles of users that
-- are freed, the deallocation of the limiters and of channels, NULL arguments of a channel's calls,
-- values of an enumeration outside of its range, the wait times of the blocking acquisition, and the
-- rest of the library: the loop itself, the other handles, streams, connections, files, processes and
-- the adapters to the operating system, which are mostly calls of the operating system, or change
-- their state as the sockets beneath them do.
pub mod Prelude
pub mod MaxHeap
pub mod ConcurrencyPool
pub mod RateLimit
pub mod Channel
pub mod PubSub
pub mod Timer
