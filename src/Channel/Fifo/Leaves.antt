-- ===== src/Channel/Fifo/Leaves.antt =====
-- src/loopyChannel.c: what a call that does not wait leaves in the queue of the channel's type.
use loopy.Prelude.{
  ℕ, ◌≡◌, refl, ap, Bool, true, false, not, ◌&&◌, List, [], ◌∷◌, ◌++◌, ltb, ◌==◌, if◌then◌else◌,
}
use loopy.Prelude.Run.{Returns, returns, Returns-bind, Returns-map}
use loopy.Prelude.Ring.{length}
use loopy.Channel.{ChannelType, Status}
use loopy.Channel.Spsc.{Spsc}
use loopy.Channel.Mpmc.{Mpmc, mpmc_len}
use loopy.Channel.State.{Channel, channel_len}
use loopy.Channel.Calls.{if_sent, try_send_on, try_recv_on}
use loopy.Channel.Fifo.{fifo_send, fifo_recv}
use loopy.Channel.Fifo.Moves.{RingHolds}
use loopy.Channel.Fifo.Ring.{
  accepts, received, spsc_len-length, spsc_try_send-Holds, spsc_try_recv-Holds,
}
use loopy.Channel.Fifo.Queue.{
  QueueHolds, QueueHolds-length, Agrees, mpmc_try_send-Agrees, mpmc_try_recv-Agrees,
}

module _ {A : Type 0} (cap size : ℕ) where
  -- The queue of the channel's type holds the elements.
  abbrev pub Holding : ChannelType → Spsc A → Mpmc A → List A → Type 0
  Holding ChannelType.spsc s q l = RingHolds cap size s l
  Holding _ s q l = QueueHolds cap size q l

  pub channel_len-length :
      (t : ChannelType) (ch : Channel A) (l : List A)
      → ch.type ≡ t
      → Holding t ch.spsc ch.mpmc l
      → channel_len ch ≡ length l
  unfolding channel_len mpmc_len
  channel_len-length ChannelType.spsc ch l e h = rw e (spsc_len-length cap size l ch.spsc h)
  channel_len-length ChannelType.mpsc ch l e h = rw e (QueueHolds-length cap size ch.mpmc l h)
  channel_len-length ChannelType.mpmc ch l e h = rw e (QueueHolds-length cap size ch.mpmc l h)

  -- What a call leaves of the channel: the answer and the elements of the specification, and all but
  -- the queues as it was
  abbrev pub Leaves : {X : Type 0} → ChannelType → Channel A → X × List A → X × Channel A → Type 0
  Leaves t ch (x, k) (y, ch') =
      (y ≡ x)
      × Holding t ch'.spsc ch'.mpmc k
      × (ch'.type ≡ ch.type)
      × (ch'.closed ≡ ch.closed)
      × (ch'.stats ≡ ch.stats)

  queue-Leaves :
      {X : Type 0} (t : ChannelType) (ch : Channel A) (l : List A)
      (h : QueueHolds cap size ch.mpmc l)
      → ((ch' : Channel A) (k : List A)
          → QueueHolds cap size ch'.mpmc k
          → Holding t ch'.spsc ch'.mpmc k)
      → (p : X × List A) (r : X × Channel A) → Agrees cap size ch l h p r
      → Leaves t ch p r
  queue-Leaves t ch l h other p r (q, e, c, j) =
      (e, other (r.1) (p.1) (rw c j), ap (λ x. x.type) c, ap (λ x. x.closed) c, ap (λ x. x.stats) c)

  fifo_send-ring :
      (l : List A) (v : A) (len : ℕ)
      → fifo_send ChannelType.spsc cap size false l v len
        ≡ (if_sent (accepts cap size l len), if accepts cap size l len then l ++ (v ∷ []) else l)
  unfolding fifo_send
  fifo_send-ring l v len = go (len == size) (ltb (length l) cap)
    where
      go :
          (a b : Bool)
          → ◌≡◌ {A = Status × List A}
              (if not a
                then (Status.full, l)
                else if b
                then (Status.ok, l ++ (v ∷ []))
                else (Status.full, l))
              (if_sent (a && b), if a && b then l ++ (v ∷ []) else l)
      go true true = refl
      go true false = refl
      go false true = refl
      go false false = refl

  pub try_send_on-Leaves :
      (t : ChannelType) (ch : Channel A) (l : List A) (v : A) (len : ℕ)
      → ch.closed ≡ false
      → Holding t ch.spsc ch.mpmc l
      → Returns (Leaves t ch (fifo_send t cap size ch.closed l v len)) (try_send_on t v len ch)
  unfolding try_send_on
  try_send_on-Leaves ChannelType.spsc ch l v len o h =
      Returns-bind (spsc_try_send-Holds cap size l v len ch.spsc h) (λ (b, s) (e, j).
        returns (rw (o, fifo_send-ring l v len) (ap if_sent e, j, refl, refl, refl)))
  try_send_on-Leaves ChannelType.mpsc ch l v len o h =
      Returns-map (mpmc_try_send-Agrees cap size ch l h ChannelType.mpsc refl v len o)
        (queue-Leaves ChannelType.mpsc ch l h (λ _ _ j. j) _)
  try_send_on-Leaves ChannelType.mpmc ch l v len o h =
      Returns-map (mpmc_try_send-Agrees cap size ch l h ChannelType.mpmc refl v len o)
        (queue-Leaves ChannelType.mpmc ch l h (λ _ _ j. j) _)

  fifo_recv-ring :
      (shut : Bool) (l : List A) (len : ℕ)
      → fifo_recv ChannelType.spsc cap size shut l len ≡ received cap size l len
  unfolding fifo_recv
  fifo_recv-ring shut [] len = refl
  fifo_recv-ring shut (x ∷ xs) len = refl

  pub try_recv_on-Leaves :
      (t : ChannelType) (ch : Channel A) (l : List A) (len : ℕ)
      → Holding t ch.spsc ch.mpmc l
      → Returns (Leaves t ch (fifo_recv t cap size ch.closed l len)) (try_recv_on t len ch)
  unfolding try_recv_on
  try_recv_on-Leaves ChannelType.spsc ch l len h =
      Returns-bind (spsc_try_recv-Holds cap size l len ch.spsc h)
        (λ (b, s) (e, j). returns (rw (fifo_recv-ring ch.closed l len) (e, j, refl, refl, refl)))
  try_recv_on-Leaves ChannelType.mpsc ch l len h =
      Returns-map (mpmc_try_recv-Agrees cap size ch l h ChannelType.mpsc refl len)
        (queue-Leaves ChannelType.mpsc ch l h (λ _ _ j. j) _)
  try_recv_on-Leaves ChannelType.mpmc ch l len h =
      Returns-map (mpmc_try_recv-Agrees cap size ch l h ChannelType.mpmc refl len)
        (queue-Leaves ChannelType.mpmc ch l h (λ _ _ j. j) _)
