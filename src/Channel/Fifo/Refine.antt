-- ===== src/Channel/Fifo/Refine.antt =====
-- src/loopyChannel.c: the calls on a channel answer as those on the queue of bounded length do.
use mathlib.Core.Path.{subst}
use mathlib.Core.Bool.{true≢false}
use loopy.Prelude.{ℕ, ◌+◌, ◌≡◌, refl, sym, ap, ◌∙◌, Bool, true, false, List, [], ◌∷◌}
use loopy.Prelude.Run.{ok, Returns, returns, Returns-bind, Returns-if, ◌>>=◌}
use loopy.Prelude.Ring.{length}
use loopy.Channel.{ChannelType, Status, Received}
use loopy.Channel.State.{Channel, Stats, channel_close}
use loopy.Channel.Calls.{
  count_sent, count_received, count_send_failed, count_recv_failed, end_try_send, end_try_recv,
  try_send_on, try_send, try_recv_on, try_recv,
}
use loopy.Channel.Fifo.{Call, Answer, call, calls, fifo_send, fifo_recv, fifo_calls}
use loopy.Channel.Fifo.Account.{
  Accounts, Accounts-sent, Accounts-received, Grows, Shrinks, fifo_send-Grows, fifo_recv-Shrinks,
}
use loopy.Channel.Fifo.Leaves.{
  Holding, channel_len-length, Leaves, try_send_on-Leaves, try_recv_on-Leaves,
}

module _ {A : Type 0} (cap size : ℕ) where
  -- A channel of type `t` that holds the elements, shut or not, with its counters in order
  pub record Represents (t : ChannelType) (shut : Bool) (l : List A) (ch : Channel A) : Type 0 where
    pub type_is : ch.type ≡ t
    pub closed_is : ch.closed ≡ shut
    pub holding : Holding cap size t ch.spsc ch.mpmc l
    pub accounts : Accounts ch.stats (length l)

  -- The end of a call, with the counters
  module _ (t : ChannelType) (shut : Bool) (l k : List A) (ch : Channel A) (e : ch.type ≡ t)
      (c : ch.closed ≡ shut) (h : Holding cap size t ch.spsc ch.mpmc k)
      (a : Accounts ch.stats (length l)) where
    same-Represents :
        (st : Stats) → Accounts st (length k) → Represents t shut k (record ch { stats = st })
    same-Represents st b = record { type_is = e; closed_is = c; holding = h; accounts = b }

    unchanged : {n : ℕ} → n ≡ length l → Accounts ch.stats n
    unchanged g = rw g a

    failed_send : length k ≡ length l → Represents t shut k (count_send_failed ch)
    failed_send g = same-Represents (count_send_failed ch).stats (record {
      received_word = a.received_word;
      balance = (unchanged g).balance;
      peak = (unchanged g).peak;
    })

    failed_recv : length k ≡ length l → Represents t shut k (count_recv_failed ch)
    failed_recv g = same-Represents (count_recv_failed ch).stats (record {
      received_word = a.received_word;
      balance = (unchanged g).balance;
      peak = (unchanged g).peak;
    })

    sent_one : length k ≡ length l + 1 → Represents t shut k (count_sent ch)
    sent_one g =
        same-Represents (count_sent ch).stats
          (rw (channel_len-length cap size t ch k e h, g) (Accounts-sent ch.stats (length l) a))

    received_one : length l ≡ length k + 1 → Represents t shut k (count_received ch)
    received_one g =
        same-Represents (count_received ch).stats (Accounts-received ch.stats (length k) (rw⁻¹ g a))

    end_try_send-Represents :
        (s : Status)
        → Grows s (length l) (length k)
        → ((end_try_send (s, ch)).0 ≡ s) × Represents t shut k ((end_try_send (s, ch)).1)
    unfolding end_try_send
    end_try_send-Represents Status.ok g = (refl, sent_one g)
    end_try_send-Represents Status.full g = (refl, same-Represents ch.stats (unchanged g))
    end_try_send-Represents Status.error g = (refl, failed_send g)
    end_try_send-Represents Status.invalid g = (refl, failed_send g)
    end_try_send-Represents Status.timeout g = (refl, failed_send g)
    end_try_send-Represents Status.closed g = (refl, failed_send g)
    end_try_send-Represents Status.empty g = (refl, failed_send g)

    end_try_recv-Represents :
        (r : Received A)
        → Shrinks r (length l) (length k)
        → ((end_try_recv (r, ch)).0 ≡ r) × Represents t shut k ((end_try_recv (r, ch)).1)
    unfolding end_try_recv
    end_try_recv-Represents (Received.bytes v) g = (refl, received_one g)
    end_try_recv-Represents (Received.failed Status.empty) g =
        (refl, same-Represents ch.stats (unchanged g))
    end_try_recv-Represents (Received.failed Status.ok) g = (refl, failed_recv g)
    end_try_recv-Represents (Received.failed Status.error) g = (refl, failed_recv g)
    end_try_recv-Represents (Received.failed Status.invalid) g = (refl, failed_recv g)
    end_try_recv-Represents (Received.failed Status.timeout) g = (refl, failed_recv g)
    end_try_recv-Represents (Received.failed Status.closed) g = (refl, failed_recv g)
    end_try_recv-Represents (Received.failed Status.full) g = (refl, failed_recv g)

  module _ (t : ChannelType) where
    -- An answer, and a channel that holds the elements
    abbrev pub After : {X : Type 0} → Bool → X × List A → X × Channel A → Type 0
    After shut (x, k) (y, ch) = (y ≡ x) × Represents t shut k ch

    shut_send :
        (l : List A) (v : A) (len : ℕ) (ch : Channel A)
        → Represents t true l ch
        → After true (fifo_send t cap size true l v len) (Status.closed, count_send_failed ch)
    unfolding fifo_send
    shut_send l v len ch r =
        (refl, failed_send t true l l ch r.type_is r.closed_is r.holding r.accounts refl)

    open_send :
        (l : List A) (v : A) (len : ℕ) (ch : Channel A)
        → Represents t false l ch
        → Returns
            (Leaves cap size t ch (fifo_send t cap size false l v len))
            (try_send_on ch.type v len ch)
    open_send l v len ch r =
        subst
          (λ u.
            Returns (Leaves cap size t ch (fifo_send t cap size false l v len))
              (try_send_on u v len ch))
          (sym r.type_is)
          (subst
            (λ b.
              Returns (Leaves cap size t ch (fifo_send t cap size b l v len))
                (try_send_on t v len ch))
            r.closed_is (try_send_on-Leaves cap size t ch l v len r.closed_is r.holding))

    typed_recv :
        {shut : Bool} (l : List A) (len : ℕ) (ch : Channel A)
        → Represents t shut l ch
        → Returns
            (Leaves cap size t ch (fifo_recv t cap size shut l len))
            (try_recv_on ch.type len ch)
    typed_recv {shut} l len ch r =
        subst
          (λ u.
            Returns (Leaves cap size t ch (fifo_recv t cap size shut l len)) (try_recv_on u len ch))
          (sym r.type_is)
          (subst
            (λ b.
              Returns (Leaves cap size t ch (fifo_recv t cap size b l len)) (try_recv_on t len ch))
            r.closed_is (try_recv_on-Leaves cap size t ch l len r.holding))

    pub try_send-After :
        (shut : Bool) (l : List A) (v : A) (len : ℕ) (ch : Channel A)
        → Represents t shut l ch
        → Returns (After shut (fifo_send t cap size shut l v len)) (try_send v len ch)
    unfolding try_send
    try_send-After true l v len ch r =
        Returns-if ch.closed (λ e. returns (shut_send l v len ch r))
          (λ e. absurd (true≢false (sym r.closed_is ∙ e)))
    try_send-After false l v len ch r =
        Returns-if ch.closed (λ e. absurd (true≢false (sym e ∙ r.closed_is)))
          (λ e.
            Returns-bind (open_send l v len ch r)
              (λ (s, ch') (x, h, y, c, st). returns (rest s ch' x h y c st)))
      where
        rest :
            (s : Status) (ch' : Channel A)
            → s ≡ (fifo_send t cap size false l v len).0
            → Holding cap size t ch'.spsc ch'.mpmc ((fifo_send t cap size false l v len).1)
            → ch'.type ≡ ch.type
            → ch'.closed ≡ ch.closed
            → ch'.stats ≡ ch.stats
            → After false (fifo_send t cap size false l v len) (end_try_send (s, ch'))
        rest s ch' x h y c st = (ended.0 ∙ x, ended.1)
          where
            ended :
                ((end_try_send (s, ch')).0 ≡ s)
                × Represents t false
                    ((fifo_send t cap size false l v len).1)
                    ((end_try_send (s, ch')).1)
            ended =
                end_try_send-Represents t false l ((fifo_send t cap size false l v len).1) ch'
                  (y ∙ r.type_is) (c ∙ r.closed_is) h (rw st r.accounts) s
                  (rw x (fifo_send-Grows cap size t l v len false))

    try_recv-After :
        (shut : Bool) (l : List A) (len : ℕ) (ch : Channel A)
        → Represents t shut l ch
        → Returns (After shut (fifo_recv t cap size shut l len)) (try_recv len ch)
    unfolding try_recv
    try_recv-After shut l len ch r =
        Returns-bind (typed_recv l len ch r)
          (λ (s, ch') (x, h, y, c, st). returns (rest s ch' x h y c st))
      where
        rest :
            (s : Received A) (ch' : Channel A)
            → s ≡ (fifo_recv t cap size shut l len).0
            → Holding cap size t ch'.spsc ch'.mpmc ((fifo_recv t cap size shut l len).1)
            → ch'.type ≡ ch.type
            → ch'.closed ≡ ch.closed
            → ch'.stats ≡ ch.stats
            → After shut (fifo_recv t cap size shut l len) (end_try_recv (s, ch'))
        rest s ch' x h y c st = (ended.0 ∙ x, ended.1)
          where
            ended :
                ((end_try_recv (s, ch')).0 ≡ s)
                × Represents t shut
                    ((fifo_recv t cap size shut l len).1)
                    ((end_try_recv (s, ch')).1)
            ended =
                end_try_recv-Represents t shut l ((fifo_recv t cap size shut l len).1) ch'
                  (y ∙ r.type_is) (c ∙ r.closed_is) h (rw st r.accounts) s
                  (rw x (fifo_recv-Shrinks cap size t l len shut))

    -- The answers of the queue of bounded length, and some elements that the channel holds
    abbrev pub Answers : List (Answer A) → List (Answer A) × Channel A → Type 0
    Answers xs (bs, ch) = (bs ≡ xs) × ((shut : Bool) × (l : List A) × Represents t shut l ch)

    more :
        (c d : Answer A)
        → c ≡ d
        → (xs : List (Answer A)) (cs : List (Call A)) (ch : Channel A)
        → Returns (Answers xs) (calls cs ch)
        → Returns (Answers (d ∷ xs)) (calls cs ch >>= λ (rest, last). ok (c ∷ rest, last))
    more c d e xs cs ch h =
        Returns-bind h
          (λ (bs, last) (es, found). returns (ap (λ x. x ∷ bs) e ∙ ap (λ x. d ∷ x) es, found))

    -- On any channel that holds the elements, the calls answer as the queue of bounded length.
    pub calls-Answers :
        (cs : List (Call A)) (shut : Bool) (l : List A) (ch : Channel A)
        → Represents t shut l ch
        → Returns (Answers (fifo_calls t cap size cs shut l)) (calls cs ch)
    unfolding calls call fifo_calls channel_close
    calls-Answers [] shut l ch r = returns (refl, (shut, l, r))
    calls-Answers (Call.send v len ∷ cs) shut l ch r =
        Returns-bind answered
          (λ (a, ch') (e, r'). more a _ e _ cs ch' (calls-Answers cs shut _ ch' r'))
      where
        SendAfter : Answer A × Channel A → Type 0
        SendAfter (a, ch') =
            (a ≡ Answer.sent ((fifo_send t cap size shut l v len).0))
            × Represents t shut ((fifo_send t cap size shut l v len).1) ch'

        answered : Returns SendAfter (try_send v len ch >>= λ (s, ch'). ok (Answer.sent s, ch'))
        answered =
            Returns-bind (try_send-After shut l v len ch r)
              (λ (s, ch') (e, r'). returns (ap Answer.sent e, r'))
    calls-Answers (Call.recv len ∷ cs) shut l ch r =
        Returns-bind answered
          (λ (a, ch') (e, r'). more a _ e _ cs ch' (calls-Answers cs shut _ ch' r'))
      where
        RecvAfter : Answer A × Channel A → Type 0
        RecvAfter (a, ch') =
            (a ≡ Answer.got ((fifo_recv t cap size shut l len).0))
            × Represents t shut ((fifo_recv t cap size shut l len).1) ch'

        answered : Returns RecvAfter (try_recv len ch >>= λ (s, ch'). ok (Answer.got s, ch'))
        answered =
            Returns-bind (try_recv-After shut l len ch r)
              (λ (s, ch') (e, r'). returns (ap Answer.got e, r'))
    calls-Answers (Call.close ∷ cs) shut l ch r =
        more Answer.closed Answer.closed refl _ cs (record ch { closed = true })
          (calls-Answers cs true l (record ch { closed = true })
            (record {
              type_is = r.type_is;
              closed_is = refl;
              holding = r.holding;
              accounts = r.accounts;
            }))
