-- ===== src/Channel/Fifo/Trips.antt =====
-- src/loopyChannel.c: elements that are sent to a new channel and received from it.
use loopy.Prelude.{
  ℕ, ◌+◌, ◌≤◌, ◌≡◌, refl, sym, ap, ◌∙◌, true, false, Option, some, List, [], ◌∷◌, ◌++◌, arith, ltb,
  ◌==◌,
}
use loopy.Prelude.Lists.{++-assoc, ++-nil}
use loopy.Prelude.Run.{Returns, Returns-map}
use loopy.Prelude.Words.{add_word}
use loopy.Prelude.Ring.{length, length-snoc}
use loopy.Channel.{ChannelType, Status, Received}
use loopy.Channel.State.{Channel, Config, channel_new}
use loopy.Channel.Fifo.{Call, Answer, calls, fifo_send, fifo_recv, fifo_calls}
use loopy.Channel.Fifo.New.{all_given, IsSound, new-calls-Answers}

same_size : (size : ℕ) → size == size ≡ true
same_size size = ground arith

module _ {A : Type 0} where
  -- One call for each of the elements, and the answers where each succeeds
  abbrev pub sends : ℕ → List A → List (Call A)
  sends size [] = []
  sends size (v ∷ vs) = Call.send v size ∷ sends size vs

  abbrev pub recvs : ℕ → List A → List (Call A)
  recvs size [] = []
  recvs size (v ∷ vs) = Call.recv size ∷ recvs size vs

  abbrev pub all_sent : List A → List (Answer A)
  all_sent [] = []
  all_sent (v ∷ vs) = Answer.sent Status.ok ∷ all_sent vs

  abbrev pub all_got : List A → List (Answer A)
  all_got [] = []
  all_got (v ∷ vs) = Answer.got (Received.bytes v) ∷ all_got vs

  module _ (t : ChannelType) (cap size : ℕ) where
    fifo_calls-sends :
        (vs l : List A) (rest : List (Call A))
        → length l + length vs ≤ cap
        → fifo_calls t cap size (sends size vs ++ rest) false l
          ≡ all_sent vs ++ fifo_calls t cap size rest false (l ++ vs)
    unfolding fifo_calls fifo_send
    fifo_calls-sends [] l rest h = ap (fifo_calls t cap size rest false) (sym (++-nil l))
    fifo_calls-sends (v ∷ vs) l rest h =
        rw (same_size size, room)
          (ap (λ xs. Answer.sent Status.ok ∷ xs)
            (fifo_calls-sends vs (l ++ (v ∷ [])) rest (omega (arith, h, length-snoc l v))
              ∙ ap (λ k. all_sent vs ++ fifo_calls t cap size rest false k)
                  (++-assoc l (v ∷ []) vs)))
      where
        room : ltb (length l) cap ≡ true
        room = ground (arith, h)

    fifo_calls-recvs : (vs : List A) → fifo_calls t cap size (recvs size vs) false vs ≡ all_got vs
    unfolding fifo_calls fifo_recv
    fifo_calls-recvs [] = refl
    fifo_calls-recvs (v ∷ vs) =
        rw fits (ap (λ xs. Answer.got (Received.bytes v) ∷ xs) (fifo_calls-recvs vs))
      where
        fits : ltb size size ≡ false
        fits = ground arith

  -- As many elements as a new channel of a sound configuration has room for, sent without waiting:
  -- each is sent, and as many receives then get them all, in their order.
  pub new-calls-all_got :
      (junk : ℕ → A) (c : Config) (id : ℕ) (loop : Option ℕ) (vs : List A)
      → IsSound junk c
      → length vs ≤ c.capacity
      → (ch : Channel A) × (channel_new all_given junk id loop c ≡ (some ch, add_word id 1))
        × Returns
            (λ r. r.0 ≡ all_sent vs ++ all_got vs)
            (calls (sends c.element_size vs ++ recvs c.element_size vs) ch)
  new-calls-all_got junk c id loop vs v h =
      let (ch, made, r) =
        new-calls-Answers junk c id loop (sends c.element_size vs ++ recvs c.element_size vs) v in
      (ch, made, Returns-map r (λ _ e. e ∙ trip))
    where
      trip :
          fifo_calls c.type c.capacity c.element_size
            (sends c.element_size vs ++ recvs c.element_size vs)
            false
            []
          ≡ all_sent vs ++ all_got vs
      trip =
          fifo_calls-sends c.type c.capacity c.element_size vs [] (recvs c.element_size vs)
            (omega (arith, h))
          ∙ ap (λ xs. all_sent vs ++ xs) (fifo_calls-recvs c.type c.capacity c.element_size vs)
