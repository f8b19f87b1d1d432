-- ===== src/Channel/Fifo/Account.antt =====
-- src/loopyChannel.c: the number of elements in a channel by its counters, and how answers change it.
use loopy.Prelude.{
  ℕ, ◌+◌, ◌≤◌, ◌<◌, ◌≡◌, refl, Bool, true, false, not, List, [], ◌∷◌, arith, ltb, ◌==◌, if_cases,
}
use loopy.Prelude.Ring.{length, length-snoc}
use loopy.Channel.{ChannelType, Status, Received}
use loopy.Channel.Fifo.{fifo_send, fifo_recv, wrong_length}
use loopy.Prelude.Words.{word, add_word, raise}
use loopy.Channel.State.{Stats}

-- The counters of a channel with `k` elements, of which none is from before they were last reset.
pub record Accounts (st : Stats) (k : ℕ) : Type 0 where
  pub received_word : st.total_received < word
  pub balance : st.total_sent ≡ add_word st.total_received k
  pub peak : k ≤ st.peak_usage

module _ (st : Stats) (k : ℕ) where
  pub Accounts-sent :
      Accounts st k
      → Accounts
          (record st {
            total_sent = add_word st.total_sent 1;
            peak_usage = raise st.peak_usage (k + 1);
          })
          (k + 1)
  Accounts-sent a = record {
    received_word = a.received_word;
    balance = omega (arith, a.balance);
    peak = ground arith;
  }

  pub Accounts-received :
      Accounts st (k + 1) → Accounts (record st { total_received = add_word st.total_received 1 }) k
  Accounts-received a = record {
    received_word = omega arith;
    balance = omega (arith, a.balance);
    peak = omega (arith, a.peak);
  }

-- How an answer changes the number of the elements
abbrev pub Grows : Status → ℕ → ℕ → Type 0
Grows Status.ok a b = b ≡ a + 1
Grows _ a b = b ≡ a

abbrev pub Shrinks : {A : Type 0} → Received A → ℕ → ℕ → Type 0
Shrinks (Received.bytes v) a b = a ≡ b + 1
Shrinks (Received.failed s) a b = b ≡ a

module _ {A : Type 0} (cap size : ℕ) where
  pub fifo_send-Grows :
      (t : ChannelType) (l : List A) (v : A) (len : ℕ) (shut : Bool)
      → Grows
          ((fifo_send t cap size shut l v len).0)
          (length l)
          (length ((fifo_send t cap size shut l v len).1))
  unfolding fifo_send
  fifo_send-Grows t l v len true = refl
  fifo_send-Grows t l v len false =
      if_cases P (not (len == size)) (λ e. wrong t)
        (λ e. if_cases P (ltb (length l) cap) (λ f. length-snoc l v) (λ f. refl))
    where
      P : Status × List A → Type 0
      P p = Grows (p.0) (length l) (length (p.1))

      wrong : (t : ChannelType) → P (wrong_length t, l)
      wrong ChannelType.spsc = refl
      wrong ChannelType.mpsc = refl
      wrong ChannelType.mpmc = refl

  pub fifo_recv-Shrinks :
      (t : ChannelType) (l : List A) (len : ℕ) (shut : Bool)
      → Shrinks
          ((fifo_recv t cap size shut l len).0)
          (length l)
          (length ((fifo_recv t cap size shut l len).1))
  unfolding fifo_recv
  fifo_recv-Shrinks t [] len shut =
      if_cases (λ (p : Received A × List A). Shrinks (p.0) 0 (length (p.1))) (ltb len size)
        (λ e. refl) (λ e. refl)
  fifo_recv-Shrinks t (x ∷ xs) len shut =
      if_cases (λ (p : Received A × List A). Shrinks (p.0) (length xs + 1) (length (p.1)))
        (ltb len size) (λ e. refl) (λ e. refl)
