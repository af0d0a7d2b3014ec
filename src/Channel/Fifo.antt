-- ===== src/Channel/Fifo.antt =====
-- The ring buffer of src/lib/channel.h holds a queue: what is sent goes to its back, and what is
-- received comes from its front.
use lemon.Base.{
  ap₂, ◌&&◌, ℕ, zero, suc, ◌+◌, ◌-◌, ◌%◌, ◌≤◌, ◌<◌, ◌≡◌, refl, sym, ap, ◌∙◌, false, some, List, [],
  ◌∷◌, ◌++◌, ◌==◌, length, get_elem?, set, replicate, length-set, length-append, length-replicate,
  get_elem?-set_self, get_elem?-set_ne, dec_lt, arith,
}
use lemon.Ring.{ring-ne, ring-step}
use lemon.Channel.{
  Channel, success, is_closed, channel_open, init, send_loop, send, recv_loop, recv,
}
use native.Mathlib.Nat.{mod-eq_of_lt, mod-lt, add-zero, mod-add-mod, add_assoc}

-- The channel is well formed, and its elements from `head` on are those of the queue `q`.
pub record Holds {ℓ} {A : Type ℓ} (ch : Channel A) (q : List A) : Type ℓ where
  pub storage : length ch.buf ≡ ch.cap
  pub head_in : ch.head < ch.cap
  pub room : ch.len ≤ ch.cap
  pub tail_at : ch.tail ≡ (ch.head + ch.len) % ch.cap
  pub counted : ch.len ≡ length q
  pub elements : (i : ℕ) → i < ch.len → get_elem? ch.buf ((ch.head + i) % ch.cap) ≡ get_elem? q i

ne_zero : (n : ℕ) → 0 < n → (n == 0) ≡ false
ne_zero n h = ground arith

module _ {ℓ} {A : Type ℓ} where
  get_elem?-append_left :
      (xs ys : List A) (i : ℕ) → i < length xs → get_elem? (xs ++ ys) i ≡ get_elem? xs i
  get_elem?-append_left [] ys i h = absurd (omega arith)
  get_elem?-append_left (x ∷ xs) ys zero h = refl
  get_elem?-append_left (x ∷ xs) ys (suc i) h = get_elem?-append_left xs ys i (omega arith)

  get_elem?-append_last :
      (xs : List A) (y : A) (i : ℕ) → i ≡ length xs → get_elem? (xs ++ y ∷ []) i ≡ some y
  get_elem?-append_last [] y i e = rw e
  get_elem?-append_last (x ∷ xs) y i e = rw e (get_elem?-append_last xs y (length xs) refl)

  -- The place behind the last element is free for one more.
  module _ (ch : Channel A) (q : List A) (h : Holds ch q) where
    set-elements :
        (x : A) (i : ℕ)
        → length q < ch.cap
        → i < ch.len + 1
        → get_elem? (set ch.buf ch.tail x) ((ch.head + i) % ch.cap) ≡ get_elem? (q ++ x ∷ []) i
    set-elements x i space lt = elim (dec_lt i ch.len) [
      | yes old ↦
          let apart = ring-ne ch.cap ch.head i ch.len h.head_in old (omega arith) in
          get_elem?-set_ne ch.buf ch.tail _ x (λ e. apart (sym (sym h.tail_at ∙ e)))
          ∙ h.elements i old
          ∙ sym (get_elem?-append_left q (x ∷ []) i (omega arith))
      | no last ↦
          let end : i ≡ ch.len = omega arith in
          let spot : (ch.head + i) % ch.cap ≡ ch.tail =
            ap (λ k. (ch.head + k) % ch.cap) end ∙ sym h.tail_at in
          ap (λ k. get_elem? (set ch.buf ch.tail x) k) spot
          ∙ get_elem?-set_self ch.buf ch.tail x
              (omega (arith, h.tail_at, h.storage, mod-lt (ch.head + ch.len) {m = ch.cap}))
          ∙ sym (get_elem?-append_last q x i (end ∙ h.counted))
    ]

    -- `ChannelSend` on an open channel with room comes back with the value at the back of the
    -- queue, and signals receivers exactly when the queue was empty; the channel stays open, with
    -- its capacity.
    pub send-Holds :
        (x : A)
        → ch.flags ≡ channel_open
        → length q < ch.cap
        → (ch' : Channel A) × (send ch x ≡ success tt ch' (length q == 0))
          × Holds ch' (q ++ x ∷ [])
          × (ch'.flags ≡ ch.flags)
          × (ch'.cap ≡ ch.cap)
    unfolding send send_loop
    send-Holds x op space = (
      record ch { buf = set ch.buf ch.tail x; tail = (ch.tail + 1) % ch.cap; len = ch.len + 1 },
      rw (not_closed, not_full) (ap (λ b. success tt pushed b) signal),
      record {
        storage = length-set ch.buf ch.tail x ∙ h.storage;
        head_in = h.head_in;
        room = omega (arith, h.counted);
        tail_at =
            ap (λ k. (k + 1) % ch.cap) h.tail_at
            ∙ mod-add-mod (ch.head + ch.len) ch.cap 1
            ∙ ap (λ k. k % ch.cap) (add_assoc ch.head ch.len 1);
        counted = omega (arith, h.counted, length-append q (x ∷ []));
        elements = λ i lt. set-elements x i space lt;
      },
      refl,
      refl,
    )
      where
        pushed : Channel A
        pushed = record ch {
          buf = set ch.buf ch.tail x;
          tail = (ch.tail + 1) % ch.cap;
          len = ch.len + 1;
        }

        not_closed : is_closed ch.flags ≡ false
        not_closed = rw op

        not_full : (ch.len == ch.cap) ≡ false
        not_full = ground (arith, h.counted)

        signal : (ch.len + 1 == 1) ≡ (length q == 0)
        signal = ground (arith, h.counted)

  -- `ChannelRecv` on a channel that holds elements takes the first of the queue, closed or not, and
  -- signals senders exactly when the queue was full; the flags and the capacity stay.
  pub recv-Holds :
      (ch : Channel A) (y : A) (q : List A)
      → Holds ch (y ∷ q)
      → (ch' : Channel A) × (recv ch ≡ success (some y) ch' (suc (length q) == ch.cap))
        × Holds ch' q
        × (ch'.flags ≡ ch.flags)
        × (ch'.cap ≡ ch.cap)
  unfolding recv recv_loop
  recv-Holds ch y q h = (
    record ch { head = (ch.head + 1) % ch.cap; len = ch.len - 1 },
    rw (not_refused, not_empty) (ap₂ (λ o b. success o popped b) front signal),
    record {
      storage = h.storage;
      head_in = mod-lt (ch.head + 1) {m = ch.cap} (omega (arith, h.head_in));
      room = omega (arith, h.room);
      tail_at =
          h.tail_at
          ∙ ap (λ k. (ch.head + k) % ch.cap)
              (let e : ch.len ≡ suc (ch.len - 1) = omega (arith, h.counted) in e)
          ∙ sym (ring-step ch.cap ch.head (ch.len - 1));
      counted = omega (arith, h.counted);
      elements = λ i lt.
          ap (λ k. get_elem? ch.buf k) (ring-step ch.cap ch.head i)
          ∙ h.elements (suc i) (omega arith);
    },
    refl,
    refl,
  )
    where
      popped : Channel A
      popped = record ch { head = (ch.head + 1) % ch.cap; len = ch.len - 1 }

      not_empty : (ch.len == 0) ≡ false
      not_empty = ground (arith, h.counted)

      not_refused : (is_closed ch.flags && (ch.len == 0)) ≡ false
      not_refused = ground (arith, h.counted)

      front : get_elem? ch.buf ch.head ≡ some y
      front =
          ap (λ k. get_elem? ch.buf k)
            (sym (ap (λ k. k % ch.cap) (add-zero ch.head) ∙ mod-eq_of_lt h.head_in))
          ∙ h.elements 0 (omega (arith, h.counted))

      signal : (ch.len - 1 == ch.cap - 1) ≡ (suc (length q) == ch.cap)
      signal = ground (arith, h.counted, h.head_in)

  -- A new channel is an open, empty queue, for every capacity but 0.
  init-Holds :
      (zeroed : A) (n : ℕ)
      → 0 < n
      → (ch : Channel A) × (init zeroed n ≡ some ch)
        × Holds ch []
        × (ch.flags ≡ channel_open)
        × (ch.cap ≡ n)
  unfolding init
  init-Holds zeroed n pos = (
    record { buf = replicate n zeroed; len = 0; cap = n; head = 0; tail = 0; flags = channel_open },
    rw (ne_zero n pos),
    record {
      storage = length-replicate n zeroed;
      head_in = pos;
      room = omega arith;
      tail_at = omega (arith, mod-eq_of_lt pos);
      counted = refl;
      elements = λ i lt. absurd (omega arith);
    },
    refl,
    refl,
  )
