-- ===== src/Channel.antt =====
-- src/lib/channel.h: a FIFO queue of fixed capacity between threads, guarded by one mutex.
--
-- A function here is what a thread does while it holds the mutex: from taking it to letting it go, or
-- to a wait on a condition variable, which lets it go too. `Threads` puts such stretches together.
pub mod Fifo
pub mod Threads
use lemon.Base.{
  ℕ, ◌+◌, ◌-◌, ◌%◌, Bool, true, false, ◌&&◌, Option, none, some, List, ◌==◌, if◌then◌else◌,
  get_elem?, set, replicate,
}

-- the flags `CHANNEL_OPEN` and `CHANNEL_CLOSED`, of which one is set
pub data Flag : Type 0 where
  channel_open channel_closed : Flag

abbrev pub is_closed : Flag → Bool
is_closed channel_open = false
is_closed channel_closed = true

-- `struct channel`, less its mutex and condition variables
pub record Channel {ℓ} (A : Type ℓ) : Type ℓ where
  pub buf : List A
  pub len : ℕ
  pub cap : ℕ
  pub head : ℕ
  pub tail : ℕ
  pub flags : Flag

-- The end of a stretch with the mutex held: `CHANNEL_ECLOSED`, a wait, or `CHANNEL_ESUCCESS` with the
-- value for the caller, the channel, and whether the other side's condition variable was signalled.
pub data Attempt {ℓ} (A B : Type ℓ) : Type ℓ where
  closed suspended : Attempt A B
  success : B → Channel A → Bool → Attempt A B

-- `ChannelInit`; `none` is its failed `assert(n)`. The arena gives zeroed memory, here `zeroed`.
unfoldable pub init {ℓ} : {A : Type ℓ} → A → ℕ → Option (Channel A)
init zeroed n =
    if n == 0
    then none
    else some (record {
      buf = replicate n zeroed;
      len = 0;
      cap = n;
      head = 0;
      tail = 0;
      flags = channel_open;
    })

module _ {ℓ} {A : Type ℓ} where
  -- `ChannelClose`
  unfoldable pub close : Channel A → Channel A
  close ch = record ch { flags = channel_closed }

  -- `ChannelShutdown`, by whether `pthread_cond_destroy` finds a thread waiting on `cond_full` and on
  -- `cond_empty`; the flag that is returned is set for `CHANNEL_EBUSY`
  unfoldable pub shutdown : Bool → Bool → Channel A → Bool × Channel A
  shutdown full_busy empty_busy ch =
      if full_busy
      then (true, ch)
      else if empty_busy
      then (true, ch)
      else (false, record ch { flags = channel_closed })

  -- `ChannelSend` from its loop on, where a thread that was woken goes on too
  unfoldable pub send_loop : Channel A → A → Attempt A (Unit {ℓ})
  send_loop ch datum =
      if ch.len == ch.cap
      then suspended
      else success tt
          (record ch {
            buf = set ch.buf ch.tail datum;
            tail = (ch.tail + 1) % ch.cap;
            len = ch.len + 1;
          })
          (ch.len + 1 == 1)

  -- `ChannelSend`
  unfoldable pub send : Channel A → A → Attempt A (Unit {ℓ})
  send ch datum = if is_closed ch.flags then closed else send_loop ch datum

  -- `ChannelRecv` from its loop on; the value is `none` where `data[head]` is out of bounds
  unfoldable pub recv_loop : Channel A → Attempt A (Option A)
  recv_loop ch =
      if ch.len == 0
      then suspended
      else success (get_elem? ch.buf ch.head)
          (record ch { head = (ch.head + 1) % ch.cap; len = ch.len - 1 }) (ch.len - 1 == ch.cap - 1)

  -- `ChannelRecv`
  unfoldable pub recv : Channel A → Attempt A (Option A)
  recv ch = if is_closed ch.flags && ch.len == 0 then closed else recv_loop ch
