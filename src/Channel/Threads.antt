-- ===== src/Channel/Threads.antt =====
-- One sender and one receiver on a channel (src/lib/channel.h), as the scanner's thread and the parser's
-- are: every interleaving of the stretches in which one of them holds the mutex.
use lemon.Base.{Bool-cases, inl, inr, ◌≤◌, ◌<◌, ◌≡◌, ◌≢◌, Bool, true, ◌&&◌, Option, ◌==◌, arith}
use lemon.Channel.{
  Channel, Attempt, closed, suspended, success, close, send_loop, send, recv_loop, recv, is_closed,
}

-- A thread outside of the channel's functions, one that waits on its condition variable, and one that
-- was woken (by a signal, or for no reason) and has yet to take the mutex again.
pub data Thread : Type 0 where
  running waiting woken : Thread

pub record System {ℓ} (A : Type ℓ) : Type ℓ where
  pub chan : Channel A
  pub sender : Thread
  pub receiver : Thread

-- `pthread_cond_signal` wakes a thread that waits, and has no effect on another.
abbrev pub signalled : Bool → Thread → Thread
signalled true waiting = woken
signalled _ t = t

module _ {ℓ} {A : Type ℓ} where
  -- a stretch of the sender that ended in an attempt
  unfoldable pub after_send : System A → Attempt A (Unit {ℓ}) → System A
  after_send s closed = record s { sender = running }
  after_send s suspended = record s { sender = waiting }
  after_send s (success _ ch signal) = record {
    chan = ch;
    sender = running;
    receiver = signalled signal s.receiver;
  }

  unfoldable pub after_recv : System A → Attempt A (Option A) → System A
  after_recv s closed = record s { receiver = running }
  after_recv s suspended = record s { receiver = waiting }
  after_recv s (success _ ch signal) = record {
    chan = ch;
    sender = signalled signal s.sender;
    receiver = running;
  }

  pub data Step (s : System A) : System A → Type ℓ where
    sends : (x : A) → s.sender ≡ running → Step s (after_send s (send s.chan x))
    resends : (x : A) → s.sender ≡ woken → Step s (after_send s (send_loop s.chan x))
    receives : s.receiver ≡ running → Step s (after_recv s (recv s.chan))
    rereceives : s.receiver ≡ woken → Step s (after_recv s (recv_loop s.chan))
    closes : s.sender ≡ running → Step s (record s { chan = close s.chan })
    wakes_sender : s.sender ≡ waiting → Step s (record s { sender = woken })
    wakes_receiver : s.receiver ≡ waiting → Step s (record s { receiver = woken })

  pub data Reach (s : System A) : System A → Type ℓ where
    here : Reach s s
    next : {t u : System A} → Reach s t → Step t u → Reach s u

  -- A thread waits only where its condition holds.
  pub record IsSound (s : System A) : Type ℓ where
    pub capacity : 0 < s.chan.cap
    pub room : s.chan.len ≤ s.chan.cap
    pub receiver_waits : s.receiver ≡ waiting → s.chan.len ≡ 0
    pub sender_waits : s.sender ≡ waiting → s.chan.len ≡ s.chan.cap

  send_loop-IsSound :
      (s : System A) (x : A)
      → IsSound s
      → s.sender ≢ waiting
      → IsSound (after_send s (send_loop s.chan x))
  unfolding after_send send_loop
  send_loop-IsSound s x v awake = ground arith

  send-IsSound :
      (s : System A) (x : A)
      → IsSound s
      → s.sender ≡ running
      → IsSound (after_send s (send s.chan x))
  unfolding send after_send
  send-IsSound s x v run = elim (Bool-cases (is_closed s.chan.flags)) [
    | inl cl ↦ rw cl (ground arith)
    | inr op ↦ rw op (send_loop-IsSound s x v (λ e. cc))
  ]

  recv_loop-IsSound :
      (s : System A) → IsSound s → s.receiver ≢ waiting → IsSound (after_recv s (recv_loop s.chan))
  unfolding after_recv recv_loop
  recv_loop-IsSound s v awake = ground arith

  recv-IsSound :
      (s : System A) → IsSound s → s.receiver ≡ running → IsSound (after_recv s (recv s.chan))
  unfolding recv after_recv
  recv-IsSound s v run = elim (Bool-cases (is_closed s.chan.flags && (s.chan.len == 0))) [
    | inl cl ↦ rw cl (ground arith)
    | inr op ↦ rw op (recv_loop-IsSound s v (λ e. cc))
  ]

  Step-IsSound : {s t : System A} → Step s t → IsSound s → IsSound t
  unfolding close
  Step-IsSound {s} (sends x run) v = send-IsSound s x v run
  Step-IsSound {s} (resends x w) v = send_loop-IsSound s x v (λ e. cc)
  Step-IsSound {s} (receives run) v = recv-IsSound s v run
  Step-IsSound {s} (rereceives w) v = recv_loop-IsSound s v (λ e. cc)
  Step-IsSound (closes run) v = ground arith
  Step-IsSound (wakes_sender w) v = ground arith
  Step-IsSound (wakes_receiver w) v = ground arith

  Reach-IsSound : {s t : System A} → IsSound s → Reach s t → IsSound t
  Reach-IsSound v here = v
  Reach-IsSound v (next r st) = Step-IsSound st (Reach-IsSound v r)

  -- With one sender and one receiver that start outside of the channel's functions, on a channel with
  -- a capacity and no more elements than that, no wakeup is lost in any interleaving: a receiver waits
  -- only while the channel is empty, a sender only while it is full, and so the two never wait for
  -- each other.
  pub no_deadlock :
      {s t : System A}
      → 0 < s.chan.cap
      → s.chan.len ≤ s.chan.cap
      → s.sender ≡ running
      → s.receiver ≡ running
      → Reach s t
      → ¬ ((t.receiver ≡ waiting) × (t.chan.len ≢ 0))
        × ¬ ((t.sender ≡ waiting) × (t.chan.len ≢ t.chan.cap))
        × ¬ ((t.sender ≡ waiting) × (t.receiver ≡ waiting))
  no_deadlock {s} {t} pos room out_s out_r r =
      let v : IsSound s = record {
        capacity = pos;
        room = room;
        receiver_waits = λ e. cc;
        sender_waits = λ e. cc;
      } in
      let w = Reach-IsSound v r in
      (
        λ both. both.1 (w.receiver_waits both.0),
        λ both. both.1 (w.sender_waits both.0),
        λ both. omega (arith, w.receiver_waits both.1, w.sender_waits both.0, w.capacity),
      )
