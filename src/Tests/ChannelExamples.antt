-- ===== src/Tests/ChannelExamples.antt =====
-- The properties of the channel at a channel that is full round its end.
use lemon.Base.{suc, ℕ, ◌≡◌, refl, ◌≢◌, ◌==◌, some, [], ◌∷◌, ◌++◌, length, arith}
use lemon.Channel
use lemon.Channel.{
  Channel, channel_open, channel_closed, init, close, send, recv, success, suspended, closed,
  is_closed,
}
use lemon.Channel.Fifo.{Holds, send-Holds, recv-Holds}
use lemon.Channel.Threads.{
  System, running, waiting, here, next, receives, sends, after_recv, after_send, no_deadlock,
}

-- the element in use is the last of the buffer
abbrev one : Channel ℕ
one = record { buf = 5 ∷ 6 ∷ []; len = 1; cap = 2; head = 1; tail = 0; flags = channel_open }

one-Holds : Holds one (6 ∷ [])
one-Holds = record {
  storage = refl;
  head_in = omega arith;
  room = omega arith;
  tail_at = refl;
  counted = refl;
  elements = λ i lt. let e : i ≡ 0 = omega arith in rw e refl;
}

send-Holds_example :
    (ch' : Channel ℕ) × (send one 7 ≡ success tt ch' (length {A = ℕ} (6 ∷ []) == 0))
    × Holds ch' ((6 ∷ []) ++ 7 ∷ [])
    × (ch'.flags ≡ one.flags)
    × (ch'.cap ≡ one.cap)
send-Holds_example = send-Holds one (6 ∷ []) one-Holds 7 refl (omega arith)

recv-Holds_example :
    (ch' : Channel ℕ) × (recv one ≡ success (some 6) ch' (suc (length {A = ℕ} []) == one.cap))
    × Holds ch' []
    × (ch'.flags ≡ one.flags)
    × (ch'.cap ≡ one.cap)
recv-Holds_example = recv-Holds one 6 [] one-Holds

-- the receiver waits on the empty channel, until the sender's element wakes it
abbrev idle : System ℕ
idle = record {
  chan = record { buf = 5 ∷ []; len = 0; cap = 1; head = 0; tail = 0; flags = channel_open };
  sender = running;
  receiver = running;
}

abbrev parked : System ℕ
parked = after_recv idle (recv idle.chan)

abbrev served : System ℕ
served = after_send parked (send parked.chan 7)

parked-sender : parked.sender ≡ running
unfolding recv Channel.recv_loop after_recv
parked-sender = refl

no_deadlock_example :
    ¬ ((served.receiver ≡ waiting) × (served.chan.len ≢ 0))
    × ¬ ((served.sender ≡ waiting) × (served.chan.len ≢ served.chan.cap))
    × ¬ ((served.sender ≡ waiting) × (served.receiver ≡ waiting))
no_deadlock_example =
    no_deadlock {s = idle} {t = served} (omega arith) (omega arith) refl refl
      (next (next here (receives refl)) (sends 7 parked-sender))
