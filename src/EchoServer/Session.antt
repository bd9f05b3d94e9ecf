-- ===== src/EchoServer/Session.antt =====
-- Any callbacks of a connection of sample/sample.cc, one after another, in its loop's thread.
use moony.Prelude.{
  ℕ, ◌+◌, ◌≤◌, ◌≡◌, sym, ap, ◌∙◌, List, [], ◌∷◌, ◌++◌, Outcome, ok, ◌>>=◌, arith, length,
  length-append, append-nil, append_assoc, subst,
}
use moony.Epoll.{Epoll}
use moony.EventLoop.{EventFd}
use moony.Buffer.{Sent, received, read_error, max_size, writable_bytes}
use moony.Buffer.Valid.{writable_bytes_eq}
use moony.Buffer.Room.{contents}
use moony.TcpConnection.{World, connected, handle_write}
use moony.TcpConnection.Post.{Post, Post-bind, Post-mono}
use moony.TcpConnection.Sound.{IsSound, Flows, stream}
use moony.TcpConnection.Output.{Keeps}
use moony.TcpConnection.Attempt.{IsBroken}
use moony.TcpConnection.Write.{handle_write-Keeps}
use moony.TcpConnection.End.{handle_read_ends}
use moony.TcpConnection.Send.{max_int}
use moony.TcpConnection.Session.{Post-forget}
use moony.EchoServer.{on_readable}
use moony.EchoServer.Echo.{Echoes, on_readable-Echoes}

-- A callback of the channel: the read callback, when `readv` delivers at least one byte, with the kernel's answer to
-- the write that `send` may make, or fails; the write callback, with the answer to its write; and the
-- error callback.
pub data Call : Type 0 where
  reads : ℕ → List ℕ → (List ℕ → Sent) → Call
  fails : ℕ → Call
  writes : (List ℕ → Sent) → Call
  errs : Call

abbrev pub bytes_of : Call → List ℕ
bytes_of (reads x xs back) = x ∷ xs
bytes_of _ = []

-- All that is read, in order.
abbrev pub all_read : List Call → List ℕ
all_read [] = []
all_read (c ∷ cs) = bytes_of c ++ all_read cs

-- A read delivers no more than `room` bytes, and the write of its `send` does not meet EPIPE or
-- ECONNRESET.
abbrev pub IsFine : ℕ → Call → Type 0
IsFine room (reads x xs back) = (length (x ∷ xs) ≤ room) × (¬ IsBroken (back (x ∷ xs)))
IsFine room _ = Unit {0}

abbrev pub AreFine : ℕ → List Call → Type 0
AreFine room [] = Unit {0}
AreFine room (c ∷ cs) = IsFine room c × AreFine room cs

module _ (E : Epoll) (W : EventFd) where
  pub make_call : ℕ → Call → World E W → Outcome (World E W)
  make_call tid (reads x xs back) w = on_readable E W tid (received (x ∷ xs)) back w
  make_call tid (fails errno) w = on_readable E W tid (read_error errno) (λ bytes. Sent.sent 0) w
  make_call tid (writes write) w = handle_write E W write w
  make_call tid errs w = ok w

  pub make_calls : ℕ → List Call → World E W → Outcome (World E W)
  make_calls tid [] w = ok w
  make_calls tid (c ∷ cs) w = make_call tid c w >>= make_calls tid cs

  -- A connection of the echo server between two callbacks: all that was read has been sent.
  pub record IsServed (tid least : ℕ) (w : World E W) : Type 0 where
    pub sound : IsSound E W w
    pub flows : Flows E W w
    pub state : w.conn.state ≡ connected
    pub own : w.loop.thread_id ≡ tid
    pub used_up : contents w.conn.input ≡ []
    pub room : least ≤ writable_bytes w.conn.input

  -- It is served on, its output is longer by `msg`, and the output buffer has filled by no more.
  pub record Serves (tid room : ℕ) (w : World E W) (msg : List ℕ) (w' : World E W) : Type 0 where
    pub served : IsServed tid room w'
    pub streamed : stream E W w' ≡ stream E W w ++ msg
    pub filled : w'.conn.output.writer_idx ≤ w.conn.output.writer_idx + length msg

  Echoes-Serves :
      (tid room : ℕ) (w w' : World E W) (msg : List ℕ)
      → IsServed tid room w
      → Echoes E W w msg w'
      → Serves tid room w msg w'
  Echoes-Serves tid room w w' msg h e = record {
    served = record {
      sound = e.sound;
      flows = e.flows;
      state = e.state;
      own = e.thread ∙ h.own;
      used_up = e.used_up;
      room = omega (arith, h.room, e.free, writable_bytes_eq w.conn.input h.sound.input);
    };
    streamed = e.streamed;
    filled = omega (arith, e.room, length-append (stream E W w) msg);
  }

  Keeps-Serves :
      (tid room : ℕ) (w w' : World E W)
      → IsServed tid room w
      → Keeps E W w (stream E W w) w'
      → Serves tid room w [] w'
  Keeps-Serves tid room w w' h k = record {
    served = record {
      sound = k.sound;
      flows = k.flows;
      state = k.state ∙ h.state;
      own = k.work.thread ∙ h.own;
      used_up = ap contents k.input ∙ h.used_up;
      room = omega (arith, h.room, ap writable_bytes k.input);
    };
    streamed = k.streamed ∙ sym (append-nil (stream E W w));
    filled = omega (arith, k.room);
  }

  Serves-trans :
      (tid room : ℕ) (w u v : World E W) (xs ys : List ℕ)
      → Serves tid room w xs u
      → Serves tid room u ys v
      → Serves tid room w (xs ++ ys) v
  Serves-trans tid room w u v xs ys h k = record {
    served = k.served;
    streamed = k.streamed ∙ ap (λ l. l ++ ys) h.streamed ∙ append_assoc (stream E W w) xs ys;
    filled = omega (arith, h.filled, k.filled, length-append xs ys);
  }

  nothing_read : (tid room : ℕ) (w : World E W) → IsServed tid room w → Serves tid room w [] w
  nothing_read tid room w h = record {
    served = h;
    streamed = sym (append-nil (stream E W w));
    filled = omega arith;
  }

  reads-Serves :
      (tid room x : ℕ) (xs : List ℕ) (back : List ℕ → Sent) (w : World E W)
      → IsServed tid room w
      → room ≤ max_int
      → w.conn.output.writer_idx + length (x ∷ xs) ≤ max_size
      → length (x ∷ xs) ≤ room
      → ¬ IsBroken (back (x ∷ xs))
      → Post
          (Unit {0})
          (Serves tid room w (x ∷ xs))
          (on_readable E W tid (received (x ∷ xs)) back w)
  reads-Serves tid room x xs back w h small fits short fine =
      let msg = contents w.conn.input ++ x ∷ xs in
      let same : msg ≡ x ∷ xs = ap (λ l. l ++ x ∷ xs) h.used_up in
      Post-mono (Unit {0}) _ _ (on_readable E W tid (received (x ∷ xs)) back w)
        (on_readable-Echoes E W tid x xs back w h.sound h.flows h.state h.own
          (omega (arith, short, h.room)) (omega (arith, short, small, ap (length {A = ℕ}) same))
          (omega (arith, fits, ap (length {A = ℕ}) same))
          (subst (λ l. ¬ IsBroken (back l)) (sym same) fine))
        (λ w' e. subst (λ l. Serves tid room w l w') same (Echoes-Serves tid room w w' msg h e))

  make_call-Serves :
      (tid room : ℕ) (c : Call) (w : World E W)
      → IsServed tid room w
      → room ≤ max_int
      → w.conn.output.writer_idx + length (bytes_of c) ≤ max_size
      → IsFine room c
      → Post (Unit {0}) (Serves tid room w (bytes_of c)) (make_call tid c w)
  unfolding make_call on_readable
  make_call-Serves tid room (reads x xs back) w h small fits (short, fine) =
      reads-Serves tid room x xs back w h small fits short fine
  make_call-Serves tid room (fails errno) w h small fits _ =
      rw (handle_read_ends E W errno w h.sound).1 (nothing_read tid room w h)
  make_call-Serves tid room (writes write) w h small fits _ =
      Post-mono (Unit {0}) _ _ (handle_write E W write w)
        (Post-forget _ _ (handle_write E W write w)
          (handle_write-Keeps E W write w h.sound h.flows))
        (λ w'. Keeps-Serves tid room w w' h)
  make_call-Serves tid room errs w h small fits _ = nothing_read tid room w h

  -- Any callbacks of a connection of the echo server, in any order, in its loop's thread: reads of at
  -- least one byte and no more than its empty input buffer has room for and an `int` can tell, reads that fail, reports of EPOLLOUT
  -- and of errors, where no write of a `send` meets EPIPE or ECONNRESET and the output buffer stays
  -- within its largest size. The bytes that the kernel has taken, then those that wait, are those of
  -- before, then all that was read, in order, however the kernel split reads and writes. The
  -- connection is left sound and connected, its input buffer empty, and it asks for EPOLLOUT exactly
  -- while bytes wait. Only `exit` ends the sequence early.
  pub make_calls-Serves :
      (tid room : ℕ) (cs : List Call) (w : World E W)
      → IsServed tid room w
      → room ≤ max_int
      → w.conn.output.writer_idx + length (all_read cs) ≤ max_size
      → AreFine room cs
      → Post (Unit {0}) (Serves tid room w (all_read cs)) (make_calls tid cs w)
  unfolding make_calls
  make_calls-Serves tid room [] w h small fits fine = nothing_read tid room w h
  make_calls-Serves tid room (c ∷ cs) w h small fits (fine, rest) =
      Post-bind (Unit {0}) _ _ (make_call tid c w) (make_calls tid cs)
        (make_call-Serves tid room c w h small
          (omega (arith, fits, length-append (bytes_of c) (all_read cs))) fine)
        (λ u k.
          Post-mono (Unit {0}) _ _ (make_calls tid cs u)
            (make_calls-Serves tid room cs u k.served small
              (omega (arith, fits, k.filled, length-append (bytes_of c) (all_read cs))) rest)
            (λ v. Serves-trans tid room w u v (bytes_of c) (all_read cs) k))
