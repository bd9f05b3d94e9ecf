-- ===== src/TcpConnection/Turn.antt =====
-- What other threads leave for the loop of a connection of net/tcp_connection/tcp_connection.cc, and
-- what `do_pending_functions` of net/event_loop/event_loop.cc makes of it.
pub mod Tasks
pub mod Deferred
pub mod Flush
pub mod Overtaken
pub mod Shut
pub mod Following
use moony.Prelude.{
  ℕ, ◌+◌, ◌≤◌, ◌≡◌, ◌≢◌, refl, sym, ap, ◌∙◌, List, [], ◌∷◌, ◌++◌, Outcome, ok, ◌>>=◌, arith, length,
  append-nil, append_assoc, length-append, false,
}
use moony.Epoll.{Epoll}
use moony.EventLoop.{EventFd, Loop, begin_calling, take_pending, end_calling, run_in_loop}
use moony.EventLoop.Wakeup.{thread_id-run_in_loop}
use moony.Buffer.{Sent, max_size}
use moony.TcpConnection.{
  World, Task, send_in_loop, send_in_loop_task, shutdown_in_loop_task, handle_write, shutdown, send,
  shutdown_in_loop, connected, is_disconnected,
}
use moony.Prelude.{Option, none, some, stop, out_of_bounds, ◌%◌, ◌^◌}
use moony.TcpConnection.Send.{max_int}
use moony.TcpConnection.Queued.{Strings, queued_bytes, queued_bytes-append, SameWork-refl}
use moony.TcpConnection.Post.{Post, Post-bind, Post-mono, Refused}
use moony.TcpConnection.Sound.{delivered, IsSound, Flows, stream}
use moony.TcpConnection.Output.{Keeps}
use moony.TcpConnection.Attempt.{IsBroken, aside, aside-IsSound}
use moony.TcpConnection.Write.{handle_write-Keeps, shutdown_in_loop_lem}
use moony.TcpConnection.Session.{send_unbroken, Post-forget}
use moony.TcpConnection.Threads.{send_other, woken_lem}

-- A `send` in some thread, of the string at an address, a `shutdown` in some thread, a report of EPOLLOUT, the swap of the pending functors, and the call of the
-- next of those swapped out, with the kernel's answer to the write that it may make.
pub data Turn : Type 0 where
  posts : ℕ → ℕ → List ℕ → (List ℕ → Sent) → Turn
  shuts : ℕ → Turn
  flushes : (List ℕ → Sent) → Turn
  swaps : Turn
  calls : (List ℕ → Sent) → Turn

-- All that is sent, in order.
abbrev pub posted_bytes : List Turn → List ℕ
posted_bytes [] = []
posted_bytes (posts tid addr chunk write ∷ ts) = chunk ++ posted_bytes ts
posted_bytes (_ ∷ ts) = posted_bytes ts

-- A write does not meet EPIPE or ECONNRESET, whatever bytes it is given.
abbrev pub IsWhole : (List ℕ → Sent) → Type 0
IsWhole write = (chunk : List ℕ) → ¬ IsBroken (write chunk)

-- The strings that stand at their addresses, unchanged.
abbrev pub kept : Strings → ℕ → ℕ → Option (List ℕ)
kept M a n = some (M a n)

-- No number of characters is larger than the largest `int`.
abbrev pub IsIntSized : Strings → Type 0
IsIntSized M = (a n : ℕ) → length (M a n) ≤ max_int

-- The sends are made in other threads than `tid`, of strings that stand as they are at their addresses,
-- nothing is shut down, and no write of a functor meets EPIPE or ECONNRESET.
abbrev pub AreOthers : Strings → ℕ → List Turn → Type 0
AreOthers M tid [] = Unit {0}
AreOthers M tid (posts other addr chunk write ∷ ts) =
    (tid ≢ other) × (M addr (length chunk % 2 ^ 32) ≡ chunk) × AreOthers M tid ts
AreOthers M tid (shuts other ∷ ts) = ⊥
AreOthers M tid (flushes write ∷ ts) = AreOthers M tid ts
AreOthers M tid (swaps ∷ ts) = AreOthers M tid ts
AreOthers M tid (calls write ∷ ts) = IsWhole write × AreOthers M tid ts

-- What the first of the turns sends.
abbrev pub first_bytes : Turn → List ℕ
first_bytes (posts tid addr chunk write) = chunk
first_bytes _ = []

module _ (E : Epoll) (W : EventFd) where
  -- The connection, and the functors that its loop has swapped out and has yet to call.
  abbrev pub Stage : Type 0
  Stage = World E W × List Task

  -- `send_in_loop` of what stands at the address by now; where there is no such string any longer, it
  -- reads storage that is gone.
  send_from : Option (List ℕ) → (List ℕ → Sent) → World E W → Outcome (World E W)
  send_from (some chunk) write w = send_in_loop E W chunk write w
  send_from none write w = stop out_of_bounds

  -- A functor of the connection, with the strings that there are when it is called. One that is a
  -- callback of the user's leaves the queue, no more.
  pub run_task :
      (ℕ → ℕ → Option (List ℕ)) → Task → (List ℕ → Sent) → World E W → Outcome (World E W)
  unfolding send_from
  run_task memory Task.write_complete write w = ok w
  run_task memory (Task.high_water n) write w = ok w
  run_task memory (send_in_loop_task addr len) write w = send_from (memory addr len) write w
  run_task memory shutdown_in_loop_task write w = ok (shutdown_in_loop E W w)

  -- `do_pending_functions` up to the swap, where it is not running, and one round of its `for`, or its
  -- last assignment where no functor is left.
  pub swap_pending : Stage → Stage
  swap_pending (w, []) =
      let (ts, l) = take_pending W Task (begin_calling W Task w.loop) in (record w { loop = l }, ts)
  swap_pending (w, t ∷ ts) = (w, t ∷ ts)

  pub call_next : (ℕ → ℕ → Option (List ℕ)) → (List ℕ → Sent) → Stage → Outcome Stage
  unfolding run_task
  call_next memory write (w, []) = ok (record w { loop = end_calling W Task w.loop }, [])
  call_next memory write (w, t ∷ ts) = do w' ← run_task memory t write w; ok (w', ts)

  pub turn : (ℕ → ℕ → Option (List ℕ)) → Turn → Stage → Outcome Stage
  unfolding swap_pending call_next
  turn memory (posts tid addr chunk write) (w, r) = do
    w' ← send E W tid addr chunk write w
    ok (w', r)
  turn memory (shuts tid) (w, r) = ok (shutdown E W tid w, r)
  turn memory (flushes write) (w, r) = do w' ← handle_write E W write w; ok (w', r)
  turn memory swaps s = ok (swap_pending s)
  turn memory (calls write) s = call_next memory write s

  pub turns : (ℕ → ℕ → Option (List ℕ)) → List Turn → Stage → Outcome Stage
  turns memory [] s = ok s
  turns memory (t ∷ ts) s = turn memory t s >>= turns memory ts

  -- The connection is connected, sound, and asks for EPOLLOUT exactly while bytes wait; its loop is that of a thread.
  pub record IsOpen (tid : ℕ) (w : World E W) : Type 0 where
    pub sound : IsSound E W w
    pub flows : Flows E W w
    pub up : w.conn.state ≡ connected
    pub own : w.loop.thread_id ≡ tid

  module _ (M : Strings) where
    -- The bytes that wait in the loop, in the functors swapped out and in those pending.
    abbrev pub deferred : Stage → List ℕ
    deferred (w, r) = queued_bytes M r ++ queued_bytes M w.loop.pending

    -- What the turns leave: the bytes taken, then those that wait in the buffer, then those that wait in the loop, are
    -- those of before, then those sent; the buffer has filled by no more than that.
    pub record Carries (tid : ℕ) (s : Stage) (bytes : List ℕ) (s' : Stage) : Type 0 where
      pub open_still : IsOpen tid s'.0
      pub carried : stream E W s'.0 ++ deferred s' ≡ (stream E W s.0 ++ deferred s) ++ bytes
      pub room :
          s'.0.conn.output.writer_idx + length (deferred s')
          ≤ s.0.conn.output.writer_idx + length (deferred s ++ bytes)
