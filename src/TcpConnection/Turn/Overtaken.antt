-- ===== src/TcpConnection/Turn/Overtaken.antt =====
-- A `shutdown` in another thread overtakes a `send` before it, in net/tcp_connection/tcp_connection.cc.
use moony.Prelude.{
  ap₂, ℕ, ◌≤◌, ◌<◌, ◌≡◌, ◌≢◌, refl, sym, ap, ◌∙◌, List, ◌∷◌, ◌++◌, arith, length, append_assoc,
}
use moony.Epoll.{Epoll}
use moony.EventLoop.{EventFd}
use moony.Buffer.{Sent}
use moony.Buffer.Room.{contents, length-contents}
use moony.TcpConnection.{World, Task}
use moony.TcpConnection.Queued.{queued_bytes}
use moony.TcpConnection.Post.{Post, Post-mono}
use moony.TcpConnection.Sound.{IsSound, Flows, stream}
use moony.TcpConnection.Output.{Keeps}
use moony.TcpConnection.Attempt.{aside-IsSound}
use moony.TcpConnection.Closing.{shutdowns, Post-both, Closes}
use moony.TcpConnection.Graceful.{flush_all, flush_all-Keeps, closing_world, closing_world-IsSound}
use moony.TcpConnection.Drain.{all_take, IsDrained, flush_all-IsDrained}
use moony.Prelude.{length, ◌%◌, ◌^◌}
use moony.TcpConnection.Queued.{Strings}
use moony.TcpConnection.Turn.{kept, posts, shuts, Stage, turns, deferred, IsOpen}
use moony.TcpConnection.Turn.Flush.{
  reports, reports-Post, left_World, queued-left_World, left_turns,
}

module _ (E : Epoll) (W : EventFd) (M : Strings) where
  -- The writing side is shut, and all that `w` has buffered is taken; what waits in the loop is what
  -- waited there, then the chunk.
  abbrev pub IsOvertaken : Stage E W → List ℕ → Stage E W → Type 0
  IsOvertaken s chunk s' = IsDrained E W s.0 s'.0 × (deferred E W M s' ≡ deferred E W M s ++ chunk)

  left-IsOvertaken :
      (other addr : ℕ) (chunk ns : List ℕ) (w : World E W) (r : List Task)
      → IsSound E W w
      → Flows E W w
      → w.loop.thread_id ≢ other
      → M addr (length chunk % 2 ^ 32) ≡ chunk
      → shutdowns w.events ≡ 0
      → 0 < length (contents w.conn.output)
      → length (contents w.conn.output) ≤ length ns
      → Post
          (Unit {0})
          (IsOvertaken (w, r) chunk)
          (turns E W (kept M) (reports (all_take ns)) (left_World E W M other addr chunk w, r))
  left-IsOvertaken other addr chunk ns w r s f away still zero some enough =
      let u = left_World E W M other addr chunk w in
      let sound : IsSound E W u =
        aside-IsSound E W (closing_world E W w w.events) u.loop w.events
          (closing_world-IsSound E W w w.events s) in
      let closes : Closes E W u = ground (arith, length-contents w.conn.output s.output) in
      Post-mono (Unit {0}) _ _ (turns E W (kept M) (reports (all_take ns)) (u, r))
        (reports-Post E W M (λ v. Keeps E W u (stream E W u) v × IsDrained E W u v) (all_take ns) u
          r
          (Post-both (Unit {0}) (Unit {0}) _ _ (flush_all E W (all_take ns) u)
            (flush_all-Keeps E W (all_take ns) u sound f)
            (flush_all-IsDrained E W ns u sound f refl closes enough)))
        (λ (v, r') ((k, d), same). (
          d,
          ap₂ ◌++◌ (ap (queued_bytes M) same)
                (k.work.queued M ∙ queued-left_World E W M other addr chunk w away still)
              ∙ sym (append_assoc (queued_bytes M r) (queued_bytes M w.loop.pending) chunk),
        ))

  -- A connected and sound connection that asks for EPOLLOUT exactly while bytes wait, with at least one
  -- byte in its output buffer and a writing side that was never shut. Another thread sends a chunk
  -- and then calls `shutdown`; before the loop comes to its functors, it serves at least as many
  -- reports of EPOLLOUT as bytes wait, and the kernel takes one byte or more each time. Unless
  -- `exit` ends it, the writing side is then shut, once, when the kernel has taken what the output
  -- buffer held, while the chunk, if its string is still as it was, waits in the loop to be sent, behind what
  -- waited there.
  pub shutdown_overtakes :
      (other tid addr : ℕ) (chunk ns : List ℕ) (write : List ℕ → Sent) (w : World E W)
      (r : List Task)
      → IsOpen E W tid w
      → tid ≢ other
      → M addr (length chunk % 2 ^ 32) ≡ chunk
      → shutdowns w.events ≡ 0
      → 0 < length (contents w.conn.output)
      → length (contents w.conn.output) ≤ length ns
      → Post (Unit {0}) (IsOvertaken (w, r) chunk) (
          turns E W
            (kept M)
            (posts other addr chunk write ∷ shuts other ∷ reports (all_take ns))
            (w, r))
  shutdown_overtakes other tid addr chunk ns write w r h apart still zero some enough =
      let away : w.loop.thread_id ≢ other = λ e. apart (sym h.own ∙ e) in
      rw (left_turns E W M other addr chunk write w r (reports (all_take ns)) h.up away)
        (left-IsOvertaken other addr chunk ns w r h.sound h.flows away still zero some enough)
