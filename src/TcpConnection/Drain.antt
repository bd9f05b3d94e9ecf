-- ===== src/TcpConnection/Drain.antt =====
-- The `handle_write`s of net/tcp_connection/tcp_connection.cc that empty the output buffer, to the end
-- of a connection that was shut down.
use moony.Prelude.{
  ℕ, ◌+◌, ◌-◌, ◌≤◌, ◌<◌, ◌≡◌, inl, inr, refl, sym, ap, ◌∙◌, true, false, if◌then◌else◌, ltb, ◌==◌,
  List, [], ◌∷◌, ◌++◌, length, length-drop, min, append-nil, Bool-cases, arith,
}
use moony.Epoll.{Epoll}
use moony.Channel.{Channel, is_writing, disable_writing}
use moony.Poller.{Poller}
use moony.Poller.Sync.{InSync}
use moony.EventLoop.{EventFd}
use moony.Buffer.{Sent, sent, readable_bytes, retrieve}
use moony.Buffer.Room.{contents, length-contents}
use moony.Buffer.Content.{contents-retrieve}
use moony.Buffer.ReadFd.{write_fd_lem}
use moony.TcpConnection.{
  World, connected, handle_write, wrote, retrieved, drained, emit, is_disconnecting, shutdown,
  shutdown_in_loop, queue_write_complete,
}
use moony.TcpConnection.Post.{
  Post, Post-bind, Post-mono, moved, registered, Refused, change_channel-Post,
}
use moony.TcpConnection.Sound.{delivered, IsSound, Flows, stream}
use moony.TcpConnection.Attempt.{queue_write_complete_lem}
use moony.TcpConnection.Write.{handle_write-Keeps, closing_lem}
use moony.TcpConnection.Session.{Post-forget}
use moony.TcpConnection.Closing.{shutdowns, Post-both, Closes, handle_write-Closes}
use moony.TcpConnection.Graceful.{flush_all, closing_world, closing_world-IsSound, shutdown_world}

-- The kernel takes `n + 1` of the bytes that it is offered, or all of them.
abbrev pub takes : ℕ → List ℕ → Sent
takes n bytes = sent (min (n + 1) (length bytes))

abbrev pub all_take : List ℕ → List (List ℕ → Sent)
all_take [] = []
all_take (n ∷ ns) = takes n ∷ all_take ns

none_left : (xs : List ℕ) → length xs ≤ 0 → xs ≡ []
none_left [] h = refl
none_left (x ∷ xs) h = absurd (omega arith)

module _ (E : Epoll) (W : EventFd) where
  drained-output :
      (w : World E W)
      → InSync E w.poller w.conn.channel
      → Post (Refused E W w) (λ u. u.conn.output ≡ w.conn.output) (drained E W w)
  unfolding drained
  drained-output w s =
      Post-bind (Refused E W w) Changed _ _ _
        (change_channel-Post E W disable_writing w Changed s (λ p sync. (p, refl))) finish
    where
      c : Channel
      c = registered E W disable_writing w

      Changed : World E W → Type 0
      Changed w' = (p : Poller E) × (w' ≡ moved E W w p c)

      finish :
          (w' : World E W)
          → Changed w'
          → (let w'' = queue_write_complete E W w' in
              if is_disconnecting w''.conn.state then shutdown_in_loop E W w'' else w'').conn.output
            ≡ w.conn.output
      finish w' (p, e) =
          let (l, q, _) = queue_write_complete_lem E W (moved E W w p c) in
          let (es, r, d) =
            closing_lem E W (is_disconnecting w.conn.state)
              (record w { poller = p; conn = record w.conn { channel = c }; loop = l }) in
          rw (e, q, r) refl

  wrote-output :
      (n : ℕ) (w : World E W)
      → InSync E w.poller w.conn.channel
      → 0 < n
      → Post
          (Refused E W w)
          (λ u. u.conn.output ≡ retrieve w.conn.output n)
          (wrote E W (sent n) (contents w.conn.output) w)
  unfolding wrote retrieved emit
  wrote-output n w s pos =
      let taken : ltb 0 n ≡ true = ground arith in
      elim (Bool-cases (readable_bytes (retrieve w.conn.output n) == 0)) [
        | inl empty ↦
            rw (taken, empty) (drained-output (retrieved E W n (contents w.conn.output) w) s)
        | inr more ↦ rw (taken, more) refl
      ]

  some_waiting :
      (w : World E W)
      → IsSound E W w
      → Flows E W w
      → is_writing w.conn.channel ≡ true
      → 0 < length (contents w.conn.output)
  some_waiting w s f on = ground (arith, length-contents w.conn.output s.output)

  none_waiting :
      (w : World E W)
      → IsSound E W w
      → Flows E W w
      → is_writing w.conn.channel ≡ false
      → length (contents w.conn.output) ≡ 0
  none_waiting w s f off = ground (arith, length-contents w.conn.output s.output)

  -- A `handle_write` of which the kernel takes bytes leaves fewer.
  handle_write-shrinks :
      (n : ℕ) (w : World E W)
      → IsSound E W w
      → Flows E W w
      → Post
          (Refused E W w)
          (λ u. length (contents u.conn.output) ≤ length (contents w.conn.output) - 1)
          (handle_write E W (takes n) w)
  unfolding handle_write
  handle_write-shrinks n w s f = elim (Bool-cases (is_writing w.conn.channel)) [
    | inr off ↦ rw off (omega (arith, none_waiting w s f off))
    | inl on ↦
        let k = min (n + 1) (length (contents w.conn.output)) in
        rw (on, write_fd_lem w.conn.output (takes n) s.output)
          (Post-mono (Refused E W w) _ _ (wrote E W (sent k) (contents w.conn.output) w)
            (wrote-output k w s.sync (omega (arith, some_waiting w s f on)))
            (λ u e. omega (
              arith,
              ap (λ b. length (contents b)) e,
              ap (length {A = ℕ}) (contents-retrieve w.conn.output k s.output),
              length-drop k (contents w.conn.output),
              some_waiting w s f on,
            )))
  ]

  -- No byte waits, the kernel has taken all of `w`, and the writing side was shut once.
  abbrev pub IsDrained : World E W → World E W → Type 0
  IsDrained w v =
      (contents v.conn.output ≡ []) × (delivered v.events ≡ stream E W w) × (shutdowns v.events ≡ 1)

  nothing_left :
      (w : World E W)
      → IsSound E W w
      → Closes E W w
      → length (contents w.conn.output) ≤ 0
      → IsDrained w w
  nothing_left w s c h =
      let e = none_left (contents w.conn.output) h in
      (
        e,
        sym (ap (λ l. delivered w.events ++ l) e ∙ append-nil (delivered w.events)),
        ground (arith, length-contents w.conn.output s.output),
      )

  pub flush_all-IsDrained :
      (ns : List ℕ) (w : World E W)
      → IsSound E W w
      → Flows E W w
      → is_disconnecting w.conn.state ≡ true
      → Closes E W w
      → length (contents w.conn.output) ≤ length ns
      → Post (Unit {0}) (IsDrained w) (flush_all E W (all_take ns) w)
  unfolding flush_all
  flush_all-IsDrained [] w s f closing h enough = nothing_left w s h enough
  flush_all-IsDrained (n ∷ ns) w s f closing h enough =
      Post-bind (Unit {0}) _ _ (handle_write E W (takes n) w) (flush_all E W (all_take ns))
        (Post-forget (Refused E W w) _ (handle_write E W (takes n) w) (
          Post-both (Refused E W w) (Refused E W w) _ _ (handle_write E W (takes n) w)
            (handle_write-Keeps E W (takes n) w s f)
            (Post-both (Refused E W w) (Refused E W w) _ _ (handle_write E W (takes n) w)
              (handle_write-Closes E W (takes n) w s f closing h) (handle_write-shrinks n w s f))))
        (λ u (k, (c, less)).
          Post-mono (Unit {0}) _ _ (flush_all E W (all_take ns) u)
            (flush_all-IsDrained ns u k.sound k.flows (ap is_disconnecting k.state ∙ closing) c
              (omega (arith, less, enough)))
            (λ v (e, d, once). (e, d ∙ k.streamed, once)))

  -- `shutdown` in the loop's thread, of a sound and connected connection that asks for EPOLLOUT exactly
  -- while bytes wait and whose writing side was never shut, and then at least as many reports of EPOLLOUT as
  -- bytes wait, where the kernel takes one byte or more each time: unless `exit` ends them, no byte is
  -- left, the kernel has taken all of them in order, and the writing side was shut once.
  pub shutdown_drains :
      (tid : ℕ) (ns : List ℕ) (w : World E W)
      → IsSound E W w
      → Flows E W w
      → w.conn.state ≡ connected
      → w.loop.thread_id ≡ tid
      → shutdowns w.events ≡ 0
      → length (contents w.conn.output) ≤ length ns
      → Post (Unit {0}) (IsDrained w) (flush_all E W (all_take ns) (shutdown E W tid w))
  shutdown_drains tid ns w s f e t zero enough =
      let (es, r, d, n) = shutdown_world E W tid w f e t zero in
      rw r (
        Post-mono (Unit {0}) _ _ (flush_all E W (all_take ns) (closing_world E W w es))
          (flush_all-IsDrained ns (closing_world E W w es) (closing_world-IsSound E W w es s) f refl
            n enough)
          (λ v (gone, same, once). (gone, same ∙ ap (λ l. l ++ contents w.conn.output) d, once)))
