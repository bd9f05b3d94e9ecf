-- ===== src/TcpConnection/Threads.antt =====
-- `send` and `shutdown` of net/tcp_connection/tcp_connection.cc, called in any thread.
use moony.Prelude.{
  length, ◌%◌, ◌^◌, ℕ, ◌≡◌, ◌≢◌, inl, inr, refl, true, false, List, [], ◌∷◌, ◌++◌, ok, arith, ◌==◌,
}
use moony.Epoll.{Epoll}
use moony.EventLoop.{EventFd, Loop, in_loop_thread, run_in_loop}
use moony.EventLoop.Wakeup.{run_in_loop_cases}
use moony.Buffer.{Sent}
use moony.TcpConnection.{
  send_in_loop, World, Task, send_in_loop_task, shutdown_in_loop_task, connected, disconnecting,
  send, shutdown,
}

module _ (E : Epoll) (W : EventFd) where
  -- What a call in another thread leaves for the loop: one task behind those that wait, and an eventfd
  -- that is readable; the poller and the history are as they were.
  pub record Posts (w : World E W) (t : Task) (w' : World E W) : Type 0 where
    pub poller : w'.poller ≡ w.poller
    pub events : w'.events ≡ w.events
    pub pending : w'.loop.pending ≡ w.loop.pending ++ t ∷ []
    pub woken : W.readable w'.loop.counter ≡ true

  elsewhere : (l : Loop W Task) (tid : ℕ) → l.thread_id ≢ tid → in_loop_thread W Task l tid ≡ false
  unfolding in_loop_thread
  elsewhere l tid h = ground arith

  pub woken_lem :
      (l : Loop W Task) (tid : ℕ) (t : Task)
      → l.thread_id ≢ tid
      → ((run_in_loop W Task l tid t).1.pending ≡ l.pending ++ t ∷ [])
        × (W.readable (run_in_loop W Task l tid t).1.counter ≡ true)
  woken_lem l tid t h = elim (run_in_loop_cases W Task l tid t) [
    | inl (e, _) ↦ absurd (h e)
    | inr (_, _, p, r) ↦ (p, r)
  ]

  -- In the loop's own thread `send` on a connected connection is `send_in_loop`.
  pub send_own :
      (tid addr : ℕ) (chunk : List ℕ) (write : List ℕ → Sent) (w : World E W)
      → w.conn.state ≡ connected
      → w.loop.thread_id ≡ tid
      → send E W tid addr chunk write w ≡ send_in_loop E W chunk write w
  unfolding send in_loop_thread
  send_own tid addr chunk write w up own =
      let here : (w.loop.thread_id == tid) ≡ true = ground arith in rw (up, here) refl

  -- In any other thread it leaves a task for the loop.
  pub send_other :
      (tid addr : ℕ) (chunk : List ℕ) (write : List ℕ → Sent) (w : World E W)
      → w.conn.state ≡ connected
      → w.loop.thread_id ≢ tid
      → send E W tid addr chunk write w
        ≡ ok (record w {
          loop = (run_in_loop W Task w.loop tid (send_in_loop_task addr (length chunk % 2 ^ 32))).1;
        })
  unfolding send
  send_other tid addr chunk write w up h = rw (up, elsewhere w.loop tid h) refl

  pub shutdown_other :
      (tid : ℕ) (w : World E W)
      → w.conn.state ≡ connected
      → w.loop.thread_id ≢ tid
      → shutdown E W tid w ≡ record w {
        conn = record w.conn { state = disconnecting };
        loop = (run_in_loop W Task w.loop tid shutdown_in_loop_task).1;
      }
  unfolding shutdown
  shutdown_other tid w up h = rw (up, elsewhere w.loop tid h) refl

  -- `send` and `shutdown` on a connected connection in a thread that is not its loop's leave one task
  -- for the loop and wake it, and touch neither the buffers nor the channel: `send` leaves the whole
  -- connection as it was, and `shutdown` all but its state, which becomes disconnecting.
  pub other_thread_lem :
      (tid addr : ℕ) (chunk : List ℕ) (write : List ℕ → Sent) (w : World E W)
      → w.conn.state ≡ connected
      → w.loop.thread_id ≢ tid
      → ((w' : World E W) × (send E W tid addr chunk write w ≡ ok w')
          × Posts w (send_in_loop_task addr (length chunk % 2 ^ 32)) w'
          × (w'.conn ≡ w.conn))
        × Posts w shutdown_in_loop_task (shutdown E W tid w)
        × ((shutdown E W tid w).conn ≡ record w.conn { state = disconnecting })
  unfolding shutdown
  other_thread_lem tid addr chunk write w st h =
      let (p, r) = woken_lem w.loop tid (send_in_loop_task addr (length chunk % 2 ^ 32)) h in
      let (q, s) = woken_lem w.loop tid shutdown_in_loop_task h in
      (
        (
          record w {
            loop =
                (run_in_loop W Task w.loop tid (send_in_loop_task addr (length chunk % 2 ^ 32))).1;
          },
          send_other tid addr chunk write w st h,
          record { poller = refl; events = refl; pending = p; woken = r },
          refl,
        ),
        rw (st, elsewhere w.loop tid h)
            (record { poller = refl; events = refl; pending = q; woken = s }),
        rw (st, elsewhere w.loop tid h) refl,
      )
