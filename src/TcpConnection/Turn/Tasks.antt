-- ===== src/TcpConnection/Turn/Tasks.antt =====
-- One functor of a connection of net/tcp_connection/tcp_connection.cc, called by its loop.
use moony.Prelude.{
  false, ℕ, ◌+◌, ◌≤◌, ◌≡◌, refl, sym, ap, List, [], ◌∷◌, ◌++◌, arith, length, append-nil,
  length-append,
}
use moony.Epoll.{Epoll}
use moony.EventLoop.{EventFd}
use moony.Buffer.{Sent, max_size}
use moony.TcpConnection.{World, Task, send_in_loop_task, shutdown_in_loop_task, is_disconnected}
use moony.TcpConnection.Queued.{queued_bytes, SameWork-refl}
use moony.TcpConnection.Post.{Post}
use moony.TcpConnection.Sound.{IsSound, Flows, stream}
use moony.TcpConnection.Output.{Keeps}
use moony.TcpConnection.Attempt.{aside-IsSound}
use moony.TcpConnection.Write.{shutdown_in_loop_lem}
use moony.TcpConnection.Session.{send_unbroken}
use moony.Prelude.{length}
use moony.TcpConnection.Queued.{Strings}
use moony.TcpConnection.Turn.{kept, IsIntSized, run_task, IsWhole}

module _ (E : Epoll) (W : EventFd) (M : Strings) where
  pub nothing_Keeps :
      (w : World E W) → IsSound E W w → Flows E W w → Keeps E W w (stream E W w ++ []) w
  nothing_Keeps w s f = record {
    sound = s;
    flows = f;
    streamed = sym (append-nil (stream E W w));
    state = refl;
    input = refl;
    work = SameWork-refl W w.loop;
    room = omega (arith, length-append (stream E W w) []);
  }

  pub run_task-Keeps :
      (t : Task) (write : List ℕ → Sent) (w : World E W)
      → IsSound E W w
      → Flows E W w
      → is_disconnected w.conn.state ≡ false
      → IsIntSized M
      → w.conn.output.writer_idx + length (queued_bytes M (t ∷ [])) ≤ max_size
      → IsWhole write
      → Post
          (Unit {0})
          (Keeps E W w (stream E W w ++ queued_bytes M (t ∷ [])))
          (run_task E W (kept M) t write w)
  unfolding run_task
  run_task-Keeps Task.write_complete write w s f up sized fits fine = nothing_Keeps w s f
  run_task-Keeps (Task.high_water n) write w s f up sized fits fine = nothing_Keeps w s f
  run_task-Keeps (send_in_loop_task addr len) write w s f up sized fits fine =
      rw (append-nil (M addr len)) (
        send_unbroken E W (M addr len) write w s f up (sized addr len)
          (omega (arith, ap (length {A = ℕ}) (append-nil (M addr len)))) (fine (M addr len)))
  run_task-Keeps shutdown_in_loop_task write w s f up sized fits fine =
      let (es, e, d) = shutdown_in_loop_lem E W w in
      rw e (record {
        sound = aside-IsSound E W w w.loop es s;
        flows = f;
        streamed = rw d (sym (append-nil (stream E W w)));
        state = refl;
        input = refl;
        work = SameWork-refl W w.loop;
        room = omega (arith, length-append (stream E W w) []);
      })
