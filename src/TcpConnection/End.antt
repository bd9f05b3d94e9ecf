-- ===== src/TcpConnection/End.antt =====
-- `handle_read` of net/tcp_connection/tcp_connection.cc at the end of the stream, and at an error.
use moony.Prelude.{ℕ, ◌≡◌, refl, [], ok, arith}
use moony.Epoll.{Epoll}
use moony.EventLoop.{EventFd}
use moony.Buffer.{Buffer, received, read_error}
use moony.Buffer.Valid.{IsValid}
use moony.Buffer.ReadFd.{read_fd-contents, read_fd_error}
use moony.TcpConnection.{World, handle_read, after_read, handle_close}
use moony.TcpConnection.Post.{Post, Post-mono, Refused}
use moony.TcpConnection.Sound.{IsSound}
use moony.TcpConnection.Close.{Closes, handle_close-Closes}

module _ (E : Epoll) (W : EventFd) where
  unfoldable pub with_input : World E W → Buffer → World E W
  with_input w b = record w { conn = record w.conn { input = b } }

  pub with_input-IsSound :
      (w : World E W) (b : Buffer) → IsSound E W w → IsValid b → IsSound E W (with_input w b)
  unfolding with_input
  with_input-IsSound w b s v = record {
    connection_set = s.connection_set;
    message_set = s.message_set;
    close_set = s.close_set;
    input = v;
    output = s.output;
    sync = s.sync;
  }

  -- At the end of the stream, `handle_read` is `handle_close`.
  pub handle_read-eq-close :
      (w : World E W)
      → IsSound E W w
      → (b : Buffer) × IsValid b
        × (handle_read E W (received []) w ≡ handle_close E W (with_input w b))
  unfolding handle_read after_read with_input
  handle_read-eq-close w s =
      let (b, e, v, _, _) = read_fd-contents w.conn.input [] s.input (omega arith) in
      (b, v, rw e refl)

  -- On a sound connection, `handle_read` of no bytes, the end of the stream, does what `handle_close`
  -- does: it leaves the connection sound and disconnected, with the connection callback and then the
  -- close callback called, and its descriptor still in the interest list, with no events asked for;
  -- only the kernel's refusal to take the events back ends the process. A read that fails changes
  -- nothing.
  pub handle_read_ends :
      (errno : ℕ) (w : World E W)
      → IsSound E W w
      → Post (Refused E W w) (Closes E W w) (handle_read E W (received []) w)
        × (handle_read E W (read_error errno) w ≡ ok w)
  unfolding handle_read after_read with_input
  handle_read_ends errno w s =
      let (b, e, v, _, _) = read_fd-contents w.conn.input [] s.input (omega arith) in
      (
        rw e (
            Post-mono (Refused E W w) _ _ (handle_close E W (with_input w b))
              (handle_close-Closes E W (with_input w b) (with_input-IsSound w b s v))
              (λ w' c. record {
                state = c.state;
                events = c.events;
                sound = c.sound;
                watched = c.watched;
              })),
        rw (read_fd_error w.conn.input errno) refl,
      )
