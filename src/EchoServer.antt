-- ===== src/EchoServer.antt =====
-- sample/sample.cc: a server that sends back what it reads.
pub mod Echo
pub mod Session
pub mod Life
pub mod Main
pub mod Listening
pub mod Up
mod Tests
use moony.Prelude.{
  ℕ, List, Option, some, Outcome, ok, ◌>>=◌, true, false, if◌then◌else◌, ◌++◌, [], ◌∷◌,
}
use moony.Prelude.Int.{pos}
use moony.Prelude.Text.{Text, codes}
use moony.Epoll.{Epoll}
use moony.EventLoop.{EventFd}
use moony.Buffer.{Incoming, received, read_error, Sent, retrieve_all_as_string}
use moony.InetAddress.{Inet, InetAddress, to_ip_port}
use moony.Logger.{Output, info, log_fmt}
use moony.Socket.{Sockets}
use moony.TcpServer.{Managed, Server, set_thread_num}
use moony.TcpServer
use moony.TcpServer.Construct.{construct}
use moony.TcpConnection.{World, is_connected, handle_read, send}

-- What the constructor of `echo_server` sets.
unfoldable pub set_up : Server → Server
set_up server =
    set_thread_num
      (TcpServer.set_message_callback true (TcpServer.set_connection_callback true server)) (pos 3)

-- The constructor, over that of its `tcp_server`.
unfoldable pub create :
    (N : Inet) (S : Sockets)
    → Option ℕ
    → InetAddress
    → Text
    → ℕ
    → Option (ℕ × S.Kernel)
    → Outcome (Server × S.Kernel)
create N S loop listen_addr name addr made = do
  (server, k) ← construct N S loop listen_addr name false addr made
  ok (set_up server, k)

-- `on_connection`, at a time with the text `now`, for a connection that has just come up or gone down.
pub on_connection : Inet → Text → Managed → Output → Outcome Output
on_connection N now conn o = do
  peer ← to_ip_port N conn.peer_addr
  ok (
      if is_connected conn.conn.state
      then log_fmt info now (codes "Connection UP: " ++ (peer ++ codes "\n")) o
      else log_fmt info now (codes "Connection DOWN: " ++ (peer ++ codes "\n")) o)

module _ (E : Epoll) (W : EventFd) where
  -- `on_message`, in thread `tid`, where `write` is the kernel's answer to the write that `send` may make.
  -- It runs in the loop's thread, where `send` does not keep the address of `msg`; 0 stands for it.
  pub on_message : ℕ → (List ℕ → Sent) → World E W → Outcome (World E W)
  on_message tid write w = do
    (msg, b) ← retrieve_all_as_string w.conn.input
    send E W tid 0 msg write (record w { conn = record w.conn { input = b } })

  -- `handle_read`, whose message callback is called for at least one byte.
  pub on_readable : ℕ → Incoming → (List ℕ → Sent) → World E W → Outcome (World E W)
  on_readable tid (received []) write w = handle_read E W (received []) w
  on_readable tid (received (x ∷ xs)) write w = do
    w' ← handle_read E W (received (x ∷ xs)) w
    on_message tid write w'
  on_readable tid (read_error errno) write w = handle_read E W (read_error errno) w
