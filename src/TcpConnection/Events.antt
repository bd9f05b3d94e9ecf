-- ===== src/TcpConnection/Events.antt =====
-- Any events that epoll reports for a connection of net/tcp_connection/tcp_connection.cc.
use moony.Prelude.{ℕ, ◌≤◌, ◌≡◌, ◌⊎◌, false, List, ◌++◌, Outcome, length}
use moony.Epoll.{Epoll}
use moony.Channel.{is_writing}
use moony.EventLoop.{EventFd}
use moony.Buffer.{Incoming, received, read_error, writable_bytes}
use moony.TcpConnection.{World}
use moony.TcpConnection.Post.{Post}
use moony.TcpConnection.Sound.{IsSound, Flows, stream}

module _ (E : Epoll) (W : EventFd) where
  -- The channel asks for EPOLLOUT exactly while bytes wait, or not at all.
  abbrev pub IsCalm : World E W → Type 0
  IsCalm w = Flows E W w ⊎ (is_writing w.conn.channel ≡ false)

  -- The connection is sound and calm, and the bytes that the kernel has taken, then those that wait, are
  -- those of `w`, and perhaps more behind them.
  abbrev pub Stays : World E W → World E W → Type 0
  Stays w w' = IsSound E W w' × IsCalm w' × (more : List ℕ) × (stream E W w' ≡ stream E W w ++ more)

  -- What `readv` reports has room in the input buffer.
  abbrev pub Fits : World E W → Incoming → Type 0
  Fits w (received bytes) = length bytes ≤ writable_bytes w.conn.input
  Fits w (read_error errno) = Unit {0}

  -- What the user's message callback does leaves a sound and calm connection so, and takes nothing back
  -- of the bytes that go out.
  abbrev pub IsPolite : (World E W → Outcome (World E W)) → Type 0
  IsPolite user = (u : World E W) → IsSound E W u → IsCalm u → Post (Unit {0}) (Stays u) (user u)
