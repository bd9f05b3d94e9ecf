-- ===== src/EchoServer/Up.antt =====
-- What `main` of sample/sample.cc has put up when it enters `loop.loop()`.
use moony.Prelude.{ℕ, ◌≡◌, ◌≢◌, Option, none, some}
use moony.Prelude.Text.{codes}
use moony.Epoll.{Epoll}
use moony.Channel.{Channel}
use moony.Channel
use moony.Poller.{Poller}
use moony.EventLoop.{EventFd}
use moony.InetAddress.{Inet, InetAddress}
use moony.InetAddress.Print.{ip_port_text}
use moony.Socket.{Sockets}
use moony.Acceptor.Life.{new}
use moony.ThreadPool
use moony.TcpServer.{Server, Site}
use moony.TcpServer
use moony.TcpServer.Construct
use moony.EchoServer.{create, set_up}
use moony.EchoServer.Main.{Places}

module _ (E : Epoll) (S : Sockets) (W : EventFd) where
  -- The server of `main` before `start`, with its acceptor on `fd`.
  abbrev built : (N : Inet) → Places → InetAddress → ℕ → Server
  built N at addr fd =
      set_up (
        TcpServer.create at.loop (ip_port_text N addr) (codes "echo_server_01")
          (new at.acceptor fd))

  -- The descriptors of the eventfd and of the listening socket differ.
  abbrev AreApart : Option (ℕ × W.Counter) → Option (ℕ × S.Kernel) → Type 0
  AreApart (some (a, _)) (some (b, _)) = a ≢ b
  AreApart (some _) none = Unit {0}
  AreApart none sock = Unit {0}

  -- The server was built on a socket that the kernel gave.
  Built : (N : Inet) → Places → InetAddress → Option (ℕ × S.Kernel) → Server × S.Kernel → Type 0
  Built N at addr sock (server, _) =
      (fd : ℕ) × (k : S.Kernel) × (sock ≡ some (fd, k)) × (server ≡ built N at addr fd)
