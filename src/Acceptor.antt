-- ===== src/Acceptor.antt =====
-- net/acceptor/acceptor.h and acceptor.cc: the listening socket and its channel, over the sockets of
-- net/socket.
pub mod Life
mod Tests
use moony.Prelude.{
  ℕ, Bool, true, false, if◌then◌else◌, List, [], ◌∷◌, Option, none, some, Outcome, ok, stop,
  exit_process, ◌>>=◌,
}
use moony.Epoll.{Epoll}
use moony.Channel.{Channel, enable_reading}
use moony.Channel
use moony.InetAddress.{InetAddress}
use moony.Socket.{Sockets, bind_address, set_reuse_addr, set_reuse_port}
use moony.Socket
use moony.Poller.{Poller, change}
use moony.Poller.Retire.{retire}

-- `accept_channel_`, whether `new_connection_callback_` is set, and `listenning_`.
pub record Acceptor : Type 0 where
  pub channel : Channel
  pub callback_set : Bool
  pub listenning : Bool

-- What becomes of an accepted descriptor.
pub data Handover : Type 0 where
  passed_on : ℕ → InetAddress → Handover
  closed : ℕ → Handover

-- `handle_read`, with what `accept_socket_.accept` returned, a descriptor and the address of its
-- peer: a failure is only logged.
pub handle_read : Acceptor → Option (ℕ × InetAddress) → List Handover
handle_read a (some (connfd, peer_addr)) =
    (if a.callback_set then passed_on connfd peer_addr else closed connfd) ∷ []
handle_read a none = []

abbrev pub set_connection_callback : Bool → Acceptor → Acceptor
set_connection_callback cb a = record a { callback_set = cb }

module _ (S : Sockets) where
  -- With what `socket` returned: a descriptor and the kernel with it, or a failure.
  create_non_blocking_socket : Option (ℕ × S.Kernel) → Outcome (ℕ × S.Kernel)
  create_non_blocking_socket (some (sockfd, k)) = ok (sockfd, k)
  create_non_blocking_socket none = stop exit_process

  -- The constructor, for a channel at `addr`.
  unfoldable pub create :
      ℕ → InetAddress → Bool → Option (ℕ × S.Kernel) → Outcome (Acceptor × S.Kernel)
  unfolding create_non_blocking_socket
  create addr listen_addr reuseport made = do
    (fd, k) ← create_non_blocking_socket made
    k' ← bind_address S fd listen_addr (set_reuse_port S fd true (set_reuse_addr S fd true k))
    ok (
      record {
        channel = Channel.set_read_callback true (Channel.create addr fd);
        callback_set = false;
        listenning = false;
      },
      k',
    )

  module _ (E : Epoll) where
    unfoldable pub listen :
        S.Kernel → Poller E → Acceptor → Outcome (S.Kernel × Poller E × Acceptor)
    listen k p a = do
      k' ← Socket.listen S a.channel.fd k
      (p', c) ← change E enable_reading p a.channel
      ok (k', p', record a { channel = c; listenning = true })

module _ (E : Epoll) where
  -- The destructor; that of `accept_socket_` stands in Socket.
  pub destroy : Poller E → Acceptor → Outcome (Poller E)
  destroy p a = retire E p a.channel >>= λ (p', c). ok p'
