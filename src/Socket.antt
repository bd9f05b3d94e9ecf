-- ===== src/Socket.antt =====
-- net/socket/socket.h and socket.cc: a descriptor with the system calls on it. The kernel's sockets
-- are not part of the repository: they are a parameter, `Sockets`, with what setsockopt(2) and bind(2)
-- document. A `socket` has no member but its descriptor, which the functions take.
pub mod Answers
pub mod Plain
mod Tests
use moony.Prelude.{
  ℕ, ◌≡◌, Bool, true, false, ◌&&◌, ◌==◌, if◌then◌else◌, Option, none, some, Outcome, ok, stop,
  exit_process,
}
use moony.InetAddress.{InetAddress}

-- TCP_NODELAY, SO_REUSEADDR, SO_REUSEPORT and SO_KEEPALIVE.
pub data SockOpt : Type 0 where
  tcp_nodelay so_reuseaddr so_reuseport so_keepalive : SockOpt

abbrev pub opt_code : SockOpt → ℕ
opt_code tcp_nodelay = 0
opt_code so_reuseaddr = 1
opt_code so_reuseport = 2
opt_code so_keepalive = 3

abbrev pub same_opt : SockOpt → SockOpt → Bool
same_opt a b = opt_code a == opt_code b

-- The kernel's sockets, which of them a descriptor names, and their options. `setsockopt` sets one
-- option of a socket that is open and no other, and `bind` sets none.
pub record Sockets : Type 1 where
  pub Kernel : Type 0
  pub is_open : Kernel → ℕ → Bool
  pub option : Kernel → ℕ → SockOpt → Bool
  pub setsockopt : ℕ → SockOpt → Bool → Kernel → Kernel
  -- `none` where the call fails
  pub bind : ℕ → InetAddress → Kernel → Option Kernel
  pub listen : ℕ → ℕ → Kernel → Option Kernel
  -- the new descriptor and the address of the peer
  pub accept4 : ℕ → Kernel → Option (ℕ × InetAddress) × Kernel
  -- `shutdown(fd, SHUT_WR)`
  pub shutdown : ℕ → Kernel → Option Kernel
  pub close : ℕ → Kernel → Kernel
  pub is_open-setsockopt :
      (k : Kernel) (fd fd' : ℕ) (o : SockOpt) (on : Bool)
      → is_open (setsockopt fd o on k) fd' ≡ is_open k fd'
  pub option-setsockopt :
      (k : Kernel) (fd fd' : ℕ) (o o' : SockOpt) (on : Bool)
      → is_open k fd ≡ true
      → option (setsockopt fd o on k) fd' o'
        ≡ (if fd == fd' && same_opt o o' then on else option k fd' o')
  pub option-bind :
      (k k' : Kernel) (fd fd' : ℕ) (a : InetAddress) (o : SockOpt)
      → bind fd a k ≡ some k'
      → option k' fd' o ≡ option k fd' o

module _ (S : Sockets) where
  -- The kernel after a call whose failure is fatal.
  or_exit : Option S.Kernel → Outcome S.Kernel
  or_exit (some k) = ok k
  or_exit none = stop exit_process

  -- The kernel after a call whose failure is only logged.
  or_log : Option S.Kernel → S.Kernel → S.Kernel
  or_log (some k') k = k'
  or_log none k = k

  -- `peer_addr` after `accept4`.
  peer_of : Option (ℕ × InetAddress) → InetAddress → InetAddress
  peer_of (some (fd, a)) peer = a
  peer_of none peer = peer

  descriptor_of : Option (ℕ × InetAddress) → Option ℕ
  descriptor_of (some (fd, a)) = some fd
  descriptor_of none = none

  unfoldable pub bind_address : ℕ → InetAddress → S.Kernel → Outcome S.Kernel
  unfolding or_exit
  bind_address fd local_addr k = or_exit (S.bind fd local_addr k)

  unfoldable pub listen : ℕ → S.Kernel → Outcome S.Kernel
  unfolding or_exit
  listen fd k = or_exit (S.listen fd 1024 k)

  -- `accept`: the descriptor, `*peer_addr` and the kernel after it.
  unfoldable pub accept : ℕ → InetAddress → S.Kernel → Option ℕ × InetAddress × S.Kernel
  unfolding descriptor_of peer_of
  accept fd peer_addr k = let (r, k') = S.accept4 fd k in (descriptor_of r, peer_of r peer_addr, k')

  unfoldable pub shutdown_write : ℕ → S.Kernel → S.Kernel
  unfolding or_log
  shutdown_write fd k = or_log (S.shutdown fd k) k

  unfoldable pub set_tcp_no_delay : ℕ → Bool → S.Kernel → S.Kernel
  set_tcp_no_delay fd on k = S.setsockopt fd tcp_nodelay on k

  unfoldable pub set_reuse_addr : ℕ → Bool → S.Kernel → S.Kernel
  set_reuse_addr fd on k = S.setsockopt fd so_reuseaddr on k

  unfoldable pub set_reuse_port : ℕ → Bool → S.Kernel → S.Kernel
  set_reuse_port fd on k = S.setsockopt fd so_reuseport on k

  unfoldable pub set_keep_alive : ℕ → Bool → S.Kernel → S.Kernel
  set_keep_alive fd on k = S.setsockopt fd so_keepalive on k

  -- The destructor.
  unfoldable pub destroy : ℕ → S.Kernel → S.Kernel
  destroy fd k = S.close fd k
