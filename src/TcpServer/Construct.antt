-- ===== src/TcpServer/Construct.antt =====
-- The constructor of net/tcp_server/tcp_server.cc, from the loop's pointer to the acceptor.
use moony.Prelude.{
  ℕ, Bool, Option, none, some, Outcome, ok, stop, exit_process, ◌>>=◌, Post, Post-bind, Post-refuse,
  ◌⊎◌, inl, inr, ◌≡◌, refl, ap,
}
use moony.Prelude.Text.{Text}
use moony.InetAddress.{Inet, InetAddress, to_ip_port}
use moony.Socket.{Sockets}
use moony.InetAddress.Print.{ip_port_text, to_ip_port_lem}
use moony.Acceptor
use moony.Acceptor.Life.{new, create-new}
use moony.TcpServer.{Server, create}

-- A null pointer ends the process.
check_loop_not_null : Option ℕ → Outcome ℕ
check_loop_not_null (some loop) = ok loop
check_loop_not_null none = stop exit_process

-- `tcp_server(loop, listen_addr, name, op)`, where `reuse` says that `op` is `k_reuse_port`, for a channel of
-- the acceptor at `addr`, with what the kernel gave `create_non_blocking_socket`.
unfoldable pub construct :
    (N : Inet) (S : Sockets)
    → Option ℕ
    → InetAddress
    → Text
    → Bool
    → ℕ
    → Option (ℕ × S.Kernel)
    → Outcome (Server × S.Kernel)
unfolding check_loop_not_null
construct N S loop listen_addr name reuse addr made = do
  base ← check_loop_not_null loop
  ip_port ← to_ip_port N listen_addr
  (acceptor, k) ← Acceptor.create S addr listen_addr reuse made
  ok (create base ip_port name acceptor, k)

-- With a loop, the kernel refuses the socket or its address and the process ends, or the socket was
-- made and the server is built on a new acceptor for it.
pub construct-create :
    (N : Inet) (S : Sockets) (base : ℕ) (listen_addr : InetAddress) (name : Text) (reuse : Bool)
    (addr : ℕ) (made : Option (ℕ × S.Kernel))
    → Post
        ((made ≡ none) ⊎ ((fd : ℕ) × (k : S.Kernel) × (S.bind fd listen_addr k ≡ none)))
        (λ (server, _).
          (fd : ℕ) × (k : S.Kernel) × (made ≡ some (fd, k))
          × (server ≡ create base (ip_port_text N listen_addr) name (new addr fd)))
        (construct N S (some base) listen_addr name reuse addr made)
unfolding construct check_loop_not_null Acceptor.create
construct-create N S base listen_addr name reuse addr none =
    rw (to_ip_port_lem N listen_addr).1 (refl, inl refl)
construct-create N S base listen_addr name reuse addr (some (fd, k)) =
    rw (to_ip_port_lem N listen_addr).1 (
      Post-bind _ _ _ (Acceptor.create S addr listen_addr reuse (some (fd, k))) _
        (Post-refuse _ _ _ (Acceptor.create S addr listen_addr reuse (some (fd, k)))
          (create-new S addr listen_addr reuse fd k) (λ (k', r). inr (fd, k', r)))
        (λ r e. (fd, k, refl, ap (create base (ip_port_text N listen_addr) name) e)))
