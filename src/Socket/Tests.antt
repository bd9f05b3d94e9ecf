-- ===== src/Socket/Tests.antt =====
-- Runs of net/socket/socket.cc.
use moony.Prelude.{◌≡◌, refl, true, false, none}
use moony.InetAddress.{InetAddress}
use moony.Socket.{so_reuseport, so_reuseaddr, set_reuse_port, accept}
use moony.Socket.Plain.{Options, plain}

abbrev no_options : Options
no_options fd o = false

set_reuse_port_run : set_reuse_port plain 7 true no_options 7 so_reuseport ≡ true
unfolding set_reuse_port
set_reuse_port_run = refl

set_reuse_port_other : set_reuse_port plain 7 true no_options 7 so_reuseaddr ≡ false
unfolding set_reuse_port
set_reuse_port_other = refl

-- A failing `accept4` leaves the address of the caller.
accept_run : (peer : InetAddress) → accept plain 7 peer no_options ≡ (none, peer, no_options)
unfolding accept
accept_run peer = refl
