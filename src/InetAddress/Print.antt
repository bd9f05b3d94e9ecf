-- ===== src/InetAddress/Print.antt =====
-- What net/inetaddress/inetaddress.cc prints, and the ports that survive it.
use moony.Prelude.{ℕ, ◌%◌, ◌≤◌, ◌≡◌, ◌∷◌, ◌++◌, ok, arith, length, length-append, lt→ltb}
use moony.Prelude.Text.{Text, decimal, length-decimal_port}
use moony.InetAddress.{Inet, InetAddress, create, to_ip, to_ip_port, to_port, stored}

module _ (N : Inet) where
  -- The text of `to_ip_port`.
  pub ip_port_text : InetAddress → Text
  ip_port_text a = N.inet_ntop a.sin_addr ++ (b':' ∷ decimal (to_port N a))

  pub length-ip_port_text : (a : InetAddress) → length (ip_port_text a) ≤ 21
  unfolding ip_port_text to_port
  length-ip_port_text a = omega (
    arith,
    length-append (N.inet_ntop a.sin_addr) (b':' ∷ decimal (N.ntohs a.sin_port)),
    N.length-inet_ntop a.sin_addr,
    length-decimal_port (N.ntohs a.sin_port) (N.ntohs-lt a.sin_port),
  )

  -- Neither `to_ip` nor `to_ip_port` writes past its array of 64 characters, for any address: the first
  -- returns the address, the second the address, a colon and the port, in 21 characters at most.
  pub to_ip_port_lem :
      (a : InetAddress)
      → (to_ip N a ≡ ok (N.inet_ntop a.sin_addr))
        × (to_ip_port N a ≡ ok (ip_port_text a))
        × (length (ip_port_text a) ≤ 21)
  unfolding to_ip to_ip_port stored ip_port_text to_port
  to_ip_port_lem a = (
    rw (lt→ltb (length (N.inet_ntop a.sin_addr)) 64 (omega (arith, N.length-inet_ntop a.sin_addr))),
    rw (
        lt→ltb (length (N.inet_ntop a.sin_addr ++ (b':' ∷ decimal (N.ntohs a.sin_port)))) 64
          (omega (arith, length-ip_port_text a))),
    length-ip_port_text a,
  )

  -- `to_port` gives back the lower 16 bits of the port that the constructor is given: the port
  -- itself, if it is one, and another one silently, if it is larger.
  pub to_port-create : (port : ℕ) (ip : Text) → to_port N (create N port ip) ≡ port % 65536
  unfolding to_port create
  to_port-create port ip = N.ntohs-htons (port % 65536) (omega arith)
