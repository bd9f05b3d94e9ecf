-- ===== src/InetAddress.antt =====
-- net/inetaddress/inetaddress.h and inetaddress.cc: an IPv4 address with its port. The conversions of
-- arpa/inet.h are not part of the repository and are a parameter, `Inet`, with what their manual
-- pages document. A `char` array that is written past its end stops with `out_of_bounds`.
pub mod Print
pub mod Local
mod Tests
use moony.Prelude.{
  ℕ, ◌+◌, ◌%◌, ◌≤◌, ◌<◌, ◌≡◌, List, [], ◌∷◌, ◌++◌, Outcome, ok, stop, out_of_bounds, ltb, length,
  if◌then◌else◌,
}
use moony.Prelude.Text.{Text, codes, decimal}

-- `htons` and `ntohs` of 16-bit values, `inet_addr`, and the text that `inet_ntop` gives of an
-- address, which has 15 characters at most (INET_ADDRSTRLEN counts the closing NUL).
pub record Inet : Type 0 where
  pub htons : ℕ → ℕ
  pub ntohs : ℕ → ℕ
  pub inet_addr : Text → ℕ
  pub inet_ntop : ℕ → Text
  pub ntohs-htons : (port : ℕ) → port < 65536 → ntohs (htons port) ≡ port
  pub ntohs-lt : (n : ℕ) → ntohs n < 65536
  pub length-inet_ntop : (a : ℕ) → length (inet_ntop a) ≤ 15

-- `sin_port` and `sin_addr` of `addr_`; the rest is zero but for the family.
pub record InetAddress : Type 0 where
  pub sin_port : ℕ
  pub sin_addr : ℕ

-- `char buffer[size]` after a write of `s` and its closing NUL.
pub stored : ℕ → Text → Outcome Text
stored size s = if ltb (length s) size then ok s else stop out_of_bounds

module _ (N : Inet) where
  -- `inetaddress(port, ip)`; the argument of `htons` is converted to 16 bits.
  unfoldable pub create : ℕ → Text → InetAddress
  create port ip = record { sin_port = N.htons (port % 65536); sin_addr = N.inet_addr ip }

  -- `inetaddress()`
  unfoldable pub create_default : InetAddress
  create_default = create 9080 (codes "127.0.0.1")

  unfoldable pub to_ip : InetAddress → Outcome Text
  unfolding stored
  to_ip a = stored 64 (N.inet_ntop a.sin_addr)

  unfoldable pub to_ip_port : InetAddress → Outcome Text
  unfolding stored
  to_ip_port a = stored 64 (N.inet_ntop a.sin_addr ++ (b':' ∷ decimal (N.ntohs a.sin_port)))

  unfoldable pub to_port : InetAddress → ℕ
  to_port a = N.ntohs a.sin_port
