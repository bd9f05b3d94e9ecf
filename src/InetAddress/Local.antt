-- ===== src/InetAddress/Local.antt =====
-- The conversions of arpa/inet.h on a machine that stores the lowest byte first, which fill `Inet`.
use moony.Prelude.{ℕ, ◌+◌, ◌*◌, ◌/◌, ◌%◌, ◌≤◌, ◌<◌, ◌≡◌, ◌∷◌, ◌++◌, arith, length, length-append}
use moony.Prelude.Text.{Text, decimal, length-decimal_byte}
use moony.InetAddress.{Inet}

unfoldable pub swap_bytes : ℕ → ℕ
swap_bytes n = n % 256 * 256 + n / 256 % 256

pub swap_twice : (n : ℕ) → n < 65536 → swap_bytes (swap_bytes n) ≡ n
unfolding swap_bytes
swap_twice n h = omega arith

pub swap_bytes-lt : (n : ℕ) → swap_bytes n < 65536
unfolding swap_bytes
swap_bytes-lt n = omega arith

-- A byte with the dot behind it, before what follows.
with_dot : ℕ → Text → Text
with_dot n rest = decimal (n % 256) ++ (b'.' ∷ rest)

length-with_dot : (n : ℕ) (rest : Text) → length (with_dot n rest) ≤ 4 + length rest
unfolding with_dot
length-with_dot n rest = omega (
  arith,
  length-append (decimal (n % 256)) (b'.' ∷ rest),
  length-decimal_byte (n % 256) (omega arith),
)

-- The four bytes of an address in network order on a machine that stores the lowest byte first.
unfoldable pub dotted : ℕ → Text
unfolding with_dot
dotted a = with_dot a (with_dot (a / 256) (with_dot (a / 65536) (decimal (a / 16777216 % 256))))

pub length-dotted : (a : ℕ) → length (dotted a) ≤ 15
unfolding dotted
length-dotted a =
    let last = decimal (a / 16777216 % 256) in
    omega (
      arith,
      length-with_dot a (with_dot (a / 256) (with_dot (a / 65536) last)),
      length-with_dot (a / 256) (with_dot (a / 65536) last),
      length-with_dot (a / 65536) last,
      length-decimal_byte (a / 16777216 % 256) (omega arith),
    )

-- An `Inet` that knows one address only, 127.0.0.1.
abbrev pub local_inet : Inet
local_inet = record {
  htons = swap_bytes;
  ntohs = swap_bytes;
  inet_addr = λ ip. 16777343;
  inet_ntop = dotted;
  ntohs-htons = swap_twice;
  ntohs-lt = swap_bytes-lt;
  length-inet_ntop = length-dotted;
}
