-- ===== src/TcpServer/Names.antt =====
-- The names that net/tcp_server/tcp_server.cc gives to connections.
use moony.Prelude.{
  ℕ, ◌≤◌, ◌<◌, ◌≡◌, sym, ap, ◌∙◌, [], ◌∷◌, ◌++◌, some, arith, length, length-append, lookup,
}
use moony.Prelude.Text.{
  Text, decimal, decimal-inj, snprintf_fits, length-decimal_int, append-inj, text_eq,
}
use moony.TcpServer.{Server, Managed, conn_name}

-- The text behind the server's name, before `snprintf` cuts it.
abbrev suffix : Server → ℕ → Text
suffix s id = b'-' ∷ (s.ip_port ++ (b'#' ∷ decimal id))

suffix-fits :
    (s : Server) (id : ℕ) → length s.ip_port ≤ 21 → id < 2147483648 → length (suffix s id) < 64
suffix-fits s id h k =
    omega (arith, length-append s.ip_port (b'#' ∷ decimal id), length-decimal_int id k)

conn_name_lem :
    (s : Server) (id : ℕ)
    → length s.ip_port ≤ 21
    → id < 2147483648
    → conn_name s id ≡ s.name ++ suffix s id
unfolding conn_name
conn_name_lem s id h k =
    ap (λ t. s.name ++ t) (snprintf_fits 64 (suffix s id) (suffix-fits s id h k))

-- Two ids of an `int` give two names, where the address is as long as `to_ip_port` makes it.
pub conn_name-inj :
    (s : Server) (i j : ℕ)
    → length s.ip_port ≤ 21
    → i < 2147483648
    → j < 2147483648
    → conn_name s i ≡ conn_name s j
    → i ≡ j
conn_name-inj s i j h hi hj e =
    let whole : s.name ++ suffix s i ≡ s.name ++ suffix s j =
      sym (conn_name_lem s i h hi) ∙ e ∙ conn_name_lem s j h hj in
    let tails : s.ip_port ++ (b'#' ∷ decimal i) ≡ s.ip_port ++ (b'#' ∷ decimal j) =
      append-inj (b'-' ∷ []) _ _ (append-inj s.name (suffix s i) (suffix s j) whole) in
    decimal-inj i j (append-inj (b'#' ∷ []) _ _ (append-inj s.ip_port _ _ tails))

-- Every connection is stored under its name, which is the name of an id given out before.
pub record IsNamed (s : Server) : Type 0 where
  pub short : length s.ip_port ≤ 21
  pub ids : s.next_id < 2147483648
  pub named :
      (k : Text) (c : Managed)
      → lookup k s.connections ≡ some c
      → (c.name ≡ k) × ((i : ℕ) × (i < s.next_id) × (conn_name s i ≡ k))
