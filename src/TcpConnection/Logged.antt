-- ===== src/TcpConnection/Logged.antt =====
-- The members of net/tcp_connection/tcp_connection.cc that do no more than log: the error callback and, but for
-- the `socket` that closes its descriptor, the destructor.
use moony.Prelude.{ℕ, ◌++◌}
use moony.Prelude.Text.{Text, codes, decimal}
use moony.Logger.{Output, log_fmt, error, info}
use moony.TcpConnection.{Conn, ConnState, disconnected, connecting, connected, disconnecting}

-- What `getsockopt` answers for SO_ERROR: a failure with its `errno`, or the error of the socket.
pub data SockError : Type 0 where
  failed pending : ℕ → SockError

-- `err` of `handle_error`.
error_number : SockError → ℕ
error_number (failed errno) = errno
error_number (pending optval) = optval

-- `handle_error` of the connection with that name, at a time with the text `now`.
unfoldable pub handle_error : Text → Text → SockError → Output → Output
unfolding error_number
handle_error name now e o =
    log_fmt error now
      (codes "tcp_connection::handle_error name = "
        ++ (name ++ (codes ", SO_ERROR = " ++ (decimal (error_number e) ++ codes "\n"))))
      o

-- `static_cast<int>(state_)`
state_int : ConnState → ℕ
state_int disconnected = 0
state_int connecting = 1
state_int connected = 2
state_int disconnecting = 3

unfoldable pub destroy : Text → Text → Conn → Output → Output
unfolding state_int
destroy name now c o =
    log_fmt info now
      (codes "tcp_connection dtor["
        ++ (name
            ++ (codes "] at fd = "
                ++ (decimal c.channel.fd
                    ++ (codes ", state = " ++ (decimal (state_int c.state) ++ codes "\n"))))))
      o
