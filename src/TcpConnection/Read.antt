-- ===== src/TcpConnection/Read.antt =====
-- `handle_read` of net/tcp_connection/tcp_connection.cc.
use moony.Prelude.{
  ℕ, ◌≤◌, ◌<◌, ◌≡◌, refl, ap, List, [], ◌∷◌, ◌++◌, ok, stop, out_of_bounds, ◌>>=◌, length,
}
use moony.Epoll.{Epoll}
use moony.EventLoop.{EventFd}
use moony.Buffer.{received, writable_bytes, offered}
use moony.Buffer.Room.{contents}
use moony.Buffer.ReadFd.{read_fd-contents, read_fd-overflow}
use moony.TcpConnection.{World, message_called, handle_read, after_read, call_back, emit}
use moony.TcpConnection.Sound.{IsSound}

module _ (E : Epoll) (W : EventFd) where
  -- What `handle_read` leaves after bytes that fit: they stand behind the bytes that the user has not
  -- taken, the message callback was called, and nothing else of the connection changed.
  pub record Reads (w : World E W) (chunk : List ℕ) (w' : World E W) : Type 0 where
    pub sound : IsSound E W w'
    pub input : contents w'.conn.input ≡ contents w.conn.input ++ chunk
    pub size : length w'.conn.input.buffer ≡ length w.conn.input.buffer
    pub events : w'.events ≡ w.events ++ message_called ∷ []
    pub output : w'.conn.output ≡ w.conn.output
    pub state : w'.conn.state ≡ w.conn.state
    pub channel : w'.conn.channel ≡ w.conn.channel
    pub loop : w'.loop ≡ w.loop

  -- `handle_read` on a sound connection, of at least one byte and no more than the writable space of
  -- its input buffer holds: the bytes stand behind those that the user has not taken, the message
  -- callback is called once, and the state, the output buffer, the channel and the loop are as before.
  pub handle_read-Reads :
      (x : ℕ) (xs : List ℕ) (w : World E W)
      → IsSound E W w
      → length (x ∷ xs) ≤ writable_bytes w.conn.input
      → (w' : World E W) × (handle_read E W (received (x ∷ xs)) w ≡ ok w') × Reads w (x ∷ xs) w'
  unfolding handle_read call_back emit
  handle_read-Reads x xs w s fits =
      let (b, e, v, held, size) = read_fd-contents w.conn.input (x ∷ xs) s.input fits in
      (
        record w { conn = record w.conn { input = b }; events = w.events ++ message_called ∷ [] },
        rw (e, s.message_set),
        record {
          sound = record {
            connection_set = s.connection_set;
            message_set = s.message_set;
            close_set = s.close_set;
            input = v;
            output = s.output;
            sync = s.sync;
          };
          input = held;
          size = size;
          events = refl;
          output = refl;
          state = refl;
          channel = refl;
          loop = refl;
        },
      )

  -- On a sound connection, more bytes than the writable space of the input buffer holds, and no more
  -- than `read_fd` offers room for, make `handle_read` write outside the buffer's storage,
  -- whatever the bytes.
  pub handle_read-overflow :
      (chunk : List ℕ) (w : World E W)
      → IsSound E W w
      → writable_bytes w.conn.input < length chunk
      → length chunk ≤ offered w.conn.input
      → handle_read E W (received chunk) w ≡ stop out_of_bounds
  unfolding handle_read
  handle_read-overflow chunk w s h k =
      ap
        (λ o. o >>= λ b.
          after_read E W (received chunk) (record w { conn = record w.conn { input = b } }))
        (read_fd-overflow w.conn.input chunk s.input h k)
