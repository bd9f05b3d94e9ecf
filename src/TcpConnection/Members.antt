-- ===== src/TcpConnection/Members.antt =====
-- The members, the constructor and the setters of net/tcp_connection/tcp_connection.h and
-- tcp_connection.cc, and what a connection does to the outside.
use moony.Prelude.{ℕ, Bool, true, false, List}
use moony.Channel.{Channel}
use moony.Channel
use moony.Buffer.{Buffer, init, initial_size}

-- `state_e`
pub data ConnState : Type 0 where
  disconnected connecting connected disconnecting : ConnState

-- What a connection leaves for its loop to run: a callback with its arguments, or a method of its own.
-- `send_in_loop` is bound to the address of the characters of the caller's string, and to their number,
-- not to a copy of them.
pub data Task : Type 0 where
  write_complete : Task
  high_water : ℕ → Task
  send_in_loop_task : ℕ → ℕ → Task
  shutdown_in_loop_task : Task

-- What the connection does to the outside, in order: the bytes that the kernel takes from a `write`,
-- the end of its writing side, and the calls of the user's and the server's callbacks.
pub data Event : Type 0 where
  written : List ℕ → Event
  shut_down_write : Event
  connection_called : ConnState → Event
  message_called : Event
  close_called : Event

-- The members of `tcp_connection` that its methods use; `self` is the object's address, and a field
-- that ends in `set` says whether the callback of that name is set.
pub record Conn : Type 0 where
  pub self : ℕ
  pub state : ConnState
  pub channel : Channel
  pub input : Buffer
  pub output : Buffer
  pub high_water_mark : ℕ
  pub connection_set : Bool
  pub message_set : Bool
  pub close_set : Bool
  pub write_complete_set : Bool
  pub high_water_set : Bool

-- The constructor, for the object at `self` with a channel at `addr` for the descriptor `fd`.
unfoldable pub create : ℕ → ℕ → ℕ → Conn
create self addr fd = record {
  self = self;
  state = connecting;
  channel = Channel.set_error_callback true (
      Channel.set_close_callback true (
        Channel.set_write_callback true (Channel.set_read_callback true (Channel.create addr fd))));
  input = init initial_size;
  output = init initial_size;
  high_water_mark = 67108864;
  connection_set = false;
  message_set = false;
  close_set = false;
  write_complete_set = false;
  high_water_set = false;
}

-- The setters of the callbacks: is there one afterwards?
abbrev pub set_connection_callback : Bool → Conn → Conn
set_connection_callback cb c = record c { connection_set = cb }

abbrev pub set_write_complete_callback : Bool → Conn → Conn
set_write_complete_callback cb c = record c { write_complete_set = cb }

abbrev pub set_message_callback : Bool → Conn → Conn
set_message_callback cb c = record c { message_set = cb }

abbrev pub set_high_water_mark_callback : Bool → ℕ → Conn → Conn
set_high_water_mark_callback cb mark c = record c { high_water_set = cb; high_water_mark = mark }

abbrev pub set_close_callback : Bool → Conn → Conn
set_close_callback cb c = record c { close_set = cb }

abbrev pub ewouldblock : ℕ
ewouldblock = 11

abbrev pub epipe : ℕ
epipe = 32

abbrev pub econnreset : ℕ
econnreset = 104

abbrev pub is_connected : ConnState → Bool
is_connected connected = true
is_connected _ = false

abbrev pub is_disconnected : ConnState → Bool
is_disconnected disconnected = true
is_disconnected _ = false

abbrev pub is_disconnecting : ConnState → Bool
is_disconnecting disconnecting = true
is_disconnecting _ = false
