-- ===== src/TcpConnection.antt =====
-- net/tcp_connection/tcp_connection.h and tcp_connection.cc: one connection with its channel and its
-- two buffers, over the poller and the loop that own it. The functions run in the loop's thread,
-- except for `send` and `shutdown`, which take the thread that calls them. A message is its
-- characters; where only their address is kept, it is the address.
mod Members
unfoldable pub use Members.*
pub mod Post
pub mod Sound
pub mod Queued
pub mod Output
pub mod Attempt
pub mod Send
pub mod Write
pub mod Callback
pub mod Open
pub mod Close
pub mod Report
pub mod Logged
pub mod Events
pub mod Read
pub mod Samples
pub mod Threads
pub mod Session
pub mod Turn
pub mod Closing
pub mod Graceful
pub mod Drain
pub mod End
mod Tests
use moony.Prelude.{
  ℕ, ◌+◌, Bool, true, false, not, ◌&&◌, ◌||◌, if◌then◌else◌, ltb, leb, ◌==◌, List, [], ◌∷◌, ◌++◌,
  Option, none, some, Outcome, ok, stop, bad_function_call, out_of_bounds, ◌%◌, ◌^◌, ◌>>=◌, length,
  take, drop,
}
use moony.Epoll.{Epoll}
use moony.Channel.{
  Channel, is_writing, tie_to, Change, enable_reading, enable_writing, disable_writing, disable_all,
}
use moony.Channel
use moony.Poller.{Poller, change, remove_channel}
use moony.Buffer.{
  Buffer, Incoming, received, read_error, Sent, sent, write_error, add_size, sub_size, init,
  initial_size, append, retrieve, readable_bytes, read_fd, write_fd,
}
use moony.EventLoop.{EventFd, Loop, queue_in_loop, run_in_loop, in_loop_thread}

-- The message that `send_in_loop` is given, of the size `int len`: the size of `chunk` is converted to
-- an `int`, which keeps 32 bits. A negative one stands for more bytes than there are, once it is a
-- `size_t`, and the message is read beyond its end.
pub int_message : List ℕ → Outcome (List ℕ)
int_message chunk =
    let len = length chunk % 2 ^ 32 in
    if ltb len 2147483648 then ok (take len chunk) else stop out_of_bounds

module _ (E : Epoll) (W : EventFd) where
  -- A connection, the poller and the loop that it belongs to, and what it has done so far.
  pub record World : Type 0 where
    pub conn : Conn
    pub poller : Poller E
    pub loop : Loop W Task
    pub events : List Event

  emit : Event → World → World
  emit e w = record w { events = w.events ++ e ∷ [] }

  set_state : ConnState → World → World
  set_state s w = record w { conn = record w.conn { state = s } }

  -- `loop_->queue_in_loop` in the loop's thread.
  queue : Task → World → World
  queue t w = record w { loop = queue_in_loop W Task w.loop w.loop.thread_id t }

  with_channel : World → Outcome (Poller E × Channel) → Outcome World
  with_channel w (ok (p, c)) = ok (record w { poller = p; conn = record w.conn { channel = c } })
  with_channel w (stop e) = stop e

  -- `channel_->enable_reading()` and its like.
  pub change_channel : Change → World → Outcome World
  unfolding with_channel
  change_channel ch w = with_channel w (change E ch w.poller w.conn.channel)

  -- A callback: an empty `std::function` throws.
  pub call_back : Bool → Event → World → Outcome World
  unfolding emit
  call_back present e w = if present then ok (emit e w) else stop bad_function_call

  call_connection : World → Outcome World
  call_connection w = call_back w.conn.connection_set (connection_called w.conn.state) w

  pub connection_established : World → Outcome World
  unfolding set_state
  connection_established w = do
    w' ← change_channel enable_reading (record w {
      conn = record w.conn { state = connected; channel = tie_to w.conn.channel w.conn.self };
    })
    call_connection w'

  pub connection_destroyed : World → Outcome World
  unfolding set_state
  connection_destroyed w = do
    w' ←
        if is_connected w.conn.state
        then (change_channel disable_all (set_state disconnected w) >>= call_connection)
        else ok w
    with_channel w' (remove_channel E w'.poller w'.conn.channel)

  pub handle_close : World → Outcome World
  unfolding set_state
  handle_close w = do
    w' ← change_channel disable_all (set_state disconnected w)
    w'' ← call_connection w'
    call_back w''.conn.close_set close_called w''

  -- `handle_error` only logs.
  after_read : Incoming → World → Outcome World
  after_read (received []) w = handle_close w
  after_read (received (x ∷ xs)) w = call_back w.conn.message_set message_called w
  after_read (read_error errno) w = ok w

  pub handle_read : Incoming → World → Outcome World
  unfolding after_read
  handle_read incoming w = do
    b ← read_fd w.conn.input incoming
    after_read incoming (record w { conn = record w.conn { input = b } })

  pub shutdown_in_loop : World → World
  unfolding emit
  shutdown_in_loop w = if is_writing w.conn.channel then w else emit shut_down_write w

  pub queue_write_complete : World → World
  unfolding queue
  queue_write_complete w = if w.conn.write_complete_set then queue write_complete w else w

  -- `handle_write` after the output buffer has run empty.
  drained : World → Outcome World
  drained w = do
    w' ← change_channel disable_writing w
    let w'' = queue_write_complete w'
    ok (if is_disconnecting w''.conn.state then shutdown_in_loop w'' else w'')

  -- `handle_write` after `write` has taken `n` bytes of those offered.
  retrieved : ℕ → List ℕ → World → World
  unfolding emit
  retrieved n offered w =
      emit (written (take n offered))
        (record w { conn = record w.conn { output = retrieve w.conn.output n } })

  wrote : Sent → List ℕ → World → Outcome World
  wrote (write_error errno) offered w = ok w
  wrote (sent n) offered w =
      if ltb 0 n
      then (let w' = retrieved n offered w in
          if readable_bytes w'.conn.output == 0 then drained w' else ok w')
      else ok w

  -- `handle_write`, where `write` is the kernel's answer to the bytes offered.
  pub handle_write : (List ℕ → Sent) → World → Outcome World
  unfolding wrote retrieved drained queue_write_complete
  handle_write write w =
      if is_writing w.conn.channel
      then (write_fd w.conn.output write >>= λ (offered, answer). wrote answer offered w)
      else ok w

  -- The write that `send_in_loop` tries at once: what is left to send, the world after it, and
  -- `fault_error`.
  tried : List ℕ → Sent → World → List ℕ × World × Bool
  unfolding queue_write_complete emit
  tried chunk (sent n) w =
      let w' = emit (written (take n chunk)) w in
      (drop n chunk, if sub_size (length chunk) n == 0 then queue_write_complete w' else w', false)
  tried chunk (write_error errno) w =
      (chunk, w, not (errno == ewouldblock) && (errno == epipe || errno == econnreset))

  pub first_write : List ℕ → (List ℕ → Sent) → World → List ℕ × World × Bool
  first_write chunk write w =
      if not (is_writing w.conn.channel) && readable_bytes w.conn.output == 0
      then tried chunk (write chunk) w
      else (chunk, w, false)

  -- The high water mark callback, where the bytes that are left cross the mark.
  pub mark : ℕ → World → World
  unfolding queue
  mark remaining w =
      let old = readable_bytes w.conn.output in
      if leb w.conn.high_water_mark (add_size old remaining)
        && (ltb old w.conn.high_water_mark && w.conn.high_water_set)
      then queue (high_water (add_size old remaining)) w
      else w

  -- What is left goes to the output buffer, and EPOLLOUT is asked for.
  pub buffered : List ℕ → World → Outcome World
  buffered left w = do
    b ← append w.conn.output left
    let w' = record w { conn = record w.conn { output = b } }
    if is_writing w'.conn.channel then ok w' else change_channel enable_writing w'

  -- `send_in_loop` after the write that it tries at once.
  finish_send : List ℕ × World × Bool → Outcome World
  finish_send (left, w, fault) =
      if not fault && ltb 0 (length left) then buffered left (mark (length left) w) else ok w

  pub send_in_loop : List ℕ → (List ℕ → Sent) → World → Outcome World
  unfolding finish_send int_message
  send_in_loop chunk write w =
      if is_disconnected w.conn.state
      then ok w
      else (int_message chunk >>= λ message. finish_send (first_write message write w))

  -- `send` in thread `tid` of the string with the characters `chunk` at `addr`: in the loop's thread at
  -- once, in any other through the queue.
  pub send : ℕ → ℕ → List ℕ → (List ℕ → Sent) → World → Outcome World
  send tid addr chunk write w =
      if is_connected w.conn.state
      then (if in_loop_thread W Task w.loop tid
          then send_in_loop chunk write w
          else ok (record w {
            loop =
                (run_in_loop W Task w.loop tid (send_in_loop_task addr (length chunk % 2 ^ 32))).1;
          }))
      else ok w

  -- `shutdown` in thread `tid`.
  pub shutdown : ℕ → World → World
  unfolding set_state
  shutdown tid w =
      if is_connected w.conn.state
      then (if in_loop_thread W Task w.loop tid
          then shutdown_in_loop (set_state disconnecting w)
          else record w {
            conn = record w.conn { state = disconnecting };
            loop = (run_in_loop W Task w.loop tid shutdown_in_loop_task).1;
          })
      else w
