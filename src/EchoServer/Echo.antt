-- ===== src/EchoServer/Echo.antt =====
-- What sample/sample.cc sends back.
use moony.Prelude.{
  ℕ, ◌+◌, ◌≤◌, ◌≡◌, sym, ap, ap₂, not, ◌∙◌, List, [], ◌∷◌, ◌++◌, length, arith, append-nil, ◌==◌,
}
use moony.Epoll.{Epoll}
use moony.EventLoop.{EventFd, Loop}
use moony.Channel.{is_writing}
use moony.Buffer.{readable_bytes, Sent, received, max_size, writable_bytes, cheap_prepend}
use moony.Buffer.Room.{contents}
use moony.Buffer.Content.{retrieve_all_as_string_lem, writable_bytes-retrieve_all}
use moony.TcpConnection.{World, Task, connected, is_disconnected, message_called}
use moony.TcpConnection.Post.{Post, Post-mono}
use moony.TcpConnection.Sound.{IsSound, Flows, stream, delivered, delivered-append}
use moony.TcpConnection.Output.{Keeps}
use moony.TcpConnection.Attempt.{IsBroken}
use moony.TcpConnection.Read.{Reads, handle_read-Reads}
use moony.TcpConnection.Session.{send_unbroken}
use moony.TcpConnection.Send.{max_int}
use moony.TcpConnection.Threads.{send_own}
use moony.TcpConnection.End.{with_input, with_input-IsSound}
use moony.EchoServer.{on_message, on_readable}

module _ (E : Epoll) (W : EventFd) where
  -- The message has joined the output, which has filled by no more than that, the input is used up with
  -- all of its vector free, and the loop's thread is the same.
  pub record Echoes (w : World E W) (msg : List ℕ) (w' : World E W) : Type 0 where
    pub sound : IsSound E W w'
    pub flows : Flows E W w'
    pub state : w'.conn.state ≡ connected
    pub streamed : stream E W w' ≡ stream E W w ++ msg
    pub used_up : contents w'.conn.input ≡ []
    pub free : writable_bytes w'.conn.input + cheap_prepend ≡ length w.conn.input.buffer
    pub thread : w'.loop.thread_id ≡ w.loop.thread_id
    pub room :
        w'.conn.output.writer_idx + length (stream E W w)
        ≤ w.conn.output.writer_idx + length (stream E W w ++ msg)

  on_message-Echoes :
      (tid : ℕ) (write : List ℕ → Sent) (w : World E W)
      → IsSound E W w
      → Flows E W w
      → w.conn.state ≡ connected
      → w.loop.thread_id ≡ tid
      → length (contents w.conn.input) ≤ max_int
      → w.conn.output.writer_idx + length (contents w.conn.input) ≤ max_size
      → ¬ IsBroken (write (contents w.conn.input))
      → Post (Unit {0}) (Echoes w (contents w.conn.input)) (on_message E W tid write w)
  unfolding on_message with_input
  on_message-Echoes tid write w s f up own short fits fine =
      let (b, e, v, none_left, _, reset) = retrieve_all_as_string_lem w.conn.input s.input in
      let msg = contents w.conn.input in
      rw (e, send_own E W tid 0 msg write (with_input E W w b) up own)
        (Post-mono (Unit {0}) (Keeps E W (with_input E W w b) (stream E W w ++ msg)) _ _
          (send_unbroken E W msg write (with_input E W w b) (with_input-IsSound E W w b s v) f
            (ap is_disconnected up) short fits fine)
          (λ w' k. record {
            sound = k.sound;
            flows = k.flows;
            state = k.state ∙ up;
            streamed = k.streamed;
            used_up = ap contents k.input ∙ none_left;
            free =
                ap (λ c. writable_bytes c + cheap_prepend) (k.input ∙ reset)
                ∙ writable_bytes-retrieve_all w.conn.input s.input;
            thread = k.work.thread;
            room = k.room;
          }))

  -- A read leaves the stream of the output alone.
  read_stream :
      (chunk : List ℕ) (w u : World E W) → Reads E W w chunk u → stream E W u ≡ stream E W w
  read_stream chunk w u r =
      ap₂ ◌++◌
        (ap delivered r.events
          ∙ delivered-append w.events (message_called ∷ [])
          ∙ append-nil (delivered w.events))
        (ap contents r.output)

  -- One round of the echo server, in the loop's thread, on a sound and connected connection that asks for
  -- EPOLLOUT exactly while bytes wait: of at least one byte and no more than the writable space of
  -- the input buffer holds, where the bytes to send are no more than an `int` can tell, the output buffer stays within its largest size and the write
  -- does not meet EPIPE or ECONNRESET. What goes out, taken or waiting, is what went out before, then
  -- the bytes that were still unread, then those that were received, in order; the input is used up,
  -- and the connection is left as it is required. Only `exit` ends the round early.
  pub on_readable-Echoes :
      (tid x : ℕ) (xs : List ℕ) (write : List ℕ → Sent) (w : World E W)
      → IsSound E W w
      → Flows E W w
      → w.conn.state ≡ connected
      → w.loop.thread_id ≡ tid
      → length (x ∷ xs) ≤ writable_bytes w.conn.input
      → length (contents w.conn.input ++ x ∷ xs) ≤ max_int
      → w.conn.output.writer_idx + length (contents w.conn.input ++ x ∷ xs) ≤ max_size
      → ¬ IsBroken (write (contents w.conn.input ++ x ∷ xs))
      → Post
          (Unit {0})
          (Echoes w (contents w.conn.input ++ x ∷ xs))
          (on_readable E W tid (received (x ∷ xs)) write w)
  unfolding on_readable
  on_readable-Echoes tid x xs write w s f up own fits short room fine =
      let (u, e, r) = handle_read-Reads E W x xs w s fits in
      rw e (
        Post-mono (Unit {0}) _ _ (on_message E W tid write u)
          (on_message-Echoes tid write u r.sound
            (ap is_writing r.channel ∙ f ∙ ap (λ b. not (readable_bytes b == 0)) (sym r.output))
            (r.state ∙ up) (ap (λ (l : Loop W Task). l.thread_id) r.loop ∙ own) (rw r.input short)
            (rw (r.output, r.input) room) (rw r.input fine))
          (λ w' k. record {
            sound = k.sound;
            flows = k.flows;
            state = k.state;
            streamed = k.streamed ∙ ap₂ ◌++◌ (read_stream (x ∷ xs) w u r) r.input;
            used_up = k.used_up;
            free = k.free ∙ r.size;
            thread = k.thread ∙ ap (λ (l : Loop W Task). l.thread_id) r.loop;
            room = omega (
              arith,
              k.room,
              ap (λ b. b.writer_idx) r.output,
              ap (length {A = ℕ}) (read_stream (x ∷ xs) w u r),
              ap (length {A = ℕ}) (ap₂ ◌++◌ (read_stream (x ∷ xs) w u r) r.input),
            );
          }))
