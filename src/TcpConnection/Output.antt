-- ===== src/TcpConnection/Output.antt =====
-- `send_in_loop` and `handle_write` of net/tcp_connection/tcp_connection.cc neither lose nor reorder
-- a byte.
use moony.Prelude.{
  ℕ, ◌+◌, ◌≤◌, ◌<◌, ◌≡◌, inl, inr, refl, sym, ap, ◌∙◌, true, not, ◌==◌, List, ◌++◌, arith, length,
  append_assoc, Bool-cases, length-append,
}
use moony.Epoll.{Epoll}
use moony.Channel.{Channel, is_writing, changed, enable_writing}
use moony.Poller.{Poller}
use moony.Poller.Sync.{InSync}
use moony.EventLoop.{EventFd}
use moony.Buffer.{Buffer, readable_bytes, max_size}
use moony.Buffer.Valid.{IsValid}
use moony.Buffer.Room.{contents, length-contents}
use moony.Buffer.Content.{append-contents}
use moony.TcpConnection.{World, buffered}
use moony.TcpConnection.Post.{
  Post, moved, Refused, change_channel-Post, is_writing-enable_writing, is_writing-added,
}
use moony.TcpConnection.Sound.{delivered, IsSound, Flows, stream}
use moony.TcpConnection.Queued.{SameWork, SameWork-refl}

module _ (E : Epoll) (W : EventFd) where
  -- What a step of the output leaves: a sound world in which the channel asks for EPOLLOUT exactly while
  -- bytes wait, in the state of before, with the given stream; the input, the loop's thread
  -- and the sends that wait in the loop are as before, and the output buffer has filled by no more than the stream has grown.
  pub record Keeps (w : World E W) (bytes : List ℕ) (w' : World E W) : Type 0 where
    pub sound : IsSound E W w'
    pub flows : Flows E W w'
    pub streamed : stream E W w' ≡ bytes
    pub state : w'.conn.state ≡ w.conn.state
    pub input : w'.conn.input ≡ w.conn.input
    pub work : SameWork W w.loop w'.loop
    pub room :
        w'.conn.output.writer_idx + length (stream E W w) ≤ w.conn.output.writer_idx + length bytes

  abbrev pub with_output : World E W → Buffer → World E W
  with_output w b = record w { conn = record w.conn { output = b } }

  pub with_output-IsSound :
      (w : World E W) (b : Buffer) → IsSound E W w → IsValid b → IsSound E W (with_output w b)
  with_output-IsSound w b s v = record {
    connection_set = s.connection_set;
    message_set = s.message_set;
    close_set = s.close_set;
    input = s.input;
    output = v;
    sync = s.sync;
  }

  pub moved-IsSound :
      (w : World E W) (p : Poller E) (c : Channel)
      → IsSound E W w
      → InSync E p c
      → IsSound E W (moved E W w p c)
  moved-IsSound w p c s h = record {
    connection_set = s.connection_set;
    message_set = s.message_set;
    close_set = s.close_set;
    input = s.input;
    output = s.output;
    sync = h;
  }

  waiting_bytes :
      (b : Buffer) (old left : List ℕ)
      → IsValid b
      → contents b ≡ old ++ left
      → 0 < length left
      → not (readable_bytes b == 0) ≡ true
  waiting_bytes b old left v e h =
      ground (arith, length-contents b v, ap (length {A = ℕ}) e, length-append old left)

  -- What `buffered` comes to: the bytes join the stream, and the channel asks for EPOLLOUT.
  pub buffered-Post :
      (left : List ℕ) (w : World E W)
      → IsSound E W w
      → 0 < length left
      → w.conn.output.writer_idx + length left ≤ max_size
      → Post (Refused E W w) (Keeps w (stream E W w ++ left)) (buffered E W left w)
  unfolding buffered
  buffered-Post left w s pos fits =
      let (b, e, v, held, low) = append-contents w.conn.output left s.output fits in
      let some_left = waiting_bytes b (contents w.conn.output) left v held pos in
      let joined : stream E W (with_output w b) ≡ stream E W w ++ left =
        ap (λ l. delivered w.events ++ l) held
        ∙ sym (append_assoc (delivered w.events) (contents w.conn.output) left) in
      rw e (elim (Bool-cases (is_writing w.conn.channel)) [
        | inl on ↦ rw on (record {
          sound = with_output-IsSound w b s v;
          flows = on ∙ sym some_left;
          streamed = joined;
          state = refl;
          input = refl;
          work = SameWork-refl W w.loop;
          room = omega (arith, low, length-append (stream E W w) left);
        })
        | inr off ↦ rw off (
            change_channel-Post E W enable_writing (with_output w b) _ s.sync (λ p sync. record {
              sound = moved-IsSound (with_output w b) p _ (with_output-IsSound w b s v) sync;
              flows =
                  is_writing-added (changed enable_writing w.conn.channel)
                  ∙ is_writing-enable_writing w.conn.channel
                  ∙ sym some_left;
              streamed = joined;
              state = refl;
              input = refl;
              work = SameWork-refl W w.loop;
              room = omega (arith, low, length-append (stream E W w) left);
            }))
      ])
