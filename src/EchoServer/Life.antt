-- ===== src/EchoServer/Life.antt =====
-- A connection of sample/sample.cc from its `connection_established` to its `connection_destroyed`, in
-- its loop's thread.
use moony.Prelude.{
  ℕ, ◌+◌, ◌≤◌, ◌≡◌, ap, ap₂, ◌∙◌, true, none, List, [], ◌∷◌, ◌++◌, Outcome, ◌>>=◌, arith, length,
  lookup, nat_eq, append-nil,
}
use moony.Epoll.{Epoll}
use moony.Poller.{Poller}
use moony.EventLoop.{EventFd, Loop}
use moony.Buffer.{Buffer, sent, received, max_size, init, writable_bytes, cheap_prepend}
use moony.Buffer.Room.{contents}
use moony.TcpConnection.{
  World, Task, Event, disconnected, connection_called, close_called, connection_established,
  connection_destroyed, handle_close,
}
use moony.TcpConnection
use moony.TcpConnection.Post.{Post, Post-bind, Post-mono, Refused}
use moony.TcpConnection.Sound.{Flows, stream, delivered, delivered-append}
use moony.TcpConnection.Open.{Establishes}
use moony.TcpConnection.Close.{IsRemoved, close-destroy}
use moony.TcpConnection.End.{with_input, with_input-IsSound, handle_read-eq-close}
use moony.TcpConnection.Session.{Post-forget}
use moony.TcpServer.{Server, make_conn}
use moony.TcpServer.Handoff.{first_world, first_world-Establishes}
use moony.EchoServer.{on_readable}
use moony.EchoServer.Session.{Call, all_read, AreFine, IsServed, make_calls, make_calls-Serves}

module _ (E : Epoll) (W : EventFd) where
  -- The connection is established, makes the calls, reads the end of the stream, and is destroyed.
  pub live : ℕ → List Call → World E W → Outcome (World E W)
  live tid cs w = do
    up ← connection_established E W w
    served ← make_calls E W tid cs up
    closed ← on_readable E W tid (received []) (λ bytes. sent 0) served
    connection_destroyed E W closed

  -- The kernel has taken the first of the bytes, in order; the connection is down, and its descriptor is in
  -- neither the poller's map nor the interest list.
  pub record IsOver (bytes : List ℕ) (w : World E W) : Type 0 where
    pub taken : (rest : List ℕ) × (delivered w.events ++ rest ≡ bytes)
    pub state : w.conn.state ≡ disconnected
    pub removed : IsRemoved E W w

  established-IsServed :
      (s : Server) (self addr sockfd tid : ℕ) (p : Poller E) (l : Loop W Task) (w' : World E W)
      → l.thread_id ≡ tid
      → Establishes E W (first_world E W s self addr sockfd p l) w'
      → Flows E W w'
      → IsServed E W tid 1016 w'
        × (stream E W w' ≡ [])
        × (w'.conn.output.writer_idx ≡ cheap_prepend)
  unfolding make_conn TcpConnection.create init writable_bytes
  established-IsServed s self addr sockfd tid p l w' own e f = (
    record {
      sound = e.sound;
      flows = f;
      state = e.state;
      own = ap (λ (m : Loop W Task). m.thread_id) e.loop ∙ own;
      used_up = ap contents e.input;
      room = omega (arith, ap writable_bytes e.input);
    },
    ap₂ ◌++◌ (ap delivered e.events) (ap contents e.output),
    ap (λ (b : Buffer). b.writer_idx) e.output,
  )

  -- What `handle_close` and `connection_destroyed` leave of `u`.
  abbrev Ended : World E W → World E W → Type 0
  Ended u w =
      (w.events ≡ u.events ++ (connection_called disconnected ∷ close_called ∷ []))
      × (w.conn.state ≡ disconnected)
      × IsRemoved E W w

  -- The end of the stream, and the destruction of the connection that it closes.
  ended_lem :
      (tid room : ℕ) (w : World E W) (bytes : List ℕ)
      → IsServed E W tid room w
      → stream E W w ≡ bytes
      → Post
          (Unit {0})
          (IsOver bytes)
          (on_readable E W tid (received []) (λ b. sent 0) w >>= connection_destroyed E W)
  unfolding on_readable with_input
  ended_lem tid room w bytes h e =
      let (b, v, same) = handle_read-eq-close E W w h.sound in
      let u = with_input E W w b in
      rw same (
        Post-forget (Refused E W u) (IsOver bytes) (handle_close E W u >>= connection_destroyed E W)
          (Post-mono (Refused E W u) (Ended u) (IsOver bytes)
            (handle_close E W u >>= connection_destroyed E W)
            (close-destroy E W u (with_input-IsSound E W w b h.sound v))
            (λ w' (events, down, gone). record {
              taken = (
                contents w.conn.output,
                ap (λ l. l ++ contents w.conn.output)
                      (ap delivered events
                        ∙ delivered-append w.events
                            (connection_called disconnected ∷ close_called ∷ [])
                        ∙ append-nil (delivered w.events))
                    ∙ e,
              );
              state = down;
              removed = gone;
            })))

  -- The life of a connection of the echo server, whose descriptor its loop's poller does not know, on a
  -- server with a connection and a message callback: it is established, any callbacks are made, of
  -- which each read delivers at least one byte and no more than 1016, no write of a `send` meets EPIPE
  -- or ECONNRESET and the output buffer stays within its largest size, then it reads the end of the
  -- stream and is destroyed. The kernel has taken the first of the bytes that were read, in order and
  -- none twice; the connection is down, and its descriptor is in neither the poller's map nor the
  -- interest list. Only `exit` ends it early.
  pub live-IsOver :
      (s : Server) (self addr sockfd tid : ℕ) (p : Poller E) (l : Loop W Task) (cs : List Call)
      → s.connection_set ≡ true
      → s.message_set ≡ true
      → lookup sockfd p.channels ≡ none
      → E.interest p.kernel sockfd ≡ none
      → l.thread_id ≡ tid
      → cheap_prepend + length (all_read cs) ≤ max_size
      → AreFine 1016 cs
      → Post
          (Unit {0})
          (IsOver (all_read cs))
          (live tid cs (first_world E W s self addr sockfd p l))
  unfolding live
  live-IsOver s self addr sockfd tid p l cs hc hm free unwatched own fits fine =
      let w = first_world E W s self addr sockfd p l in
      Post-bind (Unit {0}) _ _ (connection_established E W w) _
        (Post-forget (Refused E W w) _ (connection_established E W w)
          (first_world-Establishes E W s self addr sockfd p l hc hm free unwatched))
        (λ up (e, f).
          let (served, nothing, low) = established-IsServed s self addr sockfd tid p l up own e f in
          Post-bind (Unit {0}) _ _ (make_calls E W tid cs up) _
            (make_calls-Serves E W tid 1016 cs up served (omega arith) (omega (arith, fits, low))
              fine)
            (λ u h.
              ended_lem tid 1016 u (all_read cs) h.served
                (h.streamed ∙ ap (λ bytes. bytes ++ all_read cs) nothing)))
