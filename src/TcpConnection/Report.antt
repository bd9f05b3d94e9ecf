-- ===== src/TcpConnection/Report.antt =====
-- The events that epoll reports for a connection of net/tcp_connection/tcp_connection.cc: the dispatch of
-- net/channel/channel.cc runs the callbacks that the connection has set on its channel.
use moony.Prelude.{ℕ, ◌≡◌, refl, Bool, true, false, ◌&&◌, List, [], ◌∷◌, Outcome, ok, ◌>>=◌, ◌∙◌}
use moony.Epoll.{Epoll, Mask}
use moony.Channel.{
  Channel, Callback, close_callback, error_callback, read_callback, write_callback, handle_event,
  is_writing, changed, disable_all,
}
use moony.Channel.Dispatch.{due, permitted}
use moony.EventLoop.{EventFd}
use moony.Buffer.{Incoming, received, read_error, Sent}
use moony.TcpConnection.{World, handle_close, handle_read, handle_write}
use moony.TcpConnection.Post.{Post, registered, is_writing-added, is_writing-disable_all}
use moony.TcpConnection.Sound.{IsSound}

-- Is the callback due, and may it run?
abbrev pub may_call : (ℕ → Bool) → Channel → Callback → Bool
may_call alive c cb = permitted alive c && due c cb

module _ (E : Epoll) (W : EventFd) where
  -- What the user's message callback makes of the connection comes behind a read of at least one byte.
  unfoldable pub answered :
      (World E W → Outcome (World E W)) → Incoming → World E W → Outcome (World E W)
  answered user (received (x ∷ xs)) w = user w
  answered user (received []) w = ok w
  answered user (read_error errno) w = ok w

  -- The method that the constructor binds to each callback, with what the user's message callback does,
  -- and with the kernel's answers to its `readv` and its `write`; `handle_error` only logs.
  unfoldable pub run_callback :
      (World E W → Outcome (World E W))
      → Callback
      → Incoming
      → (List ℕ → Sent)
      → World E W
      → Outcome (World E W)
  unfolding answered
  run_callback user close_callback incoming write w = handle_close E W w
  run_callback user error_callback incoming write w = ok w
  run_callback user read_callback incoming write w =
      handle_read E W incoming w >>= answered user incoming
  run_callback user write_callback incoming write w = handle_write E W write w

  unfoldable pub run_callbacks :
      (World E W → Outcome (World E W))
      → List Callback
      → Incoming
      → (List ℕ → Sent)
      → World E W
      → Outcome (World E W)
  run_callbacks user [] incoming write w = ok w
  run_callbacks user (cb ∷ cbs) incoming write w =
      run_callback user cb incoming write w >>= run_callbacks user cbs incoming write

  -- `set_revents`
  abbrev pub with_revents : Mask → World E W → World E W
  with_revents m w = record w {
    conn = record w.conn { channel = record w.conn.channel { revents = m } };
  }

  -- `handle_event` for the events `m`.
  unfoldable pub on_events :
      (World E W → Outcome (World E W))
      → (ℕ → Bool)
      → Mask
      → Incoming
      → (List ℕ → Sent)
      → World E W
      → Outcome (World E W)
  unfolding run_callbacks run_callback
  on_events user alive m incoming write w =
      run_callbacks user (handle_event alive (with_revents m w).conn.channel) incoming write
        (with_revents m w)

  -- A hang-up, with nothing to read.
  abbrev pub IsHangUp : Mask → Type 0
  IsHangUp m = (m.epollhup ≡ true) × (m.epollin ≡ false) × (m.epollpri ≡ false)

  -- The connection's channel may run its callbacks, the close callback among them.
  abbrev pub Answers : (ℕ → Bool) → Channel → Type 0
  Answers alive c = (permitted alive c ≡ true) × (c.close_set ≡ true)

  pub handle_write_off :
      (write : List ℕ → Sent) (w : World E W)
      → is_writing w.conn.channel ≡ false
      → handle_write E W write w ≡ ok w
  unfolding handle_write
  handle_write_off write w off = rw off refl

  pub closed_off : (w : World E W) → is_writing (registered E W disable_all w) ≡ false
  closed_off w =
      is_writing-added (changed disable_all w.conn.channel) ∙ is_writing-disable_all w.conn.channel

  pub revents-IsSound : (m : Mask) (w : World E W) → IsSound E W w → IsSound E W (with_revents m w)
  revents-IsSound m w s = record {
    connection_set = s.connection_set;
    message_set = s.message_set;
    close_set = s.close_set;
    input = s.input;
    output = s.output;
    sync = s.sync;
  }
