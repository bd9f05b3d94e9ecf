-- ===== src/TcpConnection/Sound.antt =====
-- The invariant of a connection of net/tcp_connection/tcp_connection.cc, and its output as a stream.
use moony.Prelude.{ℕ, refl, sym, ap, ◌∙◌, append_assoc, ◌==◌, ◌≡◌, true, not, List, [], ◌∷◌, ◌++◌}
use moony.Epoll.{Epoll}
use moony.Channel.{is_writing}
use moony.Poller.Sync.{InSync}
use moony.EventLoop.{EventFd}
use moony.Buffer.{readable_bytes}
use moony.Buffer.Valid.{IsValid}
use moony.Buffer.Room.{contents}
use moony.TcpConnection.{World, Event, written}

-- The bytes that the kernel has taken, in order.
abbrev pub delivered : List Event → List ℕ
delivered [] = []
delivered (written bytes ∷ es) = bytes ++ delivered es
delivered (_ ∷ es) = delivered es

pub delivered-append : (es fs : List Event) → delivered (es ++ fs) ≡ delivered es ++ delivered fs
delivered-append [] fs = refl
delivered-append (written bytes ∷ es) fs =
    ap (λ l. bytes ++ l) (delivered-append es fs)
    ∙ sym (append_assoc bytes (delivered es) (delivered fs))
delivered-append (Event.shut_down_write ∷ es) fs = delivered-append es fs
delivered-append (Event.connection_called s ∷ es) fs = delivered-append es fs
delivered-append (Event.message_called ∷ es) fs = delivered-append es fs
delivered-append (Event.close_called ∷ es) fs = delivered-append es fs

module _ (E : Epoll) (W : EventFd) where
  -- The callbacks that the server sets are set, the buffers are valid, and the channel agrees with the
  -- poller.
  pub record IsSound (w : World E W) : Type 0 where
    pub connection_set : w.conn.connection_set ≡ true
    pub message_set : w.conn.message_set ≡ true
    pub close_set : w.conn.close_set ≡ true
    pub input : IsValid w.conn.input
    pub output : IsValid w.conn.output
    pub sync : InSync E w.poller w.conn.channel

  -- The channel asks for EPOLLOUT exactly while there are bytes to write.
  abbrev pub Flows : World E W → Type 0
  Flows w = is_writing w.conn.channel ≡ not (readable_bytes w.conn.output == 0)

  -- The bytes that the kernel has taken, then those that wait for it.
  abbrev pub stream : World E W → List ℕ
  stream w = delivered w.events ++ contents w.conn.output
