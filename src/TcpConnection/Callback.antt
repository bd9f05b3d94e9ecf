-- ===== src/TcpConnection/Callback.antt =====
-- The calls of the callbacks of net/tcp_connection/tcp_connection.cc, and the soundness of a connection
-- whose state changed.
use moony.Prelude.{◌≡◌, Bool, true, List, [], ◌∷◌, ◌++◌, ok, nat_eq}
use moony.Epoll.{Epoll}
use moony.Channel.{Channel}
use moony.Poller.{Poller}
use moony.Poller.Sync.{InSync}
use moony.EventLoop.{EventFd}
use moony.TcpConnection.{World, ConnState, Event, call_back, emit}
use moony.TcpConnection.Sound.{IsSound}

module _ (E : Epoll) (W : EventFd) where
  pub state_moved-IsSound :
      (w : World E W) (st : ConnState) (es : List Event) (p : Poller E) (c : Channel)
      → IsSound E W w
      → InSync E p c
      → IsSound E W
          (record w { poller = p; conn = record w.conn { state = st; channel = c }; events = es })
  state_moved-IsSound w st es p c s h = record {
    connection_set = s.connection_set;
    message_set = s.message_set;
    close_set = s.close_set;
    input = s.input;
    output = s.output;
    sync = h;
  }

  pub call_back_lem :
      (present : Bool) (e : Event) (w : World E W)
      → present ≡ true
      → call_back E W present e w ≡ ok (record w { events = w.events ++ e ∷ [] })
  unfolding call_back emit
  call_back_lem present e w h = rw h
