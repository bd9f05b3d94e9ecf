-- ===== src/TcpConnection/Close.antt =====
-- How a connection of net/tcp_connection/tcp_connection.cc ends.
use moony.Prelude.{
  ◌≡◌, refl, ◌∙◌, true, false, if◌then◌else◌, List, [], ◌∷◌, ◌++◌, none, some, ◌>>=◌, lookup,
  nat_eq, append_assoc, inl, inr, Bool-cases,
}
use moony.Epoll.{Epoll, none_set}
use moony.Channel.{Channel, new, changed, disable_all}
use moony.Poller.{Poller, remove_channel}
use moony.Poller.Sync.{InSync, remove_channel-Removes}
use moony.EventLoop.{EventFd}
use moony.TcpConnection.{
  World, ConnState, disconnected, Event, connection_called, close_called, handle_close,
  connection_destroyed, change_channel, call_connection, call_back, with_channel, is_connected,
  set_state,
}
use moony.TcpConnection.Post.{Post, Post-bind, Post-mono, registered, Refused, change_channel-Post}
use moony.TcpConnection.Sound.{IsSound}
use moony.TcpConnection.Callback.{call_back_lem, state_moved-IsSound}

module _ (E : Epoll) (W : EventFd) where
  -- The channel of `w` is in neither the poller's map nor the interest list.
  pub record IsRemoved (w : World E W) : Type 0 where
    pub idx : w.conn.channel.idx ≡ new
    pub unmapped : lookup w.conn.channel.fd w.poller.channels ≡ none
    pub unwatched : E.interest w.poller.kernel w.conn.channel.fd ≡ none

  -- What `handle_close` leaves: the connection is disconnected, the connection callback has seen it so,
  -- then the close callback was called; no event is asked for, but the descriptor is still in the
  -- interest list.
  pub record Closes (w w' : World E W) : Type 0 where
    pub state : w'.conn.state ≡ disconnected
    pub events : w'.events ≡ w.events ++ (connection_called disconnected ∷ close_called ∷ [])
    pub sound : IsSound E W w'
    pub watched :
        E.interest w'.poller.kernel w'.conn.channel.fd ≡ some (none_set, w'.conn.channel.addr)

  -- `w` after `handle_close`, with the poller `p`.
  abbrev pub closed : World E W → Poller E → World E W
  closed w p = record w {
    poller = p;
    conn = record w.conn { state = disconnected; channel = registered E W disable_all w };
    events = w.events ++ (connection_called disconnected ∷ close_called ∷ []);
  }

  abbrev pub IsClosed : World E W → World E W → Type 0
  IsClosed w w' = (p : Poller E) × InSync E p (registered E W disable_all w) × (w' ≡ closed w p)

  pub handle_close-IsClosed :
      (w : World E W) → IsSound E W w → Post (Refused E W w) (IsClosed w) (handle_close E W w)
  unfolding handle_close call_connection changed
  handle_close-IsClosed w s =
      Post-bind (Refused E W w) Changed (IsClosed w) _ _
        (change_channel-Post E W disable_all
          (record w { conn = record w.conn { state = disconnected } }) Changed s.sync
          (λ p sync. (p, sync, refl)))
        finish
    where
      c : Channel
      c = registered E W disable_all w

      Changed : World E W → Type 0
      Changed w' =
          (p : Poller E) × InSync E p c
          × (w'
              ≡ record w { poller = p; conn = record w.conn { state = disconnected; channel = c } })

      finish :
          (w' : World E W)
          → Changed w'
          → Post
              (Refused E W w)
              (IsClosed w)
              (call_connection E W w' >>= λ w''. call_back E W w''.conn.close_set close_called w'')
      finish w' (p, sync, e) =
          rw
            (
              e,
              call_back_lem E W w.conn.connection_set (connection_called disconnected) _
                  s.connection_set,
              call_back_lem E W w.conn.close_set close_called _ s.close_set,
              append_assoc w.events (connection_called disconnected ∷ []) (close_called ∷ []),
            )
            (p, sync, refl)

  pub closed-IsSound :
      (w : World E W) (p : Poller E)
      → IsSound E W w
      → InSync E p (registered E W disable_all w)
      → IsSound E W (closed w p)
  closed-IsSound w p s sync =
      state_moved-IsSound E W w disconnected _ p (registered E W disable_all w) s sync

  -- `handle_close` on a sound connection, in whatever state, leaves it sound and disconnected and calls
  -- the connection callback, then the close callback; the descriptor stays in the interest list, with
  -- no events asked for. Only the kernel's refusal to take the events back ends the process.
  pub handle_close-Closes :
      (w : World E W) → IsSound E W w → Post (Refused E W w) (Closes w) (handle_close E W w)
  unfolding changed
  handle_close-Closes w s =
      Post-mono (Refused E W w) (IsClosed w) (Closes w) (handle_close E W w)
        (handle_close-IsClosed w s)
        (λ w' (p, sync, e). rw e (record {
          state = refl;
          events = refl;
          sound = closed-IsSound w p s sync;
          watched = sync.1;
        }))

  -- What `connection_destroyed` leaves: the channel is out of the poller and the interest list, and the
  -- connection callback has run once more exactly if the connection was connected.
  pub record Destroys (w w' : World E W) : Type 0 where
    pub events : w'.events ≡ (
        if is_connected w.conn.state
        then w.events ++ (connection_called disconnected ∷ [])
        else w.events)
    pub state : w'.conn.state ≡ (if is_connected w.conn.state then disconnected else w.conn.state)
    pub removed : IsRemoved w'

  removes-Destroys :
      (R : Type 0) (w : World E W) (st : ConnState) (es : List Event) (p : Poller E) (c : Channel)
      → IsSound E W w
      → InSync E p c
      → es ≡ (
          if is_connected w.conn.state
          then w.events ++ (connection_called disconnected ∷ [])
          else w.events)
      → st ≡ (if is_connected w.conn.state then disconnected else w.conn.state)
      → let u : World E W = record w {
        poller = p;
        conn = record w.conn { state = st; channel = c };
        events = es;
      } in
        Post R (Destroys w) (with_channel E W u (remove_channel E p c))
  unfolding with_channel
  removes-Destroys R w st es p c s h q r =
      let (p', e, sync, _) = remove_channel-Removes E p c h in
      rw e (record {
        events = q;
        state = r;
        removed = record { idx = refl; unmapped = sync.0; unwatched = sync.1 };
      })

  down_Destroys :
      (R : Type 0) (w : World E W)
      → IsSound E W w
      → is_connected w.conn.state ≡ false
      → Post R (Destroys w) (connection_destroyed E W w)
  unfolding connection_destroyed
  down_Destroys R w s down = rw down (
      removes-Destroys R w w.conn.state w.events w.poller w.conn.channel s s.sync (rw down)
        (rw down))

  -- `connection_destroyed` on a sound connection takes its descriptor out of the poller's map and the
  -- interest list, and where the connection was connected, and only there, disconnects it and calls
  -- the connection callback. Only the kernel's refusal to take its events back ends the process.
  pub connection_destroyed-Destroys :
      (w : World E W)
      → IsSound E W w
      → Post (Refused E W w) (Destroys w) (connection_destroyed E W w)
  unfolding connection_destroyed set_state call_connection changed
  connection_destroyed-Destroys w s = elim (Bool-cases (is_connected w.conn.state)) [
    | inl up ↦ rw up (
        Post-bind (Refused E W w) Called (Destroys w) _ _
          (Post-bind (Refused E W w) Changed Called _ _ taken_back called) (removed up))
    | inr down ↦ down_Destroys (Refused E W w) w s down
  ]
    where
      c : Channel
      c = registered E W disable_all w

      closing : List Event → Poller E → World E W
      closing es p = record w {
        poller = p;
        conn = record w.conn { state = disconnected; channel = c };
        events = es;
      }

      Changed : World E W → Type 0
      Changed w' = (p : Poller E) × InSync E p c × (w' ≡ closing w.events p)

      Called : World E W → Type 0
      Called w' =
          (p : Poller E) × InSync E p c
          × (w' ≡ closing (w.events ++ connection_called disconnected ∷ []) p)

      taken_back : Post (Refused E W w) Changed (
          change_channel E W disable_all
            (record w { conn = record w.conn { state = disconnected } }))
      taken_back =
          change_channel-Post E W disable_all
            (record w { conn = record w.conn { state = disconnected } }) Changed s.sync
            (λ p sync. (p, sync, refl))

      called : (w' : World E W) → Changed w' → Post (Refused E W w) Called (call_connection E W w')
      called w' (p, sync, e) =
          rw
            (
              e,
              call_back_lem E W w.conn.connection_set (connection_called disconnected) _
                  s.connection_set,
            )
            (p, sync, refl)

      removed :
          is_connected w.conn.state ≡ true
          → (w' : World E W) → Called w'
          → Post
              (Refused E W w)
              (Destroys w)
              (with_channel E W w' (remove_channel E w'.poller w'.conn.channel))
      removed up w' (p, sync, e) =
          rw e (removes-Destroys (Refused E W w) w disconnected _ p c s sync (rw up) (rw up))

  pub close-destroy :
      (w : World E W)
      → IsSound E W w
      → Post
          (Refused E W w)
          (λ w'.
            (w'.events ≡ w.events ++ (connection_called disconnected ∷ close_called ∷ []))
            × (w'.conn.state ≡ disconnected)
            × IsRemoved w')
          (handle_close E W w >>= connection_destroyed E W)
  close-destroy w s =
      Post-bind (Refused E W w) (Closes w) _ (handle_close E W w) (connection_destroyed E W)
        (handle_close-Closes w s)
        (λ w' k.
          Post-mono (Refused E W w) (Destroys w') _ (connection_destroyed E W w')
            (down_Destroys (Refused E W w) w' k.sound (rw k.state))
            (λ w'' d. ((rw k.state at d.events) ∙ k.events, rw k.state at d.state, d.removed)))
