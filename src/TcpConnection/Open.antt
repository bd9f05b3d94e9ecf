-- ===== src/TcpConnection/Open.antt =====
-- How a connection of net/tcp_connection/tcp_connection.cc begins, and how its writing side is shut down.
use moony.Prelude.{
  ℕ, ◌≡◌, refl, ap, true, if◌then◌else◌, ◌==◌, [], ◌∷◌, ◌++◌, false, ◌⊎◌, stop, exit_process,
  bad_function_call, some, nat_eq, arith, inl, inr, Bool-cases,
}
use moony.Epoll.{Epoll}
use moony.Channel.{Channel, added, changed, enable_reading, tie_to, is_reading, is_writing}
use moony.Poller.{Poller}
use moony.Poller.Sync.{InSync, change-Settles}
use moony.EventLoop.{EventFd, in_loop_thread}
use moony.Buffer.{readable_bytes}
use moony.TcpConnection.{
  World, connected, disconnecting, connection_called, shut_down_write, connection_established,
  call_connection, change_channel, with_channel, call_back, emit, shutdown, shutdown_in_loop,
  is_connected, set_state,
}
use moony.TcpConnection.Post.{Post, Post-bind, Refused, change_channel-Post}
use moony.TcpConnection.Sound.{IsSound, Flows}
use moony.TcpConnection.Callback.{call_back_lem, state_moved-IsSound}

module _ (E : Epoll) (W : EventFd) where
  -- What `connection_established` leaves: the connection is connected, its channel is tied to it and is
  -- watched for reading, and the connection callback has seen it so; the buffers and the
  -- loop are as before, and so is what the channel asks for of EPOLLOUT.
  pub record Establishes (w w' : World E W) : Type 0 where
    pub state : w'.conn.state ≡ connected
    pub events : w'.events ≡ w.events ++ (connection_called connected ∷ [])
    pub tied : (w'.conn.channel.tie ≡ some w.conn.self) × (w'.conn.channel.tied ≡ true)
    pub reading : is_reading w'.conn.channel ≡ true
    pub watched :
        E.interest w'.poller.kernel w'.conn.channel.fd
        ≡ some (w'.conn.channel.events, w'.conn.channel.addr)
    pub sound : IsSound E W w'
    pub output : w'.conn.output ≡ w.conn.output
    pub input : w'.conn.input ≡ w.conn.input
    pub loop : w'.loop ≡ w.loop
    pub writing : is_writing w'.conn.channel ≡ is_writing w.conn.channel

  -- `connection_established` on a sound connection leaves it sound and connected, its channel tied to
  -- it and watched by the kernel for reading, and calls the connection callback; the buffers, the loop
  -- and what the channel asks for of EPOLLOUT are as they were. Only the kernel's refusal to watch its
  -- descriptor ends the process.
  pub connection_established-Establishes :
      (w : World E W)
      → IsSound E W w
      → Post (Refused E W w) (Establishes w) (connection_established E W w)
  unfolding connection_established call_connection tie_to changed is_reading is_writing
  connection_established-Establishes w s =
      Post-bind (Refused E W w) Changed (Establishes w) _ _
        (change_channel-Post E W enable_reading
          (record w {
            conn = record w.conn { state = connected; channel = tie_to w.conn.channel w.conn.self };
          })
          Changed s.sync (λ p sync. (p, sync, refl)))
        finish
    where
      c : Channel
      c = record (changed enable_reading (tie_to w.conn.channel w.conn.self)) { idx = added }

      Changed : World E W → Type 0
      Changed w' =
          (p : Poller E) × InSync E p c
          × (w' ≡ record w { poller = p; conn = record w.conn { state = connected; channel = c } })

      finish :
          (w' : World E W)
          → Changed w'
          → Post (Refused E W w) (Establishes w) (call_connection E W w')
      finish w' (p, sync, e) =
          rw
            (
              e,
              call_back_lem E W w.conn.connection_set (connection_called connected) _
                  s.connection_set,
            )
            (record {
              state = refl;
              events = refl;
              tied = (refl, refl);
              reading = ground arith;
              watched = sync.1;
              sound = state_moved-IsSound E W w connected _ p c s sync;
              output = refl;
              input = refl;
              loop = refl;
              writing = ground arith;
            })

  pub connection_established-unset :
      (w : World E W)
      → w.conn.connection_set ≡ false
      → InSync E w.poller w.conn.channel
      → (connection_established E W w ≡ stop bad_function_call)
        ⊎ (connection_established E W w ≡ stop exit_process)
  unfolding connection_established call_connection tie_to change_channel with_channel call_back
  connection_established-unset w unset h =
      elim (change-Settles E enable_reading w.poller (tie_to w.conn.channel w.conn.self) h) [
        | inl (e, _) ↦ inr (rw (e, with_channel))
        | inr (p, e, _, _) ↦ inl (rw (e, with_channel, unset))
      ]

  -- `shutdown` in the loop's thread, of a connected connection that asks for EPOLLOUT exactly while
  -- bytes wait, ends the writing side at once exactly if none wait, and leaves it disconnecting.
  pub shutdown_lem :
      (tid : ℕ) (w : World E W)
      → Flows E W w
      → w.conn.state ≡ connected
      → w.loop.thread_id ≡ tid
      → ((shutdown E W tid w).conn.state ≡ disconnecting)
        × ((shutdown E W tid w).events ≡ (
            if readable_bytes w.conn.output == 0
            then w.events ++ shut_down_write ∷ []
            else w.events))
  unfolding shutdown shutdown_in_loop emit set_state in_loop_thread
  shutdown_lem tid w f e t =
      let up : is_connected w.conn.state ≡ true = ap is_connected e in
      let own : (w.loop.thread_id == tid) ≡ true = ground arith in
      elim (Bool-cases (readable_bytes w.conn.output == 0)) [
        | inl empty ↦ rw (up, own, f, empty) (refl, refl)
        | inr waiting ↦ rw (up, own, f, waiting) (refl, refl)
      ]
