-- ===== src/TcpConnection/Graceful.antt =====
-- `shutdown` of net/tcp_connection/tcp_connection.cc while bytes still wait, and the `handle_write`s
-- that follow.
use moony.Prelude.{
  ℕ, ◌≡◌, inl, inr, refl, ap, ◌∙◌, true, if◌then◌else◌, ◌==◌, List, [], ◌∷◌, ◌++◌, Outcome, ok,
  ◌>>=◌, append-nil, Bool-cases, arith, length,
}
use moony.Epoll.{Epoll}
use moony.EventLoop.{EventFd, in_loop_thread}
use moony.Buffer.{Sent, readable_bytes}
use moony.Buffer.Room.{contents}
use moony.TcpConnection.{
  World, Event, shut_down_write, connected, disconnecting, is_connected, handle_write, emit,
  is_disconnecting, shutdown, shutdown_in_loop, set_state,
}
use moony.TcpConnection.Post.{Post, Post-bind, Post-mono, Refused}
use moony.TcpConnection.Sound.{delivered, delivered-append, IsSound, Flows, stream}
use moony.TcpConnection.Output.{Keeps}
use moony.TcpConnection.Queued.{SameWork-refl, SameWork-trans}
use moony.TcpConnection.Write.{handle_write-Keeps}
use moony.TcpConnection.Session.{Post-forget}
use moony.TcpConnection.Closing.{
  shutdowns, shutdowns-append, Post-both, Closes, handle_write-Closes,
}

module _ (E : Epoll) (W : EventFd) where
  -- Reports of EPOLLOUT, each with the kernel's answer.
  unfoldable pub flush_all : List (List ℕ → Sent) → World E W → Outcome (World E W)
  flush_all [] w = ok w
  flush_all (write ∷ writes) w = handle_write E W write w >>= flush_all writes

  -- No byte is lost, and the writing side is shut exactly if none waits.
  abbrev pub EndsWell : World E W → World E W → Type 0
  EndsWell w v = (stream E W v ≡ stream E W w) × Closes E W v

  Keeps-join :
      (w u v : World E W)
      → Keeps E W w (stream E W w) u
      → Keeps E W u (stream E W u) v
      → Keeps E W w (stream E W w) v
  Keeps-join w u v h k = record {
    sound = k.sound;
    flows = k.flows;
    streamed = k.streamed ∙ h.streamed;
    state = k.state ∙ h.state;
    input = k.input ∙ h.input;
    work = SameWork-trans W w.loop u.loop v.loop h.work k.work;
    room = omega (arith, h.room, k.room, ap (length {A = ℕ}) h.streamed);
  }

  pub flush_all-EndsWell :
      (writes : List (List ℕ → Sent)) (w : World E W)
      → IsSound E W w
      → Flows E W w
      → is_disconnecting w.conn.state ≡ true
      → Closes E W w
      → Post (Unit {0}) (EndsWell w) (flush_all writes w)
  unfolding flush_all
  flush_all-EndsWell [] w s f closing h = (refl, h)
  flush_all-EndsWell (write ∷ writes) w s f closing h =
      Post-bind (Unit {0}) _ _ (handle_write E W write w) (flush_all writes)
        (Post-forget (Refused E W w) _ (handle_write E W write w) (
          Post-both (Refused E W w) (Refused E W w) _ _ (handle_write E W write w)
            (handle_write-Keeps E W write w s f) (handle_write-Closes E W write w s f closing h)))
        (λ u (k, c).
          Post-mono (Unit {0}) _ _ (flush_all writes u)
            (flush_all-EndsWell writes u k.sound k.flows (ap is_disconnecting k.state ∙ closing) c)
            (λ v (e, d). (e ∙ k.streamed, d)))

  pub flush_all-Keeps :
      (writes : List (List ℕ → Sent)) (w : World E W)
      → IsSound E W w
      → Flows E W w
      → Post (Unit {0}) (Keeps E W w (stream E W w)) (flush_all writes w)
  unfolding flush_all
  flush_all-Keeps [] w s f = record {
    sound = s;
    flows = f;
    streamed = refl;
    state = refl;
    input = refl;
    work = SameWork-refl W w.loop;
    room = omega arith;
  }
  flush_all-Keeps (write ∷ writes) w s f =
      Post-bind (Unit {0}) _ _ (handle_write E W write w) (flush_all writes)
        (Post-forget (Refused E W w) _ (handle_write E W write w)
          (handle_write-Keeps E W write w s f))
        (λ u k.
          Post-mono (Unit {0}) _ _ (flush_all writes u) (flush_all-Keeps writes u k.sound k.flows)
            (λ v. Keeps-join w u v k))

  abbrev pub closing_world : World E W → List Event → World E W
  closing_world w es = record w { conn = record w.conn { state = disconnecting }; events = es }

  shutdown_own :
      (tid : ℕ) (w : World E W)
      → w.conn.state ≡ connected
      → w.loop.thread_id ≡ tid
      → shutdown E W tid w ≡ shutdown_in_loop E W (closing_world w w.events)
  unfolding shutdown set_state in_loop_thread
  shutdown_own tid w e t =
      let up : is_connected w.conn.state ≡ true = ap is_connected e in
      let own : (w.loop.thread_id == tid) ≡ true = ground arith in rw (up, own) refl

  pub closing_world-IsSound :
      (w : World E W) (es : List Event) → IsSound E W w → IsSound E W (closing_world w es)
  closing_world-IsSound w es s = record {
    connection_set = s.connection_set;
    message_set = s.message_set;
    close_set = s.close_set;
    input = s.input;
    output = s.output;
    sync = s.sync;
  }

  -- What `shutdown_in_loop` writes into the history.
  pub shutdown_in_loop_world :
      (w : World E W)
      → Flows E W w
      → shutdowns w.events ≡ 0
      → (es : List Event) × (shutdown_in_loop E W w ≡ record w { events = es })
        × (delivered es ≡ delivered w.events)
        × (shutdowns es ≡ (if readable_bytes w.conn.output == 0 then 1 else 0))
  unfolding shutdown_in_loop emit
  shutdown_in_loop_world w f zero = elim (Bool-cases (readable_bytes w.conn.output == 0)) [
    | inl empty ↦ (
      w.events ++ shut_down_write ∷ [],
      rw (f, empty) refl,
      delivered-append w.events (shut_down_write ∷ []) ∙ append-nil (delivered w.events),
      rw (empty, shutdowns-append w.events (shut_down_write ∷ []), zero) refl,
    )
    | inr waiting ↦ (w.events, rw (f, waiting) refl, refl, rw (waiting, zero) refl)
  ]

  -- What `shutdown` writes into the history.
  pub shutdown_world :
      (tid : ℕ) (w : World E W)
      → Flows E W w
      → w.conn.state ≡ connected
      → w.loop.thread_id ≡ tid
      → shutdowns w.events ≡ 0
      → (es : List Event) × (shutdown E W tid w ≡ closing_world w es)
        × (delivered es ≡ delivered w.events)
        × (shutdowns es ≡ (if readable_bytes w.conn.output == 0 then 1 else 0))
  shutdown_world tid w f e t zero =
      let (es, r, d, n) = shutdown_in_loop_world (closing_world w w.events) f zero in
      (es, shutdown_own tid w e t ∙ r, d, n)

  -- `shutdown` in the loop's thread, of a sound and connected connection that asks for EPOLLOUT exactly
  -- while bytes wait and whose writing side was never shut, and then any reports of EPOLLOUT, whatever
  -- the kernel answers: the bytes that it has taken, then those that wait, are those of before, and the
  -- writing side is shut, once, exactly if none waits any longer. Only `exit` ends them early.
  pub shutdown_graceful :
      (tid : ℕ) (writes : List (List ℕ → Sent)) (w : World E W)
      → IsSound E W w
      → Flows E W w
      → w.conn.state ≡ connected
      → w.loop.thread_id ≡ tid
      → shutdowns w.events ≡ 0
      → Post (Unit {0}) (EndsWell w) (flush_all writes (shutdown E W tid w))
  shutdown_graceful tid writes w s f e t zero =
      let (es, r, d, n) = shutdown_world tid w f e t zero in
      rw r (
        Post-mono (Unit {0}) _ _ (flush_all writes (closing_world w es))
          (flush_all-EndsWell writes (closing_world w es) (closing_world-IsSound w es s) f refl n)
          (λ v (same, c). (same ∙ ap (λ l. l ++ contents w.conn.output) d, c)))
