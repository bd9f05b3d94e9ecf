-- ===== src/TcpConnection/Write.antt =====
-- `handle_write` and `shutdown_in_loop` of net/tcp_connection/tcp_connection.cc.
use moony.Prelude.{
  arith, ℕ, ◌≡◌, inl, inr, refl, ap, ◌∙◌, Bool, true, false, if◌then◌else◌, ltb, ◌==◌, List, [],
  ◌∷◌, ◌++◌, take, append-nil, append_assoc, take-append-drop, Bool-cases,
}
use moony.Epoll.{Epoll}
use moony.Channel.{Channel, is_writing, changed, disable_writing}
use moony.Poller.{Poller}
use moony.Poller.Sync.{InSync}
use moony.EventLoop.{EventFd}
use moony.Buffer.{Sent, sent, write_error, readable_bytes, retrieve}
use moony.Buffer.Valid.{retrieve-IsValid}
use moony.Buffer.Room.{contents}
use moony.Buffer.Content.{contents-retrieve, writer_idx-retrieve-le}
use moony.Buffer.ReadFd.{write_fd_lem}
use moony.TcpConnection.{
  World, Event, written, shut_down_write, handle_write, wrote, retrieved, drained, emit,
  queue_write_complete, is_disconnecting, shutdown_in_loop,
}
use moony.TcpConnection.Post.{
  Post, Post-bind, Post-mono, moved, registered, Refused, change_channel-Post,
  is_writing-disable_writing, is_writing-added,
}
use moony.TcpConnection.Sound.{delivered, delivered-append, IsSound, Flows, stream}
use moony.TcpConnection.Queued.{SameWork-refl}
use moony.TcpConnection.Output.{Keeps, with_output-IsSound, moved-IsSound}
use moony.TcpConnection.Attempt.{aside, aside-IsSound, queue_write_complete_lem}

module _ (E : Epoll) (W : EventFd) where
  pub shutdown_in_loop_lem :
      (w : World E W)
      → (es : List Event) × (shutdown_in_loop E W w ≡ record w { events = es })
        × (delivered es ≡ delivered w.events)
  unfolding shutdown_in_loop
  shutdown_in_loop_lem w = elim (Bool-cases (is_writing w.conn.channel)) [
    | inl on ↦ (w.events, rw on, refl)
    | inr off ↦ (
      w.events ++ shut_down_write ∷ [],
      rw off,
      delivered-append w.events (shut_down_write ∷ []) ∙ append-nil (delivered w.events),
    )
  ]

  pub closing_lem :
      (b : Bool) (w : World E W)
      → (es : List Event) × ((if b then shutdown_in_loop E W w else w) ≡ record w { events = es })
        × (delivered es ≡ delivered w.events)
  closing_lem true w = shutdown_in_loop_lem w
  closing_lem false w = (w.events, refl, refl)

  -- `drained`, on a world whose output buffer is empty.
  drained-Keeps :
      (w : World E W)
      → IsSound E W w
      → readable_bytes w.conn.output == 0 ≡ true
      → Post (Refused E W w) (Keeps E W w (stream E W w)) (drained E W w)
  unfolding drained
  drained-Keeps w s empty =
      Post-bind (Refused E W w) Changed _ _ _
        (change_channel-Post E W disable_writing w Changed s.sync (λ p sync. (p, sync, refl)))
        finish
    where
      c : Channel
      c = registered E W disable_writing w

      Changed : World E W → Type 0
      Changed w' = (p : Poller E) × InSync E p c × (w' ≡ moved E W w p c)

      off : is_writing c ≡ false
      off =
          is_writing-added (changed disable_writing w.conn.channel)
          ∙ is_writing-disable_writing w.conn.channel

      finish :
          (w' : World E W)
          → Changed w'
          → Keeps E W w (stream E W w) (
              let w'' = queue_write_complete E W w' in
              if is_disconnecting w''.conn.state then shutdown_in_loop E W w'' else w'')
      finish w' (p, sync, e) =
          let (l, q, t) = queue_write_complete_lem E W (moved E W w p c) in
          let (es, r, d) =
            closing_lem (is_disconnecting w.conn.state) (aside E W (moved E W w p c) l w.events) in
          rw (e, q, r)
            (record {
              sound = aside-IsSound E W (moved E W w p c) l es (moved-IsSound E W w p c s sync);
              flows = rw (empty, off);
              streamed = ap (λ b. b ++ contents w.conn.output) d;
              state = refl;
              input = refl;
              work = t;
              room = omega arith;
            })

  module _ (w : World E W) (s : IsSound E W w) (n : ℕ) where
    retrieved-IsSound : IsSound E W (retrieved E W n (contents w.conn.output) w)
    unfolding retrieved emit
    retrieved-IsSound = aside-IsSound E W _ w.loop _ (
        with_output-IsSound E W w (retrieve w.conn.output n) s
          (retrieve-IsValid w.conn.output n s.output))

    -- The bytes that the kernel takes leave the buffer for the history.
    stream-retrieved : stream E W (retrieved E W n (contents w.conn.output) w) ≡ stream E W w
    unfolding retrieved emit
    stream-retrieved =
        rw
          (
            contents-retrieve w.conn.output n s.output,
            delivered-append w.events (written (take n (contents w.conn.output)) ∷ []),
          )
          (simp (append-nil, append_assoc, take-append-drop))

    after : World E W
    after = retrieved E W n (contents w.conn.output) w

    to_before :
        (w' : World E W) → Keeps E W after (stream E W after) w' → Keeps E W w (stream E W w) w'
    unfolding after retrieved emit
    to_before w' k = record {
      sound = k.sound;
      flows = k.flows;
      streamed = k.streamed ∙ stream-retrieved;
      state = k.state;
      input = k.input;
      work = k.work;
      room = omega (arith, k.room, writer_idx-retrieve-le w.conn.output n s.output);
    }

    drained-after :
        readable_bytes after.conn.output == 0 ≡ true
        → Post (Refused E W w) (Keeps E W w (stream E W w)) (drained E W after)
    unfolding after retrieved emit
    drained-after empty =
        Post-mono (Refused E W w) _ _ (drained E W after)
          (drained-Keeps after retrieved-IsSound empty) to_before

    kept_after :
        Flows E W w
        → is_writing w.conn.channel ≡ true
        → readable_bytes after.conn.output == 0 ≡ false
        → Keeps E W w (stream E W w) after
    unfolding after retrieved emit
    kept_after f on more = record {
      sound = retrieved-IsSound;
      flows = rw (on, more);
      streamed = stream-retrieved;
      state = refl;
      input = refl;
      work = SameWork-refl W w.loop;
      room = omega (arith, writer_idx-retrieve-le w.conn.output n s.output);
    }

  wrote-Keeps :
      (answer : Sent) (w : World E W)
      → IsSound E W w
      → Flows E W w
      → is_writing w.conn.channel ≡ true
      → Post
          (Refused E W w)
          (Keeps E W w (stream E W w))
          (wrote E W answer (contents w.conn.output) w)
  unfolding wrote after
  wrote-Keeps (write_error errno) w s f on = record {
    sound = s;
    flows = f;
    streamed = refl;
    state = refl;
    input = refl;
    work = SameWork-refl W w.loop;
    room = omega arith;
  }
  wrote-Keeps (sent n) w s f on = elim (Bool-cases (ltb 0 n)) [
    | inl some_taken ↦
        rw some_taken
          (elim (Bool-cases
            (readable_bytes (retrieved E W n (contents w.conn.output) w).conn.output == 0)) [
              | inl empty ↦ rw empty (drained-after w s n empty)
              | inr more ↦ rw more (kept_after w s n f on more)
            ])
    | inr none_taken ↦ rw none_taken (record {
      sound = s;
      flows = f;
      streamed = refl;
      state = refl;
      input = refl;
      work = SameWork-refl W w.loop;
      room = omega arith;
    })
  ]

  pub handle_write-Keeps :
      (write : List ℕ → Sent) (w : World E W)
      → IsSound E W w
      → Flows E W w
      → Post (Refused E W w) (Keeps E W w (stream E W w)) (handle_write E W write w)
  unfolding handle_write
  handle_write-Keeps write w s f = elim (Bool-cases (is_writing w.conn.channel)) [
    | inl on ↦
        rw (on, write_fd_lem w.conn.output write s.output)
          (wrote-Keeps (write (contents w.conn.output)) w s f on)
    | inr off ↦ rw off (record {
      sound = s;
      flows = f;
      streamed = refl;
      state = refl;
      input = refl;
      work = SameWork-refl W w.loop;
      room = omega arith;
    })
  ]
