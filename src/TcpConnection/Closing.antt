-- ===== src/TcpConnection/Closing.antt =====
-- When `handle_write` of net/tcp_connection/tcp_connection.cc shuts the writing side.
use moony.Prelude.{
  ℕ, ◌+◌, ◌≡◌, inl, inr, refl, ◌∙◌, true, false, if◌then◌else◌, ltb, ◌==◌, List, [], ◌∷◌, ◌++◌,
  Outcome, ok, stop, take, Bool-cases, arith,
}
use moony.Epoll.{Epoll}
use moony.Channel.{Channel, is_writing, changed, disable_writing}
use moony.Poller.{Poller}
use moony.Poller.Sync.{InSync}
use moony.EventLoop.{EventFd}
use moony.Buffer.{Sent, sent, write_error, readable_bytes}
use moony.Buffer.Room.{contents}
use moony.Buffer.ReadFd.{write_fd_lem}
use moony.TcpConnection.{
  World, Event, written, shut_down_write, handle_write, wrote, retrieved, drained, emit,
  is_disconnecting, shutdown_in_loop, queue_write_complete,
}
use moony.TcpConnection.Post.{
  Post, Post-bind, moved, registered, Refused, change_channel-Post, is_writing-disable_writing,
  is_writing-added,
}
use moony.TcpConnection.Sound.{IsSound, Flows}
use moony.TcpConnection.Attempt.{queue_write_complete_lem}

-- How often the writing side was shut.
abbrev pub shutdowns : List Event → ℕ
shutdowns [] = 0
shutdowns (shut_down_write ∷ es) = 1 + shutdowns es
shutdowns (_ ∷ es) = shutdowns es

pub shutdowns-append : (es fs : List Event) → shutdowns (es ++ fs) ≡ shutdowns es + shutdowns fs
shutdowns-append [] fs = omega arith
shutdowns-append (shut_down_write ∷ es) fs = omega (arith, shutdowns-append es fs)
shutdowns-append (written bytes ∷ es) fs = shutdowns-append es fs
shutdowns-append (Event.connection_called s ∷ es) fs = shutdowns-append es fs
shutdowns-append (Event.message_called ∷ es) fs = shutdowns-append es fs
shutdowns-append (Event.close_called ∷ es) fs = shutdowns-append es fs

-- Two properties of one call.
pub Post-both :
    {A : Type 0} (R S : Type 0) (P Q : A → Type 0) (m : Outcome A)
    → Post R P m
    → Post S Q m
    → Post R (λ a. P a × Q a) m
Post-both R S P Q (ok a) h k = (h, k)
Post-both R S P Q (stop e) h k = h

module _ (E : Epoll) (W : EventFd) where
  -- The writing side is shut, once, exactly if no byte waits.
  abbrev pub Closes : World E W → Type 0
  Closes w = shutdowns w.events ≡ (if readable_bytes w.conn.output == 0 then 1 else 0)

  drained-Closes :
      (w : World E W)
      → InSync E w.poller w.conn.channel
      → is_disconnecting w.conn.state ≡ true
      → readable_bytes w.conn.output == 0 ≡ true
      → shutdowns w.events ≡ 0
      → Post (Refused E W w) Closes (drained E W w)
  unfolding drained shutdown_in_loop emit
  drained-Closes w s closing empty none_yet =
      Post-bind (Refused E W w) Changed _ _ _
        (change_channel-Post E W disable_writing w Changed s (λ p sync. (p, refl))) finish
    where
      c : Channel
      c = registered E W disable_writing w

      Changed : World E W → Type 0
      Changed w' = (p : Poller E) × (w' ≡ moved E W w p c)

      off : is_writing c ≡ false
      off =
          is_writing-added (changed disable_writing w.conn.channel)
          ∙ is_writing-disable_writing w.conn.channel

      finish :
          (w' : World E W)
          → Changed w'
          → Closes (
              let w'' = queue_write_complete E W w' in
              if is_disconnecting w''.conn.state then shutdown_in_loop E W w'' else w'')
      finish w' (p, e) =
          let (l, q, _) = queue_write_complete_lem E W (moved E W w p c) in
          rw (e, q, closing, off, empty, shutdowns-append w.events (shut_down_write ∷ []), none_yet)
            refl

  waiting_none :
      (w : World E W)
      → Flows E W w
      → Closes w
      → is_writing w.conn.channel ≡ true
      → shutdowns w.events ≡ 0
  waiting_none w f h on = ground arith

  shutdowns-retrieved :
      (w : World E W) (n : ℕ) (bytes : List ℕ)
      → shutdowns (retrieved E W n bytes w).events ≡ shutdowns w.events
  unfolding retrieved emit
  shutdowns-retrieved w n bytes =
      shutdowns-append w.events (written (take n bytes) ∷ []) ∙ omega arith

  -- After the kernel has taken bytes.
  module _ (w : World E W) (n : ℕ) (zero : shutdowns w.events ≡ 0) where
    after : World E W
    after = retrieved E W n (contents w.conn.output) w

    still_open : shutdowns after.events ≡ 0
    unfolding after
    still_open = shutdowns-retrieved w n (contents w.conn.output) ∙ zero

    drained-after :
        InSync E w.poller w.conn.channel
        → is_disconnecting w.conn.state ≡ true
        → readable_bytes after.conn.output == 0 ≡ true
        → Post (Refused E W w) Closes (drained E W after)
    unfolding after retrieved emit
    drained-after s closing empty = drained-Closes after s closing empty still_open

  wrote-Closes :
      (answer : Sent) (w : World E W)
      → InSync E w.poller w.conn.channel
      → is_disconnecting w.conn.state ≡ true
      → shutdowns w.events ≡ 0
      → Closes w
      → Post (Refused E W w) Closes (wrote E W answer (contents w.conn.output) w)
  unfolding wrote after
  wrote-Closes (write_error errno) w s closing zero h = h
  wrote-Closes (sent n) w s closing zero h = elim (Bool-cases (ltb 0 n)) [
    | inr none_taken ↦ rw none_taken h
    | inl some_taken ↦
        rw some_taken
          (elim (Bool-cases
            (readable_bytes (retrieved E W n (contents w.conn.output) w).conn.output == 0)) [
              | inl empty ↦ rw empty (drained-after w n zero s closing empty)
              | inr more ↦ rw (more, more) (still_open w n zero)
            ])
  ]

  pub handle_write-Closes :
      (write : List ℕ → Sent) (w : World E W)
      → IsSound E W w
      → Flows E W w
      → is_disconnecting w.conn.state ≡ true
      → Closes w
      → Post (Refused E W w) Closes (handle_write E W write w)
  unfolding handle_write
  handle_write-Closes write w s f closing h = elim (Bool-cases (is_writing w.conn.channel)) [
    | inr off ↦ rw off h
    | inl on ↦
        rw (on, write_fd_lem w.conn.output write s.output)
          (wrote-Closes (write (contents w.conn.output)) w s.sync closing (waiting_none w f h on) h)
  ]
