-- ===== src/TcpConnection/Session.antt =====
-- Any sequence of `send_in_loop` and `handle_write` of net/tcp_connection/tcp_connection.cc.
use moony.Prelude.{
  ℕ, ◌+◌, ◌≤◌, ◌≡◌, inl, inr, ◌⊎◌, refl, sym, ap, ◌∙◌, false, List, [], ◌∷◌, ◌++◌, Outcome, ok,
  ◌>>=◌, arith, length, append-nil, append_assoc, length-append, Post-refuse,
}
use moony.Epoll.{Epoll}
use moony.EventLoop.{EventFd}
use moony.Buffer.{Sent, max_size}
use moony.TcpConnection.{World, send_in_loop, handle_write, is_disconnected}
use moony.TcpConnection.Post.{Post, Post-bind, Post-mono, Refused}
use moony.TcpConnection.Sound.{IsSound, Flows, stream}
use moony.TcpConnection.Queued.{SameWork-refl, SameWork-trans}
use moony.TcpConnection.Output.{Keeps}
use moony.TcpConnection.Attempt.{IsBroken}
use moony.TcpConnection.Send.{max_int, send_in_loop-Keeps}
use moony.TcpConnection.Write.{handle_write-Keeps}

-- A send of a chunk, or a report of EPOLLOUT, with the kernel's answer to the write that it may make.
pub data Move : Type 0 where
  sends : List ℕ → (List ℕ → Sent) → Move
  flushes : (List ℕ → Sent) → Move

-- All that is sent, in order.
abbrev pub sent_bytes : List Move → List ℕ
sent_bytes [] = []
sent_bytes (sends chunk write ∷ ms) = chunk ++ sent_bytes ms
sent_bytes (flushes write ∷ ms) = sent_bytes ms

-- No write of a send meets EPIPE or ECONNRESET, and no chunk is longer than an `int` can tell.
abbrev pub IsUnbroken : List Move → Type 0
IsUnbroken [] = Unit {0}
IsUnbroken (sends chunk write ∷ ms) =
    (¬ IsBroken (write chunk)) × (length chunk ≤ max_int) × IsUnbroken ms
IsUnbroken (flushes write ∷ ms) = IsUnbroken ms

-- `Post` with the refusal forgotten.
pub Post-forget :
    {A : Type 0} (R : Type 0) (P : A → Type 0) (m : Outcome A) → Post R P m → Post (Unit {0}) P m
Post-forget R P m h = Post-refuse R (Unit {0}) P m h (λ r. tt)

module _ (E : Epoll) (W : EventFd) where
  pub make_move : Move → World E W → Outcome (World E W)
  make_move (sends chunk write) w = send_in_loop E W chunk write w
  make_move (flushes write) w = handle_write E W write w

  pub make_moves : List Move → World E W → Outcome (World E W)
  make_moves [] w = ok w
  make_moves (m ∷ ms) w = make_move m w >>= make_moves ms

  pub Keeps-trans :
      (w u v : World E W) (xs ys : List ℕ)
      → Keeps E W w (stream E W w ++ xs) u
      → Keeps E W u (stream E W u ++ ys) v
      → Keeps E W w (stream E W w ++ (xs ++ ys)) v
  Keeps-trans w u v xs ys h k = record {
    sound = k.sound;
    flows = k.flows;
    streamed = k.streamed ∙ ap (λ l. l ++ ys) h.streamed ∙ append_assoc (stream E W w) xs ys;
    state = k.state ∙ h.state;
    input = k.input ∙ h.input;
    work = SameWork-trans W w.loop u.loop v.loop h.work k.work;
    room = omega (
      arith,
      h.room,
      k.room,
      ap (length {A = ℕ}) h.streamed,
      length-append (stream E W u) ys,
      length-append (stream E W w) xs,
      length-append (stream E W w) (xs ++ ys),
      length-append xs ys,
    );
  }

  -- The move and its bytes.
  abbrev bytes_of : Move → List ℕ
  bytes_of (sends chunk write) = chunk
  bytes_of (flushes write) = []

  -- `send_in_loop` where the write does not meet EPIPE or ECONNRESET.
  pub send_unbroken :
      (chunk : List ℕ) (write : List ℕ → Sent) (w : World E W)
      → IsSound E W w
      → Flows E W w
      → is_disconnected w.conn.state ≡ false
      → length chunk ≤ max_int
      → w.conn.output.writer_idx + length chunk ≤ max_size
      → ¬ IsBroken (write chunk)
      → Post (Unit {0}) (Keeps E W w (stream E W w ++ chunk)) (send_in_loop E W chunk write w)
  send_unbroken chunk write w s f o short fits fine =
      Post-forget (Refused E W w) (Keeps E W w (stream E W w ++ chunk))
        (send_in_loop E W chunk write w)
        (Post-mono (Refused E W w)
          (λ w'. Keeps E W w (stream E W w ++ chunk) w' ⊎ ((w' ≡ w) × IsBroken (write chunk)))
          (Keeps E W w (stream E W w ++ chunk)) (send_in_loop E W chunk write w)
          (send_in_loop-Keeps E W chunk write w s f o short fits)
          (λ w' r. elim r [ inl k ↦ k | inr (_, broken) ↦ absurd (fine broken) ]))

  make_move-Keeps :
      (m : Move) (w : World E W)
      → IsSound E W w
      → Flows E W w
      → is_disconnected w.conn.state ≡ false
      → w.conn.output.writer_idx + length (bytes_of m) ≤ max_size
      → IsUnbroken (m ∷ [])
      → Post (Unit {0}) (Keeps E W w (stream E W w ++ bytes_of m)) (make_move m w)
  unfolding make_move
  make_move-Keeps (sends chunk write) w s f o fits (fine, short, _) =
      send_unbroken chunk write w s f o short fits fine
  make_move-Keeps (flushes write) w s f o fits fine = rw (append-nil (stream E W w)) (
      Post-forget (Refused E W w) _ (handle_write E W write w) (handle_write-Keeps E W write w s f))

  after_move :
      (xs ys : List ℕ) (ms : List Move) (w u : World E W)
      → Keeps E W w (stream E W w ++ xs) u
      → is_disconnected w.conn.state ≡ false
      → w.conn.output.writer_idx + length (xs ++ ys) ≤ max_size
      → (IsSound E W u
          → Flows E W u
          → is_disconnected u.conn.state ≡ false
          → u.conn.output.writer_idx + length ys ≤ max_size
          → Post (Unit {0}) (Keeps E W u (stream E W u ++ ys)) (make_moves ms u))
      → Post (Unit {0}) (Keeps E W w (stream E W w ++ (xs ++ ys))) (make_moves ms u)
  after_move xs ys ms w u k o fits rest =
      Post-mono (Unit {0}) _ _ (make_moves ms u)
        (rest k.sound k.flows (ap is_disconnected k.state ∙ o)
          (omega (arith, k.room, length-append (stream E W w) xs, length-append xs ys)))
        (λ v. Keeps-trans w u v xs ys k)

  -- Any sends and reports of EPOLLOUT, in any order, on a sound connection that is not disconnected and
  -- asks for EPOLLOUT exactly while bytes wait, where no chunk is longer than an `int` can tell, no write of a
  -- send meets EPIPE or ECONNRESET and the output buffer stays within its largest size: the bytes that the kernel has taken, then those that wait,
  -- are those of before, then all that was sent, in order, however the kernel split the writes. The
  -- connection is left sound, in its state, asking for EPOLLOUT exactly while bytes wait. Only
  -- `exit` ends the sequence early.
  pub make_moves-Keeps :
      (ms : List Move) (w : World E W)
      → IsSound E W w
      → Flows E W w
      → is_disconnected w.conn.state ≡ false
      → w.conn.output.writer_idx + length (sent_bytes ms) ≤ max_size
      → IsUnbroken ms
      → Post (Unit {0}) (Keeps E W w (stream E W w ++ sent_bytes ms)) (make_moves ms w)
  unfolding make_moves
  make_moves-Keeps [] w s f o fits fine = record {
    sound = s;
    flows = f;
    streamed = sym (append-nil (stream E W w));
    state = refl;
    input = refl;
    work = SameWork-refl W w.loop;
    room = omega (arith, length-append (stream E W w) []);
  }
  make_moves-Keeps (sends chunk write ∷ ms) w s f o fits (fine, short, rest) =
      Post-bind (Unit {0}) _ _ (make_move (sends chunk write) w) (make_moves ms)
        (make_move-Keeps (sends chunk write) w s f o
          (omega (arith, length-append chunk (sent_bytes ms))) (fine, short, tt))
        (λ u k.
          after_move chunk (sent_bytes ms) ms w u k o fits
            (λ s' f' o' fits'. make_moves-Keeps ms u s' f' o' fits' rest))
  make_moves-Keeps (flushes write ∷ ms) w s f o fits rest =
      Post-bind (Unit {0}) _ _ (make_move (flushes write) w) (make_moves ms)
        (make_move-Keeps (flushes write) w s f o (omega arith) tt)
        (λ u k.
          after_move [] (sent_bytes ms) ms w u k o fits
            (λ s' f' o' fits'. make_moves-Keeps ms u s' f' o' fits' rest))
