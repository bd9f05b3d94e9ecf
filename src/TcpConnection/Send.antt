-- ===== src/TcpConnection/Send.antt =====
-- `send_in_loop` of net/tcp_connection/tcp_connection.cc neither loses nor reorders a byte.
use moony.Prelude.{
  take, ◌%◌, ◌^◌, [], ◌∷◌, ℕ, ◌+◌, ◌≤◌, ◌<◌, ◌≡◌, ◌⊎◌, inl, inr, refl, sym, ap, ◌∙◌, Bool, true,
  false, not, ◌&&◌, if◌then◌else◌, ltb, List, [], ◌++◌, Outcome, ok, arith, length, append-nil,
  append_assoc, length-append, Bool-cases, ltb→lt, ltb_false→le,
}
use moony.Epoll.{Epoll}
use moony.EventLoop.{EventFd}
use moony.Buffer.{Sent, max_size}
use moony.Buffer.Room.{contents}
use moony.TcpConnection.{
  World, int_message, finish_send, send_in_loop, buffered, first_write, mark, is_disconnected,
}
use moony.TcpConnection.Post.{Post, Post-mono, Refused}
use moony.TcpConnection.Sound.{delivered, IsSound, Flows, stream}
use moony.TcpConnection.Queued.{SameWork-trans}
use moony.TcpConnection.Output.{Keeps, buffered-Post}
use moony.TcpConnection.Attempt.{
  IsBroken, no_bytes, aside, aside-IsSound, Attempt, mark_lem, first_write-Attempt,
}

-- The largest `int`.
abbrev pub max_int : ℕ
max_int = 2147483647

pub int_message_lem : (chunk : List ℕ) → length chunk ≤ max_int → int_message chunk ≡ ok chunk
unfolding int_message
int_message_lem chunk h =
    let small : ltb (length chunk % 2 ^ 32) 2147483648 ≡ true = ground arith in
    let same : length chunk % 2 ^ 32 ≡ length chunk = omega arith in
    rw (small, same) (ap ok (take_all chunk))
  where
    take_all : (xs : List ℕ) → take (length xs) xs ≡ xs
    take_all [] = refl
    take_all (x ∷ xs) = simp (take_all xs)

module _ (E : Epoll) (W : EventFd) where
  finish_send-Keeps :
      (chunk : List ℕ) (answer : Sent) (w : World E W) (r : List ℕ × World E W × Bool)
      → IsSound E W w
      → Flows E W w
      → w.conn.output.writer_idx + length chunk ≤ max_size
      → Attempt E W chunk answer w r
      → Post
          (Refused E W w)
          (λ w'. Keeps E W w (stream E W w ++ chunk) w' ⊎ ((w' ≡ w) × IsBroken answer))
          (finish_send E W r)
  unfolding finish_send
  finish_send-Keeps chunk answer w r s f fits a = rw a.result (split a.streamed)
    where
      open a use {left, loop, history, fault}

      after : World E W
      after = aside E W w loop history

      Goal : Outcome (World E W) → Type 0
      Goal =
          Post (Refused E W w)
            (λ w'. Keeps E W w (stream E W w ++ chunk) w' ⊎ ((w' ≡ w) × IsBroken answer))

      none_left :
          delivered history ++ (contents w.conn.output ++ left) ≡ stream E W w ++ chunk
          → left ≡ []
          → Keeps E W w (stream E W w ++ chunk) after
      none_left joined e = record {
        sound = aside-IsSound E W w loop history s;
        flows = f;
        streamed =
            ap (λ l. delivered history ++ l) (sym (append-nil (contents w.conn.output)))
            ∙ (rw e at joined);
        state = refl;
        input = refl;
        work = a.work;
        room = omega (arith, length-append (stream E W w) chunk);
      }

      some_left :
          delivered history ++ (contents w.conn.output ++ left) ≡ stream E W w ++ chunk
          → 0 < length left
          → Goal (buffered E W left (mark E W (length left) after))
      some_left joined pos =
          let (l, e, t) = mark_lem E W (length left) after in
          rw e (
            Post-mono (Refused E W w) _ _ (buffered E W left (aside E W w l history))
              (buffered-Post E W left (aside E W w l history) (aside-IsSound E W w l history s) pos
                (omega (arith, a.short)))
              (λ w' k. inl (record {
                sound = k.sound;
                flows = k.flows;
                streamed =
                    k.streamed
                    ∙ append_assoc (delivered history) (contents w.conn.output) left
                    ∙ joined;
                state = k.state;
                input = k.input;
                work = SameWork-trans W w.loop loop _ a.work (SameWork-trans W loop l _ t k.work);
                room = omega (
                  arith,
                  k.room,
                  a.short,
                  length-append (stream E W w) chunk,
                  length-append (delivered history ++ contents w.conn.output) left,
                );
              })))

      split :
          ((fault ≡ false)
              × (delivered history ++ (contents w.conn.output ++ left) ≡ stream E W w ++ chunk))
            ⊎ ((fault ≡ true) × (after ≡ w) × IsBroken answer)
          → Goal (
              if not fault && ltb 0 (length left)
              then buffered E W left (mark E W (length left) after)
              else ok after)
      split (inr (broken, same, b)) = rw broken (inr (same, b))
      split (inl (fine, joined)) = elim (Bool-cases (ltb 0 (length left))) [
        | inl more ↦ rw (fine, more) (some_left joined (ltb→lt 0 (length left) more))
        | inr none ↦
            rw (fine, none)
              (inl (
                none_left joined
                  (no_bytes left (omega (arith, ltb_false→le 0 (length left) none)))))
      ]

  pub send_in_loop-Keeps :
      (chunk : List ℕ) (write : List ℕ → Sent) (w : World E W)
      → IsSound E W w
      → Flows E W w
      → is_disconnected w.conn.state ≡ false
      → length chunk ≤ max_int
      → w.conn.output.writer_idx + length chunk ≤ max_size
      → Post
          (Refused E W w)
          (λ w'. Keeps E W w (stream E W w ++ chunk) w' ⊎ ((w' ≡ w) × IsBroken (write chunk)))
          (send_in_loop E W chunk write w)
  unfolding send_in_loop
  send_in_loop-Keeps chunk write w s f open_state short fits =
      rw (open_state, int_message_lem chunk short)
        (finish_send-Keeps chunk (write chunk) w (first_write E W chunk write w) s f fits
          (first_write-Attempt E W chunk write w s))
