-- ===== src/TcpConnection/Turn/Deferred.antt =====
-- The sends that other threads leave for a connection of net/tcp_connection/tcp_connection.cc go out in
-- order.
use moony.Prelude.{
  ℕ, ◌+◌, ◌≤◌, ◌≡◌, ◌≢◌, refl, sym, ap, ◌∙◌, List, [], ◌∷◌, ◌++◌, arith, length, append-nil,
  append_assoc, length-append,
}
use moony.Epoll.{Epoll}
use moony.EventLoop.{EventFd, begin_calling, take_pending, end_calling}
use moony.EventLoop.Wakeup.{thread_id-run_in_loop}
use moony.Buffer.{Sent, max_size}
use moony.TcpConnection.{World, Task, send_in_loop_task, handle_write, is_disconnected}
use moony.TcpConnection.Queued.{queued_bytes, queued_bytes-append}
use moony.TcpConnection.Post.{Post, Post-bind, Post-mono, Refused}
use moony.TcpConnection.Sound.{stream}
use moony.TcpConnection.Output.{Keeps}
use moony.TcpConnection.Attempt.{aside-IsSound}
use moony.TcpConnection.Write.{handle_write-Keeps}
use moony.TcpConnection.Session.{Post-forget}
use moony.TcpConnection.Threads.{send_other, woken_lem}
use moony.Prelude.{length, ◌%◌, ◌^◌}
use moony.TcpConnection.Queued.{Strings}
use moony.TcpConnection.Turn.{
  kept, IsIntSized, Turn, posts, shuts, flushes, swaps, calls, posted_bytes, Stage, run_task,
  swap_pending, call_next, turn, turns, deferred, IsOpen, Carries, IsWhole, AreOthers, first_bytes,
}
use moony.TcpConnection.Turn.Tasks.{run_task-Keeps}

module _ (E : Epoll) (W : EventFd) (M : Strings) where
  -- A call that takes the first of the bytes swapped out to the stream.
  taken_Carries :
      (tid : ℕ) (w w' : World E W) (r r' : List Task) (c : List ℕ)
      → IsOpen E W tid w
      → queued_bytes M r ≡ c ++ queued_bytes M r'
      → Keeps E W w (stream E W w ++ c) w'
      → Carries E W M tid (w, r) [] (w', r')
  taken_Carries tid w w' r r' c h e k = record {
    open_still = record {
      sound = k.sound;
      flows = k.flows;
      up = k.state ∙ h.up;
      own = k.work.thread ∙ h.own;
    };
    carried = rw (k.streamed, k.work.queued M, e) (simp (append-nil, append_assoc));
    room =
        rw (e, k.work.queued M)
          (omega (
            arith,
            k.room,
            length-append (stream E W w) c,
            length-append (queued_bytes M r') (queued_bytes M w.loop.pending),
            length-append c (queued_bytes M r'),
            length-append (c ++ queued_bytes M r') (queued_bytes M w.loop.pending),
            length-append ((c ++ queued_bytes M r') ++ queued_bytes M w.loop.pending) [],
          ));
  }

  call_next-Carries :
      (write : List ℕ → Sent) (tid : ℕ) (s : Stage E W)
      → IsOpen E W tid s.0
      → IsIntSized M
      → s.0.conn.output.writer_idx + length (deferred E W M s) ≤ max_size
      → IsWhole write
      → Post (Unit {0}) (Carries E W M tid s []) (call_next E W (kept M) write s)
  unfolding call_next end_calling
  call_next-Carries write tid (w, []) h sized fits fine = record {
    open_still = record {
      sound = aside-IsSound E W w _ w.events h.sound;
      flows = h.flows;
      up = h.up;
      own = h.own;
    };
    carried = sym (append-nil _);
    room = omega (arith, length-append (queued_bytes M w.loop.pending) []);
  }
  call_next-Carries write tid (w, t ∷ ts) h sized fits fine =
      let split = queued_bytes-append M (t ∷ []) ts in
      Post-bind (Unit {0}) _ _ (run_task E W (kept M) t write w) _
        (run_task-Keeps E W M t write w h.sound h.flows (ap is_disconnected h.up) sized
          (omega (
            arith,
            ap (length {A = ℕ}) split,
            length-append (queued_bytes M (t ∷ [])) (queued_bytes M ts),
            length-append (queued_bytes M (t ∷ ts)) (queued_bytes M w.loop.pending),
          ))
          fine)
        (λ w' k. taken_Carries tid w w' (t ∷ ts) ts (queued_bytes M (t ∷ [])) h split k)

  swap_pending-Carries :
      (tid : ℕ) (s : Stage E W) → IsOpen E W tid s.0 → Carries E W M tid s [] (swap_pending E W s)
  unfolding swap_pending begin_calling take_pending
  swap_pending-Carries tid (w, []) h = record {
    open_still = record {
      sound = aside-IsSound E W w _ w.events h.sound;
      flows = h.flows;
      up = h.up;
      own = h.own;
    };
    carried = simp (append-nil, append_assoc);
    room = omega arith;
  }
  swap_pending-Carries tid (w, t ∷ ts) h = record {
    open_still = h;
    carried = sym (append-nil _);
    room = omega (arith, length-append (deferred E W M (w, t ∷ ts)) []);
  }

  -- A `send` in another thread.
  queue-Carries :
      (other addr : ℕ) (chunk : List ℕ) (write : List ℕ → Sent) (tid : ℕ) (s : Stage E W)
      → IsOpen E W tid s.0
      → tid ≢ other
      → M addr (length chunk % 2 ^ 32) ≡ chunk
      → Post
          (Unit {0})
          (Carries E W M tid s chunk)
          (turn E W (kept M) (posts other addr chunk write) s)
  unfolding turn
  queue-Carries other addr chunk write tid (w, r) h apart still =
      let away : w.loop.thread_id ≢ other = λ e. apart (sym h.own ∙ e) in
      let (behind, _) =
        woken_lem E W w.loop other (send_in_loop_task addr (length chunk % 2 ^ 32)) away in
      let queued =
        ap (queued_bytes M) behind
        ∙ queued_bytes-append M w.loop.pending (send_in_loop_task addr (length chunk % 2 ^ 32) ∷ [])
        ∙ ap (λ l. queued_bytes M w.loop.pending ++ l)
            (append-nil (M addr (length chunk % 2 ^ 32)) ∙ still) in
      rw (send_other E W other addr chunk write w h.up away) (record {
        open_still = record {
          sound = aside-IsSound E W w _ w.events h.sound;
          flows = h.flows;
          up = h.up;
          own =
              thread_id-run_in_loop W Task w.loop other
                (send_in_loop_task addr (length chunk % 2 ^ 32))
              ∙ h.own;
        };
        carried = rw queued (simp (append_assoc));
        room = rw queued (
            omega (
              arith,
              ap (length {A = ℕ})
                  (append_assoc (queued_bytes M r) (queued_bytes M w.loop.pending) chunk),
            ));
      })

  turn-Carries :
      (t : Turn) (tid : ℕ) (s : Stage E W)
      → IsOpen E W tid s.0
      → IsIntSized M
      → s.0.conn.output.writer_idx + length (deferred E W M s) ≤ max_size
      → AreOthers M tid (t ∷ [])
      → Post (Unit {0}) (Carries E W M tid s (first_bytes t)) (turn E W (kept M) t s)
  unfolding turn
  turn-Carries (posts other addr chunk write) tid s h sized fits (apart, still, _) =
      queue-Carries other addr chunk write tid s h apart still
  turn-Carries (shuts other) tid s h sized fits shut = absurd shut
  turn-Carries (flushes write) tid (w, r) h sized fits _ =
      Post-bind (Unit {0}) _ _ (handle_write E W write w) _
        (Post-forget (Refused E W w) _ (handle_write E W write w)
          (handle_write-Keeps E W write w h.sound h.flows))
        (λ w' k. taken_Carries tid w w' r r [] h refl (rw (append-nil (stream E W w)) k))
  turn-Carries swaps tid s h sized fits _ = swap_pending-Carries tid s h
  turn-Carries (calls write) tid s h sized fits (fine, _) =
      call_next-Carries write tid s h sized fits fine

  Carries-trans :
      (tid : ℕ) (s t u : Stage E W) (xs ys : List ℕ)
      → Carries E W M tid s xs t
      → Carries E W M tid t ys u
      → Carries E W M tid s (xs ++ ys) u
  Carries-trans tid s t u xs ys h k = record {
    open_still = k.open_still;
    carried =
        k.carried
        ∙ ap (λ l. l ++ ys) h.carried
        ∙ append_assoc (stream E W s.0 ++ deferred E W M s) xs ys;
    room = omega (
      arith,
      h.room,
      k.room,
      length-append (deferred E W M t) ys,
      length-append (deferred E W M s) xs,
      length-append (deferred E W M s) (xs ++ ys),
      length-append xs ys,
    );
  }

  after_turn :
      (t : Turn) (ts : List Turn) (tid : ℕ) (s : Stage E W)
      → IsOpen E W tid s.0
      → IsIntSized M
      → s.0.conn.output.writer_idx + length (deferred E W M s ++ (first_bytes t ++ posted_bytes ts))
        ≤ max_size
      → AreOthers M tid (t ∷ [])
      → ((u : Stage E W)
          → IsOpen E W tid u.0
          → u.0.conn.output.writer_idx + length (deferred E W M u ++ posted_bytes ts) ≤ max_size
          → Post (Unit {0}) (Carries E W M tid u (posted_bytes ts)) (turns E W (kept M) ts u))
      → Post
          (Unit {0})
          (Carries E W M tid s (first_bytes t ++ posted_bytes ts))
          (turns E W (kept M) (t ∷ ts) s)
  unfolding turns
  after_turn t ts tid s h sized fits fine rest =
      let whole = length-append (deferred E W M s) (first_bytes t ++ posted_bytes ts) in
      let parts = length-append (first_bytes t) (posted_bytes ts) in
      Post-bind (Unit {0}) _ _ (turn E W (kept M) t s) (turns E W (kept M) ts)
        (turn-Carries t tid s h sized (omega (arith, whole)) fine)
        (λ u k.
          Post-mono (Unit {0}) _ _ (turns E W (kept M) ts u)
            (rest u k.open_still (
              omega (
                arith,
                k.room,
                whole,
                parts,
                length-append (deferred E W M s) (first_bytes t),
                length-append (deferred E W M u) (posted_bytes ts),
              )))
            (λ v. Carries-trans tid s u v (first_bytes t) (posted_bytes ts) k))

  -- Any turns of a connected and sound connection that asks for EPOLLOUT exactly while bytes wait: sends
  -- in other threads than its loop's, of strings that stay as they are at their addresses and are no
  -- longer than an `int` can tell, reports of EPOLLOUT, swaps of the pending functors and calls
  -- of those swapped out, in any order, where no write of a functor meets EPIPE or ECONNRESET, and
  -- the output buffer with what waits and what is sent stays within its largest size. The bytes
  -- that the kernel has taken, then those in the output buffer, then those of the functors swapped
  -- out and of those pending, are those of before, then all that was sent, in the order of the
  -- sends. The connection is left as it is required. Only `exit` ends the turns early.
  pub turns-Carries :
      (ts : List Turn) (tid : ℕ) (s : Stage E W)
      → IsOpen E W tid s.0
      → IsIntSized M
      → s.0.conn.output.writer_idx + length (deferred E W M s ++ posted_bytes ts) ≤ max_size
      → AreOthers M tid ts
      → Post (Unit {0}) (Carries E W M tid s (posted_bytes ts)) (turns E W (kept M) ts s)
  unfolding turns
  turns-Carries [] tid s h sized fits fine = record {
    open_still = h;
    carried = sym (append-nil _);
    room = omega (arith, length-append (deferred E W M s) []);
  }
  turns-Carries (posts other addr chunk write ∷ ts) tid s h sized fits (apart, still, rest) =
      after_turn (posts other addr chunk write) ts tid s h sized fits (apart, still, tt)
        (λ u k room. turns-Carries ts tid u k sized room rest)
  turns-Carries (shuts other ∷ ts) tid s h sized fits fine = absurd fine
  turns-Carries (flushes write ∷ ts) tid s h sized fits rest =
      after_turn (flushes write) ts tid s h sized fits tt
        (λ u k room. turns-Carries ts tid u k sized room rest)
  turns-Carries (swaps ∷ ts) tid s h sized fits rest =
      after_turn swaps ts tid s h sized fits tt
        (λ u k room. turns-Carries ts tid u k sized room rest)
  turns-Carries (calls write ∷ ts) tid s h sized fits (fine, rest) =
      after_turn (calls write) ts tid s h sized fits (fine, tt)
        (λ u k room. turns-Carries ts tid u k sized room rest)
