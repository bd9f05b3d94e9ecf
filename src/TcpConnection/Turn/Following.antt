-- ===== src/TcpConnection/Turn/Following.antt =====
-- A `shutdown` in another thread after a `send`, in net/tcp_connection/tcp_connection.cc, where the loop
-- comes to its functors before it serves another report of EPOLLOUT.
use moony.Prelude.{
  length-append, ℕ, ◌+◌, ◌≤◌, ◌≡◌, ◌≢◌, refl, sym, ap, ◌∙◌, List, [], ◌∷◌, ◌++◌, Outcome, ok, stop,
  ◌>>=◌, arith, length, true, false,
}
use moony.Epoll.{Epoll}
use moony.EventLoop.{EventFd, begin_calling, take_pending}
use moony.Buffer.{Sent}
use moony.Buffer.Room.{contents}
use moony.TcpConnection.{World, Task, is_disconnected, is_disconnecting}
use moony.TcpConnection.Post.{Post}
use moony.TcpConnection.Closing.{shutdowns}
use moony.Buffer.{max_size}
use moony.TcpConnection.{send_in_loop_task, shutdown_in_loop_task}
use moony.TcpConnection.Queued.{queued_bytes, queued_bytes-append}
use moony.TcpConnection.Post.{Post-mono}
use moony.TcpConnection.Sound.{IsSound, Flows, stream}
use moony.TcpConnection.Output.{Keeps}
use moony.TcpConnection.Attempt.{aside-IsSound}
use moony.TcpConnection.Closing.{Closes}
use moony.TcpConnection.Session.{Keeps-trans}
use moony.TcpConnection.Graceful.{
  EndsWell, flush_all-EndsWell, closing_world, closing_world-IsSound, shutdown_in_loop_world,
}
use moony.Prelude.{length, ◌%◌, ◌^◌}
use moony.TcpConnection.Queued.{Strings}
use moony.TcpConnection.Turn.{
  kept, IsIntSized, Turn, posts, shuts, swaps, calls, Stage, turn, turns, IsOpen, IsWhole, run_task,
  call_next, swap_pending,
}
use moony.TcpConnection.Turn.Tasks.{nothing_Keeps, run_task-Keeps}
use moony.TcpConnection.Turn.Flush.{
  reports, reports-Post, left_World, pending-left_World, queued_bytes-sending, left_turns,
}
use moony.TcpConnection.Turn.Shut.{Then, Post-Then, SameShut, send_in_loop-SameShut}

-- The functors include no `shutdown_in_loop`.
abbrev pub IsOpenEnded : List Task → Type 0
IsOpenEnded [] = Unit {0}
IsOpenEnded (shutdown_in_loop_task ∷ ts) = ⊥
IsOpenEnded (_ ∷ ts) = IsOpenEnded ts

-- Calls of functors, each with the kernel's answer, none of which meets EPIPE or ECONNRESET.
abbrev pub calls_of : List (List ℕ → Sent) → List Turn
calls_of [] = []
calls_of (write ∷ writes) = calls write ∷ calls_of writes

abbrev pub AreWhole : List (List ℕ → Sent) → Type 0
AreWhole [] = Unit {0}
AreWhole (write ∷ writes) = IsWhole write × AreWhole writes

-- A first call, and what follows from what it leaves.
Post-first :
    {A C D : Type 0} (R : Type 0) (P : A → Type 0) (Q : D → Type 0) (m : Outcome A) (h : A → C)
    (g : C → Outcome D)
    → Post R P m
    → ((a : A) → P a → Post R Q (g (h a)))
    → Post R Q (m >>= (λ a. ok (h a)) >>= g)
Post-first R P Q (ok a) h g p k = k a p
Post-first R P Q (stop e) h g p k = p

module _ (E : Epoll) (W : EventFd) (M : Strings) where
  run_task-SameShut :
      (t : Task) (write : List ℕ → Sent) (w : World E W)
      → IsOpenEnded (t ∷ [])
      → Then (SameShut E W w) (run_task E W (kept M) t write w)
  unfolding run_task
  run_task-SameShut Task.write_complete write w h = refl
  run_task-SameShut (Task.high_water n) write w h = refl
  run_task-SameShut (send_in_loop_task addr len) write w h =
      send_in_loop-SameShut E W (M addr len) write w
  run_task-SameShut shutdown_in_loop_task write w h = absurd h

  IsOpenEnded-head :
      (t : Task) (ts : List Task) → IsOpenEnded (t ∷ ts) → IsOpenEnded (t ∷ []) × IsOpenEnded ts
  IsOpenEnded-head Task.write_complete ts h = (tt, h)
  IsOpenEnded-head (Task.high_water n) ts h = (tt, h)
  IsOpenEnded-head (send_in_loop_task addr len) ts h = (tt, h)
  IsOpenEnded-head shutdown_in_loop_task ts h = absurd h

  -- The loop calls its functors, one after another, and goes on with `rest`.
  calls_of-Post :
      (Q : Stage E W → Type 0) (rest : List Turn) (more ts : List Task)
      (writes : List (List ℕ → Sent)) (w : World E W)
      → IsSound E W w
      → Flows E W w
      → is_disconnected w.conn.state ≡ false
      → IsIntSized M
      → w.conn.output.writer_idx + length (queued_bytes M ts) ≤ max_size
      → length writes ≡ length ts
      → AreWhole writes
      → IsOpenEnded ts
      → ((u : World E W)
          → Keeps E W w (stream E W w ++ queued_bytes M ts) u
          → SameShut E W w u
          → Post (Unit {0}) Q (turns E W (kept M) rest (u, more)))
      → Post (Unit {0}) Q (turns E W (kept M) (calls_of writes ++ rest) (w, ts ++ more))
  unfolding turns turn call_next
  calls_of-Post Q rest more [] [] w s f up sized fits e fine ended k =
      k w (nothing_Keeps E W M w s f) refl
  calls_of-Post Q rest more [] (x ∷ xs) w s f up sized fits e fine ended k =
      absurd (omega (arith, e))
  calls_of-Post Q rest more (t ∷ ts) [] w s f up sized fits e fine ended k =
      absurd (omega (arith, e))
  calls_of-Post Q rest more (t ∷ ts) (x ∷ xs) w s f up sized fits e (whole, others) ended k =
      let (one, last) = IsOpenEnded-head t ts ended in
      let split = queued_bytes-append M (t ∷ []) ts in
      let parts = length-append (queued_bytes M (t ∷ [])) (queued_bytes M ts) in
      let sum = ap (length {A = ℕ}) split in
      Post-first (Unit {0}) _ Q (run_task E W (kept M) t x w) (λ u. (u, ts ++ more))
        (turns E W (kept M) (calls_of xs ++ rest))
        (Post-Then (Unit {0}) _ _ (run_task E W (kept M) t x w)
          (run_task-Keeps E W M t x w s f up sized (omega (arith, parts, sum)) whole)
          (run_task-SameShut t x w one))
        (λ u (kept, same).
          calls_of-Post Q rest more ts xs u kept.sound kept.flows
            (ap is_disconnected kept.state ∙ up) sized
            (omega (
              arith,
              kept.room,
              length-append (stream E W w) (queued_bytes M (t ∷ [])),
              parts,
              sum,
            ))
            (omega (arith, e)) others last
            (λ v after shut.
              k v
                (rw split
                  (Keeps-trans E W w u v (queued_bytes M (t ∷ [])) (queued_bytes M ts) kept after))
                (shut ∙ same)))

  -- No byte is lost, and the writing side is shut, once, exactly if none waits.
  abbrev pub Follows : World E W → List ℕ → Stage E W → Type 0
  Follows w bytes s = (stream E W s.0 ≡ stream E W w ++ bytes) × Closes E W s.0

  shut_Follows :
      (last : List ℕ → Sent) (writes : List (List ℕ → Sent)) (w u : World E W) (bytes : List ℕ)
      → Keeps E W w (stream E W w ++ bytes) u
      → is_disconnecting w.conn.state ≡ true
      → shutdowns u.events ≡ 0
      → Post
          (Unit {0})
          (Follows w bytes)
          (turns E W (kept M) (calls last ∷ reports writes) (u, shutdown_in_loop_task ∷ []))
  unfolding turns turn call_next run_task
  shut_Follows last writes w u bytes k closing zero =
      let (es, e, d, n) = shutdown_in_loop_world E W u k.flows zero in
      let v : World E W = record u { events = es } in
      rw e (
        Post-mono (Unit {0}) _ _ (turns E W (kept M) (reports writes) (v, []))
          (reports-Post E W M (EndsWell E W v) writes v [] (
            flush_all-EndsWell E W writes v (aside-IsSound E W u u.loop es k.sound) k.flows
              (ap is_disconnecting k.state ∙ closing) n))
          (λ s ((same, c), _). (same ∙ ap (λ l. l ++ contents u.conn.output) d ∙ k.streamed, c)))

  IsOpenEnded-sending :
      (addr len : ℕ) (ts : List Task)
      → IsOpenEnded ts
      → IsOpenEnded (ts ++ send_in_loop_task addr len ∷ [])
  IsOpenEnded-sending addr len [] h = tt
  IsOpenEnded-sending addr len (Task.write_complete ∷ ts) h = IsOpenEnded-sending addr len ts h
  IsOpenEnded-sending addr len (Task.high_water n ∷ ts) h = IsOpenEnded-sending addr len ts h
  IsOpenEnded-sending addr len (send_in_loop_task a n ∷ ts) h = IsOpenEnded-sending addr len ts h
  IsOpenEnded-sending addr len (shutdown_in_loop_task ∷ ts) h = absurd h

  -- The loop takes up all the functors that a `send` and a `shutdown` in another thread left.
  left-Follows :
      (other addr : ℕ) (chunk : List ℕ) (last : List ℕ → Sent) (whole writes : List (List ℕ → Sent))
      (w : World E W)
      → IsSound E W w
      → Flows E W w
      → w.loop.thread_id ≢ other
      → M addr (length chunk % 2 ^ 32) ≡ chunk
      → IsIntSized M
      → shutdowns w.events ≡ 0
      → IsOpenEnded w.loop.pending
      → w.conn.output.writer_idx + length (queued_bytes M w.loop.pending ++ chunk) ≤ max_size
      → length whole ≡ length w.loop.pending + 1
      → AreWhole whole
      → Post (Unit {0}) (Follows w (queued_bytes M w.loop.pending ++ chunk)) (
          turns E W
            (kept M)
            (swaps ∷ (calls_of whole ++ calls last ∷ reports writes))
            (left_World E W M other addr chunk w, []))
  unfolding turns turn swap_pending begin_calling take_pending
  left-Follows other addr chunk last whole writes w s f away still sized zero ended fits enough
        fine =
      let ts = w.loop.pending ++ send_in_loop_task addr (length chunk % 2 ^ 32) ∷ [] in
      let l = (left_World E W M other addr chunk w).loop in
      let v : World E W = record (closing_world E W w w.events) {
        loop = record l { calling = true; pending = [] };
      } in
      let bytes =
        queued_bytes-sending M addr (length chunk % 2 ^ 32) w.loop.pending
        ∙ ap (λ b. queued_bytes M w.loop.pending ++ b) still in
      rw (pending-left_World E W M other addr chunk w away) (
        calls_of-Post (Follows w (queued_bytes M w.loop.pending ++ chunk))
          (calls last ∷ reports writes) (shutdown_in_loop_task ∷ []) ts whole v
          (aside-IsSound E W (closing_world E W w w.events) v.loop w.events
            (closing_world-IsSound E W w w.events s))
          f refl sized (omega (arith, ap (length {A = ℕ}) bytes))
          (omega (
            arith,
            enough,
            length-append w.loop.pending (send_in_loop_task addr (length chunk % 2 ^ 32) ∷ []),
          ))
          fine (IsOpenEnded-sending addr (length chunk % 2 ^ 32) w.loop.pending ended)
          (λ u k same.
            shut_Follows last writes v u (queued_bytes M w.loop.pending ++ chunk) (rw bytes at k)
              refl (same ∙ zero)))

  -- A connected and sound connection that asks for EPOLLOUT exactly while bytes wait, whose writing side
  -- was never shut, with no `shutdown` among the pending functors of its loop, which is calling
  -- none. Another thread sends a chunk and then calls `shutdown`; the strings that are sent stay as they
  -- are at their addresses, and are no longer than an `int` can tell. The loop swaps the functors out
  -- and calls them all, where no write of a pending send or of the chunk meets EPIPE or ECONNRESET
  -- and the output buffer stays within its largest size, and then serves any reports of EPOLLOUT,
  -- whatever the kernel answers. The bytes that the kernel has taken, then those that wait, are
  -- those of before, then those of the pending sends, then the chunk; and the writing side is shut,
  -- once, exactly if none waits any longer. Only `exit` ends it early.
  pub shutdown-Follows :
      (other tid addr : ℕ) (chunk : List ℕ) (write last : List ℕ → Sent)
      (whole writes : List (List ℕ → Sent)) (w : World E W)
      → IsOpen E W tid w
      → tid ≢ other
      → M addr (length chunk % 2 ^ 32) ≡ chunk
      → IsIntSized M
      → shutdowns w.events ≡ 0
      → IsOpenEnded w.loop.pending
      → w.conn.output.writer_idx + length (queued_bytes M w.loop.pending ++ chunk) ≤ max_size
      → length whole ≡ length w.loop.pending + 1
      → AreWhole whole
      → Post (Unit {0}) (Follows w (queued_bytes M w.loop.pending ++ chunk)) (
          turns E W
            (kept M)
            (posts other addr chunk write
              ∷ shuts other
              ∷ swaps
              ∷ (calls_of whole ++ calls last ∷ reports writes))
            (w, []))
  shutdown-Follows other tid addr chunk write last whole writes w h apart still sized zero ended
        fits enough fine =
      let away : w.loop.thread_id ≢ other = λ e. apart (sym h.own ∙ e) in
      let rest = swaps ∷ (calls_of whole ++ calls last ∷ reports writes) in
      rw (left_turns E W M other addr chunk write w [] rest h.up away) (
        left-Follows other addr chunk last whole writes w h.sound h.flows away still sized zero
          ended fits enough fine)
