-- ===== src/TcpConnection/Turn/Flush.antt =====
-- What a `send` and then a `shutdown` in another thread leave for the loop of a connection of
-- net/tcp_connection/tcp_connection.cc, and its reports of EPOLLOUT.
use moony.Prelude.{
  ℕ, ◌≡◌, ◌≢◌, refl, sym, ap, ◌∙◌, List, [], ◌∷◌, ◌++◌, Outcome, ok, stop, ◌>>=◌, append-nil,
}
use moony.Epoll.{Epoll}
use moony.EventLoop.{Loop}
use moony.EventLoop.{EventFd, run_in_loop}
use moony.EventLoop.Wakeup.{thread_id-run_in_loop}
use moony.Buffer.{Sent}
use moony.TcpConnection.{World, Task, send_in_loop_task, shutdown_in_loop_task, handle_write}
use moony.TcpConnection.Queued.{queued_bytes, queued_bytes-append}
use moony.TcpConnection.Post.{Post}
use moony.TcpConnection.Graceful.{flush_all, closing_world}
use moony.TcpConnection.Threads.{send_other, shutdown_other, woken_lem}
use moony.TcpConnection.{connected}
use moony.Prelude.{length, ◌%◌, ◌^◌}
use moony.TcpConnection.Queued.{Strings}
use moony.TcpConnection.Turn.{kept, Turn, posts, shuts, flushes, Stage, turn, turns}

-- Reports of EPOLLOUT, each with the kernel's answer.
abbrev pub reports : List (List ℕ → Sent) → List Turn
reports [] = []
reports (write ∷ writes) = flushes write ∷ reports writes

-- The same first call, and what follows from one end of it to the other.
Post-through :
    {A B C D : Type 0} (R : Type 0) (P : B → Type 0) (Q : D → Type 0) (m : Outcome A)
    (f : A → Outcome B) (h : A → C) (g : C → Outcome D)
    → Post R P (m >>= f)
    → ((a : A) → Post R P (f a) → Post R Q (g (h a)))
    → Post R Q (m >>= (λ a. ok (h a)) >>= g)
Post-through R P Q (ok a) f h g p k = k a p
Post-through R P Q (stop e) f h g p k = p

pub queued_bytes-sending :
    (M : Strings) (addr len : ℕ) (ts : List Task)
    → queued_bytes M (ts ++ send_in_loop_task addr len ∷ []) ≡ queued_bytes M ts ++ M addr len
queued_bytes-sending M addr len ts =
    queued_bytes-append M ts (send_in_loop_task addr len ∷ [])
    ∙ ap (λ b. queued_bytes M ts ++ b) (append-nil (M addr len))

module _ (E : Epoll) (W : EventFd) (M : Strings) where
  -- Reports of EPOLLOUT leave the functors that are swapped out.
  pub reports-Post :
      (P : World E W → Type 0) (writes : List (List ℕ → Sent)) (w : World E W) (r : List Task)
      → Post (Unit {0}) P (flush_all E W writes w)
      → Post
          (Unit {0})
          (λ (s : Stage E W). P s.0 × (s.1 ≡ r))
          (turns E W (kept M) (reports writes) (w, r))
  unfolding turns turn flush_all
  reports-Post P [] w r h = (h, refl)
  reports-Post P (write ∷ writes) w r h =
      Post-through (Unit {0}) P _ (handle_write E W write w) (flush_all E W writes) (λ u. (u, r))
        (turns E W (kept M) (reports writes)) h (λ u. reports-Post P writes u r)

  -- What a `send` and a `shutdown` in another thread leave.
  abbrev pub left_World : ℕ → ℕ → List ℕ → World E W → World E W
  left_World other addr chunk w =
      let l =
        (run_in_loop W Task w.loop other (send_in_loop_task addr (length chunk % 2 ^ 32))).1 in
      record (closing_world E W w w.events) {
        loop = (run_in_loop W Task l other shutdown_in_loop_task).1;
      }

  away_still :
      (other : ℕ) (t : Task) (l : Loop W Task)
      → l.thread_id ≢ other
      → (run_in_loop W Task l other t).1.thread_id ≢ other
  away_still other t l away e = away (sym (thread_id-run_in_loop W Task l other t) ∙ e)

  pub pending-left_World :
      (other addr : ℕ) (chunk : List ℕ) (w : World E W)
      → w.loop.thread_id ≢ other
      → (left_World other addr chunk w).loop.pending
        ≡ (w.loop.pending ++ send_in_loop_task addr (length chunk % 2 ^ 32) ∷ [])
          ++ shutdown_in_loop_task ∷ []
  pending-left_World other addr chunk w away =
      let l =
        (run_in_loop W Task w.loop other (send_in_loop_task addr (length chunk % 2 ^ 32))).1 in
      let (sending, _) =
        woken_lem E W w.loop other (send_in_loop_task addr (length chunk % 2 ^ 32)) away in
      let (shutting, _) =
        woken_lem E W l other shutdown_in_loop_task
          (away_still other (send_in_loop_task addr (length chunk % 2 ^ 32)) w.loop away) in
      shutting ∙ ap (λ ts. ts ++ shutdown_in_loop_task ∷ []) sending

  pub queued-left_World :
      (other addr : ℕ) (chunk : List ℕ) (w : World E W)
      → w.loop.thread_id ≢ other
      → M addr (length chunk % 2 ^ 32) ≡ chunk
      → queued_bytes M (left_World other addr chunk w).loop.pending
        ≡ queued_bytes M w.loop.pending ++ chunk
  queued-left_World other addr chunk w away still =
      let sending = w.loop.pending ++ send_in_loop_task addr (length chunk % 2 ^ 32) ∷ [] in
      ap (queued_bytes M) (pending-left_World other addr chunk w away)
      ∙ queued_bytes-append M sending (shutdown_in_loop_task ∷ [])
      ∙ append-nil (queued_bytes M sending)
      ∙ queued_bytes-sending M addr (length chunk % 2 ^ 32) w.loop.pending
      ∙ ap (λ b. queued_bytes M w.loop.pending ++ b) still

  -- The turns that lead there.
  pub left_turns :
      (other addr : ℕ) (chunk : List ℕ) (write : List ℕ → Sent) (w : World E W) (r : List Task)
      (ts : List Turn)
      → w.conn.state ≡ connected
      → w.loop.thread_id ≢ other
      → turns E W (kept M) (posts other addr chunk write ∷ shuts other ∷ ts) (w, r)
        ≡ turns E W (kept M) ts (left_World other addr chunk w, r)
  unfolding turns turn
  left_turns other addr chunk write w r ts up away =
      let l =
        (run_in_loop W Task w.loop other (send_in_loop_task addr (length chunk % 2 ^ 32))).1 in
      rw
        (
          send_other E W other addr chunk write w up away,
          shutdown_other E W other (record w { loop = l }) up
              (away_still other (send_in_loop_task addr (length chunk % 2 ^ 32)) w.loop away),
        )
        refl
