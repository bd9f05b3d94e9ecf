-- ===== src/TcpServer/Jobs.antt =====
-- The base loop's thread of a server of net/tcp_server/tcp_server.cc against the loops that run its jobs.
use moony.Prelude.{ℕ, ◌≡◌, true, List, [], ◌∷◌, ◌++◌, ok}
use moony.Prelude.Text.{text_eq}
use moony.EventLoop.{EventFd}
use moony.TcpServer.{
  Arrival, Managed, Job, listen_job, established_job, destroyed_job, remove_job, Site, set_loop,
  begin, connect, remove_connection, remove_connection_in_loop,
}
use moony.TcpServer.Ordered.{opened}

module _ (W : EventFd) where
  -- The thread of the base loop.
  abbrev pub base_thread : Site W → ℕ
  base_thread s = (s.loops s.server.base_loop).thread_id

  -- The loop at `a` has taken its next job, and `js` are those behind it.
  unfoldable pub popped : ℕ → Job → List Job → Site W → Site W
  popped a j js s = record (set_loop W a (record (s.loops a) { pending = js }) s) {
    ran = s.ran ++ j ∷ [];
  }

  -- What the job of the loop at `a` does to the server; the others work on a connection or the acceptor.
  unfoldable pub run_job : ℕ → Job → Site W → Site W
  run_job a (remove_job c) s = remove_connection_in_loop W (s.loops a).thread_id c s
  run_job a (established_job c) s = s
  run_job a (destroyed_job c) s = s
  run_job a listen_job s = s

  -- The server's calls in the base loop's thread, the close callback of a connection that was
  -- established, in its loop's thread, and a loop that runs its next job.
  pub data Step (s : Site W) : Site W → Type 0 where
    starts : (place : ℕ → ℕ) → Step s (begin W place (base_thread s) s)
    accepts :
        {s' : Site W} (self addr : ℕ) (arrival : Arrival)
        → connect W (base_thread s) self addr arrival s ≡ ok s'
        → Step s s'
    closes :
        (c : Managed)
        → opened c.name s.ran ≡ true
        → Step s (remove_connection W (s.loops c.loop).thread_id c s)
    runs :
        (a : ℕ) (j : Job) (js : List Job)
        → (s.loops a).pending ≡ j ∷ js
        → Step s (run_job a j (popped a j js s))

  pub data Reach (s : Site W) : Site W → Type 0 where
    here : Reach s s
    next : {t u : Site W} → Reach s t → Step t u → Reach s u

  -- The jobs that have run and those that wait in the loop at `a`.
  abbrev pub jobs : Site W → ℕ → List Job
  jobs s a = s.ran ++ (s.loops a).pending
