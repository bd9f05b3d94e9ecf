-- ===== src/TcpServer/Run.antt =====
-- Any sequence of calls on a server of net/tcp_server/tcp_server.cc.
use moony.Prelude.{
  Option, some, Stop, ◌⊎◌, ℕ, ◌≡◌, inl, inr, sym, subst, ◌==◌, Bool-cases, List, [], ◌∷◌, Outcome,
  ok, stop, int_overflow, ◌>>=◌,
}
use moony.EventLoop.{EventFd}
use moony.ThreadPool.{Pool}
use moony.ThreadPool.Ready.{IsReady, start-IsReady}
use moony.TcpServer.{
  Arrival, Server, Managed, Site, post, begin, start, new_connection, remove_connection,
  remove_connection_in_loop, conn_name, listen_job, Job,
}
use moony.TcpServer.Names.{IsNamed}
use moony.TcpServer.Posted.{post-Posted}

-- A call with the thread that makes it: `start`, `new_connection`, the close callback of a connection,
-- and `remove_connection_in_loop` when a loop runs it. The first two come with what ends the job that
-- they may run at once, if anything does.
pub data Call : Type 0 where
  starts : Option Stop → ℕ → (ℕ → ℕ) → Call
  accepts : Option Stop → ℕ → ℕ → ℕ → Arrival → Call
  closes : ℕ → Managed → Call
  drops : ℕ → Managed → Call

-- One of the calls runs a job that ends so.
abbrev pub EndedBy : Stop → List Call → Type 0
EndedBy e [] = ⊥
EndedBy e (starts ended tid place ∷ cs) = (ended ≡ some e) ⊎ EndedBy e cs
EndedBy e (accepts ended tid self addr arrival ∷ cs) = (ended ≡ some e) ⊎ EndedBy e cs
EndedBy e (closes tid c ∷ cs) = EndedBy e cs
EndedBy e (drops tid c ∷ cs) = EndedBy e cs

pub record IsServing (s : Server) : Type 0 where
  pub named : IsNamed s
  pub ready : IsReady s.pool

restarted-IsNamed :
    (s : Server) (p : Pool) (n : ℕ) → IsNamed s → IsNamed (record s { pool = p; started = n })
unfolding conn_name
restarted-IsNamed s p n h = record { short = h.short; ids = h.ids; named = h.named }

module _ (W : EventFd) where
  pub step : Site W → Call → Outcome (Site W)
  step s (starts ended tid place) = start W ended place tid s
  step s (accepts ended tid self addr arrival) = new_connection W ended tid self addr arrival s
  step s (closes tid c) = ok (remove_connection W tid c s)
  step s (drops tid c) = ok (remove_connection_in_loop W tid c s)

  pub run : Site W → List Call → Outcome (Site W)
  run s [] = ok s
  run s (c ∷ cs) = step s c >>= λ s'. run s' cs

  -- The server serves on, or `next_id_` has run out of numbers, or a job that was run at once has ended
  -- the call.
  abbrev pub Serving : List Call → Outcome (Site W) → Type 0
  Serving cs (ok s) = IsServing s.server
  Serving cs (stop e) = (e ≡ int_overflow) ⊎ EndedBy e cs

  posted-IsServing :
      (tid a : ℕ) (j : Job) (t : Site W) → IsServing t.server → IsServing (post W tid a j t).server
  posted-IsServing tid a j t h = subst IsServing (sym (post-Posted W tid a j t).server) h

  pub start-IsServing :
      (place : ℕ → ℕ) (tid : ℕ) (s : Site W)
      → IsServing s.server
      → IsServing (begin W place tid s).server
  unfolding begin
  start-IsServing place tid s h = elim (Bool-cases (s.server.started == 0)) [
    | inl first ↦ rw first (
        posted-IsServing tid s.server.base_loop listen_job _ (record {
          named = restarted-IsNamed s.server _ _ h.named;
          ready = start-IsReady place s.server.thread_init_set s.server.pool h.ready;
        }))
    | inr again ↦
        rw again
          (record { named = restarted-IsNamed s.server s.server.pool _ h.named; ready = h.ready })
  ]
