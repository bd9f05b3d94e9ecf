-- ===== src/TcpServer/First.antt =====
-- The first `start` of a server of net/tcp_server/tcp_server.cc, and what it starts from.
use moony.Prelude.{
  ℕ, ◌≡◌, ◌≤◌, inl, inr, [], ◌∷◌, ◌++◌, ◌==◌, Bool-cases, subst, arith, length, lookup,
}
use moony.Prelude.Text.{Text}
use moony.EventLoop.{EventFd}
use moony.Acceptor.{Acceptor}
use moony.ThreadPool
use moony.TcpServer.{Job, Server, Site, create, begin, listen_job, conn_name}
use moony.TcpServer.Posted.{Posted, post-Posted}
use moony.TcpServer.Run.{IsServing}

-- A server that was just built, with an address as long as `to_ip_port` makes it, is ready to serve.
pub create-IsServing :
    (base : ℕ) (ip_port name : Text) (a : Acceptor)
    → length ip_port ≤ 21
    → IsServing (create base ip_port name a)
unfolding create ThreadPool.create lookup
create-IsServing base ip_port name a h = record {
  named = record { short = h; ids = omega arith; named = λ k c e. absurd (cc) };
  ready = omega arith;
}

pub relisted-IsServing :
    (s : Server) (a : Acceptor) → IsServing s → IsServing (record s { acceptor = a })
unfolding conn_name
relisted-IsServing s a h = record {
  named = record { short = h.named.short; ids = h.named.ids; named = h.named.named };
  ready = h.ready;
}

module _ (W : EventFd) where
  -- A job that has run at once leaves every loop as it was.
  same_loops :
      (tid a : ℕ) (j : Job) (s s' : Site W)
      → Posted W tid a j s s'
      → (s.loops a).thread_id ≡ tid
      → (b : ℕ) → s'.loops b ≡ s.loops b
  same_loops tid a j s s' p own b = elim (Bool-cases (a == b)) [
    | inl same ↦ elim p.here [
      | inl (_, _, loop) ↦ subst (λ c. s'.loops c ≡ s.loops c) (ground (arith, same)) loop
      | inr (other, _, _, _) ↦ absurd (other own)
    ]
    | inr other ↦ p.elsewhere b (ground (arith, other))
  ]

  -- In the base loop's thread the first `start` starts the pool, `acceptor::listen` has run, and
  -- the loops are as they were.
  pub first_start :
      (place : ℕ → ℕ) (tid : ℕ) (s : Site W)
      → s.server.started ≡ 0
      → (s.loops s.server.base_loop).thread_id ≡ tid
      → ((begin W place tid s).server ≡ record s.server {
        pool = (ThreadPool.start place s.server.thread_init_set s.server.pool).0;
        started = 1;
      })
        × ((begin W place tid s).ran ≡ s.ran ++ listen_job ∷ [])
        × ((b : ℕ) → (begin W place tid s).loops b ≡ s.loops b)
  unfolding begin
  first_start place tid s e own =
      let (p, called) = ThreadPool.start place s.server.thread_init_set s.server.pool in
      let counted : Site W = record s {
        server = record s.server { pool = p; started = 1 };
        inits = s.inits ++ called;
      } in
      let posted = post-Posted W tid s.server.base_loop listen_job counted in
      rw e (
        posted.server,
        elim posted.here [ inl (_, ran, _) ↦ ran | inr (other, _, _, _) ↦ absurd (other own) ],
        same_loops tid s.server.base_loop listen_job counted _ posted own,
      )
