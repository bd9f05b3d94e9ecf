-- ===== src/EchoServer/Main.antt =====
-- `main` of sample/sample.cc up to `loop.loop()`, which does not return while the server runs.
use moony.Prelude.Int.{pos_part}
use moony.Prelude.{
  ℕ, suc, zero, ◌+◌, ◌==◌, if◌then◌else◌, List, [], ◌∷◌, Option, none, some, Outcome, ok, ◌>>=◌,
}
use moony.Prelude.Text.{codes}
use moony.Epoll.{Epoll}
use moony.Channel.{Channel}
use moony.Poller.{Poller}
use moony.EventLoop.{EventFd, Loop}
use moony.EventLoop.Wiring.{Reactor, construct}
use moony.InetAddress.{Inet}
use moony.InetAddress
use moony.Socket.{Sockets}
use moony.Acceptor
use moony.TcpServer.{Job, Site, listen_job, established_job, remove_job, destroyed_job}
use moony.TcpServer
use moony.EchoServer.{create}

-- Where `main` has its loop, the wakeup channel and the channel of the acceptor, and where the
-- loop of each of the pool's threads comes to lie.
pub record Places : Type 0 where
  pub loop : ℕ
  pub wakeup : ℕ
  pub acceptor : ℕ
  pub pool : ℕ → ℕ

-- A thread of the pool: its number, what `epoll_create` and `eventfd` return there, and the address of
-- its wakeup channel.
pub record Birth (E : Epoll) (W : EventFd) : Type 0 where
  pub tid : ℕ
  pub made : Option E.Kernel
  pub evtfd : Option (ℕ × W.Counter)
  pub wakeup : ℕ

module _ (E : Epoll) (S : Sockets) (W : EventFd) where
  -- The loops that `n` threads of the pool build in `thread_func`, from the one with the index `i` on:
  -- `start` waits for each, and a constructor that ends the process ends it there.
  unfoldable pub build_loops : (ℕ → ℕ) → (ℕ → Birth E W) → ℕ → ℕ → Outcome (List (Reactor E W Job))
  build_loops pool births zero i = ok []
  build_loops pool births (suc n) i = do
    let b = births i
    (_, r) ← construct E W Job none (pool i) b.tid b.made b.evtfd b.wakeup
    rest ← build_loops pool births n (i + 1)
    ok (r ∷ rest)

  -- The poller and the wakeup channel of the base loop, the sockets, and the server with the loops.
  pub record Process : Type 0 where
    pub poller : Poller E
    pub wakeup_channel : Channel
    pub sockets : S.Kernel
    pub site : Site W

  -- The jobs that were run at once. `start` leaves none but `acceptor::listen`; those of a connection
  -- do not touch the acceptor.
  unfoldable pub run_now : List Job → Process → Outcome Process
  run_now [] p = ok p
  run_now (listen_job ∷ js) p = do
    (k, q, a) ← Acceptor.listen S E p.sockets p.poller p.site.server.acceptor
    run_now js (record p {
      poller = q;
      sockets = k;
      site = record p.site { server = record p.site.server { acceptor = a } };
    })
  run_now (established_job c ∷ js) p = run_now js p
  run_now (remove_job c ∷ js) p = run_now js p
  run_now (destroyed_job c ∷ js) p = run_now js p

  -- `start` of a server that was never started and has run no job yet, in thread `tid`.
  unfoldable pub start : (ℕ → ℕ) → (ℕ → Birth E W) → ℕ → Process → Outcome Process
  unfolding run_now build_loops
  start pool births tid p = do
    loops ← build_loops pool births (pos_part p.site.server.pool.num_threads) 0
    let started = TcpServer.begin W pool tid p.site
    run_now started.ran (record p { site = started })

  -- `main` in thread `tid`, with what the pool's threads have for their loops, with the
  -- other loops, and with what `epoll_create`, `eventfd` and `socket`
  -- return: no loop was made in its thread before.
  unfoldable pub main :
      Inet
      → Places
      → ℕ
      → (ℕ → Birth E W)
      → (ℕ → Loop W Job)
      → Option E.Kernel
      → Option (ℕ × W.Counter)
      → Option (ℕ × S.Kernel)
      → Outcome Process
  main N at tid births others made evtfd sock = do
    (slot, r) ← construct E W Job none at.loop tid made evtfd at.wakeup
    let addr = InetAddress.create N 8000 (codes "0.0.0.0")
    (server, k) ← create N S (some at.loop) addr (codes "echo_server_01") at.acceptor sock
    start at.pool births tid (record {
      poller = r.poller;
      wakeup_channel = r.wakeup_channel;
      sockets = k;
      site = record {
        server = server;
        loops = λ a. if at.loop == a then r.loop else others a;
        ran = [];
        inits = [];
      };
    })
