-- ===== src/EchoServer/Listening.antt =====
-- The calls of `main` of sample/sample.cc that the kernel can refuse, and the last of them, `listen`:
-- the state in which the program then enters `loop.loop()`.
use moony.Prelude.{
  some, suc, zero, ◌+◌, Post-mono, ◌∙◌, inr, ℕ, ◌≡◌, ◌≢◌, refl, ◌∙◌, true, [], ◌∷◌, Option, none,
  Post, Post-bind, Post-refuse, ◌⊎◌, inl,
}
use moony.Prelude.Text.{codes}
use moony.Epoll.{Epoll}
use moony.Channel.{Channel, is_reading}
use moony.Poller.{Poller}
use moony.Poller.Sync.{Refuses, InSync, SameElsewhere-InSync}
use moony.EventLoop.{EventFd}
use moony.Poller
use moony.TcpServer.{Job}
use moony.EchoServer.Main.{Birth, build_loops}
use moony.EventLoop.Wiring.{construct, construct-IsWired, Barred}
use moony.InetAddress.{Inet, InetAddress}
use moony.InetAddress
use moony.Socket.{Sockets}
use moony.Acceptor.{Acceptor}
use moony.Acceptor
use moony.Acceptor.Life.{listen-Listens}
use moony.ThreadPool.Start.{places}
use moony.TcpServer.{Job, listen_job}
use moony.TcpServer.Lives.{IsFresh}
use moony.TcpServer.Run.{IsServing}
use moony.TcpServer.First.{relisted-IsServing}
use moony.EchoServer.Main.{Process, run_now}

-- Any IPv4 address at the port 8000.
abbrev pub address : Inet → InetAddress
address N = InetAddress.create N 8000 (codes "0.0.0.0")

module _ (E : Epoll) (S : Sockets) (W : EventFd) where
  -- The base loop's poller watches the eventfd and the listening socket for reading; the server serves
  -- new connections, with the callbacks of the program, and hands them to the loops of three threads.
  pub record IsUp (pool : ℕ → ℕ) (p : Process E S W) : Type 0 where
    pub wakeup : InSync E p.poller p.wakeup_channel
    pub wakeup_watched : is_reading p.wakeup_channel ≡ true
    pub accepting : InSync E p.poller p.site.server.acceptor.channel
    pub accepting_watched : is_reading p.site.server.acceptor.channel ≡ true
    pub listenning : p.site.server.acceptor.listenning ≡ true
    pub passes_on : p.site.server.acceptor.callback_set ≡ true
    pub serving : IsServing p.site.server
    pub fresh : IsFresh W p.site
    pub loops : p.site.server.pool.loops ≡ places pool 3 0
    pub on_connection : p.site.server.connection_set ≡ true
    pub on_message : p.site.server.message_set ≡ true

  -- The same, before the socket listens.
  pub record IsReadyFor (pool : ℕ → ℕ) (p : Process E S W) : Type 0 where
    pub apart : p.site.server.acceptor.channel.fd ≢ p.wakeup_channel.fd
    pub wakeup : InSync E p.poller p.wakeup_channel
    pub wakeup_watched : is_reading p.wakeup_channel ≡ true
    pub unknown : InSync E p.poller p.site.server.acceptor.channel
    pub passes_on : p.site.server.acceptor.callback_set ≡ true
    pub serving : IsServing p.site.server
    pub fresh : IsFresh W p.site
    pub loops : p.site.server.pool.loops ≡ places pool 3 0
    pub on_connection : p.site.server.connection_set ≡ true
    pub on_message : p.site.server.message_set ≡ true

  -- A loop of the pool's threads is not built: no epoll instance, or what bars the constructor.
  abbrev pub Lacks : Birth E W → Type 0
  Lacks b = (b.made ≡ none) ⊎ Barred E W Job none b.evtfd

  -- What keeps `main` from its loop: no eventfd, no socket, an address that cannot be bound, a socket
  -- that cannot listen, a loop that
  -- one of the pool's threads cannot build, or an epoll instance that refuses a channel.
  pub data Denied (births : ℕ → Birth E W) (N : Inet) (evtfd : Option (ℕ × W.Counter))
      (sock : Option (ℕ × S.Kernel)) : Type 0 where
    no_eventfd : evtfd ≡ none → Denied births N evtfd sock
    no_socket : sock ≡ none → Denied births N evtfd sock
    no_address :
        (fd : ℕ) (k : S.Kernel) → S.bind fd (address N) k ≡ none → Denied births N evtfd sock
    no_listen : (fd : ℕ) (k : S.Kernel) → S.listen fd 1024 k ≡ none → Denied births N evtfd sock
    no_loop : (i : ℕ) → Lacks (births i) → Denied births N evtfd sock
    no_watch : (p : Poller E) (c : Channel) → Refuses E p c → Denied births N evtfd sock

  module _ (births : ℕ → Birth E W) (N : Inet) (evtfd : Option (ℕ × W.Counter))
      (sock : Option (ℕ × S.Kernel)) where
    pub listen-Denied :
        (fd : ℕ) (k : S.Kernel) (p : Poller E) (c : Channel)
        → (S.listen fd 1024 k ≡ none) ⊎ Refuses E p c
        → Denied births N evtfd sock
    listen-Denied fd k p c (inl r) = no_listen fd k r
    listen-Denied fd k p c (inr r) = no_watch p c r

    pub construct-Denied :
        (sock ≡ none) ⊎ ((fd : ℕ) × (k : S.Kernel) × (S.bind fd (address N) k ≡ none))
        → Denied births N evtfd sock
    construct-Denied (inl r) = no_socket r
    construct-Denied (inr (fd, k, r)) = no_address fd k r

    pub Barred-Denied : Barred E W Job none evtfd → Denied births N evtfd sock
    Barred-Denied (inl r) = no_eventfd r
    Barred-Denied (inr (inl taken)) = absurd (taken refl)
    Barred-Denied (inr (inr (p, c, r))) = no_watch p c r

  born-Post :
      (self tid : ℕ) (made : Option E.Kernel) (evtfd : Option (ℕ × W.Counter)) (addr : ℕ)
      → ((k : E.Kernel) → made ≡ some k → (fd : ℕ) → E.interest k fd ≡ none)
      → Post
          ((made ≡ none) ⊎ Barred E W Job none evtfd)
          (λ r. Unit {0})
          (construct E W Job none self tid made evtfd addr)
  unfolding construct Poller.create
  born-Post self tid none evtfd addr fresh = (refl, inl refl)
  born-Post self tid (some k) evtfd addr fresh =
      let m = construct E W Job none self tid (some k) evtfd addr in
      Post-mono ((some k ≡ none) ⊎ Barred E W Job none evtfd) _ (λ r. Unit {0}) m
        (Post-refuse _ ((some k ≡ none) ⊎ Barred E W Job none evtfd) _ m
          (construct-IsWired E W Job none self tid k evtfd addr (fresh k refl)) inr)
        (λ r _. tt)

  pub build_loops-Post :
      (R : Type 0) (pool : ℕ → ℕ) (births : ℕ → Birth E W) (n i : ℕ)
      → ((j : ℕ) (k : E.Kernel) → (births j).made ≡ some k → (fd : ℕ) → E.interest k fd ≡ none)
      → ((j : ℕ) → Lacks (births j) → R)
      → Post R (λ rs. Unit {0}) (build_loops E S W pool births n i)
  unfolding build_loops
  build_loops-Post R pool births zero i fresh denied = tt
  build_loops-Post R pool births (suc n) i fresh denied =
      let b = births i in
      let born = construct E W Job none (pool i) b.tid b.made b.evtfd b.wakeup in
      Post-bind R (λ r. Unit {0}) (λ rs. Unit {0}) born _
        (Post-refuse (Lacks b) R _ born (born-Post (pool i) b.tid b.made b.evtfd b.wakeup (fresh i))
          (denied i))
        (λ (slot, r) _.
          Post-bind R (λ rs. Unit {0}) (λ rs. Unit {0}) (build_loops E S W pool births n (i + 1)) _
            (build_loops-Post R pool births n (i + 1) fresh denied) (λ rs _. tt))

  pub listens :
      (R : Type 0) (pool : ℕ → ℕ) (p : Process E S W)
      → IsReadyFor pool p
      → ((S.listen p.site.server.acceptor.channel.fd 1024 p.sockets ≡ none)
            ⊎ Refuses E p.poller p.site.server.acceptor.channel
          → R)
      → Post R (IsUp pool) (run_now E S W (listen_job ∷ []) p)
  unfolding run_now
  listens R pool p h denied =
      let listening = Acceptor.listen S E p.sockets p.poller p.site.server.acceptor in
      Post-bind _ _ _ listening _
        (Post-refuse _ R _ listening
          (listen-Listens S E p.sockets p.poller p.site.server.acceptor h.unknown) denied)
        (λ (k, q, a) l. record {
          wakeup =
              SameElsewhere-InSync E p.poller q p.site.server.acceptor.channel.fd p.wakeup_channel
                l.elsewhere h.apart h.wakeup;
          wakeup_watched = h.wakeup_watched;
          accepting = l.accepting;
          accepting_watched = l.watched;
          listenning = l.listenning;
          passes_on = l.callback ∙ h.passes_on;
          serving = relisted-IsServing p.site.server a h.serving;
          fresh = record {
            ran = h.fresh.ran;
            pending = h.fresh.pending;
            connections = h.fresh.connections;
          };
          loops = h.loops;
          on_connection = h.on_connection;
          on_message = h.on_message;
        })
