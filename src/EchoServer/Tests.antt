-- ===== src/EchoServer/Tests.antt =====
-- Runs of sample/sample.cc, and its theorem at a concrete input.
use moony.Prelude.{
  ℕ, ◌+◌, ◌≤◌, ◌≡◌, refl, List, [], ◌∷◌, arith, inl, inr, Option, none, some, Outcome, ok, stop,
  lookup, insert, false, true,
}
use moony.InetAddress.Local.{local_inet, dotted, swap_bytes}
use moony.Socket.Plain.{Options, plain}
use moony.EventLoop.{Loop}
use moony.TcpServer.{Job, Managed, local_addr_of}
use moony.EventLoop.Wiring.{construct}
use moony.EventLoop
use moony.TcpServer
use moony.TcpServer.Construct
use moony.EchoServer
use moony.Logger.{Logger}
use moony.Logger
use moony.Prelude.Int.{pos}
use moony.TcpConnection.{connected, Task}
use moony.TcpConnection
use moony.Channel
use moony.Poller
use moony.InetAddress
use moony.Acceptor
use moony.Socket
use moony.Prelude.Text.{decimal, codes, snprintf}
use moony.ThreadPool
use moony.EchoServer.Main
use moony.EchoServer.Main.{Birth, Places, Process, main}
use moony.Epoll.Table.{table_epoll}
use moony.EventLoop.Counting.{counting}
use moony.Buffer.{sent, writable_bytes}
use moony.TcpConnection.Post.{Post}
use moony.TcpConnection.Samples.{calm, calm-IsSound, calm-Flows}
use moony.EchoServer.Session.{
  Call, reads, fails, writes, errs, AreFine, IsServed, Serves, make_calls, make_calls-Serves,
}
use moony.EchoServer.Life.{live, IsOver, live-IsOver}
use moony.EchoServer.{set_up}
use moony.TcpServer.{Server}
use moony.TcpServer.Handoff.{first_world}
use moony.Acceptor.Life.{new}
use moony.Poller.{Poller}

abbrev calls : List Call
calls =
    reads 8 (9 ∷ []) (λ _. sent 1)
    ∷ fails 11
    ∷ writes (λ _. sent 1)
    ∷ errs
    ∷ reads 7 [] (λ _. sent 1)
    ∷ []

calls-AreFine : (room : ℕ) → 2 ≤ room → AreFine room calls
calls-AreFine room h = (
  (h, λ b. elim b [ inl e ↦ cc | inr e ↦ cc ]),
  (tt, (tt, (tt, ((omega arith, λ b. elim b [ inl e ↦ cc | inr e ↦ cc ]), tt)))),
)

calm-IsServed : IsServed table_epoll counting 5 2 calm
calm-IsServed = record {
  sound = calm-IsSound;
  flows = calm-Flows;
  state = refl;
  own = refl;
  used_up = refl;
  room = unfold writable_bytes in omega arith;
}

make_calls-Serves_example :
    Post
      (Unit {0})
      (Serves table_epoll counting 5 2 calm (8 ∷ 9 ∷ 7 ∷ []))
      (make_calls table_epoll counting 5 calls calm)
make_calls-Serves_example =
    make_calls-Serves table_epoll counting 5 2 calls calm calm-IsServed (omega arith) (omega arith)
      (calls-AreFine 2 (omega arith))

abbrev places_at : Places
places_at = record { loop = 10; wakeup = 100; acceptor = 101; pool = λ i. 20 + i }

abbrev other_loops : ℕ → Loop counting Job
other_loops a = record {
  looping = true;
  quitting = false;
  thread_id = a;
  counter = 0;
  calling = false;
  pending = [];
}

abbrev no_options : Options
no_options fd o = false

-- The threads of the pool, each with a new epoll instance.
abbrev three_births : ℕ → Birth table_epoll counting
three_births i = record { tid = 2 + i; made = some []; evtfd = some (3, 0); wakeup = 200 + i }

abbrev main_run : Outcome (Process table_epoll plain counting)
main_run =
    main table_epoll plain counting local_inet places_at 1 three_births other_loops (some [])
      (some (3, 0)) (some (4, no_options))

-- The descriptors that the poller of the base loop knows, and the loops of the pool, after `main`.
watched_by : Outcome (Process table_epoll plain counting) → Option (List (ℕ × ℕ) × List ℕ)
watched_by (ok p) = some (p.poller.channels, p.site.server.pool.loops)
watched_by (stop e) = none

main_watches : watched_by main_run ≡ some ((3, 100) ∷ (4, 101) ∷ [], 20 ∷ 21 ∷ 22 ∷ [])
unfolding watched_by main construct TcpServer.Construct.construct EchoServer.create Poller.create
    EventLoop.create Channel.create Poller.change Poller.update_channel Poller.update
    Channel.changed lookup insert InetAddress.create InetAddress.to_ip_port Acceptor.create
    EchoServer.set_up TcpServer.create ThreadPool.create TcpServer.begin TcpServer.post
    TcpServer.set_loop ThreadPool.start EventLoop.run_in_loop EventLoop.in_loop_thread
    EchoServer.Main.start EchoServer.Main.build_loops EchoServer.Main.run_now
    ThreadPool.start_threads ThreadPool.set_threads_nums Acceptor.listen dotted decimal swap_bytes
    Socket.bind_address TcpServer.set_thread_num Socket.listen
main_watches = refl

-- A connection from port 5000 of this machine that has come up.
abbrev up_conn : Managed
up_conn = record {
  name = codes "echo";
  loop = 20;
  local_addr = local_addr_of none;
  peer_addr = record { sin_port = 34835; sin_addr = 16777343 };
  conn = record (TcpConnection.create 50 51 7) { state = connected };
}

abbrev silent : Logger
silent = record { log_level = pos 0 }

on_connection_run :
    EchoServer.on_connection local_inet
      (codes "t")
      up_conn
      (record { logger = silent; printed = [] })
    ≡ ok (record { logger = silent; printed = codes "[INFO] t: Connection UP: 127.0.0.1:5000\n" })
unfolding EchoServer.on_connection InetAddress.to_ip_port TcpConnection.create Logger.log_fmt
    Logger.accesses Logger.access Logger.set_log_level Logger.log Logger.level_prefix dotted decimal
    swap_bytes snprintf
on_connection_run = refl

abbrev echo : Server
echo = set_up (TcpServer.create 10 (codes "0.0.0.0:8000") (codes "echo_server_01") (new 101 4))

abbrev sub_loop : Loop counting Task
sub_loop = record {
  looping = true;
  quitting = false;
  thread_id = 20;
  counter = 0;
  calling = false;
  pending = [];
}

abbrev empty_poller : Poller table_epoll
empty_poller = record { channels = []; capacity = 16; kernel = [] }

live-IsOver_example : Post (Unit {0}) (IsOver table_epoll counting (8 ∷ 9 ∷ 7 ∷ [])) (
    live table_epoll counting 20 calls
      (first_world table_epoll counting echo 50 51 7 empty_poller sub_loop))
unfolding set_up TcpServer.set_thread_num lookup
live-IsOver_example =
    live-IsOver table_epoll counting echo 50 51 7 20 empty_poller sub_loop calls refl refl refl refl
      refl (omega arith) (calls-AreFine 1016 (omega arith))
