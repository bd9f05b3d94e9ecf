-- ===== src/TcpServer.antt =====
-- net/tcp_server/tcp_server.h and tcp_server.cc: the connections of a server by name, and the jobs that
-- it leaves for the loops. A loop is its address; `loops` of a `Site` is the loop at each. A job that
-- a call runs at once, because it is made in the loop's own thread, is noted in `ran`; what the
-- jobs do in turn is in TcpConnection and Acceptor.
pub mod Construct
pub mod Posted
pub mod Names
pub mod Accept
pub mod Handoff
pub mod Remove
pub mod Destroy
pub mod Run
pub mod First
pub mod Ordered
pub mod Jobs
pub mod Orderly
pub mod Kept
pub mod Lives
mod Tests
use moony.Prelude.{
  ℕ, ◌+◌, ◌%◌, ◌^◌, Bool, true, false, if◌then◌else◌, ltb, ◌==◌, List, [], ◌∷◌, ◌++◌, Option, none,
  some, Outcome, ok, stop, Stop, length, int_overflow, ◌>>=◌, insert, erase,
}
use moony.Prelude.Int.{ℤ}
use moony.Prelude.Text.{Text, codes, decimal, snprintf, text_eq}
use moony.EventLoop.{EventFd, Loop, run_in_loop, queue_in_loop}
use moony.ThreadPool.{Pool, get_next_loop, set_threads_nums}
use moony.ThreadPool
use moony.InetAddress.{InetAddress}
use moony.Acceptor.{Acceptor, Handover, passed_on, closed}
use moony.Acceptor
use moony.TcpConnection.{Conn}
use moony.TcpConnection

-- A connection with its name, the loop that it was given, and the addresses of its ends.
pub record Managed : Type 0 where
  pub name : Text
  pub loop : ℕ
  pub local_addr : InetAddress
  pub peer_addr : InetAddress
  pub conn : Conn

-- What `new_connection` is called for: the descriptor and the address of its peer, with what
-- `getsockname` answers for it.
pub record Arrival : Type 0 where
  pub sockfd : ℕ
  pub peer_addr : InetAddress
  pub sock_name : Option InetAddress

-- `local_addr`, which is zero where `getsockname` fails: that is only logged.
abbrev pub local_addr_of : Option InetAddress → InetAddress
local_addr_of (some local) = local
local_addr_of none = record { sin_port = 0; sin_addr = 0 }

-- What the server leaves for a loop to run: `acceptor::listen`, `connection_established`,
-- `remove_connection_in_loop`, `connection_destroyed`.
pub data Job : Type 0 where
  listen_job : Job
  established_job : Managed → Job
  remove_job : Managed → Job
  destroyed_job : Managed → Job

-- The members of `tcp_server`; a field that ends in `set` says whether the callback of that name is set.
pub record Server : Type 0 where
  pub base_loop : ℕ
  pub ip_port : Text
  pub name : Text
  pub acceptor : Acceptor
  pub pool : Pool
  pub connection_set : Bool
  pub message_set : Bool
  pub write_complete_set : Bool
  pub thread_init_set : Bool
  pub started : ℕ
  pub next_id : ℕ
  pub connections : List (Text × Managed)

-- The constructor, with the text of `to_ip_port` and the acceptor that was built.
unfoldable pub create : ℕ → Text → Text → Acceptor → Server
create base ip_port name acceptor = record {
  base_loop = base;
  ip_port = ip_port;
  name = name;
  acceptor = Acceptor.set_connection_callback true acceptor;
  pool = ThreadPool.create base;
  connection_set = false;
  message_set = false;
  write_complete_set = false;
  thread_init_set = false;
  started = 0;
  next_id = 1;
  connections = [];
}

-- The setters of the callbacks: is there one afterwards?
abbrev pub set_thread_init_callback : Bool → Server → Server
set_thread_init_callback cb s = record s { thread_init_set = cb }

abbrev pub set_connection_callback : Bool → Server → Server
set_connection_callback cb s = record s { connection_set = cb }

abbrev pub set_write_complete_callback : Bool → Server → Server
set_write_complete_callback cb s = record s { write_complete_set = cb }

abbrev pub set_message_callback : Bool → Server → Server
set_message_callback cb s = record s { message_set = cb }

unfoldable pub set_thread_num : Server → ℤ → Server
set_thread_num s n = record s { pool = set_threads_nums s.pool n }

-- `next_id_ ++`
increment : ℕ → Outcome ℕ
increment n = if ltb n 2147483647 then ok (n + 1) else stop int_overflow

-- The name of the connection with that id: `name_ + buf`.
unfoldable pub conn_name : Server → ℕ → Text
conn_name s id = s.name ++ snprintf 64 (b'-' ∷ (s.ip_port ++ (b'#' ∷ decimal id)))

-- The connection that `new_connection` makes: an object at `self` with its channel at `addr`, and the
-- server's callbacks.
unfoldable pub make_conn : Server → ℕ → ℕ → ℕ → Conn
make_conn s self addr sockfd = TcpConnection.set_close_callback true (
    TcpConnection.set_write_complete_callback s.write_complete_set (
      TcpConnection.set_message_callback s.message_set (
        TcpConnection.set_connection_callback s.connection_set
          (TcpConnection.create self addr sockfd))))

module _ (W : EventFd) where
  -- The server, the loops, the jobs that were run at once, and the loops that the init callback was
  -- called with.
  pub record Site : Type 0 where
    pub server : Server
    pub loops : ℕ → Loop W Job
    pub ran : List Job
    pub inits : List ℕ

  unfoldable pub set_loop : ℕ → Loop W Job → Site → Site
  set_loop a l s = record s { loops = λ j. if a == j then l else s.loops j }

  pub ran_or_queued : ℕ → Option Job × Loop W Job → Site → Site
  unfolding set_loop
  ran_or_queued a (some j, l) s = record (set_loop a l s) { ran = s.ran ++ j ∷ [] }
  ran_or_queued a (none, l) s = set_loop a l s

  -- `run_in_loop` of the loop at `a`, called in thread `tid`.
  unfoldable pub post : ℕ → ℕ → Job → Site → Site
  unfolding ran_or_queued
  post tid a j s = ran_or_queued a (run_in_loop W Job (s.loops a) tid j) s

  -- `start` up to what `acceptor::listen` comes to, if it is run at once. `started_` is an `atomic_int`, whose increment
  -- wraps around.
  unfoldable pub begin : (ℕ → ℕ) → ℕ → Site → Site
  begin place tid s =
      let counted = record s {
        server = record s.server { started = (s.server.started + 1) % 2 ^ 32 };
      } in
      if s.server.started == 0
      then (let (p, called) = ThreadPool.start place s.server.thread_init_set s.server.pool in
          post tid s.server.base_loop listen_job (record counted {
            server = record counted.server { pool = p };
            inits = s.inits ++ called;
          }))
      else counted

  -- `new_connection`, called in thread `tid`, up to what `connection_established` comes to, if it is run
  -- at once.
  pub connect : ℕ → ℕ → ℕ → Arrival → Site → Outcome Site
  unfolding increment
  connect tid self addr arrival s = do
    (io_loop, pool) ← get_next_loop s.server.pool
    let name = conn_name s.server s.server.next_id
    next ← increment s.server.next_id
    let c : Managed = record {
      name = name;
      loop = io_loop;
      local_addr = local_addr_of arrival.sock_name;
      peer_addr = arrival.peer_addr;
      conn = make_conn s.server self addr arrival.sockfd;
    }
    ok (
        post tid io_loop (established_job c) (record s {
          server = record s.server {
            pool = pool;
            next_id = next;
            connections = insert name c s.server.connections;
          };
        }))

  -- A call that has left `after` of `before`, where the job that it may have run at once ends as
  -- `ended` says: it returns, or it throws or ends the process, which the call then does too.
  settled : Option Stop → Bool → Site → Outcome Site
  settled none at_once s = ok s
  settled (some e) true s = stop e
  settled (some e) false s = ok s

  finish : Option Stop → Site → Site → Outcome Site
  unfolding settled
  finish ended before after = settled ended (ltb (length before.ran) (length after.ran)) after

  -- `start` and `new_connection`.
  pub start : Option Stop → (ℕ → ℕ) → ℕ → Site → Outcome Site
  unfolding finish
  start ended place tid s = finish ended s (begin place tid s)

  pub new_connection : Option Stop → ℕ → ℕ → ℕ → Arrival → Site → Outcome Site
  unfolding finish
  new_connection ended tid self addr arrival s = do
    s' ← connect tid self addr arrival s
    finish ended s s'

  taken : ℕ → ℕ → ℕ → Option InetAddress → List Handover → Site → Outcome Site
  taken tid self addr sock_name (passed_on fd peer ∷ hs) s =
      connect tid self addr (record { sockfd = fd; peer_addr = peer; sock_name = sock_name }) s
  taken tid self addr sock_name _ s = ok s

  -- The callback of the listening channel, up to what `connection_established` comes to, if it is run at once:
  -- `acceptor::handle_read`, with what `accept4` returned, and
  -- what `getsockname` answers for it.
  pub accept : ℕ → ℕ → ℕ → Option (ℕ × InetAddress) → Option InetAddress → Site → Outcome Site
  unfolding taken
  accept tid self addr accepted sock_name s =
      taken tid self addr sock_name (Acceptor.handle_read s.server.acceptor accepted) s

  pub remove_connection_in_loop : ℕ → Managed → Site → Site
  remove_connection_in_loop tid c s =
      set_loop c.loop (queue_in_loop W Job (s.loops c.loop) tid (destroyed_job c))
        (record s { server = record s.server { connections = erase c.name s.server.connections } })

  pub removed_or_queued : ℕ → Managed → Option Job × Loop W Job → Site → Site
  unfolding remove_connection_in_loop
  removed_or_queued tid c (some j, l) s = remove_connection_in_loop tid c s
  removed_or_queued tid c (none, l) s = set_loop s.server.base_loop l s

  -- The close callback of every connection, called in thread `tid`.
  pub remove_connection : ℕ → Managed → Site → Site
  unfolding removed_or_queued
  remove_connection tid c s =
      removed_or_queued tid c (run_in_loop W Job (s.loops s.server.base_loop) tid (remove_job c)) s

  -- The `for` of the destructor, over the connections in the order of the map's iteration.
  destroy_each : ℕ → List (Text × Managed) → Site → Site
  destroy_each tid [] s = s
  destroy_each tid ((k, c) ∷ cs) s = destroy_each tid cs (post tid c.loop (destroyed_job c) s)

  -- The destructor; the acceptor's own stands in Acceptor.
  pub destroy : ℕ → Site → Site
  unfolding destroy_each
  destroy tid s =
      let s' = destroy_each tid s.server.connections s in
      record s' { server = record s'.server { connections = [] } }
