-- ===== src/TcpServer/Tests.antt =====
-- Runs of net/tcp_server/tcp_server.cc, and its theorems at concrete inputs.
use moony.Prelude.{
  List, exit_process, some, none, inl, ℕ, ◌≡◌, ◌≢◌, ◌⊎◌, refl, true, false, none, ok, [], ◌∷◌,
  insert, nat_eq, if◌then◌else◌, ◌==◌,
}
use moony.Prelude.Int.{pos}
use moony.Prelude.Text.{codes, text_eq, decimal, snprintf}
use moony.Epoll.Table.{table_epoll}
use moony.Epoll.{none_set}
use moony.Channel.{new}
use moony.Poller.{Poller}
use moony.EventLoop.{Loop, run_in_loop}
use moony.EventLoop.Counting.{counting}
use moony.ThreadPool.{Pool, get_next_loop}
use moony.ThreadPool
use moony.TcpConnection.{Task}
use moony.TcpServer.{
  Arrival, local_addr_of, Server, Site, Job, Managed, create, conn_name, make_conn, connect,
  remove_connection, remove_connection_in_loop, remove_job, destroy, established_job, post,
  set_loop,
}
use moony.TcpServer.Posted.{Posted}
use moony.TcpConnection.Post.{Post}
use moony.TcpServer.Remove.{Drops, remove_connection_cases}
use moony.TcpServer.Destroy.{Destroys, destroy_lem}
use moony.TcpServer.Run.{Call, starts, accepts}
use moony.TcpServer.Ordered.{ordered}
use moony.TcpServer.Jobs.{Step, Reach, here, next, jobs, base_thread}
use moony.TcpServer.Lives.{IsFresh, established_first}

-- An echo server with its base loop at 10, in thread 1, and the loops of two threads at 20 and 30.
abbrev echo : Server
echo = record {
  base_loop = 10;
  ip_port = codes "127.0.0.1:8000";
  name = codes "echo";
  acceptor = record {
    channel = record {
      addr = 11;
      fd = 3;
      events = none_set;
      revents = none_set;
      idx = new;
      tie = none;
      tied = false;
      read_set = true;
      write_set = false;
      close_set = false;
      error_set = false;
    };
    callback_set = true;
    listenning = false;
  };
  pool = record {
    base_loop = 10;
    started = false;
    num_threads = pos 0;
    next = 0;
    threads = [];
    loops = [];
  };
  connection_set = true;
  message_set = true;
  write_complete_set = false;
  thread_init_set = false;
  started = 0;
  next_id = 1;
  connections = [];
}

echo-create :
    create 10
      (codes "127.0.0.1:8000")
      (codes "echo")
      (record echo.acceptor { callback_set = false })
    ≡ record echo { connection_set = false; message_set = false }
unfolding create ThreadPool.create
echo-create = refl

abbrev pooled : Server
pooled = record echo {
  pool = record echo.pool { started = true; num_threads = pos 2; loops = 20 ∷ 30 ∷ [] };
  started = 1;
}

abbrev thread_of : ℕ → ℕ
thread_of a = if a == 20 then 2 else if a == 30 then 3 else 1

abbrev idle_loop : (F : Type 0) → ℕ → Loop counting F
idle_loop F tid = record {
  looping = false;
  quitting = false;
  thread_id = tid;
  counter = 0;
  calling = false;
  pending = [];
}

abbrev site : Site counting
site = record { server = pooled; loops = λ a. idle_loop Job (thread_of a); ran = []; inits = [] }

abbrev arrived : ℕ → Arrival
arrived fd = record {
  sockfd = fd;
  peer_addr = record { sin_port = 5000; sin_addr = 1 };
  sock_name = none;
}

second_name : conn_name pooled 2 ≡ codes "echo-127.0.0.1:8000#2"
unfolding conn_name decimal snprintf
second_name = refl

abbrev no_channels : Poller table_epoll
no_channels = record { channels = []; capacity = 16; kernel = [] }

abbrev sub_loop : Loop counting Task
sub_loop = idle_loop Task 2

-- The first connection, in the loop at 20, and the site that holds it.
abbrev first_conn : Managed
first_conn = record {
  name = conn_name pooled 1;
  loop = 20;
  local_addr = local_addr_of none;
  peer_addr = (arrived 7).peer_addr;
  conn = make_conn pooled 50 51 7;
}

abbrev one_site : Site counting
one_site = record site {
  server = record pooled { connections = (first_conn.name, first_conn) ∷ []; next_id = 2 };
}

remove_connection_cases_example :
    ((◌≡◌ {A = ℕ} 1 2)
      × Drops counting first_conn one_site (remove_connection counting 2 first_conn one_site))
    ⊎ ((◌≢◌ {A = ℕ} 1 2)
        × Posted counting 2 10
            (remove_job first_conn)
            one_site
            (remove_connection counting 2 first_conn one_site)
        × ((own : ℕ) (t : Site counting)
            → Drops counting first_conn t (remove_connection_in_loop counting own first_conn t)))
remove_connection_cases_example = remove_connection_cases counting 2 first_conn one_site

destroy_lem_example :
    ((destroy counting 1 one_site).server.connections ≡ [])
    × Destroys counting thread_of 1 one_site.server.connections one_site
        (destroy counting 1 one_site)
destroy_lem_example = destroy_lem counting 1 one_site

abbrev three_calls : List Call
three_calls =
    accepts none 1 50 51 (arrived 7)
    ∷ accepts none 1 60 61 (arrived 8)
    ∷ starts (some exit_process) 1 (λ i. i)
    ∷ []

site-IsFresh : IsFresh counting site
site-IsFresh = record { ran = inl refl; pending = λ a. refl; connections = refl }

-- The first connection is stored, and its loop has its `connection_established`.
abbrev accepted_site : Site counting
accepted_site = record one_site {
  server = record one_site.server { pool = record pooled.pool { next = 1 } };
  loops = λ j.
      if 20 == j
      then record (idle_loop Job 2) { counter = 1; pending = established_job first_conn ∷ [] }
      else idle_loop Job (thread_of j);
}

site-accepts : connect counting 1 50 51 (arrived 7) site ≡ ok accepted_site
unfolding connect get_next_loop post set_loop run_in_loop insert
site-accepts = refl

accepted-Reach : Reach counting site accepted_site
accepted-Reach = next here (Step.accepts 50 51 (arrived 7) site-accepts)

established_first_example :
    (ordered first_conn.name false (jobs counting accepted_site 20) ≡ true)
    × (ordered first_conn.name false
          (jobs counting (destroy counting (base_thread counting accepted_site) accepted_site) 20)
        ≡ true)
established_first_example =
    established_first counting site-IsFresh accepted-Reach first_conn.name 20
