-- ===== src/TcpServer/Handoff.antt =====
-- A connection that net/tcp_server/tcp_server.cc has made, in the loop that it was given:
-- net/tcp_connection/tcp_connection.cc over net/poller.
use moony.Prelude.{
  ℕ, ◌≡◌, ◌⊎◌, refl, sym, ap, ◌∙◌, true, false, none, [], stop, exit_process, bad_function_call,
  lookup, arith, nat_eq, not, ◌==◌,
}
use moony.Epoll.{Epoll}
use moony.Channel
use moony.Channel.{is_writing}
use moony.Poller.{Poller}
use moony.EventLoop.{EventFd, Loop}
use moony.Buffer.{readable_bytes, init}
use moony.Buffer.Valid.{init-IsValid}
use moony.TcpConnection.{World, Task, connection_established, is_disconnected}
use moony.TcpConnection
use moony.TcpConnection.Post.{Post, Post-mono, Refused}
use moony.TcpConnection.Sound.{IsSound, Flows}
use moony.TcpConnection.Open.{
  connection_established-unset, Establishes, connection_established-Establishes,
}
use moony.TcpServer.{Server, make_conn}

module _ (E : Epoll) (W : EventFd) where
  -- The new connection with the poller and the loop that it was given.
  abbrev pub first_world : Server → ℕ → ℕ → ℕ → Poller E → Loop W Task → World E W
  first_world s self addr sockfd p l = record {
    conn = make_conn s self addr sockfd;
    poller = p;
    loop = l;
    events = [];
  }

  first_world-IsSound :
      (s : Server) (self addr sockfd : ℕ) (p : Poller E) (l : Loop W Task)
      → s.connection_set ≡ true
      → s.message_set ≡ true
      → lookup sockfd p.channels ≡ none
      → E.interest p.kernel sockfd ≡ none
      → IsSound E W (first_world s self addr sockfd p l)
  unfolding make_conn TcpConnection.create Channel.create
  first_world-IsSound s self addr sockfd p l hc hm free unwatched = record {
    connection_set = hc;
    message_set = hm;
    close_set = refl;
    input = init-IsValid 1024 (omega arith) (omega arith);
    output = init-IsValid 1024 (omega arith) (omega arith);
    sync = (free, unwatched);
  }

  first_world-Flows :
      (s : Server) (self addr sockfd : ℕ) (p : Poller E) (l : Loop W Task)
      → Flows E W (first_world s self addr sockfd p l)
  unfolding make_conn TcpConnection.create Channel.create is_writing readable_bytes init
  first_world-Flows s self addr sockfd p l = refl

  pub first_world-Establishes :
      (s : Server) (self addr sockfd : ℕ) (p : Poller E) (l : Loop W Task)
      → s.connection_set ≡ true
      → s.message_set ≡ true
      → lookup sockfd p.channels ≡ none
      → E.interest p.kernel sockfd ≡ none
      → Post
          (Refused E W (first_world s self addr sockfd p l))
          (λ w'. Establishes E W (first_world s self addr sockfd p l) w' × Flows E W w')
          (connection_established E W (first_world s self addr sockfd p l))
  first_world-Establishes s self addr sockfd p l hc hm free unwatched =
      let w = first_world s self addr sockfd p l in
      Post-mono (Refused E W w) _ _ (connection_established E W w)
        (connection_established-Establishes E W w
          (first_world-IsSound s self addr sockfd p l hc hm free unwatched))
        (λ w' e. (
          e,
          e.writing
              ∙ first_world-Flows s self addr sockfd p l
              ∙ ap (λ b. not (readable_bytes b == 0)) (sym e.output),
        ))

  -- Where the user has set no connection callback, no connection of the server is ever established:
  -- its `connection_established` ends in `std::bad_function_call` or ends the process.
  pub first_world-unset :
      (s : Server) (self addr sockfd : ℕ) (p : Poller E) (l : Loop W Task)
      → s.connection_set ≡ false
      → lookup sockfd p.channels ≡ none
      → E.interest p.kernel sockfd ≡ none
      → (connection_established E W (first_world s self addr sockfd p l) ≡ stop bad_function_call)
        ⊎ (connection_established E W (first_world s self addr sockfd p l) ≡ stop exit_process)
  unfolding make_conn TcpConnection.create Channel.create
  first_world-unset s self addr sockfd p l unset free unwatched =
      connection_established-unset E W (first_world s self addr sockfd p l) unset (free, unwatched)
