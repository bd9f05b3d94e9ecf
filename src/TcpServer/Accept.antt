-- ===== src/TcpServer/Accept.antt =====
-- `new_connection` of net/tcp_server/tcp_server.cc.
use moony.Prelude.{
  Option, Outcome, Stop, ℕ, ◌+◌, ◌<◌, ◌≡◌, ◌⊎◌, inl, inr, refl, sym, ap, subst, ◌∙◌, none, some, ok,
  stop, arith, if◌then◌else◌, lookup, insert, lookup-insert, Bool-cases, Option-cases,
}
use moony.Prelude.Text.{Text, text_eq, text_beq, text_beq_iff}
use moony.EventLoop.{EventFd}
use moony.ThreadPool.{Pool}
use moony.ThreadPool.Ready.{IsReady, turn}
use moony.TcpServer.{
  Arrival, local_addr_of, Server, Managed, Site, post, conn_name, make_conn, established_job,
}
use moony.TcpServer.Names.{IsNamed, conn_name-inj}
use moony.TcpServer.Posted.{Posted, post-Posted}

-- The server after it has stored the connection `c`.
abbrev storing : Server → Pool → Managed → Server
storing s p c = record s {
  pool = p;
  next_id = s.next_id + 1;
  connections = insert c.name c s.connections;
}

-- No connection in the map has the name that comes next.
next_name-fresh : (s : Server) → IsNamed s → lookup (conn_name s s.next_id) s.connections ≡ none
next_name-fresh s h = elim (Option-cases (lookup (conn_name s s.next_id) s.connections)) [
  | inl e ↦ e
  | inr (d, e) ↦
      let (_, (i, lt, same)) = h.named (conn_name s s.next_id) d e in
      absurd (omega (arith, conn_name-inj s i s.next_id h.short (omega (arith, h.ids)) h.ids same))
]

-- What the map holds after it has stored `c`.
lookup-storing :
    (s : Server) (p : Pool) (c : Managed) (k : Text)
    → lookup k (storing s p c).connections
      ≡ (if text_beq c.name k then some c else lookup k s.connections)
lookup-storing s p c k = lookup-insert k c.name c s.connections

storing-IsNamed :
    (s : Server) (p : Pool) (c : Managed)
    → IsNamed s
    → s.next_id < 2147483647
    → c.name ≡ conn_name s s.next_id
    → IsNamed (storing s p c)
unfolding conn_name
storing-IsNamed s p c h room e = record {
  short = h.short;
  ids = omega arith;
  named = λ k d found. elim (Bool-cases (text_beq c.name k)) [
    | inl same ↦
        let mine : some c ≡ some d = sym (rw same at (lookup-storing s p c k)) ∙ found in
        let key : c.name ≡ k = (text_beq_iff c.name k).0 same in
        (cc, (s.next_id, omega arith, sym e ∙ key))
    | inr other ↦
        let (at, (i, lt, same)) =
          h.named k d (sym (rw other at (lookup-storing s p c k)) ∙ found) in
        (at, (i, omega arith, same))
  ];
}

module _ (W : EventFd) where
  -- The site after `new_connection` has made `c` of `arrival`.
  pub record Accepts (tid self addr : ℕ) (arrival : Arrival) (s s' : Site W) (c : Managed)
      : Type 0 where
    pub fresh : lookup c.name s.server.connections ≡ none
    pub name : c.name ≡ conn_name s.server s.server.next_id
    pub loop : c.loop ≡ turn s.server.pool
    pub local_addr : c.local_addr ≡ local_addr_of arrival.sock_name
    pub peer_addr : c.peer_addr ≡ arrival.peer_addr
    pub conn : c.conn ≡ make_conn s.server self addr arrival.sockfd
    pub stored :
        (k : Text)
        → lookup k s'.server.connections
          ≡ (if text_beq c.name k then some c else lookup k s.server.connections)
    pub named : IsNamed s'.server
    pub ready : IsReady s'.server.pool
    pub posted :
        (t : Site W) × (t.loops ≡ s.loops)
        × (t.ran ≡ s.ran)
        × Posted W tid c.loop (established_job c) t s'

  after :
      (tid self addr : ℕ) (arrival : Arrival) (s : Site W) (p : Pool) (c : Managed)
      → IsNamed s.server
      → IsReady p
      → s.server.next_id < 2147483647
      → c.name ≡ conn_name s.server s.server.next_id
      → c.loop ≡ turn s.server.pool
      → c.local_addr ≡ local_addr_of arrival.sock_name
      → c.peer_addr ≡ arrival.peer_addr
      → c.conn ≡ make_conn s.server self addr arrival.sockfd
      → Accepts tid self addr arrival s
          (post W tid c.loop (established_job c) (record s { server = storing s.server p c }))
          c
  after tid self addr arrival s p c h r room name loop local peer conn =
      let t : Site W = record s { server = storing s.server p c } in
      let posted = post-Posted W tid c.loop (established_job c) t in
      record {
        fresh = rw name (next_name-fresh s.server h);
        name = name;
        loop = loop;
        local_addr = local;
        peer_addr = peer;
        conn = conn;
        stored = λ k.
            ap (λ (v : Server). lookup k v.connections) posted.server
            ∙ lookup-storing s.server p c k;
        named = subst IsNamed (sym posted.server) (storing-IsNamed s.server p c h room name);
        ready = subst (λ (v : Server). IsReady v.pool) (sym posted.server) r;
        posted = (t, refl, refl, posted);
      }

  -- What the call comes to that has accepted `c`: it returns, or its `connection_established` has run at
  -- once, in the thread of its loop, and has ended the call.
  abbrev pub Comes : Option Stop → ℕ → Site W → Site W → Managed → Outcome (Site W) → Type 0
  Comes ended tid s s' c result =
      (result ≡ ok s')
      ⊎ ((e : Stop) × (ended ≡ some e) × ((s.loops c.loop).thread_id ≡ tid) × (result ≡ stop e))
