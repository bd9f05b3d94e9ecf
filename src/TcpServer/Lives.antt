-- ===== src/TcpServer/Lives.antt =====
-- Every run of the base loop's thread of net/tcp_server/tcp_server.cc and of the loops: what comes first in
-- the life of a connection.
use moony.Prelude.{
  ◌⊎◌, ℕ, ◌≡◌, inl, inr, refl, sym, ap, subst, ◌∙◌, true, false, ◌==◌, Bool-cases, List, [], ◌∷◌,
  ◌++◌, ok, bind_returns, arith, append_assoc, insert,
}
use moony.Prelude.Text.{Text, text_eq, text_beq_iff}
use moony.EventLoop.{EventFd}
use moony.TcpServer.{
  Arrival, local_addr_of, Server, Managed, Job, listen_job, established_job, destroyed_job,
  remove_job, Site, begin, connect, post, destroy, destroy_each, increment, conn_name, make_conn,
  set_loop,
}
use moony.ThreadPool.{get_next_loop}
use moony.TcpServer.Posted.{Posted, post-Posted}
use moony.TcpServer.Remove.{in_loop-Drops}
use moony.TcpServer.Ordered.{opened, ordered, opened-append}
use moony.TcpServer.Jobs.{
  base_thread, popped, run_job, jobs, Step, starts, accepts, closes, runs, Reach, here, next,
}
use moony.TcpServer.Orderly.{IsOrderly, Grows, post-IsOrderly, popped-IsOrderly, opened_more}
use moony.TcpServer.Kept.{
  allowed_destroyed, or_true, Kept, AllKept, AllKept-Grows, AllKept-insert, IsLively,
  dropped-IsLively, Posted-IsLively, closes-IsLively, relabelled-IsLively,
}

module _ (W : EventFd) where
  starts-IsLively :
      (place : ℕ → ℕ) (tid : ℕ) (s : Site W) → IsLively W s → IsLively W (begin W place tid s)
  unfolding begin
  starts-IsLively place tid s h = elim (Bool-cases (s.server.started == 0)) [
    | inl first ↦ rw first (
        Posted-IsLively W tid s.server.base_loop listen_job _ _
          (relabelled-IsLively W s _ _ refl h.kept h.orderly) (λ k up. refl) tt
          (post-Posted W tid s.server.base_loop listen_job _))
    | inr again ↦ rw again (relabelled-IsLively W s _ s.inits refl h.kept h.orderly)
  ]

  -- What a `new_connection` that returns has done.
  accepted :
      (tid self addr : ℕ) (arrival : Arrival) (s s' : Site W)
      → connect W tid self addr arrival s ≡ ok s'
      → (c : Managed) × (v : Server) × (v.base_loop ≡ s.server.base_loop)
        × (v.connections ≡ insert c.name c s.server.connections)
        × (s' ≡ post W tid c.loop (established_job c) (record s { server = v }))
  unfolding connect
  accepted tid self addr arrival s s' e =
      let ((io_loop, pool), e', _) = bind_returns (get_next_loop s.server.pool) e in
      let (n, e'', _) = bind_returns (increment s.server.next_id) e' in
      let c : Managed = record {
        name = conn_name s.server s.server.next_id;
        loop = io_loop;
        local_addr = local_addr_of arrival.sock_name;
        peer_addr = arrival.peer_addr;
        conn = make_conn s.server self addr arrival.sockfd;
      } in
      (
        c,
        record s.server {
          pool = pool;
          next_id = n;
          connections = insert c.name c s.server.connections;
        },
        refl,
        refl,
        cc,
      )

  opened_own : (c : Managed) (xs : List Job) → opened c.name (xs ++ established_job c ∷ []) ≡ true
  opened_own c xs =
      ground (
        arith,
        opened-append c.name xs (established_job c ∷ []),
        (text_beq_iff c.name c.name).1 refl,
      )

  -- A connection whose `connection_established` was posted in the base loop's thread.
  Posted-Kept :
      (tid : ℕ) (c : Managed) (t s' : Site W)
      → tid ≡ base_thread W s'
      → Posted W tid c.loop (established_job c) t s'
      → Kept W s' c
  Posted-Kept tid c t s' b p = elim p.here [
    | inl (_, r, _) ↦
        let up : opened c.name s'.ran ≡ true = ap (opened c.name) r ∙ opened_own c t.ran in
        (opened_more W c.name s'.ran (s'.loops c.loop).pending up, rw up (or_true _))
    | inr (other, r, q, _) ↦
        let up : opened c.name (jobs W s' c.loop) ≡ true =
          rw (r, q, ← append_assoc t.ran (t.loops c.loop).pending (established_job c ∷ []))
            (opened_own c (jobs W t c.loop)) in
        (up, ground (arith, p.threads c.loop, other, b))
  ]

  base_thread-Grows :
      (s s' : Site W)
      → Grows W s s'
      → s'.server.base_loop ≡ s.server.base_loop
      → base_thread W s' ≡ base_thread W s
  base_thread-Grows s s' g b = ap (λ a. (s'.loops a).thread_id) b ∙ g.threads s.server.base_loop

  accepts-IsLively :
      (self addr : ℕ) (arrival : Arrival) (s s' : Site W)
      → IsLively W s
      → connect W (base_thread W s) self addr arrival s ≡ ok s'
      → IsLively W s'
  accepts-IsLively self addr arrival s s' h e =
      let tid = base_thread W s in
      let (c, v, b, m, same) = accepted tid self addr arrival s s' e in
      let t : Site W = record s { server = v } in
      let p =
        subst (Posted W tid c.loop (established_job c) t) (sym same)
          (post-Posted W tid c.loop (established_job c) t) in
      let (orderly, g) =
        post-IsOrderly W tid c.loop (established_job c) t s'
          (record { order = h.orderly.order; removable = h.orderly.removable })
          (record { queued = λ k. refl; removable = tt }) (λ _ k. refl) p in
      let g' : Grows W s s' = record { ran = g.ran; jobs = g.jobs; threads = g.threads } in
      let base : s'.server.base_loop ≡ s.server.base_loop =
        ap (λ (u : Server). u.base_loop) p.server ∙ b in
      record {
        orderly = orderly;
        kept = subst (AllKept W s') (sym (ap (λ (u : Server). u.connections) p.server ∙ m)) (
            AllKept-insert W s' c.name c s.server.connections
              (Posted-Kept tid c t s' (sym (base_thread-Grows s s' g' base)) p)
              (AllKept-Grows W s s' s.server.connections g' base h.kept));
      }

  popped-IsLively :
      (a : ℕ) (j : Job) (js : List Job) (s : Site W)
      → IsLively W s
      → (s.loops a).pending ≡ j ∷ js
      → IsLively W (popped W a j js s) × Grows W s (popped W a j js s)
  unfolding popped set_loop
  popped-IsLively a j js s h e =
      let (orderly, g) = popped-IsOrderly W a j js s h.orderly e in
      (
        record {
          orderly = orderly;
          kept = AllKept-Grows W s (popped W a j js s) s.server.connections g refl h.kept;
        },
        g,
      )

  runs-IsLively :
      (a : ℕ) (j : Job) (js : List Job) (s : Site W)
      → IsLively W s
      → (s.loops a).pending ≡ j ∷ js
      → IsLively W (run_job W a j (popped W a j js s))
  unfolding run_job
  runs-IsLively a (remove_job c) js s h e =
      let (lively, g) = popped-IsLively a (remove_job c) js s h e in
      dropped-IsLively W c (popped W a (remove_job c) js s) _ lively
        (g.ran c.name (rw e at (h.orderly.removable a)).0) (in_loop-Drops W _ c _)
  runs-IsLively a (established_job c) js s h e = (popped-IsLively a (established_job c) js s h e).0
  runs-IsLively a (destroyed_job c) js s h e = (popped-IsLively a (destroyed_job c) js s h e).0
  runs-IsLively a listen_job js s h e = (popped-IsLively a listen_job js s h e).0

  Step-IsLively : {s t : Site W} → Step W s t → IsLively W s → IsLively W t
  Step-IsLively {s} (starts place) h = starts-IsLively place (base_thread W s) s h
  Step-IsLively {s} {t} (accepts self addr arrival e) h = accepts-IsLively self addr arrival s t h e
  Step-IsLively {s} (closes c o) h = closes-IsLively W c (s.loops c.loop).thread_id s h o
  Step-IsLively {s} (runs a j js e) h = runs-IsLively a j js s h e

  Reach-IsLively : {s t : Site W} → IsLively W s → Reach W s t → IsLively W t
  Reach-IsLively h here = h
  Reach-IsLively h (next r st) = Step-IsLively st (Reach-IsLively h r)

  destroy_each-IsOrderly :
      (tid : ℕ) (cs : List (Text × Managed)) (s : Site W)
      → base_thread W s ≡ tid
      → IsOrderly W s
      → AllKept W s cs
      → IsOrderly W (destroy_each W tid cs s)
  unfolding destroy_each
  destroy_each-IsOrderly tid [] s b h kept = h
  destroy_each-IsOrderly tid ((k, c) ∷ cs) s b h ((waits, own), kept) =
      let s' = post W tid c.loop (destroyed_job c) s in
      let p = post-Posted W tid c.loop (destroyed_job c) s in
      let now : (s.loops c.loop).thread_id ≡ tid → opened c.name s.ran ≡ true =
        λ e. ground (arith, e, b, own) in
      let (orderly, g) =
        post-IsOrderly W tid c.loop (destroyed_job c) s s' h
          (record { queued = allowed_destroyed c (jobs W s c.loop) waits; removable = tt })
          (λ e. allowed_destroyed c s.ran (now e)) p in
      let base = ap (λ (u : Server). u.base_loop) p.server in
      destroy_each-IsOrderly tid cs s' (base_thread-Grows s s' g base ∙ b) orderly
        (AllKept-Grows W s s' cs g base kept)

  -- No job waits, none has run but that of `start`, and there is no connection.
  pub record IsFresh (s : Site W) : Type 0 where
    pub ran : (s.ran ≡ []) ⊎ (s.ran ≡ listen_job ∷ [])
    pub pending : (a : ℕ) → (s.loops a).pending ≡ []
    pub connections : s.server.connections ≡ []

  fresh-IsLively : (s : Site W) → IsFresh s → IsLively W s
  fresh-IsLively s h = record {
    orderly = record {
      order =
          λ k a. elim h.ran [ inl e ↦ rw (e, h.pending a) refl | inr e ↦ rw (e, h.pending a) refl ];
      removable = λ a. rw (h.pending a) tt;
    };
    kept = rw h.connections tt;
  }

  -- From a server with no connection and no job but, perhaps, the `listen` of `start` that has run,
  -- whatever it accepts in the base loop's thread, whichever established connections are closed in the
  -- threads of their loops, and in whatever order the loops run their jobs: of the jobs that have
  -- run, then those that wait in any one loop, every `connection_destroyed` stands behind the
  -- `connection_established` of the connection of that name. So it is after the server's destructor,
  -- run in the base loop's thread at any time.
  pub established_first :
      {s t : Site W}
      → IsFresh s
      → Reach W s t
      → (k : Text) (a : ℕ)
      → (ordered k false (jobs W t a) ≡ true)
        × (ordered k false (jobs W (destroy W (base_thread W t) t) a) ≡ true)
  unfolding destroy
  established_first {s} {t} f r k a =
      let h = Reach-IsLively (fresh-IsLively s f) r in
      (
        h.orderly.order k a,
        (destroy_each-IsOrderly (base_thread W t) t.server.connections t refl h.orderly
              h.kept).order
            k a,
      )
