-- ===== src/TcpServer/Remove.antt =====
-- How net/tcp_server/tcp_server.cc lets connections go.
use moony.Prelude.{
  ℕ, ◌≡◌, ◌≢◌, ◌⊎◌, inl, inr, refl, sym, ap, subst, ◌∙◌, none, some, [], ◌∷◌, ◌++◌, arith,
  if◌then◌else◌, lookup, erase, lookup-erase, Bool-cases, Option,
}
use moony.Prelude.Text.{Text, text_eq, text_beq}
use moony.EventLoop.{EventFd, Loop, queue_in_loop, wakeup, enqueue}
use moony.EventLoop.Wakeup.{run_in_loop_cases}
use moony.TcpServer.{
  Server, Managed, Site, Job, remove_job, destroyed_job, remove_connection,
  remove_connection_in_loop, removed_or_queued, ran_or_queued, conn_name, set_loop,
}
use moony.TcpServer.Names.{IsNamed}
use moony.TcpServer.Posted.{
  Posted, at_self, at_other, threads_set, queued-Posted, thread_id-run_in_loop,
}

module _ (W : EventFd) where
  -- The connection `c` is out of the map, no other entry has changed, and its loop, and no other, has
  -- one job more, `connection_destroyed`, behind those that wait.
  pub record Drops (c : Managed) (s s' : Site W) : Type 0 where
    pub entries :
        (k : Text)
        → lookup k s'.server.connections
          ≡ (if text_beq c.name k then none else lookup k s.server.connections)
    pub job : (s'.loops c.loop).pending ≡ (s.loops c.loop).pending ++ destroyed_job c ∷ []
    pub elsewhere : (b : ℕ) → c.loop ≢ b → s'.loops b ≡ s.loops b
    pub pool : s'.server.pool ≡ s.server.pool
    pub base_loop : s'.server.base_loop ≡ s.server.base_loop
    pub kept : s'.server.connections ≡ erase c.name s.server.connections
    pub ran : s'.ran ≡ s.ran
    pub threads : (b : ℕ) → (s'.loops b).thread_id ≡ (s.loops b).thread_id
    pub named : IsNamed s.server → IsNamed s'.server

  pending-queue_in_loop :
      (l : Loop W Job) (tid : ℕ) (j : Job)
      → (queue_in_loop W Job l tid j).pending ≡ l.pending ++ j ∷ []
  unfolding queue_in_loop
  pending-queue_in_loop l tid j = ground arith

  thread_id-queue_in_loop :
      (l : Loop W Job) (tid : ℕ) (j : Job) → (queue_in_loop W Job l tid j).thread_id ≡ l.thread_id
  unfolding queue_in_loop wakeup enqueue
  thread_id-queue_in_loop l tid j = ground arith

  erased-IsNamed :
      (s : Server) (k : Text)
      → IsNamed s
      → IsNamed (record s { connections = erase k s.connections })
  unfolding conn_name
  erased-IsNamed s k h = record {
    short = h.short;
    ids = h.ids;
    named = λ j d found. elim (Bool-cases (text_beq k j)) [
      | inl same ↦ cc (rw same at (lookup-erase j k s.connections))
      | inr other ↦ h.named j d (sym (rw other at (lookup-erase j k s.connections)) ∙ found)
    ];
  }

  pub in_loop-Drops :
      (tid : ℕ) (c : Managed) (s : Site W) → Drops c s (remove_connection_in_loop W tid c s)
  unfolding remove_connection_in_loop set_loop
  in_loop-Drops tid c s =
      let l = queue_in_loop W Job (s.loops c.loop) tid (destroyed_job c) in
      record {
        entries = λ k. lookup-erase k c.name s.server.connections;
        job =
            ap (λ (m : Loop W Job). m.pending) (at_self W c.loop l s)
            ∙ pending-queue_in_loop (s.loops c.loop) tid (destroyed_job c);
        elsewhere = λ b h. at_other W c.loop b l s h;
        pool = refl;
        base_loop = refl;
        kept = refl;
        ran = refl;
        threads = λ b.
            threads_set W c.loop b l s
              (thread_id-queue_in_loop (s.loops c.loop) tid (destroyed_job c));
        named = erased-IsNamed s.server c.name;
      }

  as_post :
      (tid : ℕ) (c : Managed) (s : Site W) (r : Option Job × Loop W Job)
      → r.0 ≡ none
      → removed_or_queued W tid c r s ≡ ran_or_queued W s.server.base_loop r s
  unfolding removed_or_queued ran_or_queued
  as_post tid c s (some j, l) e = cc
  as_post tid c s (none, l) e = refl

  -- The close callback of a connection, in thread `tid`. In the thread of the base loop it drops the
  -- connection at once. In any other it leaves the map and every other loop as they are, and puts the
  -- removal, which drops the connection when the base loop runs it, behind the jobs of the base
  -- loop, whose eventfd is readable.
  pub remove_connection_cases :
      (tid : ℕ) (c : Managed) (s : Site W)
      → (((s.loops s.server.base_loop).thread_id ≡ tid) × Drops c s (remove_connection W tid c s))
        ⊎ (((s.loops s.server.base_loop).thread_id ≢ tid)
            × Posted W tid s.server.base_loop (remove_job c) s (remove_connection W tid c s)
            × ((own : ℕ) (t : Site W) → Drops c t (remove_connection_in_loop W own c t)))
  unfolding remove_connection removed_or_queued
  remove_connection_cases tid c s =
      let base = s.server.base_loop in
      elim (run_in_loop_cases W Job (s.loops base) tid (remove_job c)) [
        | inl (own, e) ↦ inl (own, rw e (in_loop-Drops tid c s))
        | inr (other, e, p, r) ↦ inr (
          other,
          subst (Posted W tid base (remove_job c) s) (sym (as_post tid c s _ e)) (
              queued-Posted W tid base (remove_job c) s _ other e p r
                (thread_id-run_in_loop W (s.loops base) tid (remove_job c))),
          (λ own t. in_loop-Drops own c t),
        )
      ]
