-- ===== src/TcpServer/Destroy.antt =====
-- The destructor of net/tcp_server/tcp_server.cc.
use moony.Prelude.{
  ℕ, ◌≡◌, ◌≢◌, ◌⊎◌, inl, inr, refl, sym, ap, subst, ◌∙◌, true, false, List, [], ◌∷◌, ◌++◌, arith,
  if◌then◌else◌, ◌==◌, Bool-cases, append_assoc, append-nil,
}
use moony.Prelude.Text.{Text}
use moony.EventLoop.{EventFd, Loop}
use moony.TcpServer.{Managed, Site, Job, destroyed_job, destroy, destroy_each, post}
use moony.TcpServer.Posted.{Posted, post-Posted}

-- The jobs of the loop at `b` among those of the connections, in the map's order.
abbrev pub jobs_of : ℕ → List (Text × Managed) → List Job
jobs_of b [] = []
jobs_of b ((k, c) ∷ cs) = if c.loop == b then destroyed_job c ∷ jobs_of b cs else jobs_of b cs

-- Those of the loops of thread `tid`, where `thread` is the thread of the loop at each address.
abbrev pub jobs_in : (ℕ → ℕ) → ℕ → List (Text × Managed) → List Job
jobs_in thread tid [] = []
jobs_in thread tid ((k, c) ∷ cs) =
    if thread c.loop == tid then destroyed_job c ∷ jobs_in thread tid cs else jobs_in thread tid cs

module _ (W : EventFd) where
  -- What the destructor leaves of the loops, for the connections `cs`: each loop of another thread has the
  -- jobs of its connections behind those that waited, in order, and is awake if there are any; those of
  -- the destructor's own thread have run, in order; and a loop without connections, or of its own
  -- thread, is as it was.
  pub record Destroys (thread : ℕ → ℕ) (tid : ℕ) (cs : List (Text × Managed)) (s s' : Site W)
      : Type 0 where
    pub queued :
        (b : ℕ) → thread b ≢ tid → (s'.loops b).pending ≡ (s.loops b).pending ++ jobs_of b cs
    pub woken :
        (b : ℕ) → thread b ≢ tid → jobs_of b cs ≢ [] → W.readable (s'.loops b).counter ≡ true
    pub untouched : (b : ℕ) → jobs_of b cs ≡ [] → s'.loops b ≡ s.loops b
    pub own : (b : ℕ) → thread b ≡ tid → s'.loops b ≡ s.loops b
    pub ran : s'.ran ≡ s.ran ++ jobs_in thread tid cs

  module _ (tid a : ℕ) (j : Job) (s t : Site W) (p : Posted W tid a j s t) where
    loop_other : (b : ℕ) → (a == b) ≡ false → t.loops b ≡ s.loops b
    loop_other b e = p.elsewhere b (λ q. ground (arith, q))

    loop_own : (s.loops a).thread_id ≡ tid → (t.loops a ≡ s.loops a) × (t.ran ≡ s.ran ++ j ∷ [])
    loop_own e = elim p.here [ inl (_, r, l) ↦ (l, r) | inr (n, _, _, _) ↦ absurd (n e) ]

    loop_queued :
        (s.loops a).thread_id ≢ tid
        → ((t.loops a).pending ≡ (s.loops a).pending ++ j ∷ [])
          × (W.readable (t.loops a).counter ≡ true)
          × (t.ran ≡ s.ran)
    loop_queued n = elim p.here [ inl (e, _, _) ↦ absurd (n e) | inr (_, r, q, w) ↦ (q, w, r) ]

  no_jobs_cases : (js : List Job) → (js ≡ []) ⊎ (js ≢ [])
  no_jobs_cases [] = inl refl
  no_jobs_cases (j ∷ js) = inr (λ e. cc)

  module _ (thread : ℕ → ℕ) (tid : ℕ) (k : Text) (c : Managed) (cs : List (Text × Managed))
      (s t u : Site W) (h : (b : ℕ) → (s.loops b).thread_id ≡ thread b)
      (p : Posted W tid c.loop (destroyed_job c) s t) (r : Destroys thread tid cs t u) where
    foreign : thread c.loop ≢ tid → (s.loops c.loop).thread_id ≢ tid
    foreign n e = n (sym (h c.loop) ∙ e)

    queued_here :
        thread c.loop ≢ tid
        → (u.loops c.loop).pending
          ≡ (s.loops c.loop).pending ++ (destroyed_job c ∷ jobs_of c.loop cs)
    queued_here n =
        let (q, _, _) = loop_queued tid c.loop (destroyed_job c) s t p (foreign n) in
        r.queued c.loop n
        ∙ ap (λ l. l ++ jobs_of c.loop cs) q
        ∙ append_assoc (s.loops c.loop).pending (destroyed_job c ∷ []) (jobs_of c.loop cs)

    woken_here : thread c.loop ≢ tid → W.readable (u.loops c.loop).counter ≡ true
    woken_here n = elim (no_jobs_cases (jobs_of c.loop cs)) [
      | inl none_left ↦
          ap (λ (l : Loop W Job). W.readable l.counter) (r.untouched c.loop none_left)
          ∙ (loop_queued tid c.loop (destroyed_job c) s t p (foreign n)).1
      | inr more ↦ r.woken c.loop n more
    ]

    own_here : thread c.loop ≡ tid → u.loops c.loop ≡ s.loops c.loop
    own_here e = r.own c.loop e ∙ (loop_own tid c.loop (destroyed_job c) s t p (h c.loop ∙ e)).0

    ran_here : u.ran ≡ s.ran ++ jobs_in thread tid ((k, c) ∷ cs)
    ran_here = elim (Bool-cases (thread c.loop == tid)) [
      | inl e ↦ rw e (
          r.ran
          ∙ ap (λ l. l ++ jobs_in thread tid cs)
              (loop_own tid c.loop (destroyed_job c) s t p (h c.loop ∙ ground arith)).1
          ∙ append_assoc s.ran (destroyed_job c ∷ []) (jobs_in thread tid cs))
      | inr e ↦ rw e (
          r.ran
          ∙ ap (λ l. l ++ jobs_in thread tid cs)
              (loop_queued tid c.loop (destroyed_job c) s t p (foreign (λ q. ground (arith, q)))).2)
    ]

    same_loop : (b : ℕ) → (c.loop == b) ≡ true → c.loop ≡ b
    same_loop b e = ground arith

    cons-Destroys : Destroys thread tid ((k, c) ∷ cs) s u
    cons-Destroys = record {
      queued = λ b n. elim (Bool-cases (c.loop == b)) [
        | inl e ↦ rw e (
            subst
              (λ x.
                thread x ≢ tid
                → (u.loops x).pending ≡ (s.loops x).pending ++ (destroyed_job c ∷ jobs_of x cs))
              (same_loop b e) queued_here n)
        | inr e ↦ rw e (
            r.queued b n
            ∙ ap (λ (l : Loop W Job). l.pending ++ jobs_of b cs)
                (loop_other tid c.loop (destroyed_job c) s t p b e))
      ];
      woken = λ b n some_job. elim (Bool-cases (c.loop == b)) [
        | inl e ↦
            subst (λ x. thread x ≢ tid → W.readable (u.loops x).counter ≡ true) (same_loop b e)
              woken_here n
        | inr e ↦ r.woken b n (rw e at some_job)
      ];
      untouched = λ b none_left. elim (Bool-cases (c.loop == b)) [
        | inl e ↦ cc (rw e at none_left)
        | inr e ↦
            r.untouched b (rw e at none_left) ∙ loop_other tid c.loop (destroyed_job c) s t p b e
      ];
      own = λ b m. elim (Bool-cases (c.loop == b)) [
        | inl e ↦ subst (λ x. thread x ≡ tid → u.loops x ≡ s.loops x) (same_loop b e) own_here m
        | inr e ↦ r.own b m ∙ loop_other tid c.loop (destroyed_job c) s t p b e
      ];
      ran = ran_here;
    }

  destroy_each-Destroys :
      (thread : ℕ → ℕ) (tid : ℕ) (cs : List (Text × Managed)) (s : Site W)
      → ((b : ℕ) → (s.loops b).thread_id ≡ thread b)
      → Destroys thread tid cs s (destroy_each W tid cs s)
  unfolding destroy_each
  destroy_each-Destroys thread tid [] s h = record {
    queued = λ b n. sym (append-nil (s.loops b).pending);
    woken = λ b n e. absurd (e refl);
    untouched = λ b e. refl;
    own = λ b e. refl;
    ran = sym (append-nil s.ran);
  }
  destroy_each-Destroys thread tid ((k, c) ∷ cs) s h =
      let t = post W tid c.loop (destroyed_job c) s in
      let p = post-Posted W tid c.loop (destroyed_job c) s in
      let r = destroy_each-Destroys thread tid cs t (λ b. p.threads b ∙ h b) in
      cons-Destroys thread tid k c cs s t _ h p r

  -- The destructor in thread `tid` empties the map. Each loop of another thread gets the
  -- `connection_destroyed` of each of its connections, once, in the map's order, behind the jobs that
  -- wait there, and its eventfd is readable if it got any; those of the loops of thread `tid` run
  -- at once, in that order; every loop of that thread, or without connections, is as it was.
  pub destroy_lem :
      (tid : ℕ) (s : Site W)
      → ((destroy W tid s).server.connections ≡ [])
        × Destroys (λ b. (s.loops b).thread_id) tid s.server.connections s (destroy W tid s)
  unfolding destroy
  destroy_lem tid s =
      let d =
        destroy_each-Destroys (λ b. (s.loops b).thread_id) tid s.server.connections s (λ b. refl) in
      (
        refl,
        record {
          queued = d.queued;
          woken = d.woken;
          untouched = d.untouched;
          own = d.own;
          ran = d.ran;
        },
      )
