-- ===== src/TcpServer/Posted.antt =====
-- A job that net/tcp_server/tcp_server.cc leaves for a loop.
use moony.Prelude.{
  ℕ, ◌≡◌, ◌≢◌, ◌⊎◌, inl, inr, refl, true, [], ◌∷◌, ◌++◌, arith, ◌==◌, Bool-cases, ◌==◌, Option,
  some, none, ap, ◌∙◌,
}
use moony.EventLoop.{EventFd, Loop, run_in_loop, queue_in_loop, wakeup, enqueue}
use moony.EventLoop.Wakeup.{run_in_loop_cases}
use moony.TcpServer.{Job, Site, post, ran_or_queued, set_loop}

module _ (W : EventFd) where
  -- In the loop's own thread the job has run; in any other it waits behind the loop's jobs, and the
  -- loop's eventfd is readable. The server and the other loops are as they were.
  pub record Posted (tid a : ℕ) (j : Job) (s s' : Site W) : Type 0 where
    pub server : s'.server ≡ s.server
    pub inits : s'.inits ≡ s.inits
    pub elsewhere : (b : ℕ) → a ≢ b → s'.loops b ≡ s.loops b
    pub threads : (b : ℕ) → (s'.loops b).thread_id ≡ (s.loops b).thread_id
    pub here :
        (((s.loops a).thread_id ≡ tid) × (s'.ran ≡ s.ran ++ j ∷ []) × (s'.loops a ≡ s.loops a))
        ⊎ (((s.loops a).thread_id ≢ tid)
            × (s'.ran ≡ s.ran)
            × ((s'.loops a).pending ≡ (s.loops a).pending ++ j ∷ [])
            × (W.readable (s'.loops a).counter ≡ true))

  pub at_self : (a : ℕ) (l : Loop W Job) (s : Site W) → (set_loop W a l s).loops a ≡ l
  unfolding set_loop
  at_self a l s = ground arith

  pub at_other :
      (a b : ℕ) (l : Loop W Job) (s : Site W) → a ≢ b → (set_loop W a l s).loops b ≡ s.loops b
  unfolding set_loop
  at_other a b l s h = ground arith

  pub threads_set :
      (a b : ℕ) (l : Loop W Job) (s : Site W)
      → l.thread_id ≡ (s.loops a).thread_id
      → ((set_loop W a l s).loops b).thread_id ≡ (s.loops b).thread_id
  unfolding set_loop
  threads_set a b l s e = elim (Bool-cases (a == b)) [
    | inl same ↦ rw same (e ∙ ap (λ j. (s.loops j).thread_id) (ground arith))
    | inr other ↦ rw other refl
  ]

  pub thread_id-run_in_loop :
      (l : Loop W Job) (tid : ℕ) (j : Job) → (run_in_loop W Job l tid j).1.thread_id ≡ l.thread_id
  unfolding run_in_loop queue_in_loop wakeup enqueue
  thread_id-run_in_loop l tid j = ground arith

  ran-Posted :
      (tid a : ℕ) (j : Job) (s : Site W)
      → (s.loops a).thread_id ≡ tid
      → Posted tid a j s (ran_or_queued W a (some j, s.loops a) s)
  unfolding ran_or_queued set_loop
  ran-Posted tid a j s own = record {
    server = refl;
    inits = refl;
    elsewhere = λ b h. at_other a b (s.loops a) s h;
    threads = λ b. threads_set a b (s.loops a) s refl;
    here = inl (own, refl, at_self a (s.loops a) s);
  }

  pub queued-Posted :
      (tid a : ℕ) (j : Job) (s : Site W) (r : Option Job × Loop W Job)
      → (s.loops a).thread_id ≢ tid
      → r.0 ≡ none
      → r.1.pending ≡ (s.loops a).pending ++ j ∷ []
      → W.readable r.1.counter ≡ true
      → r.1.thread_id ≡ (s.loops a).thread_id
      → Posted tid a j s (ran_or_queued W a r s)
  unfolding ran_or_queued set_loop
  queued-Posted tid a j s (some k, l) other e p r t = cc
  queued-Posted tid a j s (none, l) other e p r t = record {
    server = refl;
    inits = refl;
    elsewhere = λ b h. at_other a b l s h;
    threads = λ b. threads_set a b l s t;
    here = inr (
      other,
      refl,
      ap (λ (m : Loop W Job). m.pending) (at_self a l s) ∙ p,
      ap (λ (m : Loop W Job). W.readable m.counter) (at_self a l s) ∙ r,
    );
  }

  pub post-Posted : (tid a : ℕ) (j : Job) (s : Site W) → Posted tid a j s (post W tid a j s)
  unfolding post
  post-Posted tid a j s = elim (run_in_loop_cases W Job (s.loops a) tid j) [
    | inl (own, e) ↦ rw e (ran-Posted tid a j s own)
    | inr (other, e, p, r) ↦
        queued-Posted tid a j s _ other e p r (thread_id-run_in_loop (s.loops a) tid j)
  ]
