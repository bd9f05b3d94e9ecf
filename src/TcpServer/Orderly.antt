-- ===== src/TcpServer/Orderly.antt =====
-- The jobs of net/tcp_server/tcp_server.cc as one call or one loop leaves them.
use moony.Prelude.{
  ℕ, ◌≡◌, ◌≢◌, inl, inr, refl, ap, subst, ◌∙◌, true, false, ◌==◌, Bool-cases, List, [], ◌∷◌, ◌++◌,
  arith, append_assoc,
}
use moony.Prelude.Text.{Text, text_eq}
use moony.EventLoop.{EventFd, Loop}
use moony.TcpServer.{Job, listen_job, established_job, destroyed_job, remove_job, Site}
use moony.TcpServer.Posted.{Posted, at_self, at_other, threads_set}
use moony.TcpServer.Ordered.{
  opened, allowed, ordered, opened-append, ordered_run, ordered_queue, ordered-allowed,
}
use moony.TcpServer.Jobs.{popped, jobs}

module _ (W : EventFd) where
  -- Only connections that were established are to be removed.
  abbrev pub Removable : List Job → List Job → Type 0
  Removable done [] = Unit {0}
  Removable done (remove_job c ∷ js) = (opened c.name done ≡ true) × Removable done js
  Removable done (established_job c ∷ js) = Removable done js
  Removable done (destroyed_job c ∷ js) = Removable done js
  Removable done (listen_job ∷ js) = Removable done js

  pub record IsOrderly (s : Site W) : Type 0 where
    pub order : (k : Text) (a : ℕ) → ordered k false (jobs W s a) ≡ true
    pub removable : (a : ℕ) → Removable s.ran (s.loops a).pending

  -- The job may come behind those that wait in the loop at `a`.
  pub record May (s : Site W) (a : ℕ) (j : Job) : Type 0 where
    pub queued : (k : Text) → allowed k (opened k (jobs W s a)) j ≡ true
    pub removable : Removable s.ran (j ∷ [])

  -- Nothing that was established is forgotten.
  pub record Grows (s s' : Site W) : Type 0 where
    pub ran : (k : Text) → opened k s.ran ≡ true → opened k s'.ran ≡ true
    pub jobs : (k : Text) (a : ℕ) → opened k (jobs W s a) ≡ true → opened k (jobs W s' a) ≡ true
    pub threads : (a : ℕ) → (s'.loops a).thread_id ≡ (s.loops a).thread_id

  pub opened_more : (k : Text) (xs ys : List Job) → opened k xs ≡ true → opened k (xs ++ ys) ≡ true
  opened_more k xs ys h = ground (arith, opened-append k xs ys)

  inserted :
      (k : Text) (j : Job) (xs ys : List Job)
      → opened k (xs ++ ys) ≡ true
      → opened k ((xs ++ j ∷ []) ++ ys) ≡ true
  inserted k j xs ys h =
      ground (
        arith,
        opened-append k xs ys,
        opened-append k (xs ++ j ∷ []) ys,
        opened-append k xs (j ∷ []),
      )

  Removable-more : (done more js : List Job) → Removable done js → Removable (done ++ more) js
  Removable-more done more [] h = tt
  Removable-more done more (remove_job c ∷ js) (h, r) =
      (opened_more c.name done more h, Removable-more done more js r)
  Removable-more done more (established_job c ∷ js) h = Removable-more done more js h
  Removable-more done more (destroyed_job c ∷ js) h = Removable-more done more js h
  Removable-more done more (listen_job ∷ js) h = Removable-more done more js h

  Removable-append :
      (done xs ys : List Job) → Removable done xs → Removable done ys → Removable done (xs ++ ys)
  Removable-append done [] ys h k = k
  Removable-append done (remove_job c ∷ xs) ys (h, r) k = (h, Removable-append done xs ys r k)
  Removable-append done (established_job c ∷ xs) ys h k = Removable-append done xs ys h k
  Removable-append done (destroyed_job c ∷ xs) ys h k = Removable-append done xs ys h k
  Removable-append done (listen_job ∷ xs) ys h k = Removable-append done xs ys h k

  everywhere : (a : ℕ) (P : ℕ → Type 0) → P a → ((b : ℕ) → a ≢ b → P b) → (b : ℕ) → P b
  everywhere a P here elsewhere b = elim (Bool-cases (a == b)) [
    | inl e ↦ subst P (ground arith) here
    | inr e ↦ elsewhere b (λ x. ground (arith, x))
  ]

  same_loops :
      (a : ℕ) (s s' : Site W)
      → ((b : ℕ) → a ≢ b → s'.loops b ≡ s.loops b)
      → s'.loops a ≡ s.loops a
      → (b : ℕ) → s'.loops b ≡ s.loops b
  same_loops a s s' elsewhere l b = elim (Bool-cases (a == b)) [
    | inl e ↦ subst (λ x. s'.loops x ≡ s.loops x) (ground arith) l
    | inr e ↦ elsewhere b (λ q. ground (arith, q))
  ]

  module _ (a : ℕ) (j : Job) (s s' : Site W) (h : IsOrderly s) (m : May s a j)
      (elsewhere : (b : ℕ) → a ≢ b → s'.loops b ≡ s.loops b)
      (threads : (b : ℕ) → (s'.loops b).thread_id ≡ (s.loops b).thread_id) where
    -- The job has run.
    module _ (now : (k : Text) → allowed k (opened k s.ran) j ≡ true) (r : s'.ran ≡ s.ran ++ j ∷ [])
        (l : s'.loops a ≡ s.loops a) where
      ran_order : (k : Text) (b : ℕ) → ordered k false (jobs W s' b) ≡ true
      ran_order k b =
          rw (r, same_loops a s s' elsewhere l b)
            (ordered_run k s.ran j (s.loops b).pending (h.order k b) (now k))

      ran-Removable : (b : ℕ) → Removable s'.ran (s'.loops b).pending
      ran-Removable b =
          rw (r, same_loops a s s' elsewhere l b)
            (Removable-more s.ran (j ∷ []) (s.loops b).pending (h.removable b))

      ran_Grows : Grows s s'
      ran_Grows = record {
        ran = λ k e. rw r (opened_more k s.ran (j ∷ []) e);
        jobs = λ k b e.
            rw (r, same_loops a s s' elsewhere l b) (inserted k j s.ran (s.loops b).pending e);
        threads = threads;
      }

    -- The job waits.
    module _ (r : s'.ran ≡ s.ran) (q : (s'.loops a).pending ≡ (s.loops a).pending ++ j ∷ []) where
      queued_order : (k : Text) (b : ℕ) → ordered k false (jobs W s' b) ≡ true
      queued_order k =
          everywhere a (λ b. ordered k false (jobs W s' b) ≡ true)
            (rw (r, q) (ordered_queue k s.ran (s.loops a).pending j (h.order k a) (m.queued k)))
            (λ b n. rw (r, elsewhere b n) (h.order k b))

      queued-Removable : (b : ℕ) → Removable s'.ran (s'.loops b).pending
      queued-Removable =
          everywhere a (λ b. Removable s'.ran (s'.loops b).pending)
            (rw (r, q)
              (Removable-append s.ran (s.loops a).pending (j ∷ []) (h.removable a) m.removable))
            (λ b n. rw (r, elsewhere b n) (h.removable b))

      queued_Grows : Grows s s'
      queued_Grows = record {
        ran = λ k e. rw r e;
        jobs = λ k b.
            everywhere a (λ x. opened k (jobs W s x) ≡ true → opened k (jobs W s' x) ≡ true)
              (λ e.
                rw (r, q, ← append_assoc s.ran (s.loops a).pending (j ∷ []))
                  (opened_more k (jobs W s a) (j ∷ []) e))
              (λ x n e. rw (r, elsewhere x n) e) b;
        threads = threads;
      }

    pub ran-IsOrderly :
        ((k : Text) → allowed k (opened k s.ran) j ≡ true)
        → s'.ran ≡ s.ran ++ j ∷ []
        → s'.loops a ≡ s.loops a
        → IsOrderly s' × Grows s s'
    ran-IsOrderly now r l =
        (record { order = ran_order now r l; removable = ran-Removable now r l }, ran_Grows now r l)

    pub queued-IsOrderly :
        s'.ran ≡ s.ran
        → (s'.loops a).pending ≡ (s.loops a).pending ++ j ∷ []
        → IsOrderly s' × Grows s s'
    queued-IsOrderly r q =
        (record { order = queued_order r q; removable = queued-Removable r q }, queued_Grows r q)

  -- A job that is posted may come behind those that wait, and where it is run at once, now.
  pub post-IsOrderly :
      (tid a : ℕ) (j : Job) (s s' : Site W)
      → IsOrderly s
      → May s a j
      → ((s.loops a).thread_id ≡ tid → (k : Text) → allowed k (opened k s.ran) j ≡ true)
      → Posted W tid a j s s'
      → IsOrderly s' × Grows s s'
  post-IsOrderly tid a j s s' h m now p = elim p.here [
    | inl (own, r, l) ↦ ran-IsOrderly a j s s' h m p.elsewhere p.threads (now own) r l
    | inr (_, r, q, _) ↦ queued-IsOrderly a j s s' h m p.elsewhere p.threads r q
  ]

  Removable-tail :
      (done : List Job) (j : Job) (js : List Job) → Removable done (j ∷ js) → Removable done js
  Removable-tail done (remove_job c) js h = h.1
  Removable-tail done (established_job c) js h = h
  Removable-tail done (destroyed_job c) js h = h
  Removable-tail done listen_job js h = h

  module _ (a : ℕ) (j : Job) (js : List Job) (s : Site W) (h : IsOrderly s)
      (e : (s.loops a).pending ≡ j ∷ js) where
    s' : Site W
    s' = popped W a j js s

    pending_here : (s'.loops a).pending ≡ js
    unfolding s' popped
    pending_here =
        ap (λ (l : Loop W Job). l.pending) (at_self W a (record (s.loops a) { pending = js }) s)

    loops_there : (b : ℕ) → a ≢ b → s'.loops b ≡ s.loops b
    unfolding s' popped
    loops_there b n = at_other W a b (record (s.loops a) { pending = js }) s n

    ran_after : s'.ran ≡ s.ran ++ j ∷ []
    unfolding s' popped
    ran_after = refl

    -- What has run and what waits in the loop itself is the same list.
    jobs_here : jobs W s' a ≡ jobs W s a
    jobs_here = rw (ran_after, pending_here, append_assoc s.ran (j ∷ []) js, e) refl

    next_allowed : (k : Text) → allowed k (opened k s.ran) j ≡ true
    next_allowed k = ordered-allowed k s.ran j js (rw e at (h.order k a))

    popped_order : (k : Text) (b : ℕ) → ordered k false (jobs W s' b) ≡ true
    popped_order k =
        everywhere a (λ b. ordered k false (jobs W s' b) ≡ true)
          (ap (ordered k false) jobs_here ∙ h.order k a)
          (λ b n.
            rw (ran_after, loops_there b n)
              (ordered_run k s.ran j (s.loops b).pending (h.order k b) (next_allowed k)))

    popped-Removable : (b : ℕ) → Removable s'.ran (s'.loops b).pending
    popped-Removable =
        everywhere a (λ b. Removable s'.ran (s'.loops b).pending)
          (rw (ran_after, pending_here)
            (Removable-more s.ran (j ∷ []) js
              (Removable-tail s.ran j js (rw e at (h.removable a)))))
          (λ b n.
            rw (ran_after, loops_there b n)
              (Removable-more s.ran (j ∷ []) (s.loops b).pending (h.removable b)))

    popped_Grows : Grows s s'
    unfolding s' popped
    popped_Grows = record {
      ran = λ k o. opened_more k s.ran (j ∷ []) o;
      jobs = λ k.
          everywhere a (λ b. opened k (jobs W s b) ≡ true → opened k (jobs W s' b) ≡ true)
            (λ o. ap (opened k) jobs_here ∙ o)
            (λ b n o. rw (ran_after, loops_there b n) (inserted k j s.ran (s.loops b).pending o));
      threads = λ b. threads_set W a b (record (s.loops a) { pending = js }) s refl;
    }

    -- The next job of the loop at `a` has run.
    pub popped-IsOrderly : IsOrderly (popped W a j js s) × Grows s (popped W a j js s)
    unfolding s'
    popped-IsOrderly = (record { order = popped_order; removable = popped-Removable }, popped_Grows)
