-- ===== src/EventLoop/Wakeup.antt =====
-- No wakeup of net/event_loop/event_loop.cc is lost.
use moony.Prelude.{
  ℕ, ◌≡◌, ◌≢◌, ◌<◌, ◌⊎◌, inl, inr, refl, true, false, [], ◌∷◌, ◌++◌, arith, none, some, Bool-cases,
  ◌==◌,
}
use moony.EventLoop.{
  EventFd, Loop, run_in_loop, in_loop_thread, create, wakeup, handle_read, enqueue, queue_in_loop,
  set_quit, begin_loop, end_loop, begin_calling, take_pending, end_calling,
}
use moony.EventLoop.System.{
  Phase, before, testing, waiting, handling, claimed, running, ended, State, fresh, Step, starts,
  queues_before, quits_before, goes_on, leaves, returns, drains, claims, swaps, calls, finishes,
  queue_own, queue_other, quit_other, queues_handling, queues_running, quits_handling,
  quits_running, other_queues, other_quits, other_wakes, Reach, here, next,
}

module _ (W : EventFd) (F : Type 0) where
  -- The eventfd is readable, so that `poll_wait` returns, or a thread is about to make it so.
  abbrev pub Signalled : State W F → Type 0
  Signalled s = (W.readable s.loop.counter ≡ true) ⊎ (0 < s.wakers)

  -- Functors wait for the loop only where it is signalled. `A` is what this is said under.
  abbrev pub Answered : Type 0 → State W F → Type 0
  Answered A s = A → s.loop.pending ≢ [] → Signalled s

  -- Before `loop` its own thread may queue functors without a signal, so that nothing is said of it.
  abbrev InPhase : Type 0 → State W F → Phase F → Type 0
  InPhase A s before = ¬ A
  InPhase A s testing = Answered A s
  InPhase A s waiting = Answered A s × (s.loop.quitting ≡ true → Signalled s)
  InPhase A s handling = Unit {0}
  InPhase A s claimed = s.loop.calling ≡ true
  InPhase A s (running fs) = (s.loop.calling ≡ true) × Answered A s
  InPhase A s ended = Unit {0}

  -- A step that leaves the loop signalled leaves nothing to show.
  Signalled-InPhase :
      (A : Type 0) (s t : State W F) (p : Phase F)
      → Signalled t
      → t.loop.calling ≡ s.loop.calling
      → InPhase A s p
      → InPhase A t p
  Signalled-InPhase A s t before g e h = h
  Signalled-InPhase A s t testing g e h = λ _ _. g
  Signalled-InPhase A s t waiting g e h = (λ _ _. g, λ _. g)
  Signalled-InPhase A s t handling g e h = tt
  Signalled-InPhase A s t claimed g e h = cc
  Signalled-InPhase A s t (running fs) g e h = (cc (h.0), λ _ _. g)
  Signalled-InPhase A s t ended g e h = tt

  Step-InPhase :
      (A : Type 0) {s t : State W F} → Step W F s t → InPhase A s s.phase → InPhase A t t.phase
  unfolding wakeup handle_read enqueue queue_in_loop set_quit begin_loop end_loop begin_calling
      take_pending end_calling
  Step-InPhase A {s} (starts e) h = let no_claim : ¬ A = rw e at h in λ a _. absurd (no_claim a)
  Step-InPhase A {s} (queues_before f e) h = rw e (rw e at h)
  Step-InPhase A {s} (quits_before e) h = rw e (rw e at h)
  Step-InPhase A {s} (goes_on e q) h = (rw e at h, λ p. ground arith)
  Step-InPhase A {s} (leaves e q) h = tt
  Step-InPhase A {s} (returns e) h = tt
  Step-InPhase A {s} (drains e r) h = rw e tt
  Step-InPhase A {s} (claims e) h = refl
  Step-InPhase A {s} (swaps e) h = (rw e at h, λ _ ne. absurd (ne refl))
  Step-InPhase A {s} (calls f fs e) h = rw e at h
  Step-InPhase A {s} (finishes e) h = (rw e at h).1
  Step-InPhase A {s} (queues_handling f e) h = rw e tt
  Step-InPhase A {s} (queues_running f fs e) h =
      let run : (s.loop.calling ≡ true) × Answered A s = rw e at h in
      Signalled-InPhase A s (queue_own W F s f) s.phase
        (inl (ground (arith, W.readable-write s.loop.counter, run.0))) (ground arith) h
  Step-InPhase A {s} (quits_handling e) h = rw e tt
  Step-InPhase A {s} (quits_running fs e) h = rw e (rw e at h)
  Step-InPhase A {s} (other_queues f) h =
      Signalled-InPhase A s (queue_other W F s f) s.phase (inr (omega arith)) refl h
  Step-InPhase A {s} other_quits h =
      Signalled-InPhase A s (quit_other W F s) s.phase (inr (omega arith)) refl h
  Step-InPhase A {s} (other_wakes n e) h =
      Signalled-InPhase A s (record s { loop = wakeup W F s.loop; wakers = n }) s.phase
        (inl (W.readable-write s.loop.counter)) refl h

  Reach-InPhase :
      (A : Type 0) {s t : State W F} → InPhase A s s.phase → Reach W F s t → InPhase A t t.phase
  Reach-InPhase A h here = h
  Reach-InPhase A h (next r st) = Step-InPhase A st (Reach-InPhase A h r)

  -- From a loop that stands at the first test of `quit_`, with no functor pending but where it is
  -- signalled: no functor is left lying. Whenever the loop is in `poll_wait` with functors pending,
  -- its eventfd is readable or another thread is about to write to it. What the loop's own thread
  -- has queued before `loop`, unsignalled, is not covered.
  pub no_lost_wakeup :
      {s t : State W F}
      → s.phase ≡ testing
      → (s.loop.pending ≢ [] → Signalled s)
      → Reach W F s t
      → t.phase ≡ waiting
      → t.loop.pending ≢ []
      → Signalled t
  no_lost_wakeup {s} {t} at_test h r e ne =
      let now : Answered (Unit {0}) t × (t.loop.quitting ≡ true → Signalled t) =
        rw e at (Reach-InPhase (Unit {0}) (rw at_test (λ _. h)) r) in
      now.0 tt ne

  -- No `quit` is left lying that finds the loop running: whenever the loop of a fresh event loop is in
  -- `poll_wait` with `quit_` set, its eventfd is readable or another thread is about to write to it.
  pub no_lost_quit :
      (tid : ℕ) (c : W.Counter) {s : State W F}
      → Reach W F (fresh W F tid c) s
      → s.phase ≡ waiting
      → s.loop.quitting ≡ true
      → Signalled s
  unfolding create
  no_lost_quit tid c {s} r e q =
      let now : Answered ⊥ s × (s.loop.quitting ≡ true → Signalled s) =
        rw e at (Reach-InPhase ⊥ (λ a. a) r) in
      now.1 q

  -- Before `loop`, a functor of the loop's own thread is queued without a wakeup: the loop can then
  -- wait in `poll_wait` with the functor pending, its eventfd as it was and no thread about to wake it.
  pub early_functor_waits :
      (s : State W F) (f : F)
      → s.phase ≡ before
      → s.loop.calling ≡ false
      → s.wakers ≡ 0
      → (t : State W F) × Reach W F s t
        × (t.phase ≡ waiting)
        × (t.loop.pending ≡ s.loop.pending ++ f ∷ [])
        × (t.loop.counter ≡ s.loop.counter)
        × (t.wakers ≡ 0)
  unfolding queue_in_loop begin_loop enqueue in_loop_thread
  early_functor_waits s f e idle alone =
      let own : (s.loop.thread_id == s.loop.thread_id) ≡ true = ground arith in
      (
        _,
        next (next (next here (queues_before f e)) (starts e)) (goes_on refl refl),
        refl,
        rw (own, idle) refl,
        rw (own, idle) refl,
        alone,
      )

  pub thread_id-queue_in_loop :
      (l : Loop W F) (tid : ℕ) (f : F) → (queue_in_loop W F l tid f).thread_id ≡ l.thread_id
  unfolding queue_in_loop wakeup enqueue
  thread_id-queue_in_loop l tid f = ground arith

  pub pending-queue_in_loop :
      (l : Loop W F) (tid : ℕ) (f : F) → (queue_in_loop W F l tid f).pending ≡ l.pending ++ f ∷ []
  unfolding queue_in_loop wakeup enqueue
  pending-queue_in_loop l tid f = ground arith

  pub thread_id-run_in_loop :
      (l : Loop W F) (tid : ℕ) (f : F) → (run_in_loop W F l tid f).1.thread_id ≡ l.thread_id
  unfolding run_in_loop queue_in_loop wakeup enqueue
  thread_id-run_in_loop l tid f = ground arith

  -- What a call of `run_in_loop` in thread `tid` comes to. In the loop's thread the functor is handed
  -- back to run and the loop is as it was; in any other it goes behind the pending ones and the
  -- eventfd is readable.
  pub run_in_loop_cases :
      (l : Loop W F) (tid : ℕ) (f : F)
      → ((l.thread_id ≡ tid) × (run_in_loop W F l tid f ≡ (some f, l)))
        ⊎ ((l.thread_id ≢ tid)
            × ((run_in_loop W F l tid f).0 ≡ none)
            × ((run_in_loop W F l tid f).1.pending ≡ l.pending ++ f ∷ [])
            × (W.readable (run_in_loop W F l tid f).1.counter ≡ true))
  unfolding run_in_loop
  run_in_loop_cases l tid f = elim (Bool-cases (l.thread_id == tid)) [
    | inl e ↦ inl (ground arith, rw e)
    | inr e ↦ inr (ground arith, rw e, rw e, rw e (W.readable-write l.counter))
  ]
