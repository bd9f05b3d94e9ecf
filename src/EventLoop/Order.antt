-- ===== src/EventLoop/Order.antt =====
-- Every functor runs once, in the order of queueing: net/event_loop/event_loop.cc.
use moony.Prelude.{
  ℕ, ◌≡◌, refl, subst, ap, ◌∙◌, List, [], ◌∷◌, ◌++◌, append-nil, append_assoc, arith,
}
use moony.EventLoop.{
  EventFd, Loop, create, wakeup, handle_read, enqueue, queue_in_loop, set_quit, begin_loop,
  end_loop, begin_calling, take_pending, end_calling,
}
use moony.EventLoop.System.{
  Phase, testing, handling, running, State, fresh, queue_own, Step, starts, queues_before,
  quits_before, goes_on, leaves, returns, drains, claims, swaps, calls, finishes, queues_handling,
  queues_running, quits_handling, quits_running, other_queues, other_quits, other_wakes, Reach,
  here, next,
}

-- The functors that a phase has swapped out and not called.
abbrev pub remaining : {F : Type 0} → Phase F → List F
remaining (running fs) = fs
remaining _ = []

module _ (W : EventFd) (F : Type 0) where
  abbrev pub IsOrdered : State W F → Type 0
  IsOrdered s = s.executed ++ (remaining s.phase ++ s.loop.pending) ≡ s.queued

  at_the_end :
      (xs ys zs ps : List F) (f : F)
      → zs ≡ ps ++ f ∷ []
      → xs ++ (ys ++ zs) ≡ (xs ++ (ys ++ ps)) ++ f ∷ []
  at_the_end xs ys zs ps f e = rw e (simp append_assoc)

  pending-queue_in_loop :
      (l : Loop W F) (tid : ℕ) (f : F) → (queue_in_loop W F l tid f).pending ≡ l.pending ++ f ∷ []
  unfolding queue_in_loop
  pending-queue_in_loop l tid f = ground arith

  queue_own-IsOrdered : (s : State W F) (f : F) → IsOrdered s → IsOrdered (queue_own W F s f)
  queue_own-IsOrdered s f h =
      at_the_end s.executed (remaining s.phase) _ s.loop.pending f
        (pending-queue_in_loop s.loop s.loop.thread_id f)
      ∙ ap (λ l. l ++ f ∷ []) h

  Step-IsOrdered : {s t : State W F} → Step W F s t → IsOrdered s → IsOrdered t
  unfolding wakeup handle_read enqueue set_quit begin_loop end_loop begin_calling take_pending
      end_calling
  Step-IsOrdered (starts e) h = rw e at h
  Step-IsOrdered {s} (queues_before f e) h = queue_own-IsOrdered s f h
  Step-IsOrdered (quits_before e) h = h
  Step-IsOrdered (goes_on e q) h = rw e at h
  Step-IsOrdered (leaves e q) h = rw e at h
  Step-IsOrdered (returns e) h = rw e at h
  Step-IsOrdered (drains e r) h = h
  Step-IsOrdered (claims e) h = rw e at h
  Step-IsOrdered {s} (swaps e) h =
      ap (λ l. s.executed ++ l) (append-nil s.loop.pending) ∙ (rw e at h)
  Step-IsOrdered {s} (calls f fs e) h =
      append_assoc s.executed (f ∷ []) (fs ++ s.loop.pending) ∙ (rw e at h)
  Step-IsOrdered (finishes e) h = rw e at h
  Step-IsOrdered {s} (queues_handling f e) h = queue_own-IsOrdered s f h
  Step-IsOrdered {s} (queues_running f fs e) h = queue_own-IsOrdered s f h
  Step-IsOrdered (quits_handling e) h = h
  Step-IsOrdered (quits_running fs e) h = h
  Step-IsOrdered {s} (other_queues f) h =
      at_the_end s.executed (remaining s.phase) _ s.loop.pending f refl ∙ ap (λ l. l ++ f ∷ []) h
  Step-IsOrdered other_quits h = h
  Step-IsOrdered (other_wakes n e) h = h

  -- In every state that a fresh event loop reaches, the functors called, those swapped out and those
  -- pending, in this order, are the functors queued: each is called once at most, none is lost, and
  -- they are called in the order in which they were queued, by whatever thread.
  pub executed_in_order :
      (tid : ℕ) (c : W.Counter) {s : State W F} → Reach W F (fresh W F tid c) s → IsOrdered s
  unfolding create
  executed_in_order tid c here = refl
  executed_in_order tid c (next r st) = Step-IsOrdered st (executed_in_order tid c r)

  -- The calls of the functors that a swap has taken.
  runs :
      (fs : List F) {s t : State W F}
      → Reach W F s t
      → t.phase ≡ running fs
      → Reach W F s (record t { phase = running []; executed = t.executed ++ fs })
  runs [] {s} {t} r e = subst (λ u. Reach W F s u) same r
    where
      same : t ≡ record t { phase = running []; executed = t.executed ++ [] }
      same = ground (arith, append-nil t.executed)
  runs (f ∷ fs) {s} {t} r e =
      subst (λ l. Reach W F s (record t { phase = running []; executed = l }))
        (append_assoc t.executed (f ∷ []) fs) (runs fs (next r (calls f fs e)) refl)

  -- A loop that has come back from `poll_wait` can go on by itself to the next test of `quit_`, and
  -- has then called every functor that was pending, in order, and left none;
  -- `quit_`, the eventfd and the other threads are as they were.
  pub pending_run :
      (s : State W F)
      → s.phase ≡ handling
      → (t : State W F) × Reach W F s t
        × (t.phase ≡ testing)
        × (t.executed ≡ s.executed ++ s.loop.pending)
        × (t.loop.pending ≡ [])
        × (t.loop.quitting ≡ s.loop.quitting)
        × (t.loop.counter ≡ s.loop.counter)
        × (t.wakers ≡ s.wakers)
  unfolding begin_calling take_pending end_calling
  pending_run s e = (
    _,
    next (runs s.loop.pending (next (next here (claims e)) (swaps refl)) refl) (finishes refl),
    refl,
    refl,
    refl,
    refl,
    refl,
    refl,
  )
