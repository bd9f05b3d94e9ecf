-- ===== src/EventLoop/System.antt =====
-- The thread of an event loop interleaved with any number of other threads, one access to the shared
-- members at a time: net/event_loop/event_loop.cc.
use moony.Prelude.{ℕ, suc, ◌≡◌, true, false, List, [], ◌∷◌, ◌++◌}
use moony.EventLoop.{
  EventFd, Loop, create, wakeup, handle_read, enqueue, queue_in_loop, set_quit, begin_loop,
  end_loop, begin_calling, take_pending, end_calling,
}

-- Where the loop's thread stands.
pub data Phase (F : Type 0) : Type 0 where
  -- before the call of `loop`
  before : Phase F
  -- at the test of the `while`
  testing : Phase F
  -- in `poll_wait`
  waiting : Phase F
  -- at the callbacks of the active channels
  handling : Phase F
  -- in `do_pending_functions`, before the swap
  claimed : Phase F
  -- in its loop over the swapped functors, with those that are left
  running : List F → Phase F
  -- after the loop
  ended : Phase F

module _ (W : EventFd) (F : Type 0) where
  -- `wakers` counts the other threads that have queued a functor or set `quit_` and have yet to call
  -- `wakeup`. `queued` and `executed` are the history: the functors in the order of `emplace_back`,
  -- and in the order of their calls.
  pub record State : Type 0 where
    pub loop : Loop W F
    pub phase : Phase F
    pub wakers : ℕ
    pub queued : List F
    pub executed : List F

  -- A fresh loop in thread `tid`.
  abbrev pub fresh : ℕ → W.Counter → State
  fresh tid c = record {
    loop = create W F tid c;
    phase = before;
    wakers = 0;
    queued = [];
    executed = [];
  }

  -- The loop's own thread queues `f`, before `loop`, or while it stands at a callback or a functor.
  abbrev pub queue_own : State → F → State
  queue_own s f = record s {
    loop = queue_in_loop W F s.loop s.loop.thread_id f;
    queued = s.queued ++ f ∷ [];
  }

  -- Another thread in `queue_in_loop`, up to the end of the locked block.
  abbrev pub queue_other : State → F → State
  queue_other s f = record s {
    loop = enqueue W F s.loop f;
    wakers = suc s.wakers;
    queued = s.queued ++ f ∷ [];
  }

  -- Another thread in `quit`, up to its test.
  abbrev pub quit_other : State → State
  quit_other s = record s { loop = set_quit W F s.loop; wakers = suc s.wakers }

  -- One step of the loop's thread or of another one. `poll_wait` may return at any time, since other
  -- events and the timeout end it too.
  pub data Step (s : State) : State → Type 0 where
    -- `loop` is called
    starts : s.phase ≡ before → Step s (record s { loop = begin_loop W F s.loop; phase = testing })
    -- the loop's own thread queues a functor, or calls `quit`, before it calls `loop`
    queues_before : (f : F) → s.phase ≡ before → Step s (queue_own s f)
    quits_before : s.phase ≡ before → Step s (record s { loop = set_quit W F s.loop })
    -- `while (!quit_)`
    goes_on : s.phase ≡ testing → s.loop.quitting ≡ false → Step s (record s { phase = waiting })
    leaves :
        s.phase ≡ testing
        → s.loop.quitting ≡ true
        → Step s (record s { loop = end_loop W F s.loop; phase = ended })
    returns : s.phase ≡ waiting → Step s (record s { phase = handling })
    -- the callback of the wakeup channel
    drains :
        s.phase ≡ handling
        → W.readable s.loop.counter ≡ true
        → Step s (record s { loop = handle_read W F s.loop })
    claims :
        s.phase ≡ handling → Step s (record s { loop = begin_calling W F s.loop; phase = claimed })
    swaps :
        s.phase ≡ claimed
        → Step s (record s {
          loop = (take_pending W F s.loop).1;
          phase = running (take_pending W F s.loop).0;
        })
    calls :
        (f : F) (fs : List F)
        → s.phase ≡ running (f ∷ fs)
        → Step s (record s { phase = running fs; executed = s.executed ++ f ∷ [] })
    finishes :
        s.phase ≡ running [] → Step s (record s { loop = end_calling W F s.loop; phase = testing })
    -- a callback or a functor queues another
    queues_handling : (f : F) → s.phase ≡ handling → Step s (queue_own s f)
    queues_running : (f : F) (fs : List F) → s.phase ≡ running fs → Step s (queue_own s f)
    -- a callback or a functor calls `quit`
    quits_handling : s.phase ≡ handling → Step s (record s { loop = set_quit W F s.loop })
    quits_running :
        (fs : List F) → s.phase ≡ running fs → Step s (record s { loop = set_quit W F s.loop })
    -- other threads
    other_queues : (f : F) → Step s (queue_other s f)
    other_quits : Step s (quit_other s)
    other_wakes :
        (n : ℕ) → s.wakers ≡ suc n → Step s (record s { loop = wakeup W F s.loop; wakers = n })

  pub data Reach (s : State) : State → Type 0 where
    here : Reach s s
    next : {t u : State} → Reach s t → Step t u → Reach s u

  pub Reach-trans : {s t u : State} → Reach s t → Reach t u → Reach s u
  Reach-trans r here = r
  Reach-trans r (next q st) = next (Reach-trans r q) st
