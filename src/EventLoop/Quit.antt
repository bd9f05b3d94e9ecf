-- ===== src/EventLoop/Quit.antt =====
-- `quit` of net/event_loop/event_loop.cc, after and before the call of `loop`.
use moony.Prelude.{◌≡◌, refl, ◌∙◌, false}
use moony.EventLoop.{
  EventFd, wakeup, handle_read, set_quit, begin_loop, end_loop, begin_calling, take_pending,
  end_calling,
}
use moony.EventLoop.System.{
  before, testing, waiting, handling, State, quit_other, starts, goes_on, returns, drains,
  other_wakes, Reach, here, next, Reach-trans,
}
use moony.EventLoop.Order.{pending_run}

module _ (W : EventFd) (F : Type 0) where
  -- The loop waits with nothing that would end the wait but the timeout or another event, and no
  -- thread on its way to `wakeup`.
  pub record IsAsleep (s : State W F) : Type 0 where
    pub phase : s.phase ≡ waiting
    pub quitting : s.loop.quitting ≡ false
    pub quiet : W.readable s.loop.counter ≡ false
    pub alone : s.wakers ≡ 0

  -- A `quit` by another thread that comes before `loop` is lost: `loop` clears the flag, spends the
  -- wakeup on one round, and can then sleep with `quit_` false. This holds of every state before
  -- `loop` with no other thread on its way to `wakeup`.
  pub quit_before_loop :
      (s : State W F)
      → s.phase ≡ before
      → s.wakers ≡ 0
      → (t : State W F) × Reach W F (quit_other W F s) t × IsAsleep t
  unfolding wakeup handle_read set_quit begin_loop end_loop begin_calling take_pending end_calling
  quit_before_loop s e alone =
      let (t, r, at, _, _, q, c, w) = pending_run W F drained refl in
      (
        record t { phase = waiting },
        next (Reach-trans W F to_drained r) (goes_on at q),
        record {
          phase = refl;
          quitting = q;
          quiet = rw c (W.readable-read (W.write s.loop.counter));
          alone = w ∙ alone;
        },
      )
    where
      woken : State W F
      woken = record s {
        loop = begin_loop W F (wakeup W F (set_quit W F s.loop));
        phase = testing;
        wakers = s.wakers;
      }

      to_woken : Reach W F (quit_other W F s) woken
      to_woken = next (next here (other_wakes s.wakers refl)) (starts e)

      drained : State W F
      drained = record woken { loop = handle_read W F woken.loop; phase = handling }

      to_drained : Reach W F (quit_other W F s) drained
      to_drained =
          next (next (next to_woken (goes_on refl refl)) (returns refl))
            (drains refl (W.readable-write s.loop.counter))
