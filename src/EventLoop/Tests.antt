-- ===== src/EventLoop/Tests.antt =====
-- The event loop over a counting eventfd, and its theorems at concrete inputs.
use moony.Prelude.{ℕ, ◌≡◌, refl, true, false, [], ◌∷◌}
use moony.EventLoop.{create, enqueue, set_quit, begin_loop}
use moony.EventLoop.Counting.{counting}
use moony.EventLoop.System.{
  testing, waiting, handling, State, fresh, starts, goes_on, other_queues, other_quits, Reach, here,
  next,
}
use moony.EventLoop.Wakeup.{Signalled, no_lost_wakeup, no_lost_quit, early_functor_waits}
use moony.EventLoop.Order.{IsOrdered, executed_in_order, pending_run}
use moony.Epoll.{none_set}
use moony.Epoll.Table.{table_epoll}
use moony.Channel.{Channel, read_callback, write_callback}
use moony.Channel
use moony.Poller.{Store, happened}
use moony.EventLoop.Round.{Polling, round, round_lem}

-- In thread 1, waiting, with functor 5 queued by another thread that has yet to wake the loop.
abbrev waiting_state : State counting ℕ
waiting_state = record {
  loop = record {
    looping = true;
    quitting = false;
    thread_id = 1;
    counter = 0;
    calling = false;
    pending = 5 ∷ [];
  };
  phase = waiting;
  wakers = 1;
  queued = 5 ∷ [];
  executed = [];
}

waiting_state-Reach : Reach counting ℕ (fresh counting ℕ 1 0) waiting_state
unfolding create enqueue begin_loop
waiting_state-Reach = next (next (next here (starts refl)) (goes_on refl refl)) (other_queues 5)

-- The same loop at the first test of `quit_`.
abbrev testing_state : State counting ℕ
testing_state = record waiting_state {
  loop = record waiting_state.loop { pending = [] };
  phase = testing;
  wakers = 0;
  queued = [];
}

testing_state-Reach : Reach counting ℕ testing_state waiting_state
unfolding enqueue
testing_state-Reach = next (next here (goes_on refl refl)) (other_queues 5)

no_lost_wakeup_example : Signalled counting ℕ waiting_state
no_lost_wakeup_example =
    no_lost_wakeup counting ℕ refl (λ ne. absurd (ne refl)) testing_state-Reach refl (λ e. cc)

-- A functor that the loop's own thread has queued before `loop`.
early_functor_waits_example :
    (t : State counting ℕ) × Reach counting ℕ (fresh counting ℕ 1 0) t
    × (t.phase ≡ waiting)
    × (t.loop.pending ≡ 5 ∷ [])
    × (t.loop.counter ≡ 0)
    × (t.wakers ≡ 0)
unfolding create
early_functor_waits_example = early_functor_waits counting ℕ (fresh counting ℕ 1 0) 5 refl refl refl

-- In thread 1, waiting, after another thread has set `quit_`.
abbrev quit_waiting_state : State counting ℕ
quit_waiting_state = record waiting_state {
  loop = record waiting_state.loop { quitting = true; pending = [] };
  queued = [];
}

quit_waiting_state-Reach : Reach counting ℕ (fresh counting ℕ 1 0) quit_waiting_state
unfolding create set_quit begin_loop
quit_waiting_state-Reach = next (next (next here (starts refl)) (goes_on refl refl)) other_quits

no_lost_quit_example : Signalled counting ℕ quit_waiting_state
no_lost_quit_example = no_lost_quit counting ℕ 1 0 quit_waiting_state-Reach refl refl

executed_in_order_example : IsOrdered counting ℕ waiting_state
executed_in_order_example = executed_in_order counting ℕ 1 0 waiting_state-Reach

abbrev handling_state : State counting ℕ
handling_state = record waiting_state { phase = handling }

pending_run_example :
    (t : State counting ℕ) × Reach counting ℕ handling_state t
    × (t.phase ≡ testing)
    × (t.executed ≡ 5 ∷ [])
    × (t.loop.pending ≡ [])
    × (t.loop.quitting ≡ false)
    × (t.loop.counter ≡ 0)
    × (t.wakers ≡ 1)
pending_run_example = pending_run counting ℕ handling_state refl

-- Two channels with all callbacks set, at 5 and 6, of which the first was active before.
abbrev channels : Store
channels a = Channel.set_read_callback true (Channel.set_write_callback true (Channel.create a 7))

abbrev polling : Polling table_epoll
polling = record {
  poller = record { channels = (7, 5) ∷ (8, 6) ∷ []; capacity = 16; kernel = [] };
  store = channels;
  active = 5 ∷ [];
  called = [];
}

-- The second is reported for reading and writing, and then nothing happens.
round_lem_example :
    (round
      (λ a. true)
      (happened (6, record none_set { epollin = true; epollout = true }) [])
      polling).called
    ≡ (6, read_callback) ∷ (6, write_callback) ∷ []
unfolding Channel.create
round_lem_example =
    round_lem (λ a. true) (happened (6, record none_set { epollin = true; epollout = true }) [])
      polling (refl, tt)
