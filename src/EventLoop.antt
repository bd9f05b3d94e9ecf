-- ===== src/EventLoop.antt =====
-- net/event_loop/event_loop.h and net/event_loop/event_loop.cc: the reactor of one thread, with the
-- queue that other threads fill and the eventfd that wakes it. Its parts of the poller stand in
-- Poller. A functor is a value of any type `F`; what it does besides queueing is not looked at.
pub mod System
pub mod Wakeup
pub mod Order
pub mod Quit
pub mod Counting
pub mod Wiring
pub mod Round
mod Tests
use moony.Prelude.{
  ℕ, ◌≡◌, Bool, true, false, not, ◌||◌, if◌then◌else◌, ◌==◌, List, [], ◌∷◌, ◌++◌, Option, none,
  some,
}

-- The eventfd behind `wakeup_fd_`, which is not part of the repository: a write leaves it readable,
-- also where the write is refused because the counter is full, and a read resets it, eventfd(2).
pub record EventFd : Type 1 where
  pub Counter : Type 0
  pub readable : Counter → Bool
  pub write : Counter → Counter
  pub read : Counter → Counter
  pub readable-write : (c : Counter) → readable (write c) ≡ true
  pub readable-read : (c : Counter) → readable (read c) ≡ false

module _ (W : EventFd) (F : Type 0) where
  -- `looping_`, `quit_`, `thread_id_`, the counter of `wakeup_fd_`, `calling_pending_functors_` and
  -- `pending_functors_`.
  pub record Loop : Type 0 where
    pub looping : Bool
    pub quitting : Bool
    pub thread_id : ℕ
    pub counter : W.Counter
    pub calling : Bool
    pub pending : List F

  -- The members as the constructor sets them, in thread `tid`.
  unfoldable pub create : ℕ → W.Counter → Loop
  create tid counter = record {
    looping = false;
    quitting = false;
    thread_id = tid;
    counter = counter;
    calling = false;
    pending = [];
  }

  unfoldable pub in_loop_thread : Loop → ℕ → Bool
  in_loop_thread l tid = l.thread_id == tid

  -- `wakeup`: a write to the eventfd; a short write is only logged.
  unfoldable pub wakeup : Loop → Loop
  wakeup l = record l { counter = W.write l.counter }

  -- `handle_read`: a read of the eventfd; a short read is only logged.
  unfoldable pub handle_read : Loop → Loop
  handle_read l = record l { counter = W.read l.counter }

  -- The part of `queue_in_loop` under the lock.
  unfoldable pub enqueue : Loop → F → Loop
  enqueue l f = record l { pending = l.pending ++ f ∷ [] }

  -- `queue_in_loop`, called in thread `tid`.
  unfoldable pub queue_in_loop : Loop → ℕ → F → Loop
  unfolding enqueue wakeup in_loop_thread
  queue_in_loop l tid f =
      if not (in_loop_thread l tid) || l.calling then wakeup (enqueue l f) else enqueue l f

  -- `run_in_loop`, called in thread `tid`: the functor to run at once, if any, and the loop.
  unfoldable pub run_in_loop : Loop → ℕ → F → Option F × Loop
  unfolding queue_in_loop
  run_in_loop l tid f = if in_loop_thread l tid then (some f, l) else (none, queue_in_loop l tid f)

  -- The assignment in `quit`.
  unfoldable pub set_quit : Loop → Loop
  set_quit l = record l { quitting = true }

  -- `quit`, called in thread `tid`.
  unfoldable pub quit : Loop → ℕ → Loop
  unfolding set_quit wakeup in_loop_thread
  quit l tid = if in_loop_thread l tid then set_quit l else wakeup (set_quit l)

  -- The assignments before the `while` of `loop`.
  unfoldable pub begin_loop : Loop → Loop
  begin_loop l = record l { looping = true; quitting = false }

  -- The assignment after it.
  unfoldable pub end_loop : Loop → Loop
  end_loop l = record l { looping = false }

  -- `do_pending_functions` up to the swap, the swap under the lock, and its last assignment.
  unfoldable pub begin_calling : Loop → Loop
  begin_calling l = record l { calling = true }

  unfoldable pub take_pending : Loop → List F × Loop
  take_pending l = (l.pending, record l { pending = [] })

  unfoldable pub end_calling : Loop → Loop
  end_calling l = record l { calling = false }
