-- ===== src/EventLoopThread.antt =====
-- net/event_loop_thread/event_loop_thread.h and event_loop_thread.cc: the thread that owns an
-- `event_loop_thread` against the new thread that runs `thread_func`, one access to the members that
-- they share at a time. The condition variable may wake its waiter without a notification. What the
-- loop does between is in EventLoop: here it goes on while its `quit_` is false, and a functor of
-- its own may set it.
pub mod Start
pub mod Stuck
mod Tests
use moony.Prelude.{
  ℕ, ◌≡◌, Bool, true, false, if◌then◌else◌, List, [], ◌∷◌, ◌++◌, Option, none, some,
}

-- Where the owner stands.
pub data Owner : Type 0 where
  -- after the constructor
  built : Owner
  -- in `start_loop`, holding the lock, before the test of the `while`
  checking : Owner
  -- in `cond_.wait`
  sleeping : Owner
  -- after `start_loop`, which has returned this loop
  started : ℕ → Owner
  -- in the destructor, after the test of `loop_`, before the call of `quit`
  quitting : Owner
  -- in `thread_.join`
  joining : Owner
  -- after the destructor
  destroyed : Owner
  -- after a call through `loop_` when it was null
  crashed : Owner

-- Where the new thread stands.
pub data Worker : Type 0 where
  -- there is none yet
  absent : Worker
  -- after the construction of its loop, before the init callback
  constructed : Worker
  -- before the block that sets `loop_`
  publishing : Worker
  -- before `loop.loop()`
  entering : Worker
  -- in `loop.loop()`
  looping : Worker
  -- before `loop_ = nullptr`
  clearing : Worker
  -- at its end: the loop, which stood on its stack, is gone
  finished : Worker

-- `loop_`, `exiting_`, whether `callback_` is set, the loop's `quit_`, the loops that the callback was
-- called with, and the two threads.
pub record State : Type 0 where
  pub loop : Option ℕ
  pub exiting : Bool
  pub callback_set : Bool
  pub quit : Bool
  pub called : List ℕ
  pub owner : Owner
  pub worker : Worker

-- After the constructor.
abbrev pub fresh : Bool → State
fresh callback_set = record {
  loop = none;
  exiting = false;
  callback_set = callback_set;
  quit = false;
  called = [];
  owner = built;
  worker = absent;
}

-- `cond_.notify_one()`
abbrev pub notified : Owner → Owner
notified sleeping = checking
notified built = built
notified checking = checking
notified (started a) = started a
notified quitting = quitting
notified joining = joining
notified destroyed = destroyed
notified crashed = crashed

-- One step of either thread, where the new thread's loop lies at `addr`.
pub data Step (addr : ℕ) (s : State) : State → Type 0 where
  -- `thread_.start()`, then the lock
  starts : s.owner ≡ built → Step addr s (record s { owner = checking; worker = constructed })
  -- `while (nullptr == loop_) cond_.wait(lock)`
  waits : s.owner ≡ checking → s.loop ≡ none → Step addr s (record s { owner = sleeping })
  wakes : s.owner ≡ sleeping → Step addr s (record s { owner = checking })
  returns :
      (a : ℕ) → s.owner ≡ checking → s.loop ≡ some a → Step addr s (record s { owner = started a })
  -- `if (callback_) callback_(&loop)`
  calls_back :
      s.worker ≡ constructed
      → Step addr s (record s {
        worker = publishing;
        called = if s.callback_set then s.called ++ addr ∷ [] else s.called;
      })
  -- `loop_ = &loop; cond_.notify_one()`, under the lock
  publishes :
      s.worker ≡ publishing
      → Step addr s (record s { worker = entering; loop = some addr; owner = notified s.owner })
  -- `loop.loop()` clears `quit_` and goes on
  enters : s.worker ≡ entering → Step addr s (record s { worker = looping; quit = false })
  -- a functor of the loop calls `quit`
  quits_itself : s.worker ≡ looping → Step addr s (record s { quit = true })
  leaves : s.worker ≡ looping → s.quit ≡ true → Step addr s (record s { worker = clearing })
  clears : s.worker ≡ clearing → Step addr s (record s { worker = finished; loop = none })
  -- the destructor of a thread that was never started: `loop_` is null
  destroys_unused : s.owner ≡ built → Step addr s (record s { owner = destroyed; exiting = true })
  -- the destructor: `exiting_ = true`, and the test of `loop_`
  destroys_live :
      (a b : ℕ)
      → s.owner ≡ started a
      → s.loop ≡ some b
      → Step addr s (record s { owner = quitting; exiting = true })
  destroys_dead :
      (a : ℕ)
      → s.owner ≡ started a
      → s.loop ≡ none
      → Step addr s (record s { owner = destroyed; exiting = true })
  -- `loop_->quit()`, which reads `loop_` once more
  quits :
      (b : ℕ)
      → s.owner ≡ quitting
      → s.loop ≡ some b
      → Step addr s (record s { owner = joining; quit = true })
  crashes : s.owner ≡ quitting → s.loop ≡ none → Step addr s (record s { owner = crashed })
  -- `thread_.join()`
  joins : s.owner ≡ joining → s.worker ≡ finished → Step addr s (record s { owner = destroyed })

pub data Reach (addr : ℕ) (s : State) : State → Type 0 where
  here : Reach addr s s
  next : {t u : State} → Reach addr s t → Step addr t u → Reach addr s u
