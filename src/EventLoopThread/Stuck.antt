-- ===== src/EventLoopThread/Stuck.antt =====
-- How net/event_loop_thread/event_loop_thread.cc can wait for ever, and how its destructor ends.
use moony.Prelude.{ℕ, ◌≡◌, ◌≢◌, ◌⊎◌, inl, inr, refl, Bool, true, false, none, arith}
use moony.EventLoopThread.{
  crashed, checking, sleeping, started, joining, looping, finished, State, fresh, Step, starts,
  waits, wakes, returns, calls_back, publishes, enters, quits_itself, leaves, clears,
  destroys_unused, destroys_live, destroys_dead, quits, crashes, joins, Reach, here, next,
}

-- The owner joins a thread whose loop goes on, with no `quit` on its way.
abbrev pub IsJoiningLive : State → Type 0
IsJoiningLive s = (s.owner ≡ joining) × (s.worker ≡ looping) × (s.quit ≡ false)

-- The owner waits in `start_loop` for a thread that has ended.
abbrev pub IsForsaken : State → Type 0
IsForsaken s =
    ((s.owner ≡ checking) ⊎ (s.owner ≡ sleeping)) × (s.worker ≡ finished) × (s.loop ≡ none)

Step-IsForsaken : (addr : ℕ) {s t : State} → Step addr s t → IsForsaken s → IsForsaken t
Step-IsForsaken addr (starts e) h = ground arith
Step-IsForsaken addr (waits e n) h = ground arith
Step-IsForsaken addr (wakes e) h = ground arith
Step-IsForsaken addr (returns a e l) h = ground arith
Step-IsForsaken addr (calls_back e) h = ground arith
Step-IsForsaken addr (publishes e) h = ground arith
Step-IsForsaken addr (enters e) h = ground arith
Step-IsForsaken addr (quits_itself e) h = ground arith
Step-IsForsaken addr (leaves e q) h = ground arith
Step-IsForsaken addr (clears e) h = ground arith
Step-IsForsaken addr (destroys_unused e) h = ground arith
Step-IsForsaken addr (destroys_live a b e l) h = ground arith
Step-IsForsaken addr (destroys_dead a e l) h = ground arith
Step-IsForsaken addr (quits b e l) h = ground arith
Step-IsForsaken addr (crashes e l) h = ground arith
Step-IsForsaken addr (joins e f) h = ground arith

Reach-IsForsaken : (addr : ℕ) {s t : State} → Reach addr s t → IsForsaken s → IsForsaken t
Reach-IsForsaken addr here h = h
Reach-IsForsaken addr (next r st) h = Step-IsForsaken addr st (Reach-IsForsaken addr r h)

forsaken_waits : (s : State) → IsForsaken s → (a : ℕ) → s.owner ≢ started a
forsaken_waits s (inl e, _, _) a f = cc
forsaken_waits s (inr e, _, _) a f = cc

-- Whether the init callback is set or not, `start_loop` can wait for ever: if the new thread's loop is
-- quit before the owner looks at `loop_` again, it is null again, and no continuation of the two
-- threads ever leads to a return.
pub start_loop_forsaken :
    (set : Bool) (addr : ℕ)
    → (s : State) × Reach addr (fresh set) s
      × ((t : State) → Reach addr s t → (a : ℕ) → t.owner ≢ started a)
start_loop_forsaken set addr = (
  _,
  next
      (next
        (next
          (next
            (next (next (next (next here (starts refl)) (waits refl refl)) (calls_back refl))
              (publishes refl))
            (enters refl))
          (quits_itself refl))
        (leaves refl refl))
      (clears refl),
  (λ t r. forsaken_waits t (Reach-IsForsaken addr r (inl refl, refl, refl))),
)

only_quit : (addr : ℕ) {s t : State} → Step addr s t → IsJoiningLive s → t.quit ≡ true
only_quit addr (starts e) h = ground arith
only_quit addr (waits e n) h = ground arith
only_quit addr (wakes e) h = ground arith
only_quit addr (returns a e l) h = ground arith
only_quit addr (calls_back e) h = ground arith
only_quit addr (publishes e) h = ground arith
only_quit addr (enters e) h = ground arith
only_quit addr (quits_itself e) h = ground arith
only_quit addr (leaves e q) h = ground arith
only_quit addr (clears e) h = ground arith
only_quit addr (destroys_unused e) h = ground arith
only_quit addr (destroys_live a b e l) h = ground arith
only_quit addr (destroys_dead a e l) h = ground arith
only_quit addr (quits b e l) h = ground arith
only_quit addr (crashes e l) h = ground arith
only_quit addr (joins e f) h = ground arith

-- Whether the init callback is set or not, the destructor can come between the new thread's setting of
-- `loop_` and its `loop.loop()`, which clears `quit_`: the owner then joins a loop that goes on, and
-- every step from there but the loop's own `quit` leaves it so.
pub destroy_joins_live :
    (set : Bool) (addr : ℕ)
    → (s : State) × Reach addr (fresh set) s
      × IsJoiningLive s
      × ((t : State) → Step addr s t → t.quit ≡ true)
destroy_joins_live set addr = (
  _,
  next
      (next
        (next
          (next (next (next (next here (starts refl)) (calls_back refl)) (publishes refl))
            (returns addr refl refl))
          (destroys_live addr addr refl refl))
        (quits addr refl refl))
      (enters refl),
  (refl, refl, refl),
  (λ t st. only_quit addr st (refl, refl, refl)),
)

-- Whether the init callback is set or not, the destructor can call `quit` through a null pointer: where
-- the loop is quit by itself, the new thread can clear `loop_` between the destructor's test and its call.
pub destroy_crashes :
    (set : Bool) (addr : ℕ) → (s : State) × Reach addr (fresh set) s × (s.owner ≡ crashed)
destroy_crashes set addr = (
  _,
  next
      (next
        (next
          (next
            (next
              (next
                (next (next (next (next here (starts refl)) (calls_back refl)) (publishes refl))
                  (returns addr refl refl))
                (enters refl))
              (quits_itself refl))
            (destroys_live addr addr refl refl))
          (leaves refl refl))
        (clears refl))
      (crashes refl refl),
  refl,
)
