-- ===== src/EventLoopThread/Tests.antt =====
-- The theorems about net/event_loop_thread/event_loop_thread.cc at concrete inputs.
use moony.Prelude.{ℕ, ◌≡◌, ◌≢◌, refl, inr, true, some, [], ◌∷◌}
use moony.EventLoopThread.{
  sleeping, started, publishing, entering, State, fresh, starts, waits, calls_back, publishes,
  returns, Step, Reach, here, next,
}
use moony.EventLoopThread.Start.{start_loop_safe, start_loop_completes, Returned}
use moony.EventLoopThread.Stuck.{IsJoiningLive, start_loop_forsaken, destroy_joins_live}

-- The owner sleeps and the new thread has called the init callback.
abbrev asleep : State
asleep = record (fresh true) { owner = sleeping; worker = publishing; called = 70 ∷ [] }

asleep-Reach : Reach 70 (fresh true) asleep
asleep-Reach = next (next (next here (starts refl)) (waits refl refl)) (calls_back refl)

-- `start_loop` has returned.
abbrev returned : State
returned = record asleep { owner = started 70; worker = entering; loop = some 70 }

returned-Reach : Reach 70 (fresh true) returned
returned-Reach = next (next asleep-Reach (publishes refl)) (returns 70 refl refl)

start_loop_safe_example : (◌≡◌ {A = ℕ} 70 70) × (returned.called ≡ 70 ∷ [])
start_loop_safe_example = start_loop_safe true 70 returned-Reach 70 refl

start_loop_completes_example : Returned 70 asleep
start_loop_completes_example = start_loop_completes true 70 asleep-Reach (inr refl) refl

start_loop_forsaken_example :
    (s : State) × Reach 70 (fresh true) s
    × ((t : State) → Reach 70 s t → (a : ℕ) → t.owner ≢ started a)
start_loop_forsaken_example = start_loop_forsaken true 70

destroy_joins_live_example :
    (s : State) × Reach 70 (fresh true) s
    × IsJoiningLive s
    × ((t : State) → Step 70 s t → t.quit ≡ true)
destroy_joins_live_example = destroy_joins_live true 70
