-- ===== src/ThreadPool/Tests.antt =====
-- Runs of the thread pool, and its theorems at concrete inputs.
use moony.Prelude.{◌+◌, ◌≡◌, refl, true, [], ◌∷◌, ok, arith}
use moony.Prelude.Int.{pos}
use moony.ThreadPool.{
  Pool, create, set_threads_nums, start, start_threads, get_next_loop, get_all_loops,
}
use moony.ThreadPool.Rotation.{picks, picks_round}
use moony.ThreadPool.Start.{start_lem}

-- Three loops at 10, 20 and 30; it is the turn of the second.
abbrev three_loops : Pool
three_loops = record (create 1) { next = 1; loops = 10 ∷ 20 ∷ 30 ∷ [] }

picks_five : picks 5 three_loops ≡ ok (20 ∷ 30 ∷ 10 ∷ 20 ∷ 30 ∷ [], record three_loops { next = 0 })
unfolding picks get_next_loop create
picks_five = refl

picks_round_example : picks 3 three_loops ≡ ok (20 ∷ 30 ∷ 10 ∷ [], three_loops)
unfolding create
picks_round_example = picks_round three_loops (omega arith)

abbrev two_threads : Pool
two_threads = set_threads_nums (create 1) (pos 2)

start_two : (start (λ i. i + 50) true two_threads).0.loops ≡ 50 ∷ 51 ∷ []
unfolding start start_threads create set_threads_nums
start_two = refl

start_lem_example :
    ((start (λ i. i + 50) true two_threads).0.loops ≡ 50 ∷ 51 ∷ [])
    × ((start (λ i. i + 50) true two_threads).0.next ≡ 0)
    × ((start (λ i. i + 50) true two_threads).1 ≡ [])
unfolding create set_threads_nums
start_lem_example = start_lem (λ i. i + 50) true 2 two_threads refl

get_all_loops_run :
    (get_all_loops three_loops ≡ 10 ∷ 20 ∷ 30 ∷ []) × (get_all_loops (create 1) ≡ 1 ∷ [])
unfolding get_all_loops create
get_all_loops_run = (refl, refl)
