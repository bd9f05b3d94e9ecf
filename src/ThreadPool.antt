-- ===== src/ThreadPool.antt =====
-- net/event_loop_thread and net/event_loop_thread_pool: the threads of a server, each with a loop of
-- its own, and the choice of the loop for the next connection. A loop is its address.
pub mod Rotation
pub mod Start
pub mod Ready
mod Tests
use moony.Prelude.{
  ℕ, suc, zero, ◌+◌, Bool, true, false, ◌&&◌, if◌then◌else◌, leb, List, [], ◌∷◌, ◌++◌, Option, none,
  some, Outcome, ok, stop, out_of_bounds, ◌>>=◌, length, get_elem?,
}
use moony.Prelude.Int.{ℤ, pos, negsuc, pos_part}

-- `event_loop_thread`: whether its init callback is set, and `loop_`.
pub record LoopThread : Type 0 where
  pub callback_set : Bool
  pub loop : Option ℕ

-- The constructor.
create_thread : Bool → LoopThread
create_thread cb = record { callback_set = cb; loop = none }

-- `start_loop` and the part of `thread_func` before `loop()`, which it waits for: the new thread's loop
-- is at `addr`. The list holds the loops that the init callback is called with. Where the constructor of
-- the loop ends the process, there is nothing after it: EchoServer/Main runs the constructors first.
start_loop : LoopThread → ℕ → LoopThread × List ℕ
start_loop t addr = (record t { loop = some addr }, if t.callback_set then addr ∷ [] else [])

-- `event_loop_thread_pool`; `next_` is never negative.
pub record Pool : Type 0 where
  pub base_loop : ℕ
  pub started : Bool
  pub num_threads : ℤ
  pub next : ℕ
  pub threads : List LoopThread
  pub loops : List ℕ

-- The constructor.
unfoldable pub create : ℕ → Pool
create base = record {
  base_loop = base;
  started = false;
  num_threads = pos 0;
  next = 0;
  threads = [];
  loops = [];
}

unfoldable pub set_threads_nums : Pool → ℤ → Pool
set_threads_nums p n = record p { num_threads = n }

-- The `for` of `start`, with the rounds left and the index `i`; the loop of thread `i` comes to lie at
-- `place i`. Each thread is created with no arguments, so with no callback.
unfoldable pub start_threads : (ℕ → ℕ) → ℕ → ℕ → Pool → List ℕ → Pool × List ℕ
unfolding create_thread start_loop
start_threads place zero i p called = (p, called)
start_threads place (suc n) i p called =
    let (t, inits) = start_loop (create_thread false) (place i) in
    start_threads place n (i + 1)
      (record p { threads = p.threads ++ t ∷ []; loops = p.loops ++ place i ∷ [] })
      (called ++ inits)

is_zero : ℤ → Bool
is_zero (pos zero) = true
is_zero (pos (suc n)) = false
is_zero (negsuc n) = false

-- `start(cb)`, where `cb` says whether the callback is set: the pool, and the loops that the callback
-- is called with.
unfoldable pub start : (ℕ → ℕ) → Bool → Pool → Pool × List ℕ
unfolding is_zero
start place cb p =
    let (p', called) =
      start_threads place (pos_part p.num_threads) 0 (record p { started = true }) [] in
    (p', if is_zero p'.num_threads && cb then called ++ p'.base_loop ∷ [] else called)

pub advance : Pool → Pool
advance p = record p { next = if leb (length p.loops) (p.next + 1) then 0 else p.next + 1 }

pick : List ℕ → Pool → Outcome (ℕ × Pool)
unfolding advance
pick [] p = ok (p.base_loop, p)
pick (l ∷ ls) p = elim (get_elem? (l ∷ ls) p.next) [
  | none ↦ stop out_of_bounds
  | some loop ↦ ok (loop, advance p)
]

unfoldable pub get_next_loop : Pool → Outcome (ℕ × Pool)
unfolding pick
get_next_loop p = pick p.loops p

pub get_all_loops : Pool → List ℕ
get_all_loops p = elim p.loops [ [] ↦ p.base_loop ∷ [] | l ∷ ls ↦ l ∷ ls ]
