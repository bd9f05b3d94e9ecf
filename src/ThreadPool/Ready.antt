-- ===== src/ThreadPool/Ready.antt =====
-- A pool of net/event_loop_thread_pool that `get_next_loop` never indexes out of range.
use moony.Prelude.{
  ℕ, ◌<◌, ◌≡◌, refl, max, ap, ◌∙◌, none, Option, sym, List, Bool, true, [], ◌∷◌, some, ok, arith,
  length, get_elem?, length-append,
}
use moony.Prelude.Int.{pos_part}
use moony.ThreadPool.{Pool, start, get_next_loop, advance}
use moony.ThreadPool.Rotation.{get_next_loop-base, get_next_loop_lem, drop-eq-cons}
use moony.ThreadPool.Start.{places, start_threads-Threaded}

-- `next_` is the index of a loop, or 0.
abbrev pub IsReady : Pool → Type 0
IsReady p = p.next < max 1 (length p.loops)

-- The loop whose turn it is: the base loop, if there is no other.
abbrev turn_or : ℕ → Option ℕ → ℕ
turn_or base none = base
turn_or base (some l) = l

pub turn : Pool → ℕ
turn p = turn_or p.base_loop (get_elem? p.loops p.next)

advance-IsReady : (p : Pool) → IsReady (advance p)
unfolding advance
advance-IsReady p = ground arith

-- `get_next_loop` succeeds on a ready pool, with the loop whose turn it is, and leaves it ready.
pub get_next_loop-IsReady :
    (p : Pool) → IsReady p → (p' : Pool) × (get_next_loop p ≡ ok (turn p, p')) × IsReady p'
unfolding turn
get_next_loop-IsReady p h = go p.loops refl
  where
    go :
        (ls : List ℕ)
        → p.loops ≡ ls
        → (p' : Pool) × (get_next_loop p ≡ ok (turn p, p')) × IsReady p'
    go [] e = (
      p,
      get_next_loop-base p e
          ∙ ap (λ (ls : List ℕ). ok (turn_or p.base_loop (get_elem? ls p.next), p)) (sym e),
      h,
    )
    go (l ∷ ls) e =
        let (x, at, _) = drop-eq-cons p.next p.loops (ground (arith, ap (length {A = ℕ}) e)) in
        (
          advance p,
          get_next_loop_lem p x at ∙ ap (λ o. ok (turn_or p.base_loop o, advance p)) (sym at),
          advance-IsReady p,
        )

pub start-IsReady :
    (place : ℕ → ℕ) (cb : Bool) (p : Pool) → IsReady p → IsReady (start place cb p).0
unfolding start
start-IsReady place cb p h =
    let t =
      start_threads-Threaded place (pos_part p.num_threads) 0 (record p { started = true }) [] in
    omega (
      arith,
      t.position,
      ap (length {A = ℕ}) t.loops,
      length-append p.loops (places place (pos_part p.num_threads) 0),
    )
