-- ===== src/ThreadPool/Start.antt =====
-- `start` of net/event_loop_thread_pool/event_loop_thread_pool.cc.
use moony.Prelude.{
  ℕ, suc, zero, ◌+◌, ◌≡◌, refl, sym, ap, ◌∙◌, Bool, true, false, if◌then◌else◌, ◌==◌, List, [], ◌∷◌,
  ◌++◌, append-nil, append_assoc, length, arith, ◌&&◌, some,
}
use moony.Prelude.Int.{pos, pos_part}
use moony.ThreadPool.{Pool, start, start_threads, is_zero}

-- The loops of the threads `i` up to `i + n`.
abbrev pub places : (ℕ → ℕ) → ℕ → ℕ → List ℕ
places place zero i = []
places place (suc n) i = place i ∷ places place n (i + 1)

length-places : (place : ℕ → ℕ) (n i : ℕ) → length (places place n i) ≡ n
length-places place zero i = refl
length-places place (suc n) i = ap suc (length-places place n (i + 1))

-- What the `for` leaves of the pool, and the calls of the init callback: none beyond the earlier ones.
pub record Threaded (place : ℕ → ℕ) (n i : ℕ) (p : Pool) (called : List ℕ) (r : Pool × List ℕ)
    : Type 0 where
  pub loops : r.0.loops ≡ p.loops ++ places place n i
  pub base : r.0.base_loop ≡ p.base_loop
  pub number : r.0.num_threads ≡ p.num_threads
  pub position : r.0.next ≡ p.next
  pub calls : r.1 ≡ called

pub start_threads-Threaded :
    (place : ℕ → ℕ) (n i : ℕ) (p : Pool) (called : List ℕ)
    → Threaded place n i p called (start_threads place n i p called)
unfolding start_threads
start_threads-Threaded place zero i p called = record {
  loops = sym (append-nil p.loops);
  base = refl;
  number = refl;
  position = refl;
  calls = refl;
}
start_threads-Threaded place (suc n) i p called =
    let t =
      start_threads-Threaded place n (i + 1)
        (record p {
          threads = p.threads ++ (record { callback_set = false; loop = some (place i) }) ∷ [];
          loops = p.loops ++ place i ∷ [];
        })
        (called ++ []) in
    record {
      loops = t.loops ∙ append_assoc p.loops (place i ∷ []) (places place n (i + 1));
      base = t.base;
      number = t.number;
      position = t.position;
      calls = t.calls ∙ append-nil called;
    }

-- With a positive number of threads, `start` adds the loop of each thread behind the loops of the pool,
-- in order, and calls the init callback with none of them, set or not. With 0 threads it adds no loop
-- and calls a callback that is set with the base loop. The turn stays where it was.
pub start_lem :
    (place : ℕ → ℕ) (cb : Bool) (n : ℕ) (p : Pool)
    → p.num_threads ≡ pos n
    → ((start place cb p).0.loops ≡ p.loops ++ places place n 0)
      × ((start place cb p).0.next ≡ p.next)
      × ((start place cb p).1 ≡ (if n == 0 then (if cb then p.base_loop ∷ [] else []) else []))
unfolding start
start_lem place cb n p e =
    let t =
      start_threads-Threaded place (pos_part p.num_threads) 0 (record p { started = true }) [] in
    (
      t.loops ∙ ap (λ m. p.loops ++ places place (pos_part m) 0) e,
      t.position,
      rw (t.number ∙ e, t.calls, t.base) (called n),
    )
  where
    called :
        (m : ℕ)
        → (if is_zero (pos m) && cb then [] ++ p.base_loop ∷ [] else [])
          ≡ (if m == 0 then (if cb then p.base_loop ∷ [] else []) else [])
    called zero = ground arith
    called (suc m) = ground arith
