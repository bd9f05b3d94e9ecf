-- ===== src/EventLoop/Counting.antt =====
-- An eventfd as its counter: it shows that the laws of `EventFd` can hold together, and runs the tests
-- of net/event_loop.
use moony.Prelude.{ℕ, ◌+◌, ◌≡◌, refl, true, arith, ltb}
use moony.EventLoop.{EventFd}

pub readable_plus : (c : ℕ) → ltb 0 (c + 1) ≡ true
readable_plus c = ground arith

abbrev pub counting : EventFd
counting = record {
  Counter = ℕ;
  readable = λ c. ltb 0 c;
  write = λ c. c + 1;
  read = λ c. 0;
  readable-write = readable_plus;
  readable-read = λ c. refl;
}
