-- ===== src/BaseThread/Life.antt =====
-- The uses of a thread of base/base_thread/base_thread.cc that end well, and those that do not.
use moony.Prelude.{
  ℕ, ◌≡◌, refl, true, List, [], ◌∷◌, Outcome, ok, stop, out_of_bounds, terminated, system_error,
  ◌>>=◌,
}
use moony.Prelude.Text.{Text}
use moony.BaseThread.{
  BaseThread, Handle, no_thread, joined_thread, detached, create, start, join, destroy,
}

-- A call on a thread.
pub data Use : Type 0 where
  starts : ℕ → Use
  joins : Use

pub perform : BaseThread → List Use → Outcome BaseThread
perform t [] = ok t
perform t (starts tid ∷ us) = start tid t >>= λ t'. perform t' us
perform t (joins ∷ us) = join t >>= λ t'. perform t' us

-- The thread object after its use and its destructor.
pub live : BaseThread → List Use → Outcome Handle
live t us = perform t us >>= destroy

-- What becomes of a thread that was started and joined.
pub rounds : List Use → Outcome Handle
rounds [] = ok joined_thread
rounds (joins ∷ us) = stop system_error
rounds (starts tid ∷ []) = stop terminated
rounds (starts tid ∷ starts tid' ∷ us) = stop terminated
rounds (starts tid ∷ joins ∷ us) = rounds us

-- What becomes of a new thread.
pub verdict : List Use → Outcome Handle
verdict [] = ok no_thread
verdict (joins ∷ us) = stop out_of_bounds
verdict (starts tid ∷ []) = ok detached
verdict (starts tid ∷ starts tid' ∷ us) = stop terminated
verdict (starts tid ∷ joins ∷ us) = rounds us

rounds_lem :
    (tid : ℕ) (name : Text) (us : List Use)
    → live
        (record { started = true; joined = true; thread = joined_thread; tid = tid; name = name })
        us
      ≡ rounds us
unfolding live perform start join destroy rounds
rounds_lem tid name [] = refl
rounds_lem tid name (joins ∷ us) = refl
rounds_lem tid name (starts tid' ∷ []) = refl
rounds_lem tid name (starts tid' ∷ starts tid'' ∷ us) = refl
rounds_lem tid name (starts tid' ∷ joins ∷ us) = rounds_lem tid' name us

-- A new thread with any name, any sequence of calls on it, and its destructor: without a call nothing
-- happens, a thread that is only started is left detached, and one that is started and joined is left
-- joined. A join before the first start reads through a null pointer, a second join without a start
-- between throws, a start of a thread that was not joined ends the process, and so does the destructor
-- of one that was started again and not joined again.
pub live_lem : (num : ℕ) (name : Text) (us : List Use) → live (create num name).0 us ≡ verdict us
unfolding live perform create start join destroy verdict
live_lem num name [] = refl
live_lem num name (joins ∷ us) = refl
live_lem num name (starts tid ∷ []) = refl
live_lem num name (starts tid ∷ starts tid' ∷ us) = refl
live_lem num name (starts tid ∷ joins ∷ us) = rounds_lem tid (create num name).0.name us
