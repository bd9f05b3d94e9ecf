-- ===== src/BaseThread.antt =====
-- base/base_thread/base_thread.h and base_thread.cc: a thread with its name, over `std::thread`.
pub mod Life
mod Tests
use moony.Prelude.{
  ℕ, ◌+◌, ◌≡◌, Bool, true, false, not, ◌&&◌, if◌then◌else◌, List, [], ◌∷◌, ◌++◌, Outcome, ok, stop,
  out_of_bounds, terminated, system_error, ◌>>=◌,
}
use moony.Prelude.Text.{Text, codes, decimal, snprintf}

-- `thread_`: null, or a `std::thread` that runs or may be joined, or one that was joined or detached.
pub data Handle : Type 0 where
  no_thread joinable joined_thread detached : Handle

pub record BaseThread : Type 0 where
  pub started : Bool
  pub joined : Bool
  pub thread : Handle
  pub tid : ℕ
  pub name : Text

-- The name of the thread that is the `num`th to be created, if it is given none.
unfoldable pub default_name : ℕ → Text
default_name num = snprintf 32 (codes "thread " ++ decimal num)

-- `name_.empty()`
abbrev pub is_empty : Text → Bool
is_empty [] = true
is_empty (c ∷ s) = false

-- The constructor with `set_default_name`: the thread, and `num_created_` after it.
unfoldable pub create : ℕ → Text → BaseThread × ℕ
create num_created name = (
  record {
    started = false;
    joined = false;
    thread = no_thread;
    tid = 0;
    name = if is_empty name then default_name (num_created + 1) else name;
  },
  num_created + 1,
)

-- The assignment of a new `std::thread` to `thread_`, which ends the one that it held.
replace : Handle → Outcome Handle
replace joinable = stop terminated
replace no_thread = ok joinable
replace joined_thread = ok joinable
replace detached = ok joinable

-- `start`, which waits until the new thread has set `tid_`.
unfoldable pub start : ℕ → BaseThread → Outcome BaseThread
unfolding replace
start tid t = do h ← replace t.thread; ok (record t { started = true; thread = h; tid = tid })

-- `thread_->join()`
join_handle : Handle → Outcome Handle
join_handle joinable = ok joined_thread
join_handle no_thread = stop out_of_bounds
join_handle joined_thread = stop system_error
join_handle detached = stop system_error

unfoldable pub join : BaseThread → Outcome BaseThread
unfolding join_handle
join t = do h ← join_handle t.thread; ok (record t { joined = true; thread = h })

-- `thread_->detach()`
detach_handle : Handle → Outcome Handle
detach_handle joinable = ok detached
detach_handle no_thread = stop out_of_bounds
detach_handle joined_thread = stop system_error
detach_handle detached = stop system_error

-- The end of `thread_`.
release : Handle → Outcome Handle
release joinable = stop terminated
release no_thread = ok no_thread
release joined_thread = ok joined_thread
release detached = ok detached

-- The destructor, with the end of its member `thread_`.
unfoldable pub destroy : BaseThread → Outcome Handle
unfolding detach_handle release
destroy t = (if t.started && not t.joined then detach_handle t.thread else ok t.thread) >>= release
