-- ===== src/CurrentThread.antt =====
-- base/current_thread/current_thread.h and current_thread.cc: the thread's number, kept in
-- `t_cached_tid`. The system call `gettid` is an argument; it never returns 0.
use moony.Prelude.{ℕ, ◌≡◌, arith, ◌==◌, if◌then◌else◌}

-- `cache_tid`
pub cache_tid : ℕ → ℕ → ℕ
cache_tid gettid cached = if cached == 0 then gettid else cached

-- `tid`: the number, and the cache after it.
pub tid : ℕ → ℕ → ℕ × ℕ
unfolding cache_tid
tid gettid cached =
    let cached' = if cached == 0 then cache_tid gettid cached else cached in (cached', cached')

-- Every call in a thread returns its number: the first caches it, and a later one finds it.
pub tid_lem :
    (gettid : ℕ) → ((tid gettid 0) ≡ (gettid, gettid)) × (tid gettid gettid ≡ (gettid, gettid))
unfolding tid
tid_lem gettid = ground arith
