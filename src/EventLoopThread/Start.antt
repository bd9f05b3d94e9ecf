-- ===== src/EventLoopThread/Start.antt =====
-- What `start_loop` of net/event_loop_thread/event_loop_thread.cc returns.
use moony.Prelude.{
  ℕ, ◌≡◌, ◌≢◌, ◌⊎◌, inl, inr, refl, Bool, true, false, if◌then◌else◌, List, [], ◌∷◌, none, some,
  arith,
}
use moony.EventLoopThread.{
  crashed, Owner, built, checking, sleeping, started, destroyed, Worker, absent, constructed,
  publishing, entering, looping, clearing, finished, State, fresh, notified, Step, starts, waits,
  wakes, returns, calls_back, publishes, enters, quits_itself, leaves, clears, destroys_unused,
  destroys_live, destroys_dead, quits, crashes, joins, Reach, here, next,
}

-- The calls of the init callback: with the new loop, if it is set.
abbrev pub one_call : Bool → ℕ → List ℕ
one_call set addr = if set then addr ∷ [] else []

-- What holds of `loop_` and of the callback, by where the new thread stands.
abbrev InWorker : ℕ → State → Worker → Type 0
InWorker addr s absent = (s.loop ≡ none) × (s.called ≡ [])
InWorker addr s constructed = (s.loop ≡ none) × (s.called ≡ [])
InWorker addr s publishing = (s.loop ≡ none) × (s.called ≡ one_call s.callback_set addr)
InWorker addr s finished = (s.loop ≡ none) × (s.called ≡ one_call s.callback_set addr)
InWorker addr s _ = (s.loop ≡ some addr) × (s.called ≡ one_call s.callback_set addr)

-- Has the new thread set `loop_`?
abbrev pub has_published : Worker → Bool
has_published absent = false
has_published constructed = false
has_published publishing = false
has_published _ = true

-- What holds of the owner.
abbrev InOwner : ℕ → State → Owner → Type 0
InOwner addr s built = s.worker ≡ absent
InOwner addr s checking = s.worker ≢ absent
InOwner addr s sleeping = (s.worker ≢ absent) × (s.loop ≡ none)
InOwner addr s (started a) = (a ≡ addr) × (has_published s.worker ≡ true)
InOwner addr s destroyed = Unit {0}
InOwner addr s crashed = Unit {0}
InOwner addr s _ = has_published s.worker ≡ true

record IsShaken (set : Bool) (addr : ℕ) (s : State) : Type 0 where
  callback : s.callback_set ≡ set
  worker : InWorker addr s s.worker
  owner : InOwner addr s s.owner

Step-IsShaken :
    (set : Bool) (addr : ℕ) {s t : State}
    → Step addr s t
    → IsShaken set addr s
    → IsShaken set addr t
Step-IsShaken set addr (starts e) h = ground arith
Step-IsShaken set addr (waits e n) h = ground arith
Step-IsShaken set addr (wakes e) h = ground arith
Step-IsShaken set addr (returns a e l) h = ground arith
Step-IsShaken set addr (calls_back e) h = ground arith
Step-IsShaken set addr (publishes e) h = ground arith
Step-IsShaken set addr (enters e) h = ground arith
Step-IsShaken set addr (quits_itself e) h = ground arith
Step-IsShaken set addr (leaves e q) h = ground arith
Step-IsShaken set addr (clears e) h = ground arith
Step-IsShaken set addr (destroys_unused e) h = ground arith
Step-IsShaken set addr (destroys_live a b e l) h = ground arith
Step-IsShaken set addr (destroys_dead a e l) h = ground arith
Step-IsShaken set addr (quits b e l) h = ground arith
Step-IsShaken set addr (crashes e l) h = ground arith
Step-IsShaken set addr (joins e f) h = ground arith

Reach-IsShaken :
    (set : Bool) (addr : ℕ) {s : State} → Reach addr (fresh set) s → IsShaken set addr s
Reach-IsShaken set addr here = record { callback = refl; worker = (refl, refl); owner = refl }
Reach-IsShaken set addr (next r st) = Step-IsShaken set addr st (Reach-IsShaken set addr r)

started_facts :
    (set : Bool) (addr : ℕ) (s : State)
    → IsShaken set addr s
    → (a : ℕ) → s.owner ≡ started a
    → (a ≡ addr) × (s.called ≡ one_call set addr)
started_facts set addr s h a e = ground (arith, h.callback, h.worker, h.owner)

sleeping_facts :
    (set : Bool) (addr : ℕ) (s : State) → IsShaken set addr s → s.owner ≡ sleeping → s.loop ≡ none
sleeping_facts set addr s h e = ground (arith, h.owner)

-- In every state that a fresh `event_loop_thread` reaches and where `start_loop` has returned, it has
-- returned the new thread's loop, and before that the init callback, if it is set, was called once,
-- with this loop.
pub start_loop_safe :
    (set : Bool) (addr : ℕ) {s : State}
    → Reach addr (fresh set) s
    → (a : ℕ) → s.owner ≡ started a
    → (a ≡ addr) × (s.called ≡ one_call set addr)
start_loop_safe set addr {s} r = started_facts set addr s (Reach-IsShaken set addr r)

-- While the owner sleeps on the condition variable, `loop_` is null: no notification has been lost.
pub sleeping_unset :
    (set : Bool) (addr : ℕ) {s : State}
    → Reach addr (fresh set) s
    → s.owner ≡ sleeping
    → s.loop ≡ none
sleeping_unset set addr {s} r = sleeping_facts set addr s (Reach-IsShaken set addr r)

abbrev pub Waits : State → Type 0
Waits s = (s.owner ≡ checking) ⊎ (s.owner ≡ sleeping)

woken : (s : State) → Waits s → notified s.owner ≡ checking
woken s (inl e) = rw e
woken s (inr e) = rw e

-- A step that is not a wakeup without a notification.
abbrev pub IsCaused : {addr : ℕ} {s t : State} → Step addr s t → Type 0
IsCaused (wakes e) = ⊥
IsCaused _ = Unit {0}

abbrev pub AreCaused : {addr : ℕ} {s t : State} → Reach addr s t → Type 0
AreCaused here = Unit {0}
AreCaused (next r st) = AreCaused r × IsCaused st

-- `start_loop` can come to its return.
abbrev pub Returned : ℕ → State → Type 0
Returned addr s = (t : State) × (r : Reach addr s t) × AreCaused r × (t.owner ≡ started addr)

from_publishing : (addr : ℕ) (s : State) → Waits s → s.worker ≡ publishing → Returned addr s
from_publishing addr s o w =
    (_, next (next here (publishes w)) (returns addr (woken s o) refl), ((tt, tt), tt), refl)

from_constructed : (addr : ℕ) (s : State) → Waits s → s.worker ≡ constructed → Returned addr s
from_constructed addr s o w = (
  _,
  next (next (next here (calls_back w)) (publishes refl)) (returns addr (woken s o) refl),
  (((tt, tt), tt), tt),
  refl,
)

not_absent : (set : Bool) (addr : ℕ) (s : State) → IsShaken set addr s → Waits s → s.worker ≢ absent
not_absent set addr s h (inl e) = ground (arith, h.owner)
not_absent set addr s h (inr e) = ground (arith, h.owner)

-- From every state that a fresh `event_loop_thread` reaches in which `start_loop` waits and the new
-- thread has not set `loop_` yet, the two threads can go on to its return, without a wakeup of the
-- condition variable that no notification has caused.
pub start_loop_completes :
    (set : Bool) (addr : ℕ) {s : State}
    → Reach addr (fresh set) s
    → Waits s
    → has_published s.worker ≡ false
    → Returned addr s
start_loop_completes set addr {s} r o w = go s.worker refl w
  where
    go : (wk : Worker) → s.worker ≡ wk → has_published wk ≡ false → Returned addr s
    go absent e f = absurd (not_absent set addr s (Reach-IsShaken set addr r) o e)
    go constructed e f = from_constructed addr s o e
    go publishing e f = from_publishing addr s o e
    go entering e f = cc
    go looping e f = cc
    go clearing e f = cc
    go finished e f = cc
