-- ===== src/Channel.antt =====
-- net/channel/channel.h and net/channel/channel.cc: one descriptor with its events and callbacks.
-- A channel is passed by value with its address; `update` and `remove`, which go to the poller
-- through the event loop, stand in Poller.
pub mod Dispatch
mod Tests
use moony.Prelude.{
  ℕ, Bool, true, false, not, ◌&&◌, ◌||◌, if◌then◌else◌, List, [], ◌∷◌, ◌++◌, Option, none, some,
}
use moony.Epoll.{Mask, none_set, mask_or, mask_and, mask_clear, is_set}

-- The values of `idx_`: `k_new`, `k_added` and `k_deleted` of net/poller/epoll_poller.cc.
pub data Index : Type 0 where
  new added deleted : Index

-- The four callbacks of a channel.
pub data Callback : Type 0 where
  close_callback error_callback read_callback write_callback : Callback

-- `addr` is the address of the object; a callback field says whether one is set; `tie` is the
-- object that `tie_` observes.
pub record Channel : Type 0 where
  pub addr : ℕ
  pub fd : ℕ
  pub events : Mask
  pub revents : Mask
  pub idx : Index
  pub tie : Option ℕ
  pub tied : Bool
  pub read_set : Bool
  pub write_set : Bool
  pub close_set : Bool
  pub error_set : Bool

abbrev pub none_event : Mask
none_event = none_set

-- EPOLLIN | EPOLLPRI
abbrev pub read_event : Mask
read_event = record none_set { epollin = true; epollpri = true }

-- EPOLLOUT
abbrev pub write_event : Mask
write_event = record none_set { epollout = true }

-- The constructor, for an object at address `addr`.
unfoldable pub create : ℕ → ℕ → Channel
create addr fd = record {
  addr = addr;
  fd = fd;
  events = none_set;
  revents = none_set;
  idx = new;
  tie = none;
  tied = false;
  read_set = false;
  write_set = false;
  close_set = false;
  error_set = false;
}

-- The setters of the callbacks: is there one afterwards?
abbrev pub set_read_callback : Bool → Channel → Channel
set_read_callback cb c = record c { read_set = cb }

abbrev pub set_write_callback : Bool → Channel → Channel
set_write_callback cb c = record c { write_set = cb }

abbrev pub set_close_callback : Bool → Channel → Channel
set_close_callback cb c = record c { close_set = cb }

abbrev pub set_error_callback : Bool → Channel → Channel
set_error_callback cb c = record c { error_set = cb }

-- `tie(obj)`
unfoldable pub tie_to : Channel → ℕ → Channel
tie_to c obj = record c { tie = some obj; tied = true }

-- The change of `events_` in `enable_reading`, `disable_reading`, `enable_writing`,
-- `disable_writing` and `disable_all`.
pub data Change : Type 0 where
  enable_reading disable_reading enable_writing disable_writing disable_all : Change

unfoldable pub changed : Change → Channel → Channel
changed enable_reading c = record c { events = mask_or c.events read_event }
changed disable_reading c = record c { events = mask_clear c.events read_event }
changed enable_writing c = record c { events = mask_or c.events write_event }
changed disable_writing c = record c { events = mask_clear c.events write_event }
changed disable_all c = record c { events = none_event }

unfoldable pub is_reading : Channel → Bool
is_reading c = is_set (mask_and c.events read_event)

unfoldable pub is_writing : Channel → Bool
is_writing c = is_set (mask_and c.events write_event)

unfoldable pub is_none_event : Channel → Bool
is_none_event c = is_set (mask_and c.events none_event)

-- `if (due) { if (callback) callback(); }`
abbrev call_if : Bool → Bool → Callback → List Callback
call_if due present cb = if due then (if present then cb ∷ [] else []) else []

-- The callbacks that run, in order. No callback touches `revents_`.
handle_event_with_guard : Channel → List Callback
handle_event_with_guard c =
    call_if (c.revents.epollhup && not c.revents.epollin) c.close_set close_callback
    ++ (call_if c.revents.epollerr c.error_set error_callback
        ++ (call_if (c.revents.epollin || c.revents.epollpri) c.read_set read_callback
            ++ call_if c.revents.epollout c.write_set write_callback))

-- `tie_.lock()`: is the observed object still alive?
lock : (ℕ → Bool) → Option ℕ → Bool
lock alive none = false
lock alive (some obj) = alive obj

pub handle_event : (ℕ → Bool) → Channel → List Callback
unfolding lock
handle_event alive c =
    if c.tied
    then (if lock alive c.tie then handle_event_with_guard c else [])
    else handle_event_with_guard c
