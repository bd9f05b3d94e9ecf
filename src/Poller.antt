-- ===== src/Poller.antt =====
-- net/poller: poller.h, poller.cc, epoll_poller.h, epoll_poller.cc and default_poller.cc, the
-- demultiplexer over an epoll instance `E`, with the parts of net/channel and net/event_loop
-- through which a channel reaches it. A channel is passed by value with its address and comes back
-- with its new `idx_`.
pub mod Sync
pub mod Interest
pub mod Wait
pub mod Retire
mod Tests
use moony.Prelude.{
  ℕ, ◌*◌, Bool, true, false, ◌&&◌, if◌then◌else◌, ◌==◌, List, [], ◌∷◌, ◌++◌, Option, none, some,
  Outcome, ok, stop, exit_process, ◌>>=◌, length, lookup, insert, erase, nat_eq,
}
use moony.Epoll.{Mask, Op, add, mod_op, del, Epoll}
use moony.Channel.{Channel, Index, new, added, deleted, is_none_event, Change, changed}

-- `k_init_event_list_size`
abbrev pub init_event_list_size : ℕ
init_event_list_size = 16

module _ (E : Epoll) where
  -- `channels_`, the size of `events_`, and the epoll instance behind `epoll_fd_`.
  pub record Poller : Type 0 where
    pub channels : List (ℕ × ℕ)
    pub capacity : ℕ
    pub kernel : E.Kernel

  -- The constructor, with the instance that `epoll_create` returned, or its failure.
  unfoldable pub create : Option E.Kernel → Outcome Poller
  create (some k) = ok (record { channels = []; capacity = init_event_list_size; kernel = k })
  create none = stop exit_process

  -- `has_channel`: is this very channel stored under its descriptor?
  unfoldable pub has_channel : Poller → Channel → Bool
  has_channel p c = elim (lookup c.fd p.channels) [ none ↦ false | some addr ↦ addr == c.addr ]

  -- What `update` does after a call of `epoll_ctl`: a failed DEL is logged, any other failure ends
  -- the process.
  after_ctl : Poller → Op → Option E.Kernel → Outcome Poller
  after_ctl p op (some k) = ok (record p { kernel = k })
  after_ctl p del none = ok p
  after_ctl p op none = stop exit_process

  unfoldable pub update : Op → Poller → Channel → Outcome Poller
  unfolding after_ctl
  update op p c = after_ctl p op (E.ctl p.kernel op c.fd (c.events, c.addr))

  -- The branch of `update_channel` for a channel that is new or deleted.
  register : Poller → Channel → Outcome (Poller × Channel)
  register p c = update add p c' >>= λ p'. ok (p', c')
    where
      c' : Channel
      c' = record c { idx = added }

  -- The branch for a channel that is registered.
  adjust : Poller → Channel → Outcome (Poller × Channel)
  adjust p c =
      if is_none_event c
      then (update del p c >>= λ p'. ok (p', record c { idx = deleted }))
      else (update mod_op p c >>= λ p'. ok (p', c))

  dispatch : Index → Poller → Channel → Outcome (Poller × Channel)
  dispatch new p c = register (record p { channels = insert c.fd c.addr p.channels }) c
  dispatch deleted p c = register p c
  dispatch added p c = adjust p c

  unfoldable pub update_channel : Poller → Channel → Outcome (Poller × Channel)
  unfolding dispatch register adjust
  update_channel p c = dispatch c.idx p c

  unregister : Index → Poller → Channel → Outcome Poller
  unregister added p c = update del p c
  unregister _ p c = ok p

  -- `channel::remove` comes here by way of `event_loop::remove_channel`.
  pub remove_channel : Poller → Channel → Outcome (Poller × Channel)
  unfolding unregister
  remove_channel p c = unregister c.idx (record p { channels = erase c.fd p.channels }) c >>= λ p'.
      ok (p', record c { idx = new })

  -- `enable_reading` and its like: a change of `events_`, then `update`, which comes to
  -- `update_channel` by way of `event_loop::update_channel`.
  unfoldable pub change : Change → Poller → Channel → Outcome (Poller × Channel)
  change ch p c = update_channel p (changed ch c)

-- The channel objects by address.
abbrev pub Store : Type 0
Store = ℕ → Channel

abbrev pub set_revents : Store → ℕ → Mask → Store
set_revents s a m j = if a == j then record (s j) { revents = m } else s j

-- One round of the loop for each event that `epoll_wait` wrote: its channel and what happened.
unfoldable pub fill_active_channels : List (ℕ × Mask) → Store → List ℕ → Store × List ℕ
fill_active_channels [] s active = (s, active)
fill_active_channels ((a, m) ∷ es) s active =
    fill_active_channels es (set_revents s a m) (active ++ a ∷ [])

-- What `epoll_wait` returns: events, none before the timeout, or -1.
pub data Polled : Type 0 where
  happened : (ℕ × Mask) → List (ℕ × Mask) → Polled
  timed_out : Polled
  poll_error : ℕ → Polled

unfoldable pub poll_wait :
    {E : Epoll} → Poller E → Polled → Store → List ℕ → Poller E × Store × List ℕ
poll_wait p (happened e es) s active =
    let (s', active') = fill_active_channels (e ∷ es) s active in
    let num = length (e ∷ es) in
    (if num == p.capacity then record p { capacity = 2 * num } else p, s', active')
poll_wait p timed_out s active = (p, s, active)
poll_wait p (poll_error errno) s active = (p, s, active)
