-- ===== src/TcpConnection/Post.antt =====
-- What holds after a method of net/tcp_connection/tcp_connection.cc that may meet a refusal of the
-- kernel, and the change of a channel's events as such a step.
pub use moony.Prelude.{Post, Post-bind, Post-mono}
use moony.Prelude.{◌≡◌, refl, true, false, inl, inr, arith}
use moony.Epoll.{Epoll}
use moony.Channel.{
  Channel, added, changed, Change, is_writing, enable_writing, disable_writing, disable_all,
}
use moony.Poller.{Poller}
use moony.Poller.Sync.{InSync, Refuses, change-Settles}
use moony.EventLoop.{EventFd}
use moony.TcpConnection.{World, change_channel, with_channel}

module _ (E : Epoll) (W : EventFd) where
  -- `w` after a change of the channel that leaves it as `c`, with the poller `p`.
  abbrev pub moved : World E W → Poller E → Channel → World E W
  moved w p c = record w { poller = p; conn = record w.conn { channel = c } }

  -- The channel of `w` after a change.
  abbrev pub registered : Change → World E W → Channel
  registered ch w = record (changed ch w.conn.channel) { idx = added }

  -- The kernel refuses to add the channel of `w`, or to modify its events.
  abbrev pub Refused : World E W → Type 0
  Refused w = Refuses E w.poller w.conn.channel

  -- A property of every world that a change may lead to holds after it.
  pub change_channel-Post :
      (ch : Change) (w : World E W) (P : World E W → Type 0)
      → InSync E w.poller w.conn.channel
      → ((p : Poller E) → InSync E p (registered ch w) → P (moved w p (registered ch w)))
      → Post (Refused w) P (change_channel E W ch w)
  unfolding change_channel
  change_channel-Post ch w P h k = elim (change-Settles E ch w.poller w.conn.channel h) [
    | inl (e, r) ↦ rw (e, with_channel) (refl, r)
    | inr (p, e, sync, _) ↦ rw (e, with_channel) (k p sync)
  ]

-- What each change does to `is_writing`.
pub is_writing-enable_writing : (c : Channel) → is_writing (changed enable_writing c) ≡ true
unfolding is_writing changed
is_writing-enable_writing c = ground arith

pub is_writing-disable_writing : (c : Channel) → is_writing (changed disable_writing c) ≡ false
unfolding is_writing changed
is_writing-disable_writing c = ground arith

pub is_writing-disable_all : (c : Channel) → is_writing (changed disable_all c) ≡ false
unfolding is_writing changed
is_writing-disable_all c = ground arith

pub is_writing-added : (c : Channel) → is_writing (record c { idx = added }) ≡ is_writing c
unfolding is_writing
is_writing-added c = refl
