-- ===== src/EventLoop/Wiring.antt =====
-- The constructor and the destructor of net/event_loop/event_loop.cc: the poller, the eventfd and its
-- channel, and the slot `t_loop_in_this_thread`, which keeps a thread to one loop.
use moony.Prelude.{
  Post, ◌⊎◌, ℕ, ◌≡◌, ◌≢◌, inl, inr, refl, true, false, Option, none, some, Outcome, ok, stop,
  exit_process, ◌>>=◌, lookup, arith, nat_eq, [],
}
use moony.Epoll.{Epoll}
use moony.Channel.{Channel, changed, enable_reading, added, is_reading}
use moony.Channel
use moony.Poller.{Poller, change, has_channel}
use moony.Poller
use moony.Poller.Sync.{InSync, change-Settles, Refuses}
use moony.Poller.Retire.{retire, retire_lem}
use moony.EventLoop.{EventFd, Loop}
use moony.EventLoop

module _ (E : Epoll) (W : EventFd) (F : Type 0) where
  -- The loop with `poller_` and `wakeup_channel_`.
  pub record Reactor : Type 0 where
    pub loop : Loop W F
    pub poller : Poller E
    pub wakeup_channel : Channel

  -- `create_event_fd`, with what `eventfd` returned: a descriptor and its counter, or a failure.
  pub create_event_fd : Option (ℕ × W.Counter) → Outcome (ℕ × W.Counter)
  create_event_fd (some evtfd) = ok evtfd
  create_event_fd none = stop exit_process

  -- The constructor's test of the slot, for the object at `self`.
  pub claim_slot : Option ℕ → ℕ → Outcome (Option ℕ)
  claim_slot none self = ok (some self)
  claim_slot (some other) self = stop exit_process

  -- The constructor in thread `tid`, with the thread's slot, what `epoll_create` and `eventfd`
  -- returned, and the address of the channel: the slot and the loop.
  unfoldable pub construct :
      Option ℕ → ℕ → ℕ → Option E.Kernel → Option (ℕ × W.Counter) → ℕ → Outcome (Option ℕ × Reactor)
  unfolding create_event_fd claim_slot
  construct slot self tid made evtfd addr = do
    p ← Poller.create E made
    (fd, counter) ← create_event_fd evtfd
    slot' ← claim_slot slot self
    (p', c) ← change E enable_reading p (Channel.set_read_callback true (Channel.create addr fd))
    ok (slot', record { loop = EventLoop.create W F tid counter; poller = p'; wakeup_channel = c })

  -- The destructor; the last part is the slot.
  pub destruct : Reactor → Outcome (Option ℕ × Reactor)
  destruct r = retire E r.poller r.wakeup_channel >>= λ (p, c).
      ok (none, record r { poller = p; wakeup_channel = c })

  -- What the constructor leaves in thread `tid`: the slot points to the loop, and the poller watches
  -- the wakeup channel, which is for the eventfd, for reading, and knows it and no other.
  pub record IsWired (self tid : ℕ) (evtfd : Option (ℕ × W.Counter)) (slot : Option ℕ) (r : Reactor)
      : Type 0 where
    pub thread : r.loop.thread_id ≡ tid
    pub descriptor : evtfd ≡ some (r.wakeup_channel.fd, r.loop.counter)
    pub alone :
        (j : ℕ)
        → r.wakeup_channel.fd ≢ j
        → (lookup j r.poller.channels ≡ none) × (E.interest r.poller.kernel j ≡ none)
    pub slot_taken : slot ≡ some self
    pub sync : InSync E r.poller r.wakeup_channel
    pub watched : is_reading r.wakeup_channel ≡ true
    pub known : has_channel E r.poller r.wakeup_channel ≡ true
    pub callback : r.wakeup_channel.read_set ≡ true
    pub idle : (r.loop.looping ≡ false) × (r.loop.quitting ≡ false) × (r.loop.pending ≡ [])

  -- What keeps a loop from being built: no eventfd, another loop in the thread, or an epoll instance
  -- that refuses the channel.
  abbrev pub Barred : Option ℕ → Option (ℕ × W.Counter) → Type 0
  Barred slot evtfd =
      (evtfd ≡ none) ⊎ ((slot ≢ none) ⊎ ((p : Poller E) × (c : Channel) × Refuses E p c))

  has_channel_lem :
      (p : Poller E) (c : Channel) → lookup c.fd p.channels ≡ some c.addr → has_channel E p c ≡ true
  unfolding has_channel
  has_channel_lem p c e = rw (e, has_channel) (ground arith)

  -- On an epoll instance with an empty interest list, the constructor leaves a loop that is
  -- wired, in a thread that had none: its slot points to it, it is idle, and the poller watches its
  -- wakeup channel for reading. Else the process ends, and something barred it.
  pub construct-IsWired :
      (slot : Option ℕ) (self tid : ℕ) (k : E.Kernel) (evtfd : Option (ℕ × W.Counter)) (addr : ℕ)
      → ((j : ℕ) → E.interest k j ≡ none)
      → Post
          (Barred slot evtfd)
          (λ (slot', r). (slot ≡ none) × IsWired self tid evtfd slot' r)
          (construct slot self tid (some k) evtfd addr)
  unfolding construct create_event_fd claim_slot Poller.create Channel.create changed lookup
      is_reading EventLoop.create
  construct-IsWired slot self tid k none addr h = (refl, inl refl)
  construct-IsWired (some other) self tid k (some (fd, counter)) addr h =
      (refl, inr (inl (λ e. cc)))
  construct-IsWired none self tid k (some (fd, counter)) addr h =
      let q : Poller E = record { channels = []; capacity = 16; kernel = k } in
      let c = record (Channel.create addr fd) { read_set = true } in
      elim (change-Settles E enable_reading q c (refl, h fd)) [
        | inl (e, r) ↦ rw e (refl, inr (inr (q, c, r)))
        | inr (p, e, sync, same) ↦ rw e (
          refl,
          record {
            thread = refl;
            descriptor = refl;
            alone = λ j other. ground (arith, same j, h j);
            slot_taken = refl;
            sync = sync;
            watched = refl;
            known = has_channel_lem p _ (sync.0);
            callback = refl;
            idle = (refl, refl, refl);
          },
        )
      ]

  -- A loop that is wired and then destroyed frees the slot of its thread and leaves its wakeup channel
  -- in neither the poller's map nor the interest list, unless the process ends through `exit`.
  pub destruct_lem :
      (self tid : ℕ) (evtfd : Option (ℕ × W.Counter)) (slot : Option ℕ) (r : Reactor)
      → IsWired self tid evtfd slot r
      → Post
          (Unit {0})
          (λ (slot', r').
            (slot' ≡ none)
            × (lookup r.wakeup_channel.fd r'.poller.channels ≡ none)
            × (E.interest r'.poller.kernel r.wakeup_channel.fd ≡ none))
          (destruct r)
  unfolding destruct changed
  destruct_lem self tid evtfd slot r h = elim (retire_lem E r.poller r.wakeup_channel h.sync) [
    | inl (e, _) ↦ rw e (refl, tt)
    | inr (p, e, gone, _) ↦ rw e (refl, gone.0, gone.1)
  ]
