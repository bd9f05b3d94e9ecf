-- ===== src/Poller/Retire.antt =====
-- `disable_all()` and then `remove()`, as the destructors of net/event_loop/event_loop.cc and
-- net/acceptor/acceptor.cc call them on their channels.
use moony.Prelude.{
  ℕ, ◌≡◌, ◌⊎◌, inl, inr, refl, Outcome, ok, stop, exit_process, ◌>>=◌, lookup, arith, nat_eq,
}
use moony.Epoll.{Epoll}
use moony.Channel.{Channel, new, added, changed, disable_all}
use moony.Poller.{Poller, change, remove_channel}
use moony.Poller.Sync.{InSync, SameElsewhere, Refuses, change-Settles, remove_channel-Removes}

module _ (E : Epoll) where
  pub retire : Poller E → Channel → Outcome (Poller E × Channel)
  retire p c = change E disable_all p c >>= λ (p', c'). remove_channel E p' c'

  SameElsewhere-trans :
      (fd : ℕ) (p q r : Poller E)
      → SameElsewhere E fd p q
      → SameElsewhere E fd q r
      → SameElsewhere E fd p r
  SameElsewhere-trans fd p q r h k j = ground (arith, h j, k j)

  -- The channel as it is after that.
  abbrev pub retired : Channel → Channel
  retired c = record (changed disable_all c) { idx = new }

  -- A channel in sync leaves the map and the interest list, and no other descriptor is touched,
  -- unless the kernel refuses to take its events back.
  pub retire_lem :
      (p : Poller E) (c : Channel)
      → InSync E p c
      → ((retire p c ≡ stop exit_process) × Refuses E p c)
        ⊎ ((p' : Poller E) × (retire p c ≡ ok (p', retired c))
            × InSync E p' (retired c)
            × SameElsewhere E c.fd p p')
  unfolding retire changed
  retire_lem p c h = elim (change-Settles E disable_all p c h) [
    | inl (e, r) ↦ inl (rw e refl, r)
    | inr (q, e, sync, same) ↦
        let (p', e', sync', same') =
          remove_channel-Removes E q (record (changed disable_all c) { idx = added }) sync in
        inr (p', rw (e, e') refl, sync', SameElsewhere-trans c.fd p q p' same same')
  ]

  -- The map and the interest list say the same of every descriptor.
  abbrev pub SameView : Poller E → Poller E → Type 0
  SameView p p' =
      (j : ℕ)
      → (lookup j p'.channels ≡ lookup j p.channels)
        × (E.interest p'.kernel j ≡ E.interest p.kernel j)
