-- ===== src/Poller/Sync.antt =====
-- Each channel, the poller's map and the kernel's interest list agree, after every call of
-- net/poller/epoll_poller.cc.
use moony.Prelude.{
  ℕ, ◌≡◌, ◌≢◌, refl, false, if◌then◌else◌, ◌==◌, none, some, Outcome, ok, stop, exit_process, ◌⊎◌,
  inl, inr, lookup, insert, erase, nat_eq, lookup-insert, lookup-erase, arith, Option-cases,
}
use moony.Epoll.{Op, Mask, add, mod_op, del, Epoll}
use moony.Channel.{
  Channel, Index, new, added, deleted, is_none_event, Change, changed, enable_reading,
  disable_reading, enable_writing, disable_writing, disable_all,
}
use moony.Poller.{
  Poller, update, register, adjust, dispatch, unregister, update_channel, remove_channel, change,
}

module _ (E : Epoll) where
  -- What the map and the interest list say of a channel with that index.
  abbrev pub Agrees : Poller E → Channel → Index → Type 0
  Agrees p c new = (lookup c.fd p.channels ≡ none) × (E.interest p.kernel c.fd ≡ none)
  Agrees p c added =
      (lookup c.fd p.channels ≡ some c.addr) × (E.interest p.kernel c.fd ≡ some (c.events, c.addr))
  Agrees p c deleted = ⊥

  -- A channel outside the poller is in neither, one inside is in both with its events, and none is
  -- marked as deleted.
  abbrev pub InSync : Poller E → Channel → Type 0
  InSync p c = Agrees p c c.idx

  -- Nothing but the descriptor `fd` differs.
  abbrev pub SameElsewhere : ℕ → Poller E → Poller E → Type 0
  SameElsewhere fd p p' =
      (j : ℕ)
      → (lookup j p'.channels ≡ (if fd == j then lookup j p'.channels else lookup j p.channels))
        × (E.interest p'.kernel j
            ≡ (if fd == j then E.interest p'.kernel j else E.interest p.kernel j))

  -- The kernel refuses to add the channel, or to modify its events.
  abbrev pub Refuses : Poller E → Channel → Type 0
  Refuses p c = (op : Op) × (op ≢ del) × (m : Mask) × (E.ctl p.kernel op c.fd (m, c.addr) ≡ none)

  -- The result of a call that asks the kernel to add or modify: the kernel refuses it and the
  -- process ends, or the channel is in the poller with its new events and no other descriptor is touched.
  abbrev pub Settles : Poller E → Channel → Channel → Outcome (Poller E × Channel) → Type 0
  Settles p c c' r =
      ((r ≡ stop exit_process) × Refuses p c)
      ⊎ ((p' : Poller E) × (r ≡ ok (p', c')) × InSync p' c' × SameElsewhere c.fd p p')

  register-Settles :
      (p : Poller E) (c : Channel)
      → Settles p c
          (record c { idx = added })
          (register E (record p { channels = insert c.fd c.addr p.channels }) c)
  unfolding register update
  register-Settles p c = elim (Option-cases (E.ctl p.kernel add c.fd (c.events, c.addr))) [
    | inl e ↦ inl (rw e, (add, (λ q. cc), c.events, e))
    | inr (k, e) ↦ inr (
      record p { channels = insert c.fd c.addr p.channels; kernel = k },
      rw e,
      (
        ground (arith, lookup-insert c.fd c.fd c.addr p.channels),
        ground (arith, E.ctl_add p.kernel k c.fd (c.events, c.addr) e c.fd),
      ),
      λ j. (
        ground (arith, lookup-insert j c.fd c.addr p.channels),
        ground (arith, E.ctl_add p.kernel k c.fd (c.events, c.addr) e j),
      ),
    )
  ]

  -- `is_none_event` masks with `k_none_event_`, which is 0: it holds of no channel.
  pub is_none_event-false : (c : Channel) → is_none_event c ≡ false
  unfolding is_none_event
  is_none_event-false c = ground arith

  adjust-Settles :
      (p : Poller E) (c : Channel)
      → c.idx ≡ added
      → lookup c.fd p.channels ≡ some c.addr
      → Settles p c (record c { idx = added }) (adjust E p c)
  unfolding adjust update
  adjust-Settles p c i h =
      rw (is_none_event-false c)
        (elim (Option-cases (E.ctl p.kernel mod_op c.fd (c.events, c.addr))) [
          | inl e ↦ inl (rw e, (mod_op, (λ q. cc), c.events, e))
          | inr (k, e) ↦ inr (
            record p { kernel = k },
            rw (e, ← i),
            (h, ground (arith, E.ctl_mod p.kernel k c.fd (c.events, c.addr) e c.fd)),
            λ j. (ground arith, ground (arith, E.ctl_mod p.kernel k c.fd (c.events, c.addr) e j)),
          )
        ])

  dispatch-Settles :
      (i : Index) (p : Poller E) (c : Channel) (old : Mask)
      → c.idx ≡ i
      → Agrees p (record c { events = old }) i
      → Settles p c (record c { idx = added }) (dispatch E i p c)
  unfolding dispatch
  dispatch-Settles new p c old e h = register-Settles p c
  dispatch-Settles added p c old e h = adjust-Settles p c e h.0
  dispatch-Settles deleted p c old e h = absurd h

  -- Each of `enable_reading`, `disable_reading`, `enable_writing`, `disable_writing` and
  -- `disable_all` on a channel in sync either meets a refusal of the kernel, which ends the process,
  -- or leaves the channel registered and in sync with its new events, and touches no other
  -- descriptor.
  pub change-Settles :
      (ch : Change) (p : Poller E) (c : Channel)
      → InSync p c
      → Settles p c (record (changed ch c) { idx = added }) (change E ch p c)
  unfolding change update_channel changed
  change-Settles enable_reading p c h =
      dispatch-Settles c.idx p (changed enable_reading c) c.events refl h
  change-Settles disable_reading p c h =
      dispatch-Settles c.idx p (changed disable_reading c) c.events refl h
  change-Settles enable_writing p c h =
      dispatch-Settles c.idx p (changed enable_writing c) c.events refl h
  change-Settles disable_writing p c h =
      dispatch-Settles c.idx p (changed disable_writing c) c.events refl h
  change-Settles disable_all p c h =
      dispatch-Settles c.idx p (changed disable_all c) c.events refl h

  -- What `remove_channel` leaves: the channel is new again and in neither the map nor the interest
  -- list, and no other descriptor is touched.
  abbrev pub Removes : Poller E → Channel → Outcome (Poller E × Channel) → Type 0
  Removes p c r =
      (p' : Poller E) × (r ≡ ok (p', record c { idx = new }))
      × InSync p' (record c { idx = new })
      × SameElsewhere c.fd p p'

  erased : Poller E → Channel → E.Kernel → Poller E
  erased p c k = record p { channels = erase c.fd p.channels; kernel = k }

  unregister_lem :
      (i : Index) (p : Poller E) (c : Channel)
      → Agrees p c i
      → (k : E.Kernel) × (unregister E i (erased p c p.kernel) c ≡ ok (erased p c k))
        × (E.interest k c.fd ≡ none)
        × ((j : ℕ) → E.interest k j ≡ (if c.fd == j then E.interest k j else E.interest p.kernel j))
  unfolding unregister erased update
  unregister_lem new p c h = (p.kernel, refl, h.1, λ j. ground arith)
  unregister_lem deleted p c h = absurd h
  unregister_lem added p c h = elim (Option-cases (E.ctl p.kernel del c.fd (c.events, c.addr))) [
    | inl e ↦ absurd (E.del_registered p.kernel c.fd (c.events, c.addr) (c.events, c.addr) h.1 e)
    | inr (k, e) ↦ (
      k,
      rw e,
      ground (arith, E.ctl_del p.kernel k c.fd (c.events, c.addr) e c.fd),
      λ j. ground (arith, E.ctl_del p.kernel k c.fd (c.events, c.addr) e j),
    )
  ]

  -- `remove_channel` never fails on a channel in sync: it leaves the channel new, in neither the map
  -- nor the interest list, and touches no other descriptor.
  pub remove_channel-Removes :
      (p : Poller E) (c : Channel) → InSync p c → Removes p c (remove_channel E p c)
  unfolding remove_channel erased
  remove_channel-Removes p c h =
      let (k, e, gone, same) = unregister_lem c.idx p c h in
      (
        erased p c k,
        rw e,
        (ground (arith, lookup-erase c.fd c.fd p.channels), gone),
        λ j. (ground (arith, lookup-erase j c.fd p.channels), same j),
      )

  SameElsewhere-Agrees :
      (p p' : Poller E) (fd : ℕ) (c : Channel) (i : Index)
      → SameElsewhere fd p p'
      → fd ≢ c.fd
      → Agrees p c i
      → Agrees p' c i
  SameElsewhere-Agrees p p' fd c new same ne h = ground (arith, same c.fd)
  SameElsewhere-Agrees p p' fd c added same ne h = ground (arith, same c.fd)
  SameElsewhere-Agrees p p' fd c deleted same ne h = h

  -- A call that touches one descriptor leaves every channel of another in sync.
  pub SameElsewhere-InSync :
      (p p' : Poller E) (fd : ℕ) (c : Channel)
      → SameElsewhere fd p p'
      → fd ≢ c.fd
      → InSync p c
      → InSync p' c
  SameElsewhere-InSync p p' fd c same ne h = SameElsewhere-Agrees p p' fd c c.idx same ne h
