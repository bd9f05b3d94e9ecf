-- ===== src/Poller/Interest.antt =====
-- Many channels on one poller: any sequence of their calls.
use moony.Prelude.{
  ℕ, ◌≡◌, refl, ◌∙◌, if◌then◌else◌, ◌==◌, List, [], ◌∷◌, Outcome, ok, stop, exit_process, ◌>>=◌,
  inl, inr, arith, Bool-cases,
}
use moony.Epoll.{Epoll}
use moony.Channel.{
  Channel, new, added, Change, changed, enable_reading, disable_reading, enable_writing,
  disable_writing, disable_all,
}
use moony.Poller.{Poller, Store, change, remove_channel}
use moony.Poller.Sync.{
  InSync, change-Settles, remove_channel-Removes, SameElsewhere, SameElsewhere-InSync,
}

-- A call through the channel at an address.
pub data Call : Type 0 where
  changes : Change → ℕ → Call
  removes : ℕ → Call

-- The object at `a` after a call that hands it back as `c`.
abbrev pub put_channel : Store → ℕ → Channel → Store
put_channel s a c j = if a == j then c else s j

module _ (E : Epoll) where
  -- The poller of a loop and the channel objects of the loop.
  pub record Registry : Type 0 where
    pub poller : Poller E
    pub store : Store

  stored : Store → ℕ → Outcome (Poller E × Channel) → Outcome Registry
  stored s a (ok (p, c)) = ok (record { poller = p; store = put_channel s a c })
  stored s a (stop e) = stop e

  pub step : Registry → Call → Outcome Registry
  step r (changes ch a) = stored r.store a (change E ch r.poller (r.store a))
  step r (removes a) = stored r.store a (remove_channel E r.poller (r.store a))

  pub run : Registry → List Call → Outcome Registry
  run r [] = ok r
  run r (c ∷ cs) = step r c >>= λ r'. run r' cs

  -- Each object knows its address, no two share a descriptor, and all are in sync.
  pub record IsCoherent (r : Registry) : Type 0 where
    pub addressed : (a : ℕ) → (r.store a).addr ≡ a
    pub distinct : (a b : ℕ) → (r.store a).fd ≡ (r.store b).fd → a ≡ b
    pub synced : (a : ℕ) → InSync E r.poller (r.store a)

  -- The calls return a coherent registry, or the process ended through `exit`.
  abbrev pub Coherent : Outcome Registry → Type 0
  Coherent (ok r) = IsCoherent r
  Coherent (stop e) = e ≡ exit_process

  module _ (r : Registry) (h : IsCoherent r) (a : ℕ) (c : Channel) (p : Poller E) where
    put-IsCoherent :
        c.addr ≡ a
        → c.fd ≡ (r.store a).fd
        → InSync E p c
        → SameElsewhere E (r.store a).fd r.poller p
        → IsCoherent (record { poller = p; store = put_channel r.store a c })
    put-IsCoherent at fd sync same = record {
      addressed = λ j. ground (arith, h.addressed j);
      distinct = λ i j. ground (arith, h.distinct i j, h.distinct a j, h.distinct i a);
      synced = λ j. elim (Bool-cases (a == j)) [
        | inl e ↦ rw e sync
        | inr e ↦ rw e (
            SameElsewhere-InSync E r.poller p (r.store a).fd (r.store j) same
              (λ q. ground (arith, h.distinct a j q)) (h.synced j))
      ];
    }

  fd-changed :
      (ch : Change) (c : Channel) → ((changed ch c).fd ≡ c.fd) × ((changed ch c).addr ≡ c.addr)
  unfolding changed
  fd-changed enable_reading c = (refl, refl)
  fd-changed disable_reading c = (refl, refl)
  fd-changed enable_writing c = (refl, refl)
  fd-changed disable_writing c = (refl, refl)
  fd-changed disable_all c = (refl, refl)

  step-Coherent : (r : Registry) (call : Call) → IsCoherent r → Coherent (step r call)
  unfolding step stored
  step-Coherent r (changes ch a) h = elim (change-Settles E ch r.poller (r.store a) (h.synced a)) [
    | inl (e, _) ↦ rw (e, stored) refl
    | inr (p, e, sync, same) ↦
        rw (e, stored)
          (put-IsCoherent r h a (record (changed ch (r.store a)) { idx = added }) p
            ((fd-changed ch (r.store a)).1 ∙ h.addressed a) (fd-changed ch (r.store a)).0 sync same)
  ]
  step-Coherent r (removes a) h =
      let (p, e, sync, same) = remove_channel-Removes E r.poller (r.store a) (h.synced a) in
      rw (e, stored)
        (put-IsCoherent r h a (record (r.store a) { idx = new }) p (h.addressed a) refl sync same)

  run-bind :
      (cs : List Call) (o : Outcome Registry)
      → Coherent o
      → ((r : Registry) → IsCoherent r → Coherent (run r cs))
      → Coherent (o >>= λ r. run r cs)
  run-bind cs (ok r) h ih = ih r h
  run-bind cs (stop e) h ih = h

  -- After any sequence of calls through channels of distinct descriptors, either the process
  -- ended through `exit`, or every channel, the poller's map and the interest list agree, and no
  -- channel is marked as deleted.
  pub run-Coherent : (cs : List Call) (r : Registry) → IsCoherent r → Coherent (run r cs)
  unfolding run
  run-Coherent [] r h = h
  run-Coherent (c ∷ cs) r h = run-bind cs (step r c) (step-Coherent r c h) (run-Coherent cs)
