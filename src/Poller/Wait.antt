-- ===== src/Poller/Wait.antt =====
-- `poll_wait` and `fill_active_channels` of net/poller/epoll_poller.cc.
use moony.Prelude.{
  ℕ, ◌≤◌, ◌<◌, ◌≡◌, refl, sym, ◌∙◌, if◌then◌else◌, ◌==◌, List, [], ◌∷◌, ◌++◌, Option, none, some,
  arith, length, map, append-nil, append_assoc,
}
use moony.Epoll.{Mask, Epoll}
use moony.Channel.{Channel}
use moony.Poller.{Poller, Store, set_revents, fill_active_channels, happened, poll_wait}

-- The events that a batch reports last for the channel at `a`.
abbrev pub reported : ℕ → List (ℕ × Mask) → Option Mask
reported a [] = none
reported a ((b, m) ∷ es) = elim (reported a es) [
  | some m' ↦ some m'
  | none ↦ if b == a then some m else none
]

abbrev pub with_revents : Channel → Option Mask → Channel
with_revents c none = c
with_revents c (some m) = record c { revents = m }

abbrev pub addresses : List (ℕ × Mask) → List ℕ
addresses = map (λ e. e.0)

pub fill_store :
    (es : List (ℕ × Mask)) (s : Store) (active : List ℕ) (a : ℕ)
    → (fill_active_channels es s active).0 a ≡ with_revents (s a) (reported a es)
unfolding fill_active_channels
fill_store [] s active a = refl
fill_store ((b, m) ∷ es) s active a =
    ground (arith, fill_store es (set_revents s b m) (active ++ b ∷ []) a)

pub fill_active :
    (es : List (ℕ × Mask)) (s : Store) (active : List ℕ)
    → (fill_active_channels es s active).1 ≡ active ++ addresses es
unfolding fill_active_channels
fill_active [] s active = sym (append-nil active)
fill_active ((b, m) ∷ es) s active =
    fill_active es (set_revents s b m) (active ++ b ∷ [])
    ∙ append_assoc active (b ∷ []) (addresses es)

-- What a wait that reports the batch `es` leaves: the map and the kernel as they were, the channels of
-- the batch behind the active ones in the order of the batch, each with the events that were reported
-- for it, all else as it was, and an event array that is larger than the batch and no smaller than
-- before.
pub record Waited {E : Epoll} (p : Poller E) (es : List (ℕ × Mask)) (s : Store) (active : List ℕ)
    (r : Poller E × Store × List ℕ) : Type 0 where
  pub channels : r.0.channels ≡ p.channels
  pub kernel : r.0.kernel ≡ p.kernel
  pub active_after : r.2 ≡ active ++ addresses es
  pub store_after : (a : ℕ) → r.1 a ≡ with_revents (s a) (reported a es)
  pub larger : length es < r.0.capacity
  pub grows : p.capacity ≤ r.0.capacity

-- Where `epoll_wait` reports at least one event and no more than the event array holds, `poll_wait`
-- appends the channels of the events to the active ones, in order, gives each channel the last events
-- reported for it and any other its own, keeps the map and the interest list, and leaves an event
-- array larger than the batch and no smaller than before.
pub poll_wait-Waited :
    {E : Epoll} (p : Poller E) (e : ℕ × Mask) (es : List (ℕ × Mask)) (s : Store) (active : List ℕ)
    → length (e ∷ es) ≤ p.capacity
    → Waited p (e ∷ es) s active (poll_wait p (happened e es) s active)
unfolding poll_wait
poll_wait-Waited {E} p e es s active fits = record {
  channels = ground arith;
  kernel = ground arith;
  active_after = fill_active (e ∷ es) s active;
  store_after = fill_store (e ∷ es) s active;
  larger = ground arith;
  grows = ground arith;
}
