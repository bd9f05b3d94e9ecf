-- ===== src/EventLoop/Round.antt =====
-- One round of `loop` of net/event_loop/event_loop.cc as far as its channels are concerned: `poll_wait`, and the
-- `handle_event` of each active channel. The callbacks are noted with their channel, in order: which are
-- called in a round is settled by the channels as `poll_wait` leaves them, as no callback of the program's touches
-- `revents_` or sets a callback of a channel, and a connection's end is queued, so that none is destroyed in
-- the round. What they do to the loop and the connections is in System and in TcpConnection.
use moony.Prelude.{
  ℕ, ◌≡◌, refl, ◌&&◌, ap, ap₂, ◌∙◌, Bool, List, [], ◌∷◌, ◌++◌, map, none, some, arith,
}
use moony.Epoll.{Epoll, Mask}
use moony.Channel.{
  Callback, close_callback, error_callback, read_callback, write_callback, handle_event,
}
use moony.Channel.Dispatch.{due, permitted, filter, handle_event-eq-filter}
use moony.Poller.{
  Poller, Store, fill_active_channels, Polled, happened, timed_out, poll_error, poll_wait,
}
use moony.Poller.Wait.{reported, with_revents, addresses, fill_store, fill_active}

-- The `for` over `active_channels_`.
pub call_active : (ℕ → Bool) → Store → List ℕ → List (ℕ × Callback)
call_active alive s [] = []
call_active alive s (a ∷ rest) =
    map (λ cb. (a, cb)) (handle_event alive (s a)) ++ call_active alive s rest

-- The poller, the channels, `active_channels_`, and the callbacks so far.
pub record Polling (E : Epoll) : Type 0 where
  pub poller : Poller E
  pub store : Store
  pub active : List ℕ
  pub called : List (ℕ × Callback)

-- One round of the `while`, up to `do_pending_functions`, with what `epoll_wait` returns.
pub round : {E : Epoll} → (ℕ → Bool) → Polled → Polling E → Polling E
unfolding call_active
round alive polled q =
    let (p, s, active) = poll_wait q.poller polled q.store [] in
    record {
      poller = p;
      store = s;
      active = active;
      called = q.called ++ call_active alive s active;
    }

-- The callbacks due for a channel with the events `m`.
abbrev pub due_calls : (ℕ → Bool) → Store → ℕ → Mask → List (ℕ × Callback)
due_calls alive s a m =
    let c = record (s a) { revents = m } in
    map (λ cb. (a, cb))
      (filter (λ cb. permitted alive c && due c cb)
        (close_callback ∷ error_callback ∷ read_callback ∷ write_callback ∷ []))

abbrev pub batch_calls : (ℕ → Bool) → Store → List (ℕ × Mask) → List (ℕ × Callback)
batch_calls alive s [] = []
batch_calls alive s ((a, m) ∷ es) = due_calls alive s a m ++ batch_calls alive s es

-- The callbacks of a round that `epoll_wait` begins with this.
abbrev pub round_calls : (ℕ → Bool) → Store → Polled → List (ℕ × Callback)
round_calls alive s (happened e es) = batch_calls alive s (e ∷ es)
round_calls alive s timed_out = []
round_calls alive s (poll_error errno) = []

-- A batch names no channel twice, as `epoll_wait` reports a descriptor once.
abbrev pub IsDistinct : List (ℕ × Mask) → Type 0
IsDistinct [] = Unit {0}
IsDistinct ((a, m) ∷ es) = (reported a es ≡ none) × IsDistinct es

abbrev pub AreDistinct : Polled → Type 0
AreDistinct (happened e es) = IsDistinct (e ∷ es)
AreDistinct timed_out = Unit {0}
AreDistinct (poll_error errno) = Unit {0}

first_report :
    (a : ℕ) (m : Mask) (es : List (ℕ × Mask))
    → reported a es ≡ none
    → reported a ((a, m) ∷ es) ≡ some m
first_report a m es e = ground (arith, e)

later_report :
    (a : ℕ) (m : Mask) (es : List (ℕ × Mask)) (b : ℕ) (m' : Mask)
    → reported b es ≡ some m'
    → reported b ((a, m) ∷ es) ≡ some m'
later_report a m es b m' e = rw e refl

call_active-map :
    (alive : ℕ → Bool) (s s' : Store) (es : List (ℕ × Mask))
    → ((a : ℕ) (m : Mask) → reported a es ≡ some m → s' a ≡ record (s a) { revents = m })
    → IsDistinct es
    → call_active alive s' (addresses es) ≡ batch_calls alive s es
unfolding call_active
call_active-map alive s s' [] h d = refl
call_active-map alive s s' ((a, m) ∷ es) h (new, d) =
    ap₂ (λ xs ys. xs ++ ys)
      (ap (λ c. map (λ cb. (a, cb)) (handle_event alive c)) (h a m (first_report a m es new))
        ∙ ap (map (λ cb. (a, cb))) (handle_event-eq-filter alive (record (s a) { revents = m })))
      (call_active-map alive s s' es (λ b m' e. h b m' (later_report a m es b m' e)) d)

-- One round of the loop up to its functors, whatever was active before, on channels whose owners live
-- or not throughout: for each event that `epoll_wait` reports, in order, the callbacks of its channel
-- that are due by the events of this report are called, once each, in the order close, error, read,
-- write, if the channel may call back; no event of an earlier round is served again, and a timeout
-- or an error calls none. The batch is to name no channel twice.
pub round_lem :
    {E : Epoll} (alive : ℕ → Bool) (polled : Polled) (q : Polling E)
    → AreDistinct polled
    → (round alive polled q).called ≡ q.called ++ round_calls alive q.store polled
unfolding round poll_wait call_active
round_lem alive (happened e es) q d =
    let s' = (fill_active_channels (e ∷ es) q.store []).0 in
    ap (λ l. q.called ++ l)
      (ap (call_active alive s') (fill_active (e ∷ es) q.store [])
        ∙ call_active-map alive q.store s' (e ∷ es)
            (λ a m r. fill_store (e ∷ es) q.store [] a ∙ ap (with_revents (q.store a)) r) d)
round_lem alive timed_out q d = refl
round_lem alive (poll_error errno) q d = refl
