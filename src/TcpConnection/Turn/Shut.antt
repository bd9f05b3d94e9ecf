-- ===== src/TcpConnection/Turn/Shut.antt =====
-- What `send_in_loop` of net/tcp_connection/tcp_connection.cc leaves of the writing side.
use moony.Prelude.{
  ℕ, ◌≡◌, refl, ap, ◌∙◌, List, [], ◌∷◌, ◌++◌, Outcome, ok, stop, ◌>>=◌, arith, length, true, false,
  Bool, not, ◌&&◌, if◌then◌else◌, ◌==◌, inl, inr, take, ltb, Bool-cases,
}
use moony.Epoll.{Epoll}
use moony.Channel.{Channel, is_writing, enable_writing}
use moony.Poller.{Poller, change}
use moony.EventLoop.{EventFd}
use moony.Buffer.{Sent, sent, write_error, readable_bytes, append, sub_size}
use moony.TcpConnection.{
  World, written, send_in_loop, int_message, finish_send, first_write, tried, emit, mark, buffered,
  change_channel, with_channel, queue_write_complete, is_disconnected,
}
use moony.TcpConnection.Post.{Post}
use moony.TcpConnection.Attempt.{queue_write_complete_lem, mark_lem}
use moony.TcpConnection.Closing.{shutdowns, shutdowns-append}

-- If the call returns, `P` holds.
abbrev pub Then : {A : Type 0} → (A → Type 0) → Outcome A → Type 0
Then P (ok a) = P a
Then P (stop e) = Unit {0}

Then-bind :
    {A B : Type 0} (P : B → Type 0) (m : Outcome A) (f : A → Outcome B)
    → ((a : A) → Then P (f a))
    → Then P (m >>= f)
Then-bind P (ok a) f h = h a
Then-bind P (stop e) f h = tt

Then-mono :
    {A : Type 0} (P Q : A → Type 0) (m : Outcome A) → Then P m → ((a : A) → P a → Q a) → Then Q m
Then-mono P Q (ok a) h k = k a h
Then-mono P Q (stop e) h k = tt

-- A property of a call, with one that holds if it returns.
pub Post-Then :
    {A : Type 0} (R : Type 0) (P Q : A → Type 0) (m : Outcome A)
    → Post R P m
    → Then Q m
    → Post R (λ a. P a × Q a) m
Post-Then R P Q (ok a) h k = (h, k)
Post-Then R P Q (stop e) h k = h

module _ (E : Epoll) (W : EventFd) where
  -- The writing side was shut as often as before.
  abbrev pub SameShut : World E W → World E W → Type 0
  SameShut w w' = shutdowns w'.events ≡ shutdowns w.events

  completed-SameShut :
      (b : Bool) (w : World E W) → SameShut w (if b then queue_write_complete E W w else w)
  completed-SameShut true w =
      let (l, e, _) = queue_write_complete_lem E W w in ap (λ (v : World E W). shutdowns v.events) e
  completed-SameShut false w = refl

  tried-SameShut :
      (chunk : List ℕ) (answer : Sent) (w : World E W) → SameShut w (tried E W chunk answer w).1
  unfolding tried emit
  tried-SameShut chunk (write_error errno) w = refl
  tried-SameShut chunk (sent n) w =
      completed-SameShut (sub_size (length chunk) n == 0)
        (record w { events = w.events ++ written (take n chunk) ∷ [] })
      ∙ shutdowns-append w.events (written (take n chunk) ∷ [])
      ∙ omega arith

  first_write-SameShut :
      (chunk : List ℕ) (write : List ℕ → Sent) (w : World E W)
      → SameShut w (first_write E W chunk write w).1
  unfolding first_write
  first_write-SameShut chunk write w =
      elim (Bool-cases (not (is_writing w.conn.channel) && readable_bytes w.conn.output == 0)) [
        | inl now ↦ rw now (tried-SameShut chunk (write chunk) w)
        | inr later ↦ rw later refl
      ]

  with_channel-SameShut :
      (w : World E W) (m : Outcome (Poller E × Channel)) → Then (SameShut w) (with_channel E W w m)
  unfolding with_channel
  with_channel-SameShut w (ok (p, c)) = refl
  with_channel-SameShut w (stop e) = tt

  enabled-SameShut :
      (b : Bool) (w : World E W)
      → Then (SameShut w) (if b then ok w else change_channel E W enable_writing w)
  unfolding change_channel
  enabled-SameShut true w = refl
  enabled-SameShut false w =
      with_channel-SameShut w (change E enable_writing w.poller w.conn.channel)

  buffered-SameShut : (left : List ℕ) (w : World E W) → Then (SameShut w) (buffered E W left w)
  unfolding buffered
  buffered-SameShut left w = Then-bind (SameShut w) (append w.conn.output left) _ (λ b.
      enabled-SameShut (is_writing w.conn.channel)
        (record w { conn = record w.conn { output = b } }))

  finished-SameShut :
      (b : Bool) (left : List ℕ) (w : World E W)
      → Then (SameShut w) (if b then buffered E W left (mark E W (length left) w) else ok w)
  finished-SameShut true left w =
      let (l, e, _) = mark_lem E W (length left) w in
      rw e (buffered-SameShut left (record w { loop = l }))
  finished-SameShut false left w = refl

  -- `send_in_loop` does not shut the writing side.
  pub send_in_loop-SameShut :
      (chunk : List ℕ) (write : List ℕ → Sent) (w : World E W)
      → Then (SameShut w) (send_in_loop E W chunk write w)
  unfolding send_in_loop finish_send
  send_in_loop-SameShut chunk write w = elim (Bool-cases (is_disconnected w.conn.state)) [
    | inl down ↦ rw down refl
    | inr up ↦ rw up (
        Then-bind (SameShut w) (int_message chunk) _ (λ c.
          let first = first_write E W c write w in
          Then-mono (SameShut first.1) (SameShut w) _
            (finished-SameShut (not first.2 && ltb 0 (length first.0)) first.0 first.1)
            (λ u same. same ∙ first_write-SameShut c write w)))
  ]
