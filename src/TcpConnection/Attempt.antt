-- ===== src/TcpConnection/Attempt.antt =====
-- The write that `send_in_loop` of net/tcp_connection/tcp_connection.cc tries at once.
use moony.Prelude.{
  ℕ, ◌≤◌, ◌≡◌, ◌⊎◌, inl, inr, refl, sym, Bool, true, false, not, ◌&&◌, ◌||◌, if◌then◌else◌, ltb,
  leb, ◌==◌, List, [], ◌∷◌, ◌++◌, arith, length, take, drop, append-nil, append_assoc,
  take-append-drop, Bool-cases, length-drop,
}
use moony.Epoll.{Epoll}
use moony.Channel.{is_writing}
use moony.EventLoop.{EventFd, Loop, queue_in_loop}
use moony.Buffer.{Sent, sent, write_error, readable_bytes, add_size, sub_size}
use moony.Buffer.Room.{contents, length-contents}
use moony.TcpConnection.{
  World, Event, Task, write_complete, high_water, written, epipe, econnreset, ewouldblock,
  first_write, tried, mark, emit, queue, queue_write_complete,
}
use moony.TcpConnection.Sound.{delivered, delivered-append, IsSound, stream}
use moony.TcpConnection.Queued.{SameWork, SameWork-refl, queue_in_loop-SameWork}

-- The answers after which `send_in_loop` gives up: EPIPE and ECONNRESET.
abbrev pub IsBroken : Sent → Type 0
IsBroken answer = (answer ≡ write_error epipe) ⊎ (answer ≡ write_error econnreset)

pub no_bytes : (xs : List ℕ) → length xs ≡ 0 → xs ≡ []
no_bytes [] e = refl
no_bytes (x ∷ xs) e = absurd (omega arith)

module _ (E : Epoll) (W : EventFd) where
  -- `w` with another queue and another history.
  abbrev pub aside : World E W → Loop W Task → List Event → World E W
  aside w l es = record w { loop = l; events = es }

  pub aside-IsSound :
      (w : World E W) (l : Loop W Task) (es : List Event)
      → IsSound E W w
      → IsSound E W (aside w l es)
  aside-IsSound w l es s = record {
    connection_set = s.connection_set;
    message_set = s.message_set;
    close_set = s.close_set;
    input = s.input;
    output = s.output;
    sync = s.sync;
  }

  -- What the first write of a chunk leaves to do: either what is left completes the stream, or the
  -- connection is broken and nothing has happened.
  pub record Attempt (chunk : List ℕ) (answer : Sent) (w : World E W)
      (r : List ℕ × World E W × Bool) : Type 0 where
    pub left : List ℕ
    pub loop : Loop W Task
    pub history : List Event
    pub fault : Bool
    pub result : r ≡ (left, aside w loop history, fault)
    pub short : length left ≤ length chunk
    pub work : SameWork W w.loop loop
    pub streamed :
        ((fault ≡ false)
          × (delivered history ++ (contents w.conn.output ++ left) ≡ stream E W w ++ chunk))
        ⊎ ((fault ≡ true) × (aside w loop history ≡ w) × IsBroken answer)

  later_Attempt :
      (chunk : List ℕ) (answer : Sent) (w : World E W) → Attempt chunk answer w (chunk, w, false)
  later_Attempt chunk answer w = record {
    left = chunk;
    loop = w.loop;
    history = w.events;
    fault = false;
    result = refl;
    short = omega arith;
    work = SameWork-refl W w.loop;
    streamed = inl (refl, sym (append_assoc (delivered w.events) (contents w.conn.output) chunk));
  }

  tried_error :
      (chunk : List ℕ) (errno : ℕ) (w : World E W)
      → Attempt chunk (write_error errno) w (tried E W chunk (write_error errno) w)
  unfolding tried
  tried_error chunk errno w = record {
    left = chunk;
    loop = w.loop;
    history = w.events;
    fault = not (errno == ewouldblock) && (errno == epipe || errno == econnreset);
    result = refl;
    short = omega arith;
    work = SameWork-refl W w.loop;
    streamed = ground (arith, append_assoc (delivered w.events) (contents w.conn.output) chunk);
  }

  -- `queue_write_complete` and `mark` touch nothing but the queue.
  pub queue_write_complete_lem :
      (w : World E W)
      → (l : Loop W Task) × (queue_write_complete E W w ≡ record w { loop = l })
        × SameWork W w.loop l
  unfolding queue_write_complete queue
  queue_write_complete_lem w = elim (Bool-cases w.conn.write_complete_set) [
    | inl e ↦ (
      queue_in_loop W Task w.loop w.loop.thread_id write_complete,
      rw e,
      queue_in_loop-SameWork W w.loop write_complete (λ M. refl),
    )
    | inr e ↦ (w.loop, rw e, SameWork-refl W w.loop)
  ]

  pub mark_lem :
      (n : ℕ) (w : World E W)
      → (l : Loop W Task) × (mark E W n w ≡ record w { loop = l }) × SameWork W w.loop l
  unfolding mark queue
  mark_lem n w =
      choose
        (leb w.conn.high_water_mark (add_size (readable_bytes w.conn.output) n)
          && (ltb (readable_bytes w.conn.output) w.conn.high_water_mark && w.conn.high_water_set))
        _ (queue_in_loop-SameWork W w.loop (high_water _) (λ M. refl))
    where
      choose :
          (b : Bool) (l : Loop W Task)
          → SameWork W w.loop l
          → (l' : Loop W Task) × ((if b then record w { loop = l } else w) ≡ record w { loop = l' })
            × SameWork W w.loop l'
      choose true l t = (l, refl, t)
      choose false l t = (w.loop, refl, SameWork-refl W w.loop)

  completed_lem :
      (b : Bool) (w : World E W)
      → (l : Loop W Task) × ((if b then queue_write_complete E W w else w) ≡ record w { loop = l })
        × SameWork W w.loop l
  completed_lem true w = queue_write_complete_lem w
  completed_lem false w = (w.loop, refl, SameWork-refl W w.loop)

  tried_sent :
      (chunk : List ℕ) (n : ℕ) (w : World E W)
      → contents w.conn.output ≡ []
      → Attempt chunk (sent n) w (tried E W chunk (sent n) w)
  unfolding tried emit
  tried_sent chunk n w none_left =
      let (l, e, t) =
        completed_lem (sub_size (length chunk) n == 0)
          (record w { events = w.events ++ written (take n chunk) ∷ [] }) in
      rw e (record {
        left = drop n chunk;
        loop = l;
        history = w.events ++ written (take n chunk) ∷ [];
        fault = false;
        result = refl;
        short = omega (arith, length-drop n chunk);
        work = t;
        streamed = inl (refl, joined);
      })
    where
      joined :
          delivered (w.events ++ written (take n chunk) ∷ [])
            ++ (contents w.conn.output ++ drop n chunk)
          ≡ stream E W w ++ chunk
      joined =
          rw (none_left, delivered-append w.events (written (take n chunk) ∷ []))
            (simp (append-nil, append_assoc, take-append-drop))

  pub first_write-Attempt :
      (chunk : List ℕ) (write : List ℕ → Sent) (w : World E W)
      → IsSound E W w
      → Attempt chunk (write chunk) w (first_write E W chunk write w)
  unfolding first_write
  first_write-Attempt chunk write w s =
      elim (Bool-cases (not (is_writing w.conn.channel) && readable_bytes w.conn.output == 0)) [
        | inl now ↦ rw now (answered (write chunk) (empty now))
        | inr later ↦ rw later (later_Attempt chunk (write chunk) w)
      ]
    where
      empty :
          not (is_writing w.conn.channel) && readable_bytes w.conn.output == 0 ≡ true
          → contents w.conn.output ≡ []
      empty now =
          no_bytes (contents w.conn.output) (ground (arith, length-contents w.conn.output s.output))

      answered :
          (answer : Sent)
          → contents w.conn.output ≡ []
          → Attempt chunk answer w (tried E W chunk answer w)
      answered (sent n) e = tried_sent chunk n w e
      answered (write_error errno) e = tried_error chunk errno w
