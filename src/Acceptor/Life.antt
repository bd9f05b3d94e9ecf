-- ===== src/Acceptor/Life.antt =====
-- An acceptor of net/acceptor/acceptor.cc from its constructor to its destructor.
use moony.Prelude.{
  ◌≡◌, ◌⊎◌, inl, inr, refl, ◌∙◌, ℕ, Bool, true, false, if◌then◌else◌, none, some, Outcome, ok, stop,
  exit_process, ◌>>=◌, lookup, arith, nat_eq, Post,
}
use moony.Epoll.{Epoll}
use moony.Channel.{Channel, changed, is_reading, enable_reading, added}
use moony.Channel
use moony.Poller.{Poller}
use moony.Poller.Sync.{InSync, change-Settles, SameElsewhere, Refuses}
use moony.Poller.Retire.{retire_lem, SameView}
use moony.InetAddress.{InetAddress}
use moony.Socket.{Sockets, set_reuse_addr, set_reuse_port, so_reuseaddr, so_reuseport}
use moony.Socket.Answers.{bind_address_cases, listen_cases}
use moony.Acceptor.{Acceptor, create_non_blocking_socket, create, listen, destroy}

-- The acceptor that the constructor makes.
abbrev pub new : ℕ → ℕ → Acceptor
new addr fd = record {
  channel = record (Channel.create addr fd) { read_set = true };
  callback_set = false;
  listenning = false;
}

module _ (S : Sockets) where
  -- The constructor makes a new acceptor, or the kernel refuses to bind its address and the process ends.
  pub create-new :
      (addr : ℕ) (listen_addr : InetAddress) (reuseport : Bool) (fd : ℕ) (k : S.Kernel)
      → Post
          ((k' : S.Kernel) × (S.bind fd listen_addr k' ≡ none))
          (λ r. r.0 ≡ new addr fd)
          (create S addr listen_addr reuseport (some (fd, k)))
  unfolding create create_non_blocking_socket
  create-new addr listen_addr reuseport fd k =
      elim (bind_address_cases S fd listen_addr
        (set_reuse_port S fd true (set_reuse_addr S fd true k))) [
          | inr (r, e) ↦ rw e (refl, (_, r))
          | inl (k', e, _) ↦ rw e refl
        ]

module _ (S : Sockets) (E : Epoll) where
  -- An acceptor for the descriptor `fd` is built, made to listen if `starts`, and destroyed.
  pub live : Bool → Bool → InetAddress → ℕ → ℕ → S.Kernel → Poller E → Outcome (Poller E)
  live starts reuseport listen_addr addr fd k p = do
    (a, k') ← create S addr listen_addr reuseport (some (fd, k))
    (k'', p', a') ← if starts then listen S E k' p a else ok (k', p, a)
    destroy E p' a'

  -- The process has ended through `exit`, or the poller is as it was before.
  abbrev pub Tidy : Poller E → Outcome (Poller E) → Type 0
  Tidy p (ok p') = SameView E p p'
  Tidy p (stop e) = e ≡ exit_process

  destroy-Tidy :
      (p q : Poller E) (a : Acceptor)
      → InSync E q a.channel
      → SameElsewhere E a.channel.fd p q
      → lookup a.channel.fd p.channels ≡ none
      → E.interest p.kernel a.channel.fd ≡ none
      → Tidy p (destroy E q a)
  unfolding destroy changed
  destroy-Tidy p q a sync same unmapped unwatched = elim (retire_lem E q a.channel sync) [
    | inl (e, _) ↦ rw e refl
    | inr (p', e, gone, same') ↦
        rw e (λ j. ground (arith, same j, same' j, gone, unmapped, unwatched))
  ]

  -- A new acceptor, made to listen and destroyed.
  listened : ℕ → ℕ → S.Kernel → Poller E → Outcome (Poller E)
  listened addr fd k p = listen S E k p (new addr fd) >>= λ (k', p', a'). destroy E p' a'

  listened-Tidy :
      (addr fd : ℕ) (k : S.Kernel) (p : Poller E)
      → lookup fd p.channels ≡ none
      → E.interest p.kernel fd ≡ none
      → Tidy p (listened addr fd k p)
  unfolding listened listen Channel.create changed
  listened-Tidy addr fd k p h u = elim (listen_cases S fd k) [
    | inr (_, e) ↦ rw e refl
    | inl (k', e) ↦ rw e (elim (change-Settles E enable_reading p (new addr fd).channel (h, u)) [
      | inl (f, _) ↦ rw f refl
      | inr (q, f, sync, same) ↦ rw f (destroy-Tidy p q _ sync same h u)
    ])
  ]

  unlistened-Tidy :
      (addr fd : ℕ) (p : Poller E)
      → lookup fd p.channels ≡ none
      → E.interest p.kernel fd ≡ none
      → Tidy p (destroy E p (new addr fd))
  unfolding Channel.create
  unlistened-Tidy addr fd p h u = destroy-Tidy p p (new addr fd) (h, u) (λ j. ground arith) h u

  -- A descriptor that the poller does not know listens after `listen`, and the poller watches it for reading,
  -- or the kernel refuses one of the two and the process ends.
  pub record Listens (p : Poller E) (a : Acceptor) (r : S.Kernel × Poller E × Acceptor)
      : Type 0 where
    pub accepting : InSync E r.1 r.2.channel
    pub watched : is_reading r.2.channel ≡ true
    pub descriptor : r.2.channel.fd ≡ a.channel.fd
    pub listenning : r.2.listenning ≡ true
    pub callback : r.2.callback_set ≡ a.callback_set
    pub elsewhere : SameElsewhere E a.channel.fd p r.1

  is_reading-enabled : (c : Channel) → is_reading (changed enable_reading c) ≡ true
  unfolding changed is_reading
  is_reading-enabled c = ground arith

  pub listen-Listens :
      (k : S.Kernel) (p : Poller E) (a : Acceptor)
      → InSync E p a.channel
      → Post
          ((S.listen a.channel.fd 1024 k ≡ none) ⊎ Refuses E p a.channel)
          (Listens p a)
          (listen S E k p a)
  unfolding listen changed is_reading
  listen-Listens k p a h = elim (listen_cases S a.channel.fd k) [
    | inr (r, e) ↦ rw e (refl, inl r)
    | inl (k', e) ↦ rw e (elim (change-Settles E enable_reading p a.channel h) [
      | inl (f, r) ↦ rw f (refl, inr r)
      | inr (q, f, sync, same) ↦ rw f (record {
        accepting = sync;
        watched = is_reading-enabled a.channel;
        descriptor = refl;
        listenning = refl;
        callback = refl;
        elsewhere = same;
      })
    ])
  ]

  -- An acceptor whose descriptor the poller does not know, whether it was made to listen or not, is
  -- destroyed without a trace in the poller's map and the interest list: every descriptor is there
  -- as it was before the constructor, or the process has ended through `exit`.
  pub live-Tidy :
      (starts reuseport : Bool) (listen_addr : InetAddress) (addr fd : ℕ) (k : S.Kernel)
      (p : Poller E)
      → lookup fd p.channels ≡ none
      → E.interest p.kernel fd ≡ none
      → Tidy p (live starts reuseport listen_addr addr fd k p)
  unfolding live create create_non_blocking_socket listened
  live-Tidy starts reuseport listen_addr addr fd k p h u =
      elim (bind_address_cases S fd listen_addr
        (set_reuse_port S fd true (set_reuse_addr S fd true k))) [
          | inr (_, e) ↦ rw e refl
          | inl (k', e, _) ↦ rw e (tidy starts k')
        ]
    where
      tidy :
          (starts : Bool) (k' : S.Kernel)
          → Tidy p (
              (if starts then listen S E k' p (new addr fd) else ok (k', p, new addr fd))
              >>= λ (k'', p', a'). destroy E p' a')
      tidy true k' = listened-Tidy addr fd k' p h u
      tidy false k' = unlistened-Tidy addr fd p h u

-- The constructor with an open descriptor ends the process through `exit`, or the acceptor that it makes
-- does not listen, has no callback and is in no poller, and its socket has SO_REUSEADDR and
-- SO_REUSEPORT, whatever `reuseport` says.
pub create_lem :
    (S : Sockets) (addr fd : ℕ) (listen_addr : InetAddress) (reuseport : Bool) (k : S.Kernel)
    → S.is_open k fd ≡ true
    → ((k' : S.Kernel) × (create S addr listen_addr reuseport (some (fd, k))
          ≡ ok (
            record {
              channel = record (Channel.create addr fd) { read_set = true };
              callback_set = false;
              listenning = false;
            },
            k',
          ))
        × (S.option k' fd so_reuseaddr ≡ true)
        × (S.option k' fd so_reuseport ≡ true))
      ⊎ (create S addr listen_addr reuseport (some (fd, k)) ≡ stop exit_process)
unfolding create create_non_blocking_socket set_reuse_port set_reuse_addr
create_lem S addr fd listen_addr reuseport k opened =
    let reused = S.setsockopt fd so_reuseaddr true k in
    let shared = S.setsockopt fd so_reuseport true reused in
    let still_open = S.is_open-setsockopt k fd fd so_reuseaddr true ∙ opened in
    elim (bind_address_cases S fd listen_addr shared) [
      | inr (_, e) ↦ inr (rw e refl)
      | inl (k', e, same) ↦ inl (
        k',
        rw e refl,
        ground (
          arith,
          same fd so_reuseaddr,
          S.option-setsockopt reused fd fd so_reuseport so_reuseaddr true still_open,
          S.option-setsockopt k fd fd so_reuseaddr so_reuseaddr true opened,
        ),
        ground (
          arith,
          same fd so_reuseport,
          S.option-setsockopt reused fd fd so_reuseport so_reuseport true still_open,
        ),
      )
    ]
