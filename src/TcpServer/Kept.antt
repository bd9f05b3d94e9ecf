-- ===== src/TcpServer/Kept.antt =====
-- The connections of a server of net/tcp_server/tcp_server.cc among the jobs of its loops: each of the map was,
-- or is to be, established.
use moony.Prelude.{
  ℕ, ◌≡◌, inl, inr, refl, sym, ap, subst, ◌∙◌, Bool, true, not, ◌||◌, ◌==◌, Bool-cases, List, [],
  ◌∷◌, arith, insert, erase,
}
use moony.Prelude.Text.{Text, text_eq, text_beq, text_beq_iff}
use moony.EventLoop.{EventFd}
use moony.TcpServer.{Server, Managed, Job, destroyed_job, remove_job, Site, remove_connection}
use moony.TcpServer.Posted.{Posted}
use moony.TcpServer.Remove.{Drops, remove_connection_cases}
use moony.TcpServer.Ordered.{opened, allowed}
use moony.TcpServer.Jobs.{base_thread, jobs}
use moony.TcpServer.Orderly.{
  Removable, IsOrderly, Grows, post-IsOrderly, queued-IsOrderly, opened_more,
}

-- The removal of a connection that was established is allowed.
pub allowed_destroyed :
    (c : Managed) (xs : List Job)
    → opened c.name xs ≡ true
    → (k : Text) → allowed k (opened k xs) (destroyed_job c) ≡ true
allowed_destroyed c xs h k = elim (Bool-cases (text_beq c.name k)) [
  | inl e ↦ rw (subst (λ n. opened n xs ≡ true) ((text_beq_iff c.name k).0 e) h) refl
  | inr e ↦ ground (arith, e)
]

pub or_true : (b : Bool) → b || true ≡ true
or_true b = ground arith

module _ (W : EventFd) where
  -- The connection was, or is to be, established; and it was, if its loop is the base loop's thread's.
  abbrev pub Kept : Site W → Managed → Type 0
  Kept s c =
      (opened c.name (jobs W s c.loop) ≡ true)
      × (not ((s.loops c.loop).thread_id == base_thread W s) || opened c.name s.ran ≡ true)

  abbrev pub AllKept : Site W → List (Text × Managed) → Type 0
  AllKept s [] = Unit {0}
  AllKept s ((k, c) ∷ cs) = Kept s c × AllKept s cs

  pub AllKept-Grows :
      (s s' : Site W) (cs : List (Text × Managed))
      → Grows W s s'
      → s'.server.base_loop ≡ s.server.base_loop
      → AllKept s cs
      → AllKept s' cs
  AllKept-Grows s s' [] g b h = tt
  AllKept-Grows s s' ((k, c) ∷ cs) g b ((waits, own), h) =
      ((g.jobs c.name c.loop waits, later), AllKept-Grows s s' cs g b h)
    where
      later : not ((s'.loops c.loop).thread_id == base_thread W s') || opened c.name s'.ran ≡ true
      later = ground (
        arith,
        g.ran c.name,
        g.threads c.loop,
        ap (λ a. (s'.loops a).thread_id) b ∙ g.threads s.server.base_loop,
      )

  pub AllKept-insert :
      (s : Site W) (k : Text) (c : Managed) (cs : List (Text × Managed))
      → Kept s c
      → AllKept s cs
      → AllKept s (insert k c cs)
  unfolding insert
  AllKept-insert s k c [] h hs = (h, tt)
  AllKept-insert s k c ((j, d) ∷ cs) h (h', hs) = elim (Bool-cases (text_beq j k)) [
    | inl e ↦ rw e (h, hs)
    | inr e ↦ rw e (h', AllKept-insert s k c cs h hs)
  ]

  AllKept-erase :
      (s : Site W) (k : Text) (cs : List (Text × Managed)) → AllKept s cs → AllKept s (erase k cs)
  unfolding erase
  AllKept-erase s k [] h = tt
  AllKept-erase s k ((j, d) ∷ cs) (h, hs) = elim (Bool-cases (text_beq j k)) [
    | inl e ↦ rw e (AllKept-erase s k cs hs)
    | inr e ↦ rw e (h, AllKept-erase s k cs hs)
  ]

  pub record IsLively (s : Site W) : Type 0 where
    pub orderly : IsOrderly W s
    pub kept : AllKept s s.server.connections

  pub dropped-IsLively :
      (c : Managed) (s s' : Site W)
      → IsLively s
      → opened c.name s.ran ≡ true
      → Drops W c s s'
      → IsLively s'
  dropped-IsLively c s s' h o d =
      let (orderly, g) =
        queued-IsOrderly W c.loop (destroyed_job c) s s' h.orderly
          (record {
            queued = λ k.
                allowed_destroyed c (jobs W s c.loop)
                  (opened_more W c.name s.ran (s.loops c.loop).pending o) k;
            removable = tt;
          })
          d.elsewhere d.threads d.ran d.job in
      record {
        orderly = orderly;
        kept = subst (AllKept s') (sym d.kept) (
            AllKept-erase s' c.name s.server.connections
              (AllKept-Grows s s' s.server.connections g d.base_loop h.kept));
      }

  -- A job other than `connection_destroyed` is posted.
  pub Posted-IsLively :
      (tid a : ℕ) (j : Job) (t s' : Site W)
      → IsLively t
      → ((k : Text) (up : Bool) → allowed k up j ≡ true)
      → Removable W t.ran (j ∷ [])
      → Posted W tid a j t s'
      → IsLively s'
  Posted-IsLively tid a j t s' h free r p =
      let (orderly, g) =
        post-IsOrderly W tid a j t s' h.orderly (record { queued = λ k. free k _; removable = r })
          (λ _ k. free k _) p in
      record {
        orderly = orderly;
        kept =
            subst (λ (v : Server). AllKept s' v.connections) (sym p.server)
              (AllKept-Grows t s' t.server.connections g (ap (λ (v : Server). v.base_loop) p.server)
                h.kept);
      }

  pub closes-IsLively :
      (c : Managed) (tid : ℕ) (s : Site W)
      → IsLively s
      → opened c.name s.ran ≡ true
      → IsLively (remove_connection W tid c s)
  closes-IsLively c tid s h o = elim (remove_connection_cases W tid c s) [
    | inl (_, d) ↦ dropped-IsLively c s _ h o d
    | inr (_, p, _) ↦
        Posted-IsLively tid s.server.base_loop (remove_job c) s _ h (λ k up. refl) (o, tt) p
  ]

  -- The invariant looks at no more of the server than its base loop and its map.
  pub relabelled-IsLively :
      (s : Site W) (v : Server) (inits : List ℕ)
      → v.base_loop ≡ s.server.base_loop
      → AllKept s v.connections
      → IsOrderly W s
      → IsLively (record s { server = v; inits = inits })
  relabelled-IsLively s v inits b k h = record {
    orderly = record { order = h.order; removable = h.removable };
    kept =
        AllKept-Grows s (record s { server = v; inits = inits }) v.connections
          (record { ran = λ k e. e; jobs = λ k a e. e; threads = λ a. refl }) b k;
  }
