-- ===== src/TcpConnection/Queued.antt =====
-- The sends of net/tcp_connection/tcp_connection.cc that wait in a connection's loop.
use moony.Prelude.{ℕ, ◌≡◌, refl, sym, ap, ◌∙◌, List, [], ◌∷◌, ◌++◌, append-nil, append_assoc}
use moony.EventLoop.{EventFd, Loop, queue_in_loop}
use moony.EventLoop.Wakeup.{thread_id-queue_in_loop, pending-queue_in_loop}
use moony.TcpConnection.{Task, send_in_loop_task}

-- The characters at an address, so many of them.
abbrev pub Strings : Type 0
Strings = ℕ → ℕ → List ℕ

-- The bytes of those sends, in order.
abbrev pub queued_bytes : Strings → List Task → List ℕ
queued_bytes M [] = []
queued_bytes M (send_in_loop_task a n ∷ ts) = M a n ++ queued_bytes M ts
queued_bytes M (_ ∷ ts) = queued_bytes M ts

pub queued_bytes-append :
    (M : Strings) (ts us : List Task)
    → queued_bytes M (ts ++ us) ≡ queued_bytes M ts ++ queued_bytes M us
queued_bytes-append M [] us = refl
queued_bytes-append M (send_in_loop_task a n ∷ ts) us =
    ap (λ l. M a n ++ l) (queued_bytes-append M ts us)
    ∙ sym (append_assoc (M a n) (queued_bytes M ts) (queued_bytes M us))
queued_bytes-append M (Task.write_complete ∷ ts) us = queued_bytes-append M ts us
queued_bytes-append M (Task.high_water n ∷ ts) us = queued_bytes-append M ts us
queued_bytes-append M (Task.shutdown_in_loop_task ∷ ts) us = queued_bytes-append M ts us

module _ (W : EventFd) where
  -- The loop is in its thread, and the same bytes wait in it, whatever the strings are.
  pub record SameWork (l l' : Loop W Task) : Type 0 where
    pub thread : l'.thread_id ≡ l.thread_id
    pub queued : (M : Strings) → queued_bytes M l'.pending ≡ queued_bytes M l.pending

  pub SameWork-refl : (l : Loop W Task) → SameWork l l
  SameWork-refl l = record { thread = refl; queued = λ M. refl }

  pub SameWork-trans : (l m n : Loop W Task) → SameWork l m → SameWork m n → SameWork l n
  SameWork-trans l m n h k = record {
    thread = k.thread ∙ h.thread;
    queued = λ M. k.queued M ∙ h.queued M;
  }

  -- A task of the loop's own thread that sends nothing.
  pub queue_in_loop-SameWork :
      (l : Loop W Task) (t : Task)
      → ((M : Strings) → queued_bytes M (t ∷ []) ≡ [])
      → SameWork l (queue_in_loop W Task l l.thread_id t)
  queue_in_loop-SameWork l t none = record {
    thread = thread_id-queue_in_loop W Task l l.thread_id t;
    queued = λ M.
        ap (queued_bytes M) (pending-queue_in_loop W Task l l.thread_id t)
        ∙ queued_bytes-append M l.pending (t ∷ [])
        ∙ ap (λ b. queued_bytes M l.pending ++ b) (none M)
        ∙ append-nil (queued_bytes M l.pending);
  }
