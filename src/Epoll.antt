-- ===== src/Epoll.antt =====
-- What net/channel and net/poller use of sys/epoll.h: event masks and the interest list of an
-- epoll instance. The header is not part of the repository: a mask is the set of the event bits
-- that the code tests, and the interest list is a parameter with the behaviour that epoll_ctl(2)
-- documents.
pub mod Table
use moony.Prelude.{
  ℕ, ◌≡◌, ◌≢◌, Bool, true, false, not, ◌&&◌, ◌||◌, Option, none, some, if◌then◌else◌, ◌==◌,
}

-- EPOLLIN, EPOLLPRI, EPOLLOUT, EPOLLERR and EPOLLHUP.
pub record Mask : Type 0 where
  pub epollin : Bool
  pub epollpri : Bool
  pub epollout : Bool
  pub epollerr : Bool
  pub epollhup : Bool

abbrev pub none_set : Mask
none_set = record {
  epollin = false;
  epollpri = false;
  epollout = false;
  epollerr = false;
  epollhup = false;
}

-- `a | b`
abbrev pub mask_or : Mask → Mask → Mask
mask_or a b = record {
  epollin = a.epollin || b.epollin;
  epollpri = a.epollpri || b.epollpri;
  epollout = a.epollout || b.epollout;
  epollerr = a.epollerr || b.epollerr;
  epollhup = a.epollhup || b.epollhup;
}

-- `a & b`
abbrev pub mask_and : Mask → Mask → Mask
mask_and a b = record {
  epollin = a.epollin && b.epollin;
  epollpri = a.epollpri && b.epollpri;
  epollout = a.epollout && b.epollout;
  epollerr = a.epollerr && b.epollerr;
  epollhup = a.epollhup && b.epollhup;
}

-- `a & ~b`
abbrev pub mask_clear : Mask → Mask → Mask
mask_clear a b = record {
  epollin = a.epollin && not b.epollin;
  epollpri = a.epollpri && not b.epollpri;
  epollout = a.epollout && not b.epollout;
  epollerr = a.epollerr && not b.epollerr;
  epollhup = a.epollhup && not b.epollhup;
}

-- A mask as a condition: is any bit set?
abbrev pub is_set : Mask → Bool
is_set a = a.epollin || a.epollpri || a.epollout || a.epollerr || a.epollhup

-- EPOLL_CTL_ADD, EPOLL_CTL_MOD and EPOLL_CTL_DEL.
pub data Op : Type 0 where
  add mod_op del : Op

-- `struct epoll_event` as the code fills it: the events and the address of the channel.
abbrev pub Entry : Type 0
Entry = Mask × ℕ

-- An epoll instance. `ctl` is `none` where `epoll_ctl` returns -1; the interest list is then as
-- before. The laws are those of the manual page: a change concerns the one descriptor, EEXIST
-- refuses a second ADD, ENOENT a MOD or DEL of what is not there, and the DEL of a registered
-- descriptor succeeds.
pub record Epoll : Type 1 where
  pub Kernel : Type 0
  pub interest : Kernel → ℕ → Option Entry
  pub ctl : Kernel → Op → ℕ → Entry → Option Kernel
  pub ctl_add :
      (k k' : Kernel) (fd : ℕ) (e : Entry)
      → ctl k add fd e ≡ some k'
      → (j : ℕ) → interest k' j ≡ (if fd == j then some e else interest k j)
  pub ctl_mod :
      (k k' : Kernel) (fd : ℕ) (e : Entry)
      → ctl k mod_op fd e ≡ some k'
      → (j : ℕ) → interest k' j ≡ (if fd == j then some e else interest k j)
  pub ctl_del :
      (k k' : Kernel) (fd : ℕ) (e : Entry)
      → ctl k del fd e ≡ some k'
      → (j : ℕ) → interest k' j ≡ (if fd == j then none else interest k j)
  pub eexist :
      (k : Kernel) (fd : ℕ) (e e' : Entry) → interest k fd ≡ some e → ctl k add fd e' ≡ none
  pub enoent_mod :
      (k : Kernel) (fd : ℕ) (e : Entry) → interest k fd ≡ none → ctl k mod_op fd e ≡ none
  pub enoent_del : (k : Kernel) (fd : ℕ) (e : Entry) → interest k fd ≡ none → ctl k del fd e ≡ none
  pub del_registered :
      (k : Kernel) (fd : ℕ) (e e' : Entry) → interest k fd ≡ some e → ctl k del fd e' ≢ none
