-- ===== src/Socket/Plain.antt =====
-- Sockets of net/socket whose every call succeeds but `accept4`: the laws of `Sockets` can hold
-- together. The kernel is the options by descriptor, and every descriptor is open.
use moony.Prelude.{ℕ, ◌≡◌, Option, refl, Bool, true, ◌&&◌, ◌==◌, if◌then◌else◌, none, some}
use moony.Socket.{SockOpt, same_opt, Sockets}

abbrev pub Options : Type 0
Options = ℕ → SockOpt → Bool

pub same_kernel :
    (k k' : Options) (fd : ℕ) (o : SockOpt)
    → ◌≡◌ {A = Option Options} (some k) (some k')
    → k' fd o ≡ k fd o
same_kernel k k' fd o h = cc

abbrev pub plain : Sockets
plain = record {
  Kernel = Options;
  is_open = λ k fd. true;
  option = λ k. k;
  setsockopt = λ fd o on k fd' o'. if fd == fd' && same_opt o o' then on else k fd' o';
  bind = λ fd a k. some k;
  listen = λ fd backlog k. some k;
  accept4 = λ fd k. (none, k);
  shutdown = λ fd k. some k;
  close = λ fd k. k;
  is_open-setsockopt = λ k fd fd' o on. refl;
  option-setsockopt = λ k fd fd' o o' on h. refl;
  option-bind = λ k k' fd fd' a o h. same_kernel k k' fd' o h;
}
