-- ===== src/Socket/Answers.antt =====
-- What the calls of net/socket/socket.cc come to.
use moony.Prelude.{ℕ, ◌≡◌, ◌⊎◌, inl, inr, refl, Option, none, some, ok, stop, exit_process}
use moony.InetAddress.{InetAddress}
use moony.Socket.{SockOpt, Sockets, bind_address, listen, or_exit}

module _ (S : Sockets) where
  or_exit_cases :
      (r : Option S.Kernel)
      → ((k : S.Kernel) × (r ≡ some k) × (or_exit S r ≡ ok k))
        ⊎ ((r ≡ none) × (or_exit S r ≡ stop exit_process))
  unfolding or_exit
  or_exit_cases (some k) = inl (k, refl, refl)
  or_exit_cases none = inr (refl, refl)

  -- `listen` succeeds, or the kernel refuses it and the process ends.
  pub listen_cases :
      (fd : ℕ) (k : S.Kernel)
      → ((k' : S.Kernel) × (listen S fd k ≡ ok k'))
        ⊎ ((S.listen fd 1024 k ≡ none) × (listen S fd k ≡ stop exit_process))
  unfolding listen
  listen_cases fd k = elim (or_exit_cases (S.listen fd 1024 k)) [
    | inl (k', _, e) ↦ inl (k', e)
    | inr e ↦ inr e
  ]

  -- `bind_address` succeeds and leaves every option, or the kernel refuses it and the process ends.
  pub bind_address_cases :
      (fd : ℕ) (a : InetAddress) (k : S.Kernel)
      → ((k' : S.Kernel) × (bind_address S fd a k ≡ ok k')
          × ((j : ℕ) (o : SockOpt) → S.option k' j o ≡ S.option k j o))
        ⊎ ((S.bind fd a k ≡ none) × (bind_address S fd a k ≡ stop exit_process))
  unfolding bind_address
  bind_address_cases fd a k = elim (or_exit_cases (S.bind fd a k)) [
    | inl (k', b, e) ↦ inl (k', e, (λ j o. S.option-bind k k' fd j a o b))
    | inr e ↦ inr e
  ]
