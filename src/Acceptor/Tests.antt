-- ===== src/Acceptor/Tests.antt =====
-- Runs of the acceptor of net/acceptor/acceptor.cc, and its theorem at a concrete input.
use moony.Prelude.{◌≡◌, refl, true, false, [], ◌∷◌, lookup, some}
use moony.Epoll.Table.{table_epoll}
use moony.Channel.{Channel, changed}
use moony.Channel
use moony.InetAddress.{InetAddress}
use moony.Socket.Plain.{Options, plain}
use moony.Poller.{Poller}
use moony.Acceptor.{handle_read, Acceptor, closed}
use moony.Acceptor.Life.{live, Tidy, live-Tidy}

-- A poller with one other descriptor.
abbrev other_poller : Poller table_epoll
other_poller = record {
  channels = (4, 60) ∷ [];
  capacity = 16;
  kernel = (4, (Channel.read_event, 60)) ∷ [];
}

abbrev no_options : Options
no_options fd o = false

abbrev any_address : InetAddress
any_address = record { sin_port = 8080; sin_addr = 0 }

live-Tidy_example :
    Tidy plain table_epoll other_poller
      (live plain table_epoll true false any_address 100 7 no_options other_poller)
unfolding lookup
live-Tidy_example =
    live-Tidy plain table_epoll true false any_address 100 7 no_options other_poller refl refl

abbrev listening : Acceptor
listening = record { channel = Channel.create 100 7; callback_set = false; listenning = true }

handle_read_run : handle_read listening (some (9, any_address)) ≡ closed 9 ∷ []
unfolding handle_read
handle_read_run = refl
