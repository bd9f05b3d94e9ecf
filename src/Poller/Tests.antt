-- ===== src/Poller/Tests.antt =====
-- Runs of the poller over a table of descriptors, and its theorems at concrete inputs.
use moony.Prelude.{◌≡◌, refl, List, [], ◌∷◌, none, ok, true, false, lookup, insert}
use moony.Epoll.{none_set}
use moony.Epoll.Table.{table_epoll}
use moony.Channel.{
  Channel, create, new, added, changed, enable_reading, disable_all, read_event, is_none_event,
}
use moony.Poller.{Poller, Store, change, update_channel, update}
use moony.Poller.Sync.{InSync}
use moony.Poller.Interest.{
  Call, changes, removes, Registry, run, Coherent, IsCoherent, run-Coherent,
}

abbrev empty_poller : Poller table_epoll
empty_poller = record { channels = []; capacity = 16; kernel = [] }

-- The channel of descriptor 7, at address 100.
abbrev idle_channel : Channel
idle_channel = record {
  addr = 100;
  fd = 7;
  events = none_set;
  revents = none_set;
  idx = new;
  tie = none;
  tied = false;
  read_set = true;
  write_set = false;
  close_set = false;
  error_set = false;
}

abbrev reading_channel : Channel
reading_channel = record idle_channel { events = read_event; idx = added }

abbrev reading_poller : Poller table_epoll
reading_poller = record {
  channels = (7, 100) ∷ [];
  capacity = 16;
  kernel = (7, (read_event, 100)) ∷ [];
}

reading_poller-InSync : InSync table_epoll reading_poller reading_channel
unfolding lookup
reading_poller-InSync = (refl, refl)

enable_reading_run :
    change table_epoll enable_reading empty_poller idle_channel
    ≡ ok (reading_poller, reading_channel)
unfolding change update_channel update changed lookup insert
enable_reading_run = refl

-- `disable_all` leaves the descriptor in the interest list, with no events.
disable_all_run :
    change table_epoll disable_all reading_poller reading_channel
    ≡ ok (
      record reading_poller { kernel = (7, (none_set, 100)) ∷ [] },
      record reading_channel { events = none_set },
    )
unfolding change update_channel update changed lookup insert is_none_event
disable_all_run = refl

-- Channel `a` at address `a`, for descriptor `a`.
abbrev fresh_registry : Registry table_epoll
fresh_registry = record { poller = empty_poller; store = λ a. create a a }

fresh_registry-IsCoherent : IsCoherent table_epoll fresh_registry
unfolding create lookup
fresh_registry-IsCoherent = record {
  addressed = λ a. refl;
  distinct = λ a b e. e;
  synced = λ a. (refl, refl);
}

abbrev calls : List Call
calls = changes enable_reading 3 ∷ changes enable_reading 5 ∷ changes disable_all 3 ∷ removes 5 ∷ []

run-Coherent_example : Coherent table_epoll (run table_epoll fresh_registry calls)
run-Coherent_example = run-Coherent table_epoll calls fresh_registry fresh_registry-IsCoherent

abbrev channels_at : Store
channels_at a = record idle_channel { addr = a; fd = a }
