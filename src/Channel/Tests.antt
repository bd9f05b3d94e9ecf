-- ===== src/Channel/Tests.antt =====
-- The dispatch of a channel's events at concrete inputs.
use moony.Prelude.{◌≡◌, refl, true, false, [], ◌∷◌, ◌==◌, some}
use moony.Epoll.{none_set}
use moony.Channel.{
  Channel, close_callback, error_callback, write_callback, create, handle_event,
  handle_event_with_guard,
}
use moony.Channel.Dispatch.{handle_event-eq-filter}

-- Hung up with an error and room to write, tied to the object at 9.
abbrev hung_up : Channel
hung_up = record (create 5 7) {
  revents = record none_set { epollhup = true; epollerr = true; epollout = true };
  tie = some 9;
  tied = true;
  read_set = true;
  write_set = true;
  close_set = true;
  error_set = true;
}

handle_event_alive :
    handle_event (λ a. a == 9) hung_up ≡ close_callback ∷ error_callback ∷ write_callback ∷ []
unfolding handle_event handle_event_with_guard create
handle_event_alive = refl

handle_event_gone : handle_event (λ a. false) hung_up ≡ []
unfolding handle_event create
handle_event_gone = refl

handle_event-eq-filter_example :
    handle_event (λ a. a == 9) hung_up ≡ close_callback ∷ error_callback ∷ write_callback ∷ []
unfolding create
handle_event-eq-filter_example = handle_event-eq-filter (λ a. a == 9) hung_up
