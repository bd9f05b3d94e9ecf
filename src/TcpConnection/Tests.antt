-- ===== src/TcpConnection/Tests.antt =====
-- Runs of a connection over a table of descriptors and a counting eventfd, and its theorems at concrete
-- inputs.
use moony.Prelude.{◌++◌, List, true, inl, inr, ◌≡◌, refl, [], ◌∷◌, arith}
use moony.Prelude.Int.{pos}
use moony.Prelude.Text.{codes, decimal, snprintf}
use moony.Logger.{Output, log_fmt, accesses, access, set_log_level, log, level_prefix}
use moony.TcpConnection.Logged.{handle_error, pending, destroy}
use moony.TcpConnection
use moony.Channel
use moony.Epoll.Table.{table_epoll}
use moony.EventLoop.Counting.{counting}
use moony.Buffer.{sent}
use moony.TcpConnection.{disconnected, connection_established, handle_read, shutdown}
use moony.TcpConnection.Samples.{calm, calm-IsSound, calm-Flows, busy, busy-IsSound, busy-Flows}
use moony.TcpConnection.Graceful.{flush_all, EndsWell, shutdown_graceful}
use moony.TcpConnection.Drain.{all_take, IsDrained, shutdown_drains}
use moony.Epoll.{Mask, none_set}
use moony.Prelude.{if◌then◌else◌, ◌==◌}
use moony.TcpConnection.Queued.{Strings}
use moony.TcpConnection.Turn.{
  kept, IsIntSized, Turn, posts, shuts, flushes, swaps, calls, turns, IsOpen, IsWhole, Carries,
}
use moony.TcpConnection.Turn.Deferred.{turns-Carries}
use moony.TcpConnection.Turn.Flush.{reports}
use moony.TcpConnection.Turn.Following.{calls_of, Follows, shutdown-Follows}
use moony.TcpConnection.Turn.Overtaken.{IsOvertaken, shutdown_overtakes}
use moony.TcpConnection.Session.{Move, make_moves, make_moves-Keeps}
use moony.TcpConnection.Session
use moony.TcpConnection.Post.{Post}
use moony.TcpConnection.Output.{Keeps}

-- Three bytes sent, of which the kernel takes one, then two more, then a report of EPOLLOUT.
abbrev moves : List Move
moves =
    Session.sends (3 ∷ 4 ∷ 5 ∷ []) (λ _. sent 1)
    ∷ Session.sends (6 ∷ 7 ∷ []) (λ _. sent 2)
    ∷ Session.flushes (λ _. sent 3)
    ∷ []

make_moves-Keeps_example :
    Post
      (Unit {0})
      (Keeps table_epoll counting calm (3 ∷ 4 ∷ 5 ∷ 6 ∷ 7 ∷ []))
      (make_moves table_epoll counting moves calm)
make_moves-Keeps_example =
    make_moves-Keeps table_epoll counting moves calm calm-IsSound calm-Flows refl (omega arith) (
      (λ b. elim b [ inl e ↦ cc | inr e ↦ cc ]),
      omega arith,
      ((λ b. elim b [ inl e ↦ cc | inr e ↦ cc ]), omega arith, tt),
    )

-- A connection with 1 and 2 to write is shut down, and the kernel takes one byte, then none, then one.
shutdown_graceful_example : Post (Unit {0}) (EndsWell table_epoll counting busy) (
    flush_all table_epoll counting
      ((λ bytes. sent 1) ∷ (λ bytes. sent 0) ∷ (λ bytes. sent 1) ∷ [])
      (shutdown table_epoll counting 5 busy))
shutdown_graceful_example =
    shutdown_graceful table_epoll counting 5
      ((λ bytes. sent 1) ∷ (λ bytes. sent 0) ∷ (λ bytes. sent 1) ∷ []) busy busy-IsSound busy-Flows
      refl refl refl

shutdown_drains_example :
    Post (Unit {0}) (IsDrained table_epoll counting busy) (
      flush_all table_epoll counting (all_take (0 ∷ 4 ∷ [])) (shutdown table_epoll counting 5 busy))
shutdown_drains_example =
    shutdown_drains table_epoll counting 5 (0 ∷ 4 ∷ []) busy busy-IsSound busy-Flows refl refl refl
      (omega arith)

-- EPOLLHUP alone, and with EPOLLERR.
abbrev hung_up : Mask
hung_up = record none_set { epollhup = true }

abbrev failed : Mask
failed = record hung_up { epollerr = true }

-- EPOLLIN and EPOLLOUT at once.
abbrev both_ways : Mask
both_ways = record none_set { epollin = true; epollout = true }

abbrev nothing_printed : Output
nothing_printed = record { logger = record { log_level = pos 0 }; printed = [] }

handle_error_run :
    (handle_error (codes "c") (codes "t") (pending 104) nothing_printed).printed
    ≡ codes "[ERROR] t: tcp_connection::handle_error name = c, SO_ERROR = 104\n"
unfolding handle_error log_fmt accesses access set_log_level log level_prefix snprintf decimal
handle_error_run = refl

destroy_run :
    (destroy
      (codes "c")
      (codes "t")
      (record (TcpConnection.create 1 2 7) { state = disconnected })
      nothing_printed).printed
    ≡ codes "[INFO] t: tcp_connection dtor[c] at fd = 7, state = 0\n"
unfolding destroy log_fmt accesses access set_log_level log level_prefix snprintf decimal
    TcpConnection.create Channel.create
destroy_run = refl

-- The strings of two threads, which stand at 100 and 200.
abbrev strings : Strings
strings a n = if a == 100 then 3 ∷ 4 ∷ [] else 5 ∷ []

strings-IsIntSized : IsIntSized strings
strings-IsIntSized a n = ground arith

calm-IsOpen : IsOpen table_epoll counting 5 calm
calm-IsOpen = record { sound = calm-IsSound; flows = calm-Flows; up = refl; own = refl }

one_byte-IsWhole : IsWhole (λ _. sent 1)
one_byte-IsWhole chunk b = elim b [ inl e ↦ cc | inr e ↦ cc ]

-- Thread 9 sends two bytes, and thread 8 one more while the loop calls the first functor, of which the
-- kernel takes one byte.
abbrev crossing : List Turn
crossing =
    posts 9 100 (3 ∷ 4 ∷ []) (λ _. sent 0)
    ∷ swaps
    ∷ posts 8 200 (5 ∷ []) (λ _. sent 0)
    ∷ calls (λ _. sent 1)
    ∷ flushes (λ _. sent 1)
    ∷ []

turns-Carries_example :
    Post
      (Unit {0})
      (Carries table_epoll counting strings 5 (calm, []) (3 ∷ 4 ∷ 5 ∷ []))
      (turns table_epoll counting (kept strings) crossing (calm, []))
turns-Carries_example =
    turns-Carries table_epoll counting strings crossing 5 (calm, []) calm-IsOpen strings-IsIntSized
      (omega arith) ((λ e. omega arith), refl, ((λ e. omega arith), refl, (one_byte-IsWhole, tt)))

busy-IsOpen : IsOpen table_epoll counting 5 busy
busy-IsOpen = record { sound = busy-IsSound; flows = busy-Flows; up = refl; own = refl }

-- Thread 9 sends a byte behind two that wait, and shuts down; two reports of EPOLLOUT come first.
shutdown_overtakes_example :
    Post (Unit {0}) (IsOvertaken table_epoll counting strings (busy, []) (5 ∷ [])) (
      turns table_epoll counting
        (kept strings)
        (posts 9 200 (5 ∷ []) (λ _. sent 0) ∷ shuts 9 ∷ reports (all_take (0 ∷ 0 ∷ [])))
        (busy, []))
shutdown_overtakes_example =
    shutdown_overtakes table_epoll counting strings 9 5 200 (5 ∷ []) (0 ∷ 0 ∷ []) (λ _. sent 0) busy
      [] busy-IsOpen (λ e. omega arith) refl refl (omega arith) (omega arith)

-- The same, where the loop comes to its functors first, and then serves one report of EPOLLOUT.
shutdown-Follows_example : Post (Unit {0}) (Follows table_epoll counting strings busy (5 ∷ [])) (
    turns table_epoll counting
      (kept strings)
      (posts 9 200 (5 ∷ []) (λ _. sent 0)
        ∷ shuts 9
        ∷ swaps
        ∷ (calls_of ((λ _. sent 1) ∷ []) ++ calls (λ _. sent 1) ∷ reports ((λ _. sent 3) ∷ [])))
      (busy, []))
shutdown-Follows_example =
    shutdown-Follows table_epoll counting strings 9 5 200 (5 ∷ []) (λ _. sent 0) (λ _. sent 1)
      ((λ _. sent 1) ∷ []) ((λ _. sent 3) ∷ []) busy busy-IsOpen (λ e. omega arith) refl
      strings-IsIntSized refl tt (omega arith) refl (one_byte-IsWhole, tt)
