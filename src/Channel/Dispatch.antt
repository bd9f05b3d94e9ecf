-- ===== src/Channel/Dispatch.antt =====
-- Which callbacks `channel::handle_event` runs, and what the event tests say.
use moony.Prelude.{
  ℕ, ◌≡◌, refl, Bool, true, false, not, ◌&&◌, ◌||◌, if◌then◌else◌, List, [], ◌∷◌, none, some, arith,
  ap, ◌∙◌, ◌++◌,
}
use moony.Channel.{
  Channel, Callback, close_callback, error_callback, read_callback, write_callback, handle_event,
  call_if, handle_event_with_guard,
}

-- Is the callback set and one of its events reported?
abbrev pub due : Channel → Callback → Bool
due c close_callback = c.close_set && (c.revents.epollhup && not c.revents.epollin)
due c error_callback = c.error_set && c.revents.epollerr
due c read_callback = c.read_set && (c.revents.epollin || c.revents.epollpri)
due c write_callback = c.write_set && c.revents.epollout

abbrev pub filter {ℓ} : {A : Type ℓ} → (A → Bool) → List A → List A
filter p [] = []
filter p (x ∷ xs) = if p x then x ∷ filter p xs else filter p xs

-- May the callbacks run: the channel is not tied, or what it is tied to is alive.
abbrev pub permitted : (ℕ → Bool) → Channel → Bool
permitted alive c = not c.tied || elim c.tie [ none ↦ false | some obj ↦ alive obj ]

call_if-append :
    (occurs present : Bool) (cb : Callback) (rest : List Callback)
    → call_if occurs present cb ++ rest ≡ (if present && occurs then cb ∷ rest else rest)
call_if-append occurs present cb rest = ground arith

abbrev all_callbacks : List Callback
all_callbacks = close_callback ∷ error_callback ∷ read_callback ∷ write_callback ∷ []

guarded-eq-filter : (c : Channel) → handle_event_with_guard c ≡ filter (due c) all_callbacks
unfolding handle_event_with_guard
guarded-eq-filter c =
    call_if-append (c.revents.epollhup && not c.revents.epollin) c.close_set close_callback _
    ∙ ap (λ l. if due c close_callback then close_callback ∷ l else l)
        (call_if-append c.revents.epollerr c.error_set error_callback _
          ∙ ap (λ l. if due c error_callback then error_callback ∷ l else l)
              (call_if-append (c.revents.epollin || c.revents.epollpri) c.read_set read_callback _
                ∙ ap (λ l. if due c read_callback then read_callback ∷ l else l) last))
  where
    last :
        call_if c.revents.epollout c.write_set write_callback
        ≡ (if due c write_callback then write_callback ∷ [] else [])
    last = ground arith

handle_event_cases :
    (alive : ℕ → Bool) (c : Channel)
    → handle_event alive c ≡ (if permitted alive c then handle_event_with_guard c else [])
unfolding handle_event
handle_event_cases alive c = ground arith

filter_when :
    (b : Bool) (p : Callback → Bool) (l : List Callback)
    → (if b then filter p l else []) ≡ filter (λ cb. b && p cb) l
filter_when true p l = refl
filter_when false p [] = refl
filter_when false p (x ∷ l) = filter_when false p l

-- A channel that may run its callbacks runs each that is due once, in the order close, error, read,
-- write, and any other channel runs none.
pub handle_event-eq-filter :
    (alive : ℕ → Bool) (c : Channel)
    → handle_event alive c
      ≡ filter
          (λ cb. permitted alive c && due c cb)
          (close_callback ∷ error_callback ∷ read_callback ∷ write_callback ∷ [])
handle_event-eq-filter alive c =
    handle_event_cases alive c
    ∙ ap (λ l. if permitted alive c then l else []) (guarded-eq-filter c)
    ∙ filter_when (permitted alive c) (due c) all_callbacks
