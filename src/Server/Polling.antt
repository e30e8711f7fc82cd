-- ===== src/Server/Polling.antt =====
-- src/epoll.cpp and include/epoll.h. What the system calls give is an argument.
use idc.Prelude.{
  ℕ, zero, suc, Bool, false, not, ◌&&◌, List, [], ◌∷◌, ◌++◌, Option, none, some, Result, ok, fault,
  ◌>>=◌, ◌>>◌, require, assertion, if◌then◌else◌, ltb, length, drop, replicate, ℤ, pos,
}
use idc.Net.Client.{is_negative, minus_one}

-- epoll_event
pub record EpollEvent : Type 0 where
  pub events : ℕ
  pub fd : ℤ

pub data Operation : Type 0 where
  add modify delete : Operation

-- A call of epoll_ctl
pub record Control : Type 0 where
  pub operation : Operation
  pub target : ℤ
  pub mask : ℕ

-- `controls` has the calls of epoll_ctl that succeeded, in their order; a failing one changes nothing.
pub record Epoll : Type 0 where
  pub epollfd : ℤ
  pub events : List EpollEvent
  pub controls : List Control

-- The constructor of what epoll_create gives
unfoldable pub make_epoll : ℕ → ℤ → Result Epoll
make_epoll max_event epollfd =
    let events = replicate max_event (record { events = 0; fd = pos 0 }) in
    require (not (is_negative epollfd) && ltb 0 (length events)) assertion
    >> ok (record { epollfd = epollfd; events = events; controls = [] })

abbrev call : Epoll → Operation → ℤ → ℕ → Bool → Epoll
call e operation target mask done =
    let made : Control = record { operation = operation; target = target; mask = mask } in
    record e { controls = if done then e.controls ++ (made ∷ []) else e.controls }

-- addFd, ModFd and DelFd; `done` is whether epoll_ctl gives 0.
unfoldable pub add_fd : Epoll → ℤ → ℕ → Bool → Bool × Epoll
add_fd e fd events done = if is_negative fd then (false, e) else (done, call e add fd events done)

unfoldable pub mod_fd : Epoll → ℤ → ℕ → Bool → Bool × Epoll
mod_fd e fd events done =
    if is_negative fd then (false, e) else (done, call e modify fd events done)

unfoldable pub del_fd : Epoll → ℤ → Bool → Bool × Epoll
del_fd e fd done = if is_negative fd then (false, e) else (done, call e delete fd 0 done)

-- wait: epoll_wait fails, or writes to the front of m_events.
unfoldable pub wait : Epoll → Option (List EpollEvent) → ℤ × Epoll
wait e none = (minus_one, e)
wait e (some ready) =
    (pos (length ready), record e { events = ready ++ drop (length ready) e.events })

-- The element of m_events that getEventFd and getEvents read
unfoldable pub event_at : List EpollEvent → ℕ → Result EpollEvent
event_at [] i = fault assertion
event_at (v ∷ events) zero = ok v
event_at (v ∷ events) (suc i) = event_at events i

unfoldable pub get_event_fd : Epoll → ℕ → Result ℤ
unfolding event_at
get_event_fd e i = event_at e.events i >>= λ v. ok v.fd

unfoldable pub get_events : Epoll → ℕ → Result ℕ
unfolding event_at
get_events e i = event_at e.events i >>= λ v. ok v.events
