-- ===== src/Kernel/Epoll.antt =====
-- kernel/epoll.go: the registered events and what a wait hands out. The doubly linked list is a
-- list in its order, the newest event first; an event from the pool is cleared. The sleep at the
-- start of a wait is left out, and so are the threads that wait on the note.
pub mod Delivery
pub mod Registry
use eggos.Base.{
  ℕ, zero, suc, ◌+◌, ◌-◌, Bool, true, false, Option, none, some, List, [], ◌∷◌, ◌||◌, bit_and,
  bit_or, ◌==◌, ltb, if◌then◌else◌, Result, ok, panic,
}

abbrev pub epoll_ctl_add : ℕ
epoll_ctl_add = 1

abbrev pub epoll_ctl_del : ℕ
epoll_ctl_del = 2

abbrev pub epoll_ctl_mod : ℕ
epoll_ctl_mod = 3

abbrev pub epollhup : ℕ
epollhup = 0x10

pub record EpollEvent : Type 0 where
  pub events : ℕ
  pub mask : ℕ
  pub fd : ℕ
  pub user_data : ℕ

-- userEpollEvent: what the caller registers, and what a wait writes for it.
pub record UserEvent : Type 0 where
  pub events : ℕ
  pub user_data : ℕ

-- epollEvents and epollNote.
pub record Epoll : Type 0 where
  pub registered : List EpollEvent
  pub note : ℕ

pub data CtlReply : Type 0 where
  done failed : CtlReply

unfoldable pub find_event : ℕ → List EpollEvent → Option EpollEvent
find_event fd [] = none
find_event fd (e ∷ es) = let rest = find_event fd es in if e.fd == fd then some e else rest

-- A change of the event that findEpollEvent finds.
unfoldable pub update_event : (EpollEvent → EpollEvent) → ℕ → List EpollEvent → List EpollEvent
update_event f fd [] = []
update_event f fd (e ∷ es) =
    let rest = update_event f fd es in if e.fd == fd then f e ∷ es else e ∷ rest

-- freeEpollEvent of the event that findEpollEvent finds.
unfoldable pub remove_event : ℕ → List EpollEvent → List EpollEvent
remove_event fd [] = []
remove_event fd (e ∷ es) = let rest = remove_event fd es in if e.fd == fd then es else e ∷ rest

abbrev pub new_event : ℕ → UserEvent → EpollEvent
new_event fd u = record {
  events = 0;
  mask = bit_or u.events epollhup;
  fd = fd;
  user_data = u.user_data;
}

abbrev pub set_interest : UserEvent → EpollEvent → EpollEvent
set_interest u e = record e { mask = bit_or u.events epollhup; user_data = u.user_data }

-- A change to a registered event, or errno(-1).
abbrev pub if_found : Option EpollEvent → Epoll → List EpollEvent → CtlReply × Epoll
if_found none k es = (failed, k)
if_found (some e) k es = (done, record k { registered = es })

unfoldable pub epoll_ctl : Epoll → ℕ → ℕ → UserEvent → CtlReply × Epoll
epoll_ctl k op fd u =
    let found = find_event fd k.registered in
    if op == epoll_ctl_add
    then (done, record k { registered = new_event fd u ∷ k.registered })
    else if op == epoll_ctl_mod
    then if_found found k (update_event (set_interest u) fd k.registered)
    else if op == epoll_ctl_del
    then if_found found k (remove_event fd k.registered)
    else (failed, k)

-- The loop of epollWait with room for `room` events.
unfoldable pub deliver : ℕ → List EpollEvent → List UserEvent × List EpollEvent
deliver room [] = ([], [])
deliver room (e ∷ es) =
    let skip = e.events == 0 || room == 0 in
    let rest = deliver (if skip then room else room - 1) es in
    if skip then (rest.0, e ∷ rest.1) else (
      record { events = e.events; user_data = e.user_data } ∷ rest.0,
      record e { events = 0 } ∷ rest.1,
    )

-- epollWait behind its sleep, which clears the note if there was one: the slice of the caller's
-- events, which is one of an array of 256, panics where it is longer.
unfoldable pub epoll_wait : Epoll → ℕ → ℕ → Result (List UserEvent × Epoll)
epoll_wait k len timeout =
    let r = deliver len k.registered in
    if ltb 256 len
    then panic
    else ok (r.0, record { registered = r.1; note = if timeout == 0 then k.note else 0 })

abbrev pub raise : ℕ → EpollEvent → EpollEvent
raise events e = record e { events = bit_or e.events (bit_and e.mask events) }

abbrev notify_found : Option EpollEvent → ℕ → ℕ → Epoll → Epoll
notify_found none fd events k = k
notify_found (some e) fd events k = record {
  registered =
      if bit_and e.mask events == 0
      then k.registered
      else update_event (raise events) fd k.registered;
  note = 1;
}

unfoldable pub epoll_notify : Epoll → ℕ → ℕ → Epoll
epoll_notify k fd events = notify_found (find_event fd k.registered) fd events k
