-- ===== src/Kernel/Epoll/Registry.antt =====
-- kernel/epoll.go: registering, changing and removing events, and the notifications between.
use eggos.Base.{
  ℕ, ◌≡◌, refl, sym, ap, ◌∙◌, ◌≢◌, true, false, Option, none, some, List, [], ◌∷◌, ◌==◌, bit_or,
  bit_and, Bool-cases, inl, inr, arith,
}
use eggos.Base.Bits.{bit_or-zero}
use eggos.Kernel.Epoll.{
  EpollEvent, UserEvent, Epoll, done, find_event, update_event, remove_event, epoll_ctl, raise,
  epoll_notify, epoll_ctl_add, epoll_ctl_del,
}

==-self : (a : ℕ) → (a == a) ≡ true
==-self a = ground arith

find_event-hit :
    (fd : ℕ) (d : EpollEvent) (es : List EpollEvent)
    → (d.fd == fd) ≡ true
    → find_event fd (d ∷ es) ≡ some d
unfolding find_event
find_event-hit fd d es h = rw h refl

find_event-miss :
    (fd : ℕ) (d : EpollEvent) (es : List EpollEvent)
    → (d.fd == fd) ≡ false
    → find_event fd (d ∷ es) ≡ find_event fd es
unfolding find_event
find_event-miss fd d es h = rw h refl

update_event-hit :
    (f : EpollEvent → EpollEvent) (fd : ℕ) (d : EpollEvent) (es : List EpollEvent)
    → (d.fd == fd) ≡ true
    → update_event f fd (d ∷ es) ≡ f d ∷ es
unfolding update_event
update_event-hit f fd d es h = rw h refl

update_event-miss :
    (f : EpollEvent → EpollEvent) (fd : ℕ) (d : EpollEvent) (es : List EpollEvent)
    → (d.fd == fd) ≡ false
    → update_event f fd (d ∷ es) ≡ d ∷ update_event f fd es
unfolding update_event
update_event-miss f fd d es h = rw h refl

abbrev raise_found : ℕ → Option EpollEvent → Option EpollEvent
raise_found events none = none
raise_found events (some e) = some (raise events e)

nothing : (fd : ℕ) (e : EpollEvent) → find_event fd [] ≢ some e
unfolding find_event
nothing fd e h = cc

find-raise :
    (events fd : ℕ) (es : List EpollEvent) (e : EpollEvent)
    → find_event fd es ≡ some e
    → find_event fd (update_event (raise events) fd es) ≡ some (raise events e)
find-raise events fd [] e h = absurd (nothing fd e h)
find-raise events fd (d ∷ es) e h = elim (Bool-cases (d.fd == fd)) [
  | inl hit ↦
      ap (find_event fd) (update_event-hit (raise events) fd d es hit)
      ∙ find_event-hit fd (raise events d) es hit
      ∙ ap (raise_found events) (sym (find_event-hit fd d es hit) ∙ h)
  | inr miss ↦
      ap (find_event fd) (update_event-miss (raise events) fd d es miss)
      ∙ find_event-miss fd d (update_event (raise events) fd es) miss
      ∙ find-raise events fd es e (sym (find_event-miss fd d es miss) ∙ h)
]

raise-none : (events : ℕ) (e : EpollEvent) → bit_and e.mask events ≡ 0 → raise events e ≡ e
raise-none events e h =
    ap (λ x. record e { events = x }) (ap (bit_or e.events) h ∙ bit_or-zero e.events)

-- Registering a descriptor and removing it again gives back the events as they were, whether or
-- not the descriptor was registered before.
pub epoll_ctl-add_del :
    (k : Epoll) (fd : ℕ) (u v : UserEvent)
    → epoll_ctl (epoll_ctl k epoll_ctl_add fd u).1 epoll_ctl_del fd v ≡ (done, k)
unfolding epoll_ctl find_event remove_event
epoll_ctl-add_del k fd u v = rw (==-self fd) refl

-- A notification of a registered descriptor raises exactly the events that it asked for or that
-- were raised before, and sets the note.
pub epoll_notify-found :
    (k : Epoll) (fd events : ℕ) (e : EpollEvent)
    → find_event fd k.registered ≡ some e
    → (find_event fd (epoll_notify k fd events).registered ≡ some (raise events e))
      × ((epoll_notify k fd events).note ≡ 1)
unfolding epoll_notify
epoll_notify-found k fd events e h = rw h (
  elim (Bool-cases (bit_and e.mask events == 0)) [
    | inl z ↦ rw z (h ∙ ap some (sym (raise-none events e (ground arith))))
    | inr n ↦ rw n (find-raise events fd k.registered e h)
  ],
  refl,
)
