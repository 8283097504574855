-- ===== src/Kernel/Epoll/Delivery.antt =====
-- kernel/epoll.go: a wait hands out each pending event once.
use eggos.Base.{
  ℕ, zero, suc, ◌-◌, ◌≤◌, ◌≡◌, refl, sym, ap, subst, ◌∙◌, Bool, true, false, List, [], ◌∷◌, ◌++◌,
  ◌||◌, ◌==◌, ltb, Result, ok, panic, if◌then◌else◌, Bool-cases, inl, inr, length, arith,
}
use eggos.Kernel.Epoll.{EpollEvent, UserEvent, Epoll, deliver, epoll_wait}

abbrev pub report : EpollEvent → UserEvent
report e = record { events = e.events; user_data = e.user_data }

-- The events that a wait would hand out, given room.
unfoldable pub pending : List EpollEvent → List UserEvent
pending [] = []
pending (e ∷ es) = let rest = pending es in if e.events == 0 then rest else report e ∷ rest

abbrev skips : ℕ → EpollEvent → Bool
skips room e = e.events == 0 || room == 0

deliver-skip :
    (room : ℕ) (e : EpollEvent) (es : List EpollEvent)
    → skips room e ≡ true
    → deliver room (e ∷ es) ≡ ((deliver room es).0, e ∷ (deliver room es).1)
unfolding deliver
deliver-skip room e es h = rw h refl

deliver-take :
    (room : ℕ) (e : EpollEvent) (es : List EpollEvent)
    → skips room e ≡ false
    → deliver room (e ∷ es)
      ≡ (report e ∷ (deliver (room - 1) es).0, record e { events = 0 } ∷ (deliver (room - 1) es).1)
unfolding deliver
deliver-take room e es h = rw h refl

skips-full : (e : EpollEvent) → skips 0 e ≡ true
skips-full e = ground arith

deliver-full : (es : List EpollEvent) → deliver 0 es ≡ ([], es)
unfolding deliver
deliver-full [] = refl
deliver-full (e ∷ es) =
    deliver-skip 0 e es (skips-full e)
    ∙ ap (λ (r : List UserEvent × List EpollEvent). (r.0, e ∷ r.1)) (deliver-full es)

pending-quiet :
    (e : EpollEvent) (es : List EpollEvent) → (e.events == 0) ≡ true → pending (e ∷ es) ≡ pending es
unfolding pending
pending-quiet e es h = rw h refl

pending-raised :
    (e : EpollEvent) (es : List EpollEvent)
    → (e.events == 0) ≡ false
    → pending (e ∷ es) ≡ report e ∷ pending es
unfolding pending
pending-raised e es h = rw h refl

abbrev total : List UserEvent × List EpollEvent → List UserEvent
total r = r.0 ++ pending r.1

skips-quiet : (room : ℕ) (e : EpollEvent) → (e.events == 0) ≡ true → skips room e ≡ true
skips-quiet room e h = rw h refl

skips-raised : (room : ℕ) (e : EpollEvent) → (e.events == 0) ≡ false → skips (suc room) e ≡ false
skips-raised room e h = ground arith

total-skip :
    (room : ℕ) (e : EpollEvent) (es : List EpollEvent)
    → (e.events == 0) ≡ true
    → total (deliver room es) ≡ pending es
    → total (deliver room (e ∷ es)) ≡ pending (e ∷ es)
total-skip room e es h ih =
    ap total (deliver-skip room e es (skips-quiet room e h))
    ∙ ap (λ q. (deliver room es).0 ++ q) (pending-quiet e (deliver room es).1 h)
    ∙ ih
    ∙ sym (pending-quiet e es h)

total-take :
    (room : ℕ) (e : EpollEvent) (es : List EpollEvent)
    → (e.events == 0) ≡ false
    → total (deliver (suc room - 1) es) ≡ pending es
    → total (deliver (suc room) (e ∷ es)) ≡ pending (e ∷ es)
total-take room e es h ih =
    ap total (deliver-take (suc room) e es (skips-raised room e h))
    ∙ ap (λ q. report e ∷ (deliver (suc room - 1) es).0 ++ q)
        (pending-quiet (record e { events = 0 }) (deliver (suc room - 1) es).1 refl)
    ∙ ap (λ q. report e ∷ q) ih
    ∙ sym (pending-raised e es h)

-- What is handed out and what stays pending, in this order, is what was pending.
deliver-pending : (es : List EpollEvent) (room : ℕ) → total (deliver room es) ≡ pending es
unfolding deliver pending
deliver-pending [] room = refl
deliver-pending (e ∷ es) zero = ap total (deliver-full (e ∷ es))
deliver-pending (e ∷ es) (suc room) = elim (Bool-cases (e.events == 0)) [
  | inl h ↦ total-skip (suc room) e es h (deliver-pending es (suc room))
  | inr h ↦ total-take room e es h (deliver-pending es (suc room - 1))
]

length-deliver : (es : List EpollEvent) (room : ℕ) → length (deliver room es).0 ≤ room
unfolding deliver
length-deliver [] room = omega arith
length-deliver (e ∷ es) zero = rw (deliver-full (e ∷ es)) (omega arith)
length-deliver (e ∷ es) (suc room) = elim (Bool-cases (e.events == 0)) [
  | inl h ↦ rw h (length-deliver es (suc room))
  | inr h ↦
      subst (λ (r : List UserEvent × List EpollEvent). length r.0 ≤ suc room)
        (sym (deliver-take (suc room) e es (skips-raised room e h)))
        (omega (arith, length-deliver es (suc room - 1)))
]

-- At most as many events as there is room for, and with those that stay, the ones before.
pub HandsOut : Epoll → ℕ → Result (List UserEvent × Epoll) → Type 0
HandsOut k len panic = ⊥
HandsOut k len (ok (events, after)) =
    (length events ≤ len) × (events ++ pending after.registered ≡ pending k.registered)

-- With room for at most 256 events a wait returns, hands out at most as many events as there is
-- room for, and loses none: the events that it hands out and those that stay pending are, in this
-- order, those that were pending.
pub epoll_wait-pending :
    (k : Epoll) (len timeout : ℕ) → len ≤ 256 → HandsOut k len (epoll_wait k len timeout)
unfolding epoll_wait HandsOut
epoll_wait-pending k len timeout h =
    let short : ltb 256 len ≡ false = ground (arith, h) in
    rw short (length-deliver k.registered len, deliver-pending k.registered len)
