-- ===== src/E1000/Receive.antt =====
-- e1000/e1000.go: the receive interrupt drains the ring, frame by frame, and comes to an end.
use eggos.Base.{
  ℕ, zero, suc, ◌+◌, ◌%◌, ◌<◌, ◌≤◌, ◌≡◌, refl, sym, ap, subst, ◌∙◌, Bool, true, false, Option, some,
  List, [], ◌∷◌, ◌++◌, length, get_or, set, if◌then◌else◌, Bool-cases, inl, inr, arith,
  get_or-set_ne, length-set, append_assoc, append-nil,
}
use eggos.E1000.{
  num_descs, RxDesc, Card, no_rxdesc, is_ready, rx_at, take_packet, Traffic, readpkt, again,
  read_all,
}

abbrev pub desc_at : List RxDesc → ℕ → RxDesc
desc_at descs i = get_or descs (i % num_descs) no_rxdesc

-- The frames that lie ready in a row from descriptor i on, at most n of them.
unfoldable pub ready_frames : List RxDesc → ℕ → ℕ → List (List ℕ)
ready_frames descs i zero = []
ready_frames descs i (suc n) =
    let rest = ready_frames descs (suc i) n in
    if is_ready (desc_at descs i) then (desc_at descs i).frame ∷ rest else []

-- How many descriptors are ready.
unfoldable pub count_ready : List RxDesc → ℕ
count_ready [] = 0
count_ready (d ∷ ds) = let rest = count_ready ds in if is_ready d then suc rest else rest

abbrev cleared : RxDesc → RxDesc
cleared d = record d { status = 0 }

count_ready-set :
    (descs : List RxDesc) (i : ℕ)
    → is_ready (get_or descs i no_rxdesc) ≡ true
    → count_ready descs ≡ suc (count_ready (set descs i (cleared (get_or descs i no_rxdesc))))
unfolding count_ready
count_ready-set [] i h = cc
count_ready-set (d ∷ ds) zero h = rw h refl
count_ready-set (d ∷ ds) (suc i) h = ground (arith, count_ready-set ds i h)

count_ready-length : (descs : List RxDesc) → count_ready descs ≤ length descs
unfolding count_ready
count_ready-length [] = omega arith
count_ready-length (d ∷ ds) = ground (arith, count_ready-length ds)

ready_frames-cong :
    (descs : List RxDesc) (i j n : ℕ)
    → i % num_descs ≡ j % num_descs
    → ready_frames descs i n ≡ ready_frames descs j n
unfolding ready_frames
ready_frames-cong descs i j zero h = refl
ready_frames-cong descs i j (suc n) h =
    rw (h, ready_frames-cong descs (suc i) (suc j) n (omega arith)) refl

-- A descriptor behind the window does not matter.
ready_frames-set :
    (descs : List RxDesc) (d : RxDesc) (i j n : ℕ)
    → j < i
    → i + n ≤ j + num_descs
    → ready_frames (set descs (j % num_descs) d) i n ≡ ready_frames descs i n
unfolding ready_frames
ready_frames-set descs d i j zero p q = refl
ready_frames-set descs d i j (suc n) p q =
    rw
      (
        get_or-set_ne descs (j % num_descs) (i % num_descs) d no_rxdesc (λ e. omega (arith, e)),
        ready_frames-set descs d (suc i) j n (omega arith) (omega arith),
      )
      refl

readpkt-ready :
    (c : Card) (i : ℕ)
    → i ≡ (c.rdt + 1) % num_descs
    → is_ready (rx_at c i) ≡ true
    → readpkt c ≡ (true, take_packet c i)
unfolding readpkt
readpkt-ready c i e h = rw (sym e, h) refl

readpkt-empty :
    (c : Card) (i : ℕ)
    → i ≡ (c.rdt + 1) % num_descs
    → is_ready (rx_at c i) ≡ false
    → readpkt c ≡ (false, record c { rxidx = i })
unfolding readpkt
readpkt-empty c i e h = rw (sym e, h) refl

-- The frames of a round and of the rest of the loop.
take-frames :
    (c : Card) (n : ℕ)
    → c.has_rxfunc ≡ true
    → n < num_descs
    → is_ready (desc_at c.rxdescs (c.rdt + 1)) ≡ true
    → (take_packet c ((c.rdt + 1) % num_descs)).received
        ++ ready_frames
            (take_packet c ((c.rdt + 1) % num_descs)).rxdescs
            ((c.rdt + 1) % num_descs + 1)
            n
      ≡ c.received ++ ready_frames c.rxdescs (c.rdt + 1) (suc n)
unfolding ready_frames
take-frames c n f p h =
    ap (λ (b : Bool). (if b then c.received ++ (frame ∷ []) else c.received) ++ rest) f
    ∙ append_assoc c.received (frame ∷ []) rest
    ∙ ap (λ xs. c.received ++ (frame ∷ xs))
        (ready_frames-cong descs (i % num_descs + 1) (suc i) n (omega arith)
          ∙ ready_frames-set c.rxdescs (cleared (desc_at c.rxdescs i)) (suc i) i n (omega arith)
              (omega arith))
    ∙ ap (λ xs. c.received ++ xs) (sym (rw h refl))
  where
    i : ℕ
    i = c.rdt + 1

    frame : List ℕ
    frame = (desc_at c.rxdescs i).frame

    descs : List RxDesc
    descs = (take_packet c (i % num_descs)).rxdescs

    rest : List (List ℕ)
    rest = ready_frames descs (i % num_descs + 1) n

-- The loop of the receive interrupt, in a state with at most n ready descriptors.
pub record Drained (c : Card) (frames : List (List ℕ)) (r : Option Card) : Type 0 where
  pub last : Card
  pub returns : r ≡ some last
  pub delivered : last.received ≡ c.received ++ frames
  pub empty : is_ready (desc_at last.rxdescs (last.rdt + 1)) ≡ false

ready_frames-none :
    (descs : List RxDesc) (i n : ℕ)
    → is_ready (desc_at descs i) ≡ false
    → ready_frames descs i n ≡ []
unfolding ready_frames
ready_frames-none descs i zero h = refl
ready_frames-none descs i (suc n) h = rw h refl

empty-Drained :
    (n : ℕ) (c : Card)
    → is_ready (desc_at c.rxdescs (c.rdt + 1)) ≡ false
    → Drained c (ready_frames c.rxdescs (c.rdt + 1) n) (read_all (suc n) [] c)
unfolding read_all
empty-Drained n c h = record {
  last = record c { rxidx = (c.rdt + 1) % num_descs };
  returns = ap (again (read_all n) []) (readpkt-empty c ((c.rdt + 1) % num_descs) refl h);
  delivered =
      sym (append-nil c.received)
      ∙ ap (λ xs. c.received ++ xs) (sym (ready_frames-none c.rxdescs (c.rdt + 1) n h));
  empty = h;
}

taken-Drained :
    (n : ℕ) (c : Card)
    → c.has_rxfunc ≡ true
    → n < num_descs
    → is_ready (desc_at c.rxdescs (c.rdt + 1)) ≡ true
    → Drained
        (take_packet c ((c.rdt + 1) % num_descs))
        (ready_frames
          (take_packet c ((c.rdt + 1) % num_descs)).rxdescs
          ((c.rdt + 1) % num_descs + 1)
          n)
        (read_all (suc n) [] (take_packet c ((c.rdt + 1) % num_descs)))
    → Drained c (ready_frames c.rxdescs (c.rdt + 1) (suc n)) (read_all (suc (suc n)) [] c)
unfolding read_all
taken-Drained n c f p h d = record {
  last = d.last;
  returns =
      ap (again (read_all (suc n)) []) (readpkt-ready c ((c.rdt + 1) % num_descs) refl h)
      ∙ d.returns;
  delivered = d.delivered ∙ take-frames c n f p h;
  empty = d.empty;
}

-- With room for n + 1 rounds and at most n ready descriptors, the loop comes to an end.
read_all-Drained :
    (n : ℕ) (c : Card)
    → c.has_rxfunc ≡ true
    → n ≤ num_descs
    → count_ready c.rxdescs ≤ n
    → Drained c (ready_frames c.rxdescs (c.rdt + 1) n) (read_all (suc n) [] c)
read_all-Drained zero c f p q = elim (Bool-cases (is_ready (desc_at c.rxdescs (c.rdt + 1)))) [
  | inl h ↦ absurd (omega (arith, count_ready-set c.rxdescs ((c.rdt + 1) % num_descs) h))
  | inr h ↦ empty-Drained zero c h
]
read_all-Drained (suc n) c f p q = elim (Bool-cases (is_ready (desc_at c.rxdescs (c.rdt + 1)))) [
  | inl h ↦ taken-Drained n c f (omega arith) h (
      read_all-Drained n (take_packet c ((c.rdt + 1) % num_descs)) f (omega arith)
        (omega (arith, count_ready-set c.rxdescs ((c.rdt + 1) % num_descs) h)))
  | inr h ↦ empty-Drained (suc n) c h
]

-- The frames of the descriptors from i on, each as it is when its turn comes: behind a round the
-- card has made its next step.
unfoldable pub arriving : Traffic → List RxDesc → ℕ → List (List ℕ)
arriving [] descs i = ready_frames descs i num_descs
arriving (f ∷ fs) descs i =
    let rest =
      arriving fs (f (set descs (i % num_descs) (cleared (desc_at descs i)))) (i % num_descs + 1) in
    if is_ready (desc_at descs i) then (desc_at descs i).frame ∷ rest else []

-- The card does not change the size of the ring.
abbrev pub KeepsSize : Traffic → Type 0
KeepsSize [] = Unit
KeepsSize (f ∷ fs) = ((descs : List RxDesc) → length (f descs) ≡ length descs) × KeepsSize fs

-- The card behind a round and its next step.
abbrev stepped : (List RxDesc → List RxDesc) → Card → Card
stepped f c = let t = take_packet c ((c.rdt + 1) % num_descs) in record t { rxdescs = f t.rxdescs }

step-empty :
    (f : List RxDesc → List RxDesc) (fs : Traffic) (n : ℕ) (c : Card)
    → is_ready (desc_at c.rxdescs (c.rdt + 1)) ≡ false
    → Drained c (arriving (f ∷ fs) c.rxdescs (c.rdt + 1)) (read_all (suc n) (f ∷ fs) c)
unfolding read_all arriving
step-empty f fs n c h = record {
  last = record c { rxidx = (c.rdt + 1) % num_descs };
  returns = ap (again (read_all n) (f ∷ fs)) (readpkt-empty c ((c.rdt + 1) % num_descs) refl h);
  delivered = rw h (sym (append-nil c.received));
  empty = h;
}

step-taken :
    (f : List RxDesc → List RxDesc) (fs : Traffic) (n : ℕ) (c : Card)
    → c.has_rxfunc ≡ true
    → is_ready (desc_at c.rxdescs (c.rdt + 1)) ≡ true
    → Drained
        (stepped f c)
        (arriving fs (stepped f c).rxdescs ((stepped f c).rdt + 1))
        (read_all n fs (stepped f c))
    → Drained c (arriving (f ∷ fs) c.rxdescs (c.rdt + 1)) (read_all (suc n) (f ∷ fs) c)
unfolding read_all arriving
step-taken f fs n c rx h d = record {
  last = d.last;
  returns =
      ap (again (read_all n) (f ∷ fs)) (readpkt-ready c ((c.rdt + 1) % num_descs) refl h)
      ∙ d.returns;
  delivered =
      d.delivered
      ∙ ap (λ (b : Bool). (if b then c.received ++ (frame ∷ []) else c.received) ++ rest) rx
      ∙ append_assoc c.received (frame ∷ []) rest
      ∙ ap (λ xs. c.received ++ xs) (sym (rw h refl));
  empty = d.empty;
}
  where
    frame : List ℕ
    frame = (desc_at c.rxdescs (c.rdt + 1)).frame

    rest : List (List ℕ)
    rest = arriving fs (stepped f c).rxdescs ((c.rdt + 1) % num_descs + 1)

-- When the card makes finitely many steps while the loop of the receive interrupt runs, whatever
-- they write into the 32 descriptors, the loop comes to an end within 33 rounds more than those. It
-- has then handed over the frames that lay ready in a row behind RDT when their turn came, each once
-- and in their order, and the next descriptor is not ready.
pub read_all_drains :
    (traffic : Traffic) (c : Card)
    → c.has_rxfunc ≡ true
    → length c.rxdescs ≡ num_descs
    → KeepsSize traffic
    → Drained c
        (arriving traffic c.rxdescs (c.rdt + 1))
        (read_all (length traffic + (num_descs + 1)) traffic c)
unfolding arriving
read_all_drains [] c f l k =
    read_all-Drained num_descs c f (omega arith) (omega (arith, count_ready-length c.rxdescs, l))
read_all_drains (s ∷ steps) c f l k =
    let more : suc (length steps + (num_descs + 1)) ≡ length (s ∷ steps) + (num_descs + 1) =
      omega arith in
    subst (λ n. Drained c (arriving (s ∷ steps) c.rxdescs (c.rdt + 1)) (read_all n (s ∷ steps) c))
      more
      (elim (Bool-cases (is_ready (desc_at c.rxdescs (c.rdt + 1)))) [
        | inl h ↦ step-taken s steps (length steps + (num_descs + 1)) c f h (
            read_all_drains steps (stepped s c) f
              (k.0 _ ∙ length-set c.rxdescs ((c.rdt + 1) % num_descs) _ ∙ l) k.1)
        | inr h ↦ step-empty s steps (length steps + (num_descs + 1)) c h
      ])
