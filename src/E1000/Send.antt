-- ===== src/E1000/Send.antt =====
-- e1000/e1000.go: what Transmit puts into the ring, and how the ring runs over.
use eggos.Base.{
  ℕ, zero, suc, ◌+◌, ◌%◌, ◌<◌, ◌≤◌, ◌≡◌, ◌≢◌, refl, sym, ap, ◌∙◌, subst, Bool, true, false, List,
  [], ◌∷◌, ◌++◌, length, get_or, set, take, drop, ◌==◌, arith, get_or-set_self, get_or-set_ne,
  length-set, length-append, length-take, length-drop, ◌^◌, append_assoc, append-nil, le→ltb, leb,
  ◌&&◌,
}
use eggos.E1000.{
  num_descs, page_size, TxDesc, Card, no_txdesc, tx_at, Sent, sent, overlay, fill, queued, transmit,
}

unfoldable pub flatten : List (List ℕ) → List ℕ
flatten [] = []
flatten (v ∷ vs) = v ++ flatten vs

take-append : (n : ℕ) (xs ys : List ℕ) → n ≡ length xs → take n (xs ++ ys) ≡ xs
take-append zero [] ys h = refl
take-append (suc n) [] ys h = absurd (omega (arith, h))
take-append zero (x ∷ xs) ys h = absurd (omega (arith, h))
take-append (suc n) (x ∷ xs) ys h = ap (λ zs. x ∷ zs) (take-append n xs ys (omega (arith, h)))

length-overlay :
    (buffer v : List ℕ) (at : ℕ)
    → at + length v ≤ length buffer
    → length (overlay buffer at v) ≡ length buffer
length-overlay buffer v at h = omega (
  arith,
  length-append (take at buffer) (v ++ drop (at + length v) buffer),
  length-append v (drop (at + length v) buffer),
  length-take at buffer,
  length-drop (at + length v) buffer,
)

take-overlay :
    (buffer v : List ℕ) (at : ℕ)
    → at ≤ length buffer
    → take (at + length v) (overlay buffer at v) ≡ take at buffer ++ v
take-overlay buffer v at h =
    ap (take (at + length v)) (sym (append_assoc (take at buffer) v (drop (at + length v) buffer)))
    ∙ take-append (at + length v) (take at buffer ++ v) (drop (at + length v) buffer)
        (omega (arith, length-append (take at buffer) v, length-take at buffer))

-- What the loop over the views leaves in the buffer, from position at on.
record Filled (buffer : List ℕ) (at : ℕ) (views : List (List ℕ)) : Type 0 where
  result : List ℕ
  fills : fill buffer at views ≡ (true, (result, at + length (flatten views)))
  size : length result ≡ page_size
  holds : take (at + length (flatten views)) result ≡ take at buffer ++ flatten views

fill-Filled :
    (buffer : List ℕ) (at : ℕ) (views : List (List ℕ))
    → length buffer ≡ page_size
    → at + length (flatten views) ≤ page_size
    → Filled buffer at views
unfolding flatten fill
fill-Filled buffer at [] l h = record {
  result = buffer;
  fills = ap (λ n. (true, (buffer, n))) (omega arith);
  size = l;
  holds = ap (λ n. take n buffer) (omega arith) ∙ sym (append-nil (take at buffer));
}
fill-Filled buffer at (v ∷ vs) l h =
    let r =
      fill-Filled (overlay buffer at v) (at + length v) vs
        (length-overlay buffer v at (omega (arith, length-append v (flatten vs))) ∙ l)
        (omega (arith, length-append v (flatten vs))) in
    record {
      result = r.result;
      fills =
          rw (le→ltb page_size (at + length v) (omega (arith, length-append v (flatten vs))))
            (r.fills ∙ ap (λ n. (true, (r.result, n))) total);
      size = r.size;
      holds =
          ap (λ n. take n r.result) (sym total)
          ∙ r.holds
          ∙ ap (λ xs. xs ++ flatten vs) (take-overlay buffer v at (omega arith))
          ∙ append_assoc (take at buffer) v (flatten vs);
    }
  where
    total : at + length v + length (flatten vs) ≡ at + length (v ++ flatten vs)
    total = omega (arith, length-append v (flatten vs))

-- A descriptor that the card is done with, and its page.
pub record IsFree (d : TxDesc) : Type 0 where
  pub done : (d.status == 0) ≡ false
  pub page : length d.buffer ≡ page_size

-- A packet in the ring.
pub record Queued (c : Card) (packet : List ℕ) (r : Sent × Card) : Type 0 where
  pub accepted : r.0 ≡ sent
  pub contents : take (tx_at r.1 c.txidx).len (tx_at r.1 c.txidx).buffer ≡ packet
  pub owned : (tx_at r.1 c.txidx).status ≡ 0
  pub others : (j : ℕ) → j ≢ c.txidx → tx_at r.1 j ≡ tx_at c j
  pub advanced : r.1.txidx ≡ (c.txidx + 1) % num_descs
  pub told : r.1.tdt ≡ r.1.txidx
  pub ring : length r.1.txdescs ≡ length c.txdescs

queued-Queued :
    (c : Card) (views : List (List ℕ)) (buffer : List ℕ)
    → c.txidx < length c.txdescs
    → length (flatten views) ≤ page_size
    → take (length (flatten views)) buffer ≡ flatten views
    → Queued c (flatten views) (queued c (true, (buffer, length (flatten views))))
queued-Queued c views buffer p q h = record {
  accepted = refl;
  contents =
      ap (λ (d : TxDesc). take d.len d.buffer) here ∙ ap (λ n. take n buffer) (omega arith) ∙ h;
  owned = ap TxDesc.status here;
  others = λ j ne. get_or-set_ne c.txdescs c.txidx j desc no_txdesc (λ e. ne (sym e));
  advanced = refl;
  told = refl;
  ring = length-set c.txdescs c.txidx desc;
}
  where
    desc : TxDesc
    desc = record { buffer = buffer; len = length (flatten views) % 2 ^ 16; cmd = 11; status = 0 }

    here : get_or (set c.txdescs c.txidx desc) c.txidx no_txdesc ≡ desc
    here = get_or-set_self c.txdescs c.txidx desc no_txdesc p

fill-Queued :
    (c : Card) (views : List (List ℕ))
    → c.txidx < length c.txdescs
    → length (tx_at c c.txidx).buffer ≡ page_size
    → length (flatten views) ≤ page_size
    → Queued c (flatten views) (queued c (fill (tx_at c c.txidx).buffer 0 views))
fill-Queued c views p l q =
    let f = fill-Filled (tx_at c c.txidx).buffer 0 views l (omega arith) in
    subst (λ x. Queued c (flatten views) (queued c x))
      (ap (λ n. (true, (f.result, n))) (omega arith) ∙ sym f.fills)
      (queued-Queued c views f.result p q (ap (λ n. take n f.result) (omega arith) ∙ f.holds))

-- A packet of at most a page, handed over while the next descriptor is free, is put there whole:
-- the descriptor holds the views of the packet one behind the other and their length, belongs to
-- the card, which is told of it by TDT, and the other descriptors stay as they are.
pub transmit-Queued :
    (c : Card) (views : List (List ℕ))
    → c.txidx < length c.txdescs
    → IsFree (tx_at c c.txidx)
    → length (flatten views) ≤ page_size
    → Queued c (flatten views) (transmit c views)
unfolding transmit
transmit-Queued c views p free q = rw free.done (fill-Queued c views p free.page q)

-- Packets handed over one after the other, none of them refused.
unfoldable pub send_all : Card → List (List (List ℕ)) → Card
send_all c [] = c
send_all c (p ∷ ps) = send_all (transmit c p).1 ps

unfoldable pub all_small : List (List (List ℕ)) → Bool
all_small [] = true
all_small (p ∷ ps) = leb (length (flatten p)) page_size && all_small ps

-- The next n descriptors are free.
abbrev pub AllFree : Card → ℕ → Type 0
AllFree c n = (m : ℕ) → m < n → IsFree (tx_at c ((c.txidx + m) % num_descs))

AllFree-transmit :
    (c : Card) (views : List (List ℕ)) (n : ℕ)
    → n < num_descs
    → c.txidx < num_descs
    → AllFree c (suc n)
    → Queued c (flatten views) (transmit c views)
    → AllFree (transmit c views).1 n
AllFree-transmit c views n p q free done m h =
    subst IsFree
      (sym (
        ap (λ i. tx_at (transmit c views).1 ((i + m) % num_descs)) done.advanced
        ∙ ap (tx_at (transmit c views).1) (omega arith)
        ∙ done.others ((c.txidx + suc m) % num_descs) (λ e. omega (arith, e))))
      (free (suc m) (omega arith))

send_all-tdt :
    (c : Card) (ps : List (List (List ℕ)))
    → length c.txdescs ≡ num_descs
    → c.txidx < num_descs
    → c.tdt ≡ c.txidx
    → length ps ≤ num_descs
    → AllFree c (length ps)
    → all_small ps ≡ true
    → (send_all c ps).tdt ≡ (c.txidx + length ps) % num_descs
unfolding send_all all_small
send_all-tdt c [] l p t q free small = omega (arith, t)
send_all-tdt c (v ∷ vs) l p t q free small =
    let done =
      transmit-Queued c v (omega (arith, l))
        (subst (λ i. IsFree (tx_at c i)) (omega arith) (free 0 (omega arith))) (ground arith) in
    send_all-tdt (transmit c v).1 vs (done.ring ∙ l) (omega (arith, done.advanced)) done.told
      (omega arith) (AllFree-transmit c v (length vs) (omega arith) p free done) (ground arith)
    ∙ omega (arith, done.advanced)

-- The driver fills the whole ring: from a ring of free descriptors it takes 32 packets while the
-- card sends none, and TDT is then what it was, which the card takes for an empty ring.
pub send_all_wraps :
    (c : Card) (ps : List (List (List ℕ)))
    → length c.txdescs ≡ num_descs
    → c.txidx < num_descs
    → c.tdt ≡ c.txidx
    → length ps ≡ num_descs
    → AllFree c num_descs
    → all_small ps ≡ true
    → (send_all c ps).tdt ≡ c.tdt
send_all_wraps c ps l p t q free small =
    send_all-tdt c ps l p t (omega (arith, q)) (λ m h. free m (omega (arith, h, q))) small
    ∙ omega (arith, q, t)
