-- ===== src/Inet/Stream.antt =====
-- inet/sockfile.go: reads of any sizes hand on the bytes that the endpoint gave, each once and in
-- order.
use eggos.Base.{
  ℕ, zero, suc, ◌≤◌, ◌≡◌, refl, sym, ap, ◌∙◌, true, Option, none, some, List, [], ◌∷◌, ◌++◌, length,
  take, drop, min, ◌==◌, Bool-cases, inl, inr, append_assoc, append-nil, arith,
}
use eggos.Kernel.Epoll.{Epoll}
use eggos.Inet.{
  would_block, closed_for_receive, closed_for_send, no_link_address, connect_started,
  connection_refused, other_error, Answer, value, refused, Network, Sock, hand_out, ReadReply,
  sock_read, read_from, read_answer,
}

take-drop : (n : ℕ) (xs : List ℕ) → take n xs ++ drop n xs ≡ xs
take-drop zero xs = refl
take-drop (suc n) [] = refl
take-drop (suc n) (x ∷ xs) = ap (λ ys. x ∷ ys) (take-drop n xs)

take-all : (n : ℕ) (xs : List ℕ) → length xs ≤ n → take n xs ≡ xs
take-all zero [] h = refl
take-all zero (x ∷ xs) h = absurd (omega (arith, h))
take-all (suc n) [] h = refl
take-all (suc n) (x ∷ xs) h = ap (λ ys. x ∷ ys) (take-all n xs (omega (arith, h)))

is_all : (a b : ℕ) → (min a b == b) ≡ true → b ≤ a
is_all a b h = ground arith

module _ (N : Network) where
  open N use {Endpoint, World}

  -- A view that the endpoint gives, or none.
  abbrev pub given_by : Answer (List ℕ) → List ℕ
  given_by (value v) = v
  given_by (refused e) = []

  abbrev pub waiting : Option (List ℕ) → List ℕ
  waiting none = []
  waiting (some buf) = buf

  -- A socket, with the bytes that its endpoint gave and those that its reads returned.
  pub record History : Type 0 where
    pub sock : Sock N
    pub given : List ℕ
    pub returned : List ℕ

  abbrev taken_now : World → Sock N → Option (List ℕ) → List ℕ
  taken_now w s none = given_by (N.ep_read w s.ep).0
  taken_now w s (some buf) = []

  abbrev pub after_read : History → World → ReadReply N → History
  after_read h w r = record {
    sock = r.sock;
    given = h.given ++ taken_now w h.sock h.sock.rdbuf;
    returned = h.returned ++ r.data_read;
  }

  -- Reads of any size, in whatever states of the stack and of the registered descriptors.
  pub data Reads (h : History) : History → Type 0 where
    fresh : Reads h h
    read :
        {a : History}
        → Reads h a
        → (w : World) (k : Epoll) (n : ℕ) → Reads h (after_read a w (sock_read N w k a.sock n))

  abbrev pub IsStream : History → Type 0
  IsStream h = h.given ≡ h.returned ++ waiting h.sock.rdbuf

  hand_out-split :
      (k : Epoll) (s : Sock N) (buf : List ℕ) (n : ℕ)
      → (hand_out N k s buf n).0 ++ waiting (hand_out N k s buf n).1.0.rdbuf ≡ buf
  hand_out-split k s buf n = elim (Bool-cases (min n (length buf) == length buf)) [
    | inl h ↦ rw h (append-nil (take n buf) ∙ take-all n buf (is_all n (length buf) h))
    | inr h ↦ rw h (take-drop n buf)
  ]

  read_from-split :
      (w : World) (k : Epoll) (s : Sock N) (n : ℕ) (rdbuf : Option (List ℕ))
      → s.rdbuf ≡ rdbuf
      → waiting rdbuf ++ taken_now w s rdbuf
        ≡ (read_from N w k s n rdbuf).data_read ++ waiting (read_from N w k s n rdbuf).sock.rdbuf
  read_from-split w k s n (some buf) e = append-nil buf ∙ sym (hand_out-split k s buf n)
  read_from-split w k s n none e = by_answer (N.ep_read w s.ep)
    where
      by_answer :
          (r : Answer (List ℕ) × World)
          → given_by r.0
            ≡ (read_answer N k s n r).data_read ++ waiting (read_answer N k s n r).sock.rdbuf
      by_answer (value v, w') = sym (hand_out-split k s v n)
      by_answer (refused would_block, w') = ap waiting (sym e)
      by_answer (refused closed_for_receive, w') = ap waiting (sym e)
      by_answer (refused closed_for_send, w') = ap waiting (sym e)
      by_answer (refused no_link_address, w') = ap waiting (sym e)
      by_answer (refused connect_started, w') = ap waiting (sym e)
      by_answer (refused connection_refused, w') = ap waiting (sym e)
      by_answer (refused other_error, w') = ap waiting (sym e)

  read-IsStream :
      (h : History) (w : World) (k : Epoll) (n : ℕ)
      → IsStream h
      → IsStream (after_read h w (sock_read N w k h.sock n))
  unfolding sock_read
  read-IsStream h w k n v =
      ap (λ xs. xs ++ taken_now w h.sock h.sock.rdbuf) v
      ∙ append_assoc h.returned (waiting h.sock.rdbuf) (taken_now w h.sock h.sock.rdbuf)
      ∙ ap (λ xs. h.returned ++ xs) (read_from-split w k h.sock n h.sock.rdbuf refl)
      ∙ sym (append_assoc h.returned _ _)

  -- However the sizes of the reads and the views of the endpoint fall: what the reads of a socket
  -- have returned so far, followed by the rest that the socket keeps, is what its endpoint gave.
  pub Reads-IsStream : {a b : History} → Reads a b → IsStream a → IsStream b
  Reads-IsStream fresh v = v
  Reads-IsStream (read {a} r w k n) v = read-IsStream a w k n (Reads-IsStream r v)
