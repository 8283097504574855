-- ===== src/Cga/Ansi/Parse.antt =====
-- What a whole escape sequence leaves in the parser, and what holds between bytes.
use eggos.Base.{
  ℕ, ◌≡◌, refl, ap, ◌∙◌, ◌⊎◌, inl, inr, Bool, true, false, List, [], ◌∷◌, ◌++◌, append-nil,
  append_assoc, ◌&&◌, Bool-cases, ◌==◌, if◌then◌else◌, arith,
}
use eggos.Cga.Ansi.{
  State, begin, left, param, done, Outcome, more, invalid_char, csi_done, Parser, esc_byte,
  is_param, is_final, split, decode_param, step,
}

-- Feeds bytes up to the first outcome other than nil, as the loop of the test does.
unfoldable pub feed : Parser → List ℕ → Parser × Outcome
feed p [] = (p, more)
feed p (b ∷ bs) =
    let rest = feed (step p b).0 bs in elim ((step p b).1) [ more ↦ rest | _ ↦ step p b ]

abbrev pub all {ℓ} : {A : Type ℓ} → (A → Bool) → List A → Bool
all f [] = true
all f (x ∷ xs) = f x && all f xs

-- The bytes of one parameter: those of the range, without the separator.
abbrev pub is_plain : ℕ → Bool
is_plain b = is_param b && (if b == b';' then false else true)

-- Parameters written with `;` between them.
unfoldable pub join : List ℕ → List (List ℕ) → List ℕ
join p [] = p
join p (q ∷ qs) = p ++ (b';' ∷ join q qs)

split-plain : (p s : List ℕ) → all is_plain p ≡ true → split (p ++ (b';' ∷ s)) ≡ p ∷ split s
unfolding split
split-plain [] s h = refl
split-plain (b ∷ p) s h = ground (arith, split-plain p s)

split-plain_all : (p : List ℕ) → all is_plain p ≡ true → split p ≡ p ∷ []
unfolding split
split-plain_all [] h = refl
split-plain_all (b ∷ p) h = ground (arith, split-plain_all p)

-- Splitting what was joined gives the parameters back.
pub split-join :
    (p : List ℕ) (qs : List (List ℕ))
    → all is_plain p ≡ true
    → all (all is_plain) qs ≡ true
    → split (join p qs) ≡ p ∷ qs
unfolding join
split-join p [] h k = split-plain_all p h
split-join p (q ∷ qs) h k = ground (arith, split-plain p (join q qs), split-join q qs)

all-append :
    (f : ℕ → Bool) (xs ys : List ℕ) → all f xs ≡ true → all f ys ≡ true → all f (xs ++ ys) ≡ true
all-append f [] ys h k = k
all-append f (x ∷ xs) ys h k = ground (arith, all-append f xs ys)

all-plain : (xs : List ℕ) → all is_plain xs ≡ true → all is_param xs ≡ true
all-plain [] h = refl
all-plain (x ∷ xs) h = ground (arith, all-plain xs)

pub all-join :
    (p : List ℕ) (qs : List (List ℕ))
    → all is_plain p ≡ true
    → all (all is_plain) qs ≡ true
    → all is_param (join p qs) ≡ true
unfolding join
all-join p [] h k = all-plain p h
all-join p (q ∷ qs) h k =
    ground (arith, all-append is_param p (b';' ∷ join q qs), all-plain p, all-join q qs)

-- A parser that is collecting parameters.
abbrev pub collecting : State → ℕ → List ℕ → Parser
collecting s a buf = record { state = s; action = a; parambuf = buf; params = [] }

pub step-param_byte :
    (s : State) (a b : ℕ) (buf : List ℕ)
    → (s ≡ left) ⊎ (s ≡ param)
    → is_param b ≡ true
    → step (collecting s a buf) b ≡ (collecting param a (buf ++ (b ∷ [])), more)
unfolding step
step-param_byte s a b buf h k = ground arith

pub step-final_byte :
    (s : State) (a b : ℕ) (buf : List ℕ)
    → (s ≡ left) ⊎ (s ≡ param)
    → is_final b ≡ true
    → step (collecting s a buf) b ≡ (decode_param (collecting done b buf), csi_done)
unfolding step
step-final_byte s a b buf h k = ground arith

-- From stateLeft on, parameter bytes pile up in the buffer, and the final byte closes.
feed_param :
    (s : State) (bs : List ℕ) (a f : ℕ) (buf : List ℕ)
    → (s ≡ left) ⊎ (s ≡ param)
    → all is_param bs ≡ true
    → is_final f ≡ true
    → feed (collecting s a buf) (bs ++ (f ∷ []))
      ≡ (decode_param (collecting done f (buf ++ bs)), csi_done)
unfolding feed
feed_param s [] a f buf h k l = ground (arith, step-final_byte s a f buf, append-nil buf)
feed_param s (b ∷ bs) a f buf h k l = ground (
  arith,
  step-param_byte s a b buf,
  feed_param param bs a f (buf ++ (b ∷ [])),
  append_assoc buf (b ∷ []) bs,
)

abbrev pub fresh : Parser
fresh = collecting begin 0 []

-- What the parser holds once the sequence with parameter bytes `body` and final byte `f` is read.
abbrev pub parsed : List ℕ → ℕ → Parser
parsed body f = decode_param (collecting done f body)

pub action-parsed : (body : List ℕ) (f : ℕ) → (parsed body f).action ≡ f
unfolding decode_param
action-parsed [] f = refl
action-parsed (b ∷ body) f = refl

pub params-parsed :
    (body : List ℕ) (f : ℕ) → (parsed body f).params ≡ elim body [ [] ↦ [] | b ∷ s ↦ split (b ∷ s) ]
unfolding decode_param
params-parsed [] f = refl
params-parsed (b ∷ body) f = refl

abbrev pub sequence : List ℕ → ℕ → List ℕ
sequence body f = esc_byte ∷ b'[' ∷ (body ++ (f ∷ []))

feed-sequence :
    (body : List ℕ) (f : ℕ)
    → all is_param body ≡ true
    → is_final f ≡ true
    → feed fresh (sequence body f) ≡ (parsed body f, csi_done)
unfolding feed step
feed-sequence body f h k = feed_param left body 0 f [] (inl refl) h k

-- A sequence ESC [ p₁ ; … ; pₙ f, read from a reset parser, ends with errCSIDone at its final byte
-- and leaves the action f and exactly the parameters p₁ … pₙ, the empty ones included, if at least
-- one parameter byte or separator stands in it, and no parameter otherwise.
pub feed_csi :
    (p : List ℕ) (qs : List (List ℕ)) (f : ℕ)
    → all is_plain p ≡ true
    → all (all is_plain) qs ≡ true
    → is_final f ≡ true
    → let (q, out) = feed fresh (sequence (join p qs) f) in
      (out ≡ csi_done) × (q.action ≡ f) × (q.params ≡ elim (join p qs) [ [] ↦ [] | _ ∷ _ ↦ p ∷ qs ])
unfolding decode_param
feed_csi p qs f h k l =
    rw (feed-sequence (join p qs) f (all-join p qs h k) l)
      (refl, ground arith, ground (arith, split-join p qs))

step-other_byte :
    (s : State) (a b : ℕ) (buf : List ℕ)
    → (s ≡ left) ⊎ (s ≡ param)
    → is_param b ≡ false
    → is_final b ≡ false
    → step (collecting s a buf) b ≡ (collecting s a buf, invalid_char)
unfolding step
step-other_byte s a b buf h k l = ground arith

-- A sequence's tail, read from stateLeft or stateParam with `buf` collected.
abbrev Tail : List ℕ → List ℕ → Parser → Type 0
Tail buf bs q =
    (body : List ℕ) × (f : ℕ) × (rest : List ℕ) × (bs ≡ body ++ (f ∷ rest))
    × (all is_param body ≡ true)
    × (is_final f ≡ true)
    × (q ≡ parsed (buf ++ body) f)

Tail-cons :
    (b : ℕ) (buf bs : List ℕ) (q : Parser)
    → is_param b ≡ true
    → Tail (buf ++ (b ∷ [])) bs q
    → Tail buf (b ∷ bs) q
Tail-cons b buf bs q h (body, f, rest, e, all, fin, r) = (
  b ∷ body,
  f,
  rest,
  ap (λ t. b ∷ t) e,
  ground arith,
  fin,
  r ∙ ap (λ t. parsed t f) (append_assoc buf (b ∷ []) body),
)

feed-Tail :
    (s : State) (bs : List ℕ) (a : ℕ) (buf : List ℕ) (q : Parser)
    → (s ≡ left) ⊎ (s ≡ param)
    → feed (collecting s a buf) bs ≡ (q, csi_done)
    → Tail buf bs q
unfolding feed
feed-Tail s [] a buf q h e = cc
feed-Tail s (b ∷ bs) a buf q h e = elim (Bool-cases (is_param b)) [
  | inl par ↦ Tail-cons b buf bs q par (
      feed-Tail param bs a (buf ++ (b ∷ [])) q (inr refl)
        (ground (arith, step-param_byte s a b buf h par)))
  | inr other ↦ elim (Bool-cases (is_final b)) [
    | inl fin ↦ (
      [],
      b,
      bs,
      refl,
      refl,
      fin,
      ground (arith, step-final_byte s a b buf h fin, append-nil buf),
    )
    | inr bad ↦ absurd (ground (arith, step-other_byte s a b buf h other bad))
  ]
]

feed_head :
    (b c : ℕ) (bs : List ℕ) (q : Parser)
    → feed fresh (b ∷ c ∷ bs) ≡ (q, csi_done)
    → (b ≡ esc_byte) × (c ≡ b'[') × (feed (collecting left 0 []) bs ≡ (q, csi_done))
unfolding feed step
feed_head b c bs q e = ground arith

-- errCSIDone is reported for such sequences alone: whatever bytes a reset parser is fed, if it
-- reports errCSIDone, they begin with ESC [, parameter bytes and one final byte, and the parser
-- holds what that sequence says.
pub feed_csi_sound :
    (bs : List ℕ) (q : Parser)
    → feed fresh bs ≡ (q, csi_done)
    → (body : List ℕ) × (f : ℕ) × (rest : List ℕ) × (bs ≡ sequence body f ++ rest)
      × (all is_param body ≡ true)
      × (is_final f ≡ true)
      × (q ≡ parsed body f)
unfolding feed step
feed_csi_sound [] q e = cc
feed_csi_sound (b ∷ []) q e = absurd (ground arith)
feed_csi_sound (b ∷ c ∷ bs) q e =
    let (at_esc, at_bracket, more_bytes) = feed_head b c bs q e in
    let (body, f, rest, shape, all, fin, r) = feed-Tail left bs 0 [] q (inl refl) more_bytes in
    (body, f, rest, ground (arith, append_assoc body (f ∷ []) rest), all, fin, r)
