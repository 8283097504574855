-- ===== src/Kernel/Forward/Handover.antt =====
-- kernel/syscall.go: the syscall task fetches every forwarded call once, in the order in which they
-- were submitted.
use eggos.Base.{
  ℕ, ◌-◌, Bool-cases, inl, inr, ◌≡◌, ◌≢◌, refl, sym, ap, ◌∙◌, subst, true, false, Option, none,
  some, List, [], ◌∷◌, ◌++◌, ◌==◌, if◌then◌else◌, append-nil, arith,
}
use eggos.Base.Words.{word}
use eggos.Kernel.Thread.{Kernel, sleepon, wakeup}
use eggos.Kernel.Forward.{
  Forward, Attempt, waits, submitted, forward_call, fetch_pending_call, done_call,
}

-- The hand-over with its history: the calls that were submitted, and those that were fetched.
pub record History : Type 0 where
  pub forward : Forward
  pub given : List ℕ
  pub fetched : List ℕ

abbrev pub submit_history : History → ℕ → Attempt × Forward → History
submit_history h call (waits, f) = record h { forward = f }
submit_history h call (submitted, f) = record h { forward = f; given = h.given ++ (call ∷ []) }

abbrev pub fetch_history : History → Option ℕ × Forward → History
fetch_history h (none, f) = record h { forward = f }
fetch_history h (some call, f) = record h { forward = f; fetched = h.fetched ++ (call ∷ []) }

-- A round of a caller, of the syscall task or of a handler, or any change of the threads between.
pub data Step (h : History) : History → Type 0 where
  submit :
      (call call_lock : ℕ)
      → call ≢ 0
      → Step h (submit_history h call (forward_call h.forward call call_lock))
  fetch : Step h (fetch_history h (fetch_pending_call h.forward))
  done : (call_lock : ℕ) → Step h (record h { forward = done_call h.forward call_lock })
  threads : (k : Kernel) → Step h (record h { forward = record h.forward { kernel = k } })

pub data Reach (h : History) : History → Type 0 where
  here : Reach h h
  next : {a b : History} → Reach h a → Step a b → Reach h b

abbrev pub in_slot : ℕ → List ℕ
in_slot pending = if pending == 0 then [] else pending ∷ []

-- What was submitted is what was fetched, and the call in the slot.
abbrev pub InOrder : History → Type 0
InOrder h = h.given ≡ h.fetched ++ in_slot h.forward.pending

forward_call-free :
    (f : Forward) (call call_lock : ℕ)
    → (f.pending == 0) ≡ true
    → forward_call f call call_lock ≡ (
      submitted,
      record f { pending = call; kernel = sleepon (wakeup f.kernel f.lock (word - 1)) call_lock },
    )
unfolding forward_call
forward_call-free f call call_lock e = rw e refl

forward_call-busy :
    (f : Forward) (call call_lock : ℕ)
    → (f.pending == 0) ≡ false
    → forward_call f call call_lock ≡ (waits, record f { kernel = sleepon f.kernel f.lock })
unfolding forward_call
forward_call-busy f call call_lock e = rw e refl

fetch-empty :
    (f : Forward)
    → (f.pending == 0) ≡ true
    → fetch_pending_call f ≡ (none, record f { kernel = sleepon f.kernel f.lock })
unfolding fetch_pending_call
fetch-empty f e = rw e refl

fetch-full :
    (f : Forward)
    → (f.pending == 0) ≡ false
    → fetch_pending_call f
      ≡ (some f.pending, record f { pending = 0; kernel = wakeup f.kernel f.lock 1 })
unfolding fetch_pending_call
fetch-full f e = rw e refl

in_slot-free : (pending : ℕ) → (pending == 0) ≡ true → in_slot pending ≡ []
in_slot-free pending e = rw e refl

in_slot-busy : (pending : ℕ) → (pending == 0) ≡ false → in_slot pending ≡ pending ∷ []
in_slot-busy pending e = rw e refl

ne→is_busy : (call : ℕ) → call ≢ 0 → (call == 0) ≡ false
ne→is_busy call ne = ground arith

submit-InOrder :
    (h : History) (call call_lock : ℕ)
    → call ≢ 0
    → InOrder h
    → InOrder (submit_history h call (forward_call h.forward call call_lock))
submit-InOrder h call call_lock ne v = elim (Bool-cases (h.forward.pending == 0)) [
  | inl e ↦
      subst (λ r. InOrder (submit_history h call r))
        (sym (forward_call-free h.forward call call_lock e))
        (ap (λ xs. xs ++ (call ∷ []))
            (v
              ∙ ap (λ xs. h.fetched ++ xs) (in_slot-free h.forward.pending e)
              ∙ append-nil h.fetched)
          ∙ ap (λ xs. h.fetched ++ xs) (sym (in_slot-busy call (ne→is_busy call ne))))
  | inr e ↦
      subst (λ r. InOrder (submit_history h call r))
        (sym (forward_call-busy h.forward call call_lock e)) v
]

fetch-InOrder : (h : History) → InOrder h → InOrder (fetch_history h (fetch_pending_call h.forward))
fetch-InOrder h v = elim (Bool-cases (h.forward.pending == 0)) [
  | inl e ↦ subst (λ r. InOrder (fetch_history h r)) (sym (fetch-empty h.forward e)) v
  | inr e ↦
      subst (λ r. InOrder (fetch_history h r)) (sym (fetch-full h.forward e))
        (v ∙ ap (λ xs. h.fetched ++ xs) (in_slot-busy h.forward.pending e) ∙ sym (append-nil _))
]

Step-InOrder : {a b : History} → Step a b → InOrder a → InOrder b
unfolding done_call
Step-InOrder {a} (submit call call_lock ne) v = submit-InOrder a call call_lock ne v
Step-InOrder {a} fetch v = fetch-InOrder a v
Step-InOrder (done call_lock) v = v
Step-InOrder (threads k) v = v

-- Whatever the callers, the syscall task, the handlers and the scheduler do in whatever order: from
-- a state in which it is so, the calls that were submitted are always, in their order, those that
-- the syscall task has fetched followed by the one in the slot, if any. No call is lost, fetched
-- twice or overtaken. The address of a call is not 0.
pub Reach-InOrder : {a b : History} → Reach a b → InOrder a → InOrder b
Reach-InOrder here v = v
Reach-InOrder (next r s) v = Step-InOrder s (Reach-InOrder r v)
