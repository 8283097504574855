-- ===== src/Kernel/Wakeup.antt =====
-- kernel/lock.go: which threads a wakeup makes runnable.
use eggos.Base.{
  ℕ, zero, suc, ◌+◌, ◌≤◌, ◌<◌, ◌≡◌, refl, sym, ap, ◌∙◌, Bool, true, false, ◌&&◌, List, [], ◌∷◌, ltb,
  ◌==◌, if◌then◌else◌, Bool-cases, inl, inr, take, length, arith,
}
use eggos.Kernel.Thread.{Thread, runnable, Kernel, thread, wake_from, wakeup}

-- Waking one thread.
abbrev pub woken : Thread → Thread
woken t = record t { state = runnable }

-- How many threads of a list sleep on the lock.
unfoldable pub waiting : ℕ → List Thread → ℕ
waiting lock [] = 0
waiting lock (t ∷ ts) = let rest = waiting lock ts in if t.sleep_key == lock then suc rest else rest

-- What wakeup does to a thread with `before` threads of its lock in front of it.
abbrev pub wake_one : ℕ → ℕ → ℕ → Thread → Thread
wake_one lock limit before t = if t.sleep_key == lock && ltb before limit then woken t else t

wake_one-spent :
    (lock limit c c' : ℕ) (t : Thread)
    → limit ≤ c
    → limit ≤ c'
    → wake_one lock limit c t ≡ wake_one lock limit c' t
wake_one-spent lock limit c c' t p q = ground arith

wake_from-spent :
    (lock limit cnt : ℕ) (ts : List Thread) → limit ≤ cnt → wake_from lock limit cnt ts ≡ ts
unfolding wake_from
wake_from-spent lock limit cnt [] p = refl
wake_from-spent lock limit cnt (t ∷ ts) p = ground (arith, wake_from-spent lock limit cnt ts p)

abbrev wakes : ℕ → ℕ → ℕ → Thread → Bool
wakes lock limit cnt t = t.sleep_key == lock && ltb cnt limit

wake_from-woken :
    (lock limit cnt : ℕ) (t : Thread) (ts : List Thread)
    → wakes lock limit cnt t ≡ true
    → wake_from lock limit cnt (t ∷ ts) ≡ woken t ∷ wake_from lock limit (suc cnt) ts
unfolding wake_from
wake_from-woken lock limit cnt t ts h = rw h refl

wake_from-kept :
    (lock limit cnt : ℕ) (t : Thread) (ts : List Thread)
    → wakes lock limit cnt t ≡ false
    → wake_from lock limit cnt (t ∷ ts) ≡ t ∷ wake_from lock limit cnt ts
unfolding wake_from
wake_from-kept lock limit cnt t ts h = rw h refl

wake_from-thread :
    (lock limit cnt : ℕ) (ts : List Thread) (i : ℕ)
    → i < length ts
    → thread (wake_from lock limit cnt ts) i
      ≡ wake_one lock limit (cnt + waiting lock (take i ts)) (thread ts i)
unfolding waiting
wake_from-thread lock limit cnt [] i p = absurd (omega arith)
wake_from-thread lock limit cnt (t ∷ ts) zero p = elim (Bool-cases (wakes lock limit cnt t)) [
  | inl h ↦ rw (wake_from-woken lock limit cnt t ts h) (ground arith)
  | inr h ↦ rw (wake_from-kept lock limit cnt t ts h) (ground arith)
]
wake_from-thread lock limit cnt (t ∷ ts) (suc i) p = elim (Bool-cases (wakes lock limit cnt t)) [
  | inl h ↦
      rw (wake_from-woken lock limit cnt t ts h)
        (wake_from-thread lock limit (suc cnt) ts i (omega arith) ∙ ground arith)
  | inr h ↦
      rw (wake_from-kept lock limit cnt t ts h)
        (wake_from-thread lock limit cnt ts i (omega arith) ∙ ground arith)
]

wake_from-nil : (lock limit cnt : ℕ) → wake_from lock limit cnt [] ≡ []
unfolding wake_from
wake_from-nil lock limit cnt = refl

-- A wakeup leaves the keys as they are, so it would wake the same threads again.
wake_from-twice :
    (lock limit cnt : ℕ) (ts : List Thread)
    → wake_from lock limit cnt (wake_from lock limit cnt ts) ≡ wake_from lock limit cnt ts
wake_from-twice lock limit cnt [] = ap (wake_from lock limit cnt) (wake_from-nil lock limit cnt)
wake_from-twice lock limit cnt (t ∷ ts) = elim (Bool-cases (wakes lock limit cnt t)) [
  | inl h ↦
      ap (wake_from lock limit cnt) (wake_from-woken lock limit cnt t ts h)
      ∙ wake_from-woken lock limit cnt (woken t) (wake_from lock limit (suc cnt) ts) h
      ∙ ap (λ r. woken t ∷ r) (wake_from-twice lock limit (suc cnt) ts)
      ∙ sym (wake_from-woken lock limit cnt t ts h)
  | inr h ↦
      ap (wake_from lock limit cnt) (wake_from-kept lock limit cnt t ts h)
      ∙ wake_from-kept lock limit cnt t (wake_from lock limit cnt ts) h
      ∙ ap (λ r. t ∷ r) (wake_from-twice lock limit cnt ts)
      ∙ sym (wake_from-kept lock limit cnt t ts h)
]

-- A wakeup of at most `limit` threads makes a thread runnable if it sleeps on the lock and fewer
-- than `limit` threads in front of it do, and leaves every other thread as it was.
pub wakeup-thread :
    (k : Kernel) (lock limit i : ℕ)
    → i < length k.threads
    → thread (wakeup k lock limit).threads i
      ≡ wake_one lock limit (waiting lock (take i k.threads)) (thread k.threads i)
unfolding wakeup
wakeup-thread k lock limit i p =
    wake_from-thread lock limit 0 k.threads i p
    ∙ ap (λ n. wake_one lock limit n (thread k.threads i)) (omega arith)

-- A second wakeup on a lock before any of its threads has run changes nothing: it wakes the
-- threads of the first once more and no other, however many still wait.
pub wakeup_twice :
    (k : Kernel) (lock limit : ℕ) → wakeup (wakeup k lock limit) lock limit ≡ wakeup k lock limit
unfolding wakeup
wakeup_twice k lock limit =
    ap (λ ts. record k { threads = ts }) (wake_from-twice lock limit 0 k.threads)
