-- ===== src/Kernel/Waking.antt =====
-- kernel/lock.go: a wakeup keeps the thread table valid.
use eggos.Base.{
  ℕ, zero, suc, ◌≡◌, ◌≢◌, refl, ap, ◌∙◌, true, ◌&&◌, List, [], ◌∷◌, ◌==◌, ltb, if◌then◌else◌,
  length, arith,
}
use eggos.Kernel.Thread.{Thread, Kernel, thread, wakeup, wake_from}
use eggos.Kernel.Wakeup.{wake_one}
use eggos.Kernel.Valid.{IsValid, runs, rests}

wake_one-rests :
    (lock limit before : ℕ) (t : Thread)
    → rests t ≡ true
    → rests (wake_one lock limit before t) ≡ true
unfolding rests
wake_one-rests lock limit before t h = ground arith

wake_one-runs :
    (lock limit before : ℕ) (t : Thread)
    → lock ≢ 0
    → runs t ≡ true
    → wake_one lock limit before t ≡ t
unfolding runs
wake_one-runs lock limit before t ne h = ground arith

length-wake_from :
    (lock limit : ℕ) (ts : List Thread) (cnt : ℕ) → length (wake_from lock limit cnt ts) ≡ length ts
unfolding wake_from
length-wake_from lock limit [] cnt = refl
length-wake_from lock limit (t ∷ ts) cnt =
    ap suc (
      length-wake_from lock limit ts
        (if t.sleep_key == lock && ltb cnt limit then suc cnt else cnt))

wake_from-rests :
    (lock limit : ℕ) (ts : List Thread) (cnt i : ℕ)
    → rests (thread ts i) ≡ true
    → rests (thread (wake_from lock limit cnt ts) i) ≡ true
unfolding wake_from
wake_from-rests lock limit [] cnt i h = h
wake_from-rests lock limit (t ∷ ts) cnt zero h = wake_one-rests lock limit cnt t h
wake_from-rests lock limit (t ∷ ts) cnt (suc i) h =
    wake_from-rests lock limit ts (if t.sleep_key == lock && ltb cnt limit then suc cnt else cnt) i
      h

wake_from-runs :
    (lock limit : ℕ) (ts : List Thread) (cnt i : ℕ)
    → lock ≢ 0
    → runs (thread ts i) ≡ true
    → thread (wake_from lock limit cnt ts) i ≡ thread ts i
unfolding wake_from
wake_from-runs lock limit [] cnt i ne h = refl
wake_from-runs lock limit (t ∷ ts) cnt zero ne h = wake_one-runs lock limit cnt t ne h
wake_from-runs lock limit (t ∷ ts) cnt (suc i) ne h =
    wake_from-runs lock limit ts (if t.sleep_key == lock && ltb cnt limit then suc cnt else cnt) i
      ne h

pub wakeup-IsValid :
    (k : Kernel) (lock limit : ℕ) → lock ≢ 0 → IsValid k → IsValid (wakeup k lock limit)
unfolding wakeup
wakeup-IsValid k lock limit ne v = record {
  table = record {
    length_threads = length-wake_from lock limit k.threads 0 ∙ v.table.length_threads;
    current_below = v.table.current_below;
    idle_below = v.table.idle_below;
    trap_below = v.table.trap_below;
    syscall_below = v.table.syscall_below;
  };
  current_runs =
      ap runs (wake_from-runs lock limit k.threads 0 k.current ne v.current_runs) ∙ v.current_runs;
  others_rest = λ i d. wake_from-rests lock limit k.threads 0 i (v.others_rest i d);
}
