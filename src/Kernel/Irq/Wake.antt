-- ===== src/Kernel/Irq/Wake.antt =====
-- kernel/trap.go: a device interrupt hands the processor to the waiting trap task.
use eggos.Base.{ℕ, ◌<◌, ◌≡◌, ◌≢◌, refl, ap, ◌∙◌, true, some, take, length, get_or-set_ne, arith}
use eggos.Kernel.Thread.{
  Thread, free_slot, Kernel, thread, is_runnable, task_ready, pickup, schedule, to_scheduler, yield,
  wakeup,
}
use eggos.Kernel.Wakeup.{woken, waiting, wake_one, wakeup-thread}
use eggos.Kernel.Irq.{Traps, note_irq, wake_irq}

pickup-traptask : (k : Kernel) (j : ℕ) → task_ready k k.traptask ≡ some j → (pickup k).0 ≡ j
unfolding pickup
pickup-traptask k j h = rw h refl

wake_one-first : (lock : ℕ) (t : Thread) → t.sleep_key ≡ lock → wake_one lock 1 0 t ≡ woken t
wake_one-first lock t h = ground arith

task_ready-woken :
    (k : Kernel) (j : ℕ)
    → k.traptask ≡ some j
    → is_runnable (thread k.threads j).state ≡ true
    → task_ready k k.traptask ≡ some j
task_ready-woken k j h r = rw (h, r) refl

-- The trap task j sleeps on irqset, no thread in front of it does, and another thread runs.
pub record IsWaiting (t : Traps) (j : ℕ) : Type 0 where
  pub task : t.kernel.traptask ≡ some j
  pub inside : j < length t.kernel.threads
  pub asleep : (thread t.kernel.threads j).sleep_key ≡ t.irq_lock
  pub first : waiting t.irq_lock (take j t.kernel.threads) ≡ 0
  pub other_runs : t.kernel.current ≢ j

-- An interrupt is noted and the trap task, if it waits for one, runs at once: it comes before the
-- interrupted thread and every other one.
pub wake_irq-traptask :
    (t : Traps) (j number : ℕ)
    → IsWaiting t j
    → ((wake_irq t number).kernel.current ≡ j)
      × ((wake_irq t number).irqset ≡ note_irq t.irqset number)
unfolding wake_irq yield schedule to_scheduler wakeup
wake_irq-traptask t j number w = (
  pickup-traptask k j
      (task_ready-woken k j w.task (ap (λ (u : Thread). is_runnable u.state) ready)),
  refl,
)
  where
    k₁ : Kernel
    k₁ = wakeup t.kernel t.irq_lock 1

    k : Kernel
    k = to_scheduler k₁

    ready : thread k.threads j ≡ woken (thread t.kernel.threads j)
    ready =
        get_or-set_ne k₁.threads k₁.current j _ free_slot w.other_runs
        ∙ wakeup-thread t.kernel t.irq_lock 1 j w.inside
        ∙ ap (λ n. wake_one t.irq_lock 1 n (thread t.kernel.threads j)) w.first
        ∙ wake_one-first t.irq_lock (thread t.kernel.threads j) w.asleep
