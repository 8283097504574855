-- ===== src/Kernel.antt =====
-- kernel/thread.go and kernel/lock.go: the thread table, the scheduler and the sleep queues.
pub mod Thread
pub mod Wakeup
pub mod Pickup
pub mod Fair
pub mod Valid
pub mod Waking
pub mod Slots
pub mod Steps
pub mod Clock
pub mod Forward
pub mod Epoll
pub mod Irq
pub mod Frames
pub mod Faults
pub mod Note
pub mod Descriptors
pub mod Args
pub mod Boot
pub mod Signals
pub mod Tests
pub mod TrapTests
