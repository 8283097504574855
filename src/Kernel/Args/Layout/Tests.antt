-- ===== src/Kernel/Args/Layout/Tests.antt =====
-- The stack below 1 MiB.
