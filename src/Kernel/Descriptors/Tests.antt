-- ===== src/Kernel/Descriptors/Tests.antt =====
-- Descriptors of concrete segments and vectors.
use eggos.Base.{ℕ, ◌+◌, ◌*◌, ◌≡◌, refl, arith}
use eggos.Kernel.Descriptors.{fillgdt, switch_thread_context, table_limit}
use eggos.Kernel.Descriptors.Decode.{HasTls, linear-switch_thread_context}

abbrev stub_at : ℕ → ℕ
stub_at i = 1048576 + i * 16

gdt_limit : table_limit 8 fillgdt ≡ 39
unfolding fillgdt
gdt_limit = refl

linear-switch_thread_context_example :
    HasTls fillgdt 134512640 4095 8 3 (switch_thread_context fillgdt 134512640 4095)
linear-switch_thread_context_example =
    linear-switch_thread_context fillgdt 134512640 4095 8 3 (omega arith) (omega arith)
      (omega arith)
