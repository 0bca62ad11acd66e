-- ===== src/Syscall/Control/Wait.antt =====
-- `system_waitpid` of a parent and the exit of a child (w2/sys/syscall.c).
use sbrocks.Prelude.{ℕ}
use sbrocks.Syscall.{System, with_kernel}

-- The system while another task has the processor.
abbrev pub running : (task : ℕ) → System → System
running task sys = with_kernel (record sys.kernel { current_task = task }) sys
