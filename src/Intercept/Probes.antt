-- ===== src/Intercept/Probes.antt =====
-- The counters and probes of experiments/01_syscall_intercept.c, and its loading and unloading.
use model_lib.Prelude.{ℕ, ◌^◌, Bool, List, [], ◌∷◌, Option, none, some, String, leb, if◌then◌else◌}
use model_lib.Prelude.Words.{inc64}
use model_lib.Kernel.{Task, Line, line, say, num, str}

pub record Counters : Type 0 where
  pub fork_count : ℕ
  pub exit_count : ℕ

abbrev pub initial : Counters
initial = record { fork_count = 0; exit_count = 0 }

unfoldable pub pre_handler_fork : Task → Counters → Counters × Line
pre_handler_fork task c = (
  record c { fork_count = inc64 c.fork_count },
  line "syscall_intercept: FORK detected - PID: %d, PPID: %d, COMM: %s, Total forks: %lu\n"
      (num task.pid ∷ num task.parent_pid ∷ str task.comm ∷ num (inc64 c.fork_count) ∷ []),
)

unfoldable pub pre_handler_exit : Task → Counters → Counters × Line
pre_handler_exit task c = (
  record c { exit_count = inc64 c.exit_count },
  line "syscall_intercept: EXIT detected - PID: %d, COMM: %s, Total exits: %lu\n"
      (num task.pid ∷ str task.comm ∷ num (inc64 c.exit_count) ∷ []),
)

-- The symbols under which the two probes are registered.
pub record Registered : Type 0 where
  pub fork_probe : Option String
  pub exit_probe : Option String

abbrev pub nothing : Registered
nothing = record { fork_probe = none; exit_probe = none }

-- `ret < 0`
abbrev pub failed : ℕ → Bool
failed ret = leb (2 ^ 31) ret

-- With the fork probe registered under `symbol`.
unfoldable pub register_exit : (String → ℕ) → String → Registered × ℕ
register_exit register_kprobe symbol =
    if failed (register_kprobe "do_exit")
    then (nothing, register_kprobe "do_exit")
    else (record { fork_probe = some symbol; exit_probe = some "do_exit" }, 0)

-- `register_kprobe` is the kernel's answer for each symbol. The second component is returned.
unfoldable pub syscall_intercept_init : (String → ℕ) → Registered × ℕ
unfolding register_exit
syscall_intercept_init register_kprobe =
    if failed (register_kprobe "_do_fork")
    then (if failed (register_kprobe "kernel_clone")
        then (nothing, register_kprobe "kernel_clone")
        else register_exit register_kprobe "kernel_clone")
    else register_exit register_kprobe "_do_fork"

unfoldable pub syscall_intercept_exit : Counters → Registered → Registered × List Line
syscall_intercept_exit c g = (
  record g { fork_probe = none; exit_probe = none },
  say "syscall_intercept: Unloading System Call Intercept Module\n"
      ∷ say "syscall_intercept: Final statistics:\n"
      ∷ line "syscall_intercept: Total fork events: %lu\n" (num c.fork_count ∷ [])
      ∷ line "syscall_intercept: Total exit events: %lu\n" (num c.exit_count ∷ [])
      ∷ say "syscall_intercept: Module unloaded successfully\n"
      ∷ [],
)
