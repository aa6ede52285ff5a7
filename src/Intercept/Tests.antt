-- ===== src/Intercept/Tests.antt =====
-- Runs of experiments/01_syscall_intercept.c.
use model_lib.Prelude.{
  ℕ, suc, arith, ◌-◌, ◌%◌, ◌^◌, ◌≡◌, ◌⊎◌, true, false, not, List, [], ◌∷◌, some, String, length,
  keep,
}
use model_lib.Prelude.Text.{codes}
use model_lib.Kernel.{Task, line, say, num}
use model_lib.Intercept.Probes.{
  Counters, Registered, nothing, failed, syscall_intercept_init, syscall_intercept_exit,
}
use model_lib.Intercept.Processors.{
  Place, outside, fork_loaded, fork_loads, fork_stores, placed, Trace, begin, more,
}
use model_lib.Intercept.Overlaps.{Between, fork_count-bounds}
use model_lib.Intercept.Counting.{
  Event, fork, exit, is_fork, after_events, syscall_intercept_exit-after_events,
}
use model_lib.Intercept.Lifecycle.{fork_symbol, accepted, refusal, syscall_intercept_init_atomic}

abbrev shell : Task
shell = record { pid = 42; parent_pid = 1; comm = codes "bash"; code = 0 }

abbrev history : List Event
history = exit shell ∷ fork shell ∷ fork shell ∷ []

abbrev registered : Registered
registered = record { fork_probe = some "kernel_clone"; exit_probe = some "do_exit" }

syscall_intercept_exit-after_events_example :
    syscall_intercept_exit (after_events history) registered ≡ (
      nothing,
      say "syscall_intercept: Unloading System Call Intercept Module\n"
          ∷ say "syscall_intercept: Final statistics:\n"
          ∷ line "syscall_intercept: Total fork events: %lu\n"
              (num (length (keep is_fork history) % 2 ^ 64) ∷ [])
          ∷ line "syscall_intercept: Total exit events: %lu\n"
              (num (length (keep (λ e. not (is_fork e)) history) % 2 ^ 64) ∷ [])
          ∷ say "syscall_intercept: Module unloaded successfully\n"
          ∷ [],
    )
syscall_intercept_exit-after_events_example = syscall_intercept_exit-after_events history registered

-- A kernel that refuses every symbol with -ENOENT.
abbrev refuses : String → ℕ
refuses symbol = 2 ^ 32 - 2

syscall_intercept_init_atomic_example :
    ((accepted refuses ≡ true)
      × (syscall_intercept_init refuses
          ≡ (record { fork_probe = some (fork_symbol refuses); exit_probe = some "do_exit" }, 0)))
    ⊎ ((accepted refuses ≡ false)
        × (syscall_intercept_init refuses ≡ (nothing, refusal refuses))
        × (failed (refusal refuses) ≡ true))
syscall_intercept_init_atomic_example = syscall_intercept_init_atomic refuses

-- One processor counts a fork.
abbrev one_fork : Counters
one_fork = record { fork_count = 1; exit_count = 0 }

one_fork-Trace : Trace 1 one_fork (placed (placed (λ i. outside) 0 (fork_loaded 0)) 0 outside) 1 0
one_fork-Trace = more 0 (more 0 begin (omega arith) fork_loads) (omega arith) fork_stores

fork_count-bounds_example :
    Between 1 one_fork.fork_count
    × Between 0 one_fork.exit_count
    × ((k : ℕ) → (d : Counters) × (pc : ℕ → Place) × Trace 2 d pc (suc k) 0 × (d.fork_count ≡ 1))
fork_count-bounds_example = fork_count-bounds one_fork-Trace (omega arith) (omega arith)
