-- ===== src/Intercept/Counting.antt =====
-- experiments/01_syscall_intercept.c counts what its probes see.
use model_lib.Prelude.{
  ◌%◌, ◌^◌, ◌≡◌, refl, Bool, true, false, not, List, [], ◌∷◌, arith, length, keep,
}
use model_lib.Kernel.{Task, line, say, num}
use model_lib.Intercept.Probes.{
  Counters, initial, pre_handler_fork, pre_handler_exit, Registered, nothing,
  syscall_intercept_exit,
}

pub data Event : Type 0 where
  fork : Task → Event
  exit : Task → Event

abbrev pub is_fork : Event → Bool
is_fork (fork task) = true
is_fork (exit task) = false

-- The counters after the events, of which the last is the first of the list.
abbrev pub after_events : List Event → Counters
after_events [] = initial
after_events (fork task ∷ es) = (pre_handler_fork task (after_events es)).0
after_events (exit task ∷ es) = (pre_handler_exit task (after_events es)).0

counted :
    (es : List Event)
    → ((after_events es).fork_count ≡ length (keep is_fork es) % 2 ^ 64)
      × ((after_events es).exit_count ≡ length (keep (λ e. not (is_fork e)) es) % 2 ^ 64)
unfolding pre_handler_fork pre_handler_exit
counted [] = (refl, refl)
counted (fork task ∷ es) = let (p, q) = counted es in (omega (arith, p), q)
counted (exit task ∷ es) = let (p, q) = counted es in (p, omega (arith, q))

-- What unloading prints after any history of events is the number of forks and the number of
-- exits among them, modulo 2 ^ 64; and both probes are gone.
pub syscall_intercept_exit-after_events :
    (es : List Event) (g : Registered)
    → syscall_intercept_exit (after_events es) g ≡ (
      nothing,
      say "syscall_intercept: Unloading System Call Intercept Module\n"
          ∷ say "syscall_intercept: Final statistics:\n"
          ∷ line "syscall_intercept: Total fork events: %lu\n"
              (num (length (keep is_fork es) % 2 ^ 64) ∷ [])
          ∷ line "syscall_intercept: Total exit events: %lu\n"
              (num (length (keep (λ e. not (is_fork e)) es) % 2 ^ 64) ∷ [])
          ∷ say "syscall_intercept: Module unloaded successfully\n"
          ∷ [],
    )
unfolding syscall_intercept_exit
syscall_intercept_exit-after_events es g = let (p, q) = counted es in rw (p, q) refl
