-- ===== src/Monitor/Tests.antt =====
-- Runs of process_monitor.c.
use model_lib.Prelude.{
  ◌-◌, ◌^◌, ◌≡◌, ◌≢◌, ◌⊎◌, refl, true, false, List, [], ◌∷◌, some, arith, length, find_first,
  change_first,
}
use model_lib.Prelude.Text.{codes}
use model_lib.Kernel.{Kernel, Task}
use model_lib.Monitor.State.{Monitor, initial, zero_stats}
use model_lib.Monitor.Events.{new_record, mark_process_exit}
use model_lib.Monitor.Module.{Boot, nothing, done, process_monitor_init}
use model_lib.Monitor.Invariant.{Event, fork, exit, write, run_events, IsSound, run_events-IsSound}
use model_lib.Monitor.Marking.{spec_running, spec_exited, spec_stats, mark_process_exit-oldest}
use model_lib.Monitor.Window.{pids, window, all_entered, run_events-window}
use model_lib.Monitor.Lifecycle.{
  accepted, outcome, fork_symbol, all_registered, load_all_or_nothing,
}

abbrev plain : Kernel
plain = record {
  hz = 250;
  task_comm_len = 16;
  hash_min = λ pid. 0;
  rb_insert_color = λ a t. t;
  rb_erase = λ a t. t;
  sscanf = λ format text. [];
  simple_strtol = λ text. 0;
}

abbrev shell : Task
shell = record { pid = 42; parent_pid = 1; comm = codes "bash"; code = 0 }

abbrev editor : Task
editor = record { pid = 50; parent_pid = 42; comm = codes "vi"; code = 0 }

-- Two forks of the shell, a clear, then two forks and an exit.
abbrev history : List Event
history =
    fork 100 true shell
    ∷ fork 110 true shell
    ∷ write 6 (some (codes "clear\n"))
    ∷ fork 120 true editor
    ∷ fork 130 true shell
    ∷ exit 140 editor
    ∷ []

run_events-IsSound_example :
    (m : Monitor) × (run_events plain history initial ≡ some m) × IsSound (length history) m
run_events-IsSound_example = run_events-IsSound plain history (omega arith)

run_events-window_example :
    (m : Monitor) × (run_events plain history initial ≡ some m)
    × (pids m ≡ window (all_entered history []))
run_events-window_example = run_events-window plain history (omega arith)

window-history : window (all_entered history []) ≡ 50 ∷ 42 ∷ []
window-history = refl

-- The shell stands on the list twice.
abbrev twice : Monitor
twice = record initial {
  process_list =
      new_record plain 100 42 1 (codes "bash") ∷ new_record plain 110 42 1 (codes "bash") ∷ [];
  record_count = 2;
}

mark_process_exit-oldest_example :
    ((mark_process_exit 140 42 twice).0.process_list
      ≡ change_first (spec_running 42) (spec_exited 140) twice.process_list)
    × ((mark_process_exit 140 42 twice).0.stats
        ≡ spec_stats (find_first (spec_running 42) twice.process_list) twice.stats)
    × ((mark_process_exit 140 42 twice).0.record_count ≡ twice.record_count)
mark_process_exit-oldest_example = mark_process_exit-oldest 140 42 twice

-- A kernel that knows neither fork symbol.
no_fork : Boot
no_fork = record { proc_create = true; register_kprobe = λ symbol. 2 ^ 32 - 2 }

load_all_or_nothing_example :
    ((accepted no_fork ≡ true)
      × (process_monitor_init no_fork initial
          ≡ (record initial { stats = zero_stats }, all_registered (fork_symbol no_fork), done)))
    ⊎ ((accepted no_fork ≡ false)
        × (process_monitor_init no_fork initial
            ≡ (record initial { stats = zero_stats }, nothing, outcome no_fork))
        × (outcome no_fork ≢ done))
load_all_or_nothing_example = load_all_or_nothing no_fork initial
