-- ===== src/Complete/Tests/Rules.antt =====
-- Commands, statistics, filter and loading of experiments/05_complete_monitor.c.
use model_lib.Prelude.{
  ℕ, zero, suc, ◌+◌, ◌-◌, ◌*◌, ◌^◌, ◌∙◌, ◌%◌, ◌≤◌, ◌<◌, ◌≡◌, ◌⊎◌, refl, sym, ap, inl, inr, Bool,
  true, false, List, [], ◌∷◌, ◌++◌, Option, none, some, String, reverse, arith, ◌==◌, if◌then◌else◌,
  ◌>>=◌, length, take, elem, unlink, keep, find_first,
}
use model_lib.Prelude.Text.{codes, str_eq}
use model_lib.Kernel.{Line, enomem}
use model_lib.Command.{receive}
use model_lib.Command.Receive.{spec_received, receive-received, receive_empty}
use model_lib.Complete.State.{
  ProcessRecord, MonitorStats, Monitor, initial, zero_filter, zero_stats,
}
use model_lib.Complete.Matches.{lifetime_of, record_matches}
use model_lib.Complete.Events.{new_record, count_exited, report_created, mark_process_exit}
use model_lib.Complete.Control.{filter_command, clear_records, control_write, filter_write}
use model_lib.Complete.Module.{
  Boot, nothing, complete_monitor_init, complete_monitor_exit, unload_messages,
}
use model_lib.Complete.Invariant.{is_live}
use model_lib.Complete.View.{view}
use model_lib.Complete.Spec.{Event, write_filter, write_control, run_event}
use model_lib.Complete.Refinement.{Reach, after, Reach-refines}
use model_lib.Complete.Stats.{
  HasMean, IsBalanced, after_exits, count_exited-HasMean, after_exits_extremes, exit_after_reset,
}
use model_lib.Complete.History.{Reach-IsBalanced, Reach-no_cpu_time}
use model_lib.Complete.Filtering.{comm_filter_exact, negative_minimum_rejects, pid_filter_exact}
use model_lib.Complete.Lifecycle.{
  accepted, chosen, all_registered, init_all_or_nothing, exit_frees_all, report_after_clear,
}
use model_lib.Complete.Tests.{
  toy, toy-IsRbLib, first_fork, second_fork, or_initial, forked_once, forked_twice, Reach-once,
  Reach-twice, twice-IsValid,
}

receive-received_example :
    receive 64 6 (some (codes "start\n")) ≡ some (spec_received 64 6 (some (codes "start\n")))
receive-received_example = receive-received 64 6 (some (codes "start\n")) refl (omega arith)

receive_empty_example : receive 64 0 (some []) ≡ none
receive_empty_example = receive_empty 64 [] (omega arith)

-- One exit after 3 seconds.
one_exit : MonitorStats
unfolding count_exited
one_exit = after_exits (3 ∷ [])

count_exited-HasMean_example : HasMean (count_exited 0 6 one_exit)
unfolding one_exit
count_exited-HasMean_example =
    count_exited-HasMean 0 6 one_exit (inr (omega arith, omega arith)) (omega arith) (omega arith)

after_exits_extremes_example :
    ((after_exits (4 ∷ 9 ∷ 2 ∷ [])).total_processes_exited ≡ 3)
    × ((after_exits (4 ∷ 9 ∷ 2 ∷ [])).longest_lifetime ≡ 9)
    × ((after_exits (4 ∷ 9 ∷ 2 ∷ [])).shortest_lifetime ≡ 2)
after_exits_extremes_example = after_exits_extremes 4 (9 ∷ 2 ∷ []) (omega arith)

Reach-IsBalanced_example : IsBalanced forked_twice.stats
Reach-IsBalanced_example = Reach-IsBalanced toy-IsRbLib Reach-twice

Reach-no_cpu_time_example :
    (forked_twice.stats.total_cpu_time ≡ 0)
    × model_lib.Prelude.All (λ (r : ProcessRecord). r.cpu_time ≡ 0) (view forked_twice)
Reach-no_cpu_time_example = Reach-no_cpu_time toy-IsRbLib Reach-twice

-- After one fork the statistics are reset.
abbrev reset_event : Event
reset_event = write_control 11 (some (codes "reset_stats"))

was_reset : Monitor
unfolding or_initial control_write
was_reset = or_initial (run_event toy reset_event forked_once)

Reach-reset : Reach toy (reset_event ∷ first_fork ∷ []) was_reset
unfolding was_reset forked_once
Reach-reset = after reset_event Reach-once (refl, omega arith) refl

shell_record : ProcessRecord
unfolding new_record toy
shell_record = new_record toy 1000 42 1 (codes "bash")

exit_after_reset_example :
    (m' : Monitor) × (out : List Line) × (mark_process_exit toy 1500 42 0 was_reset
      ≡ some (m', out))
    × (m'.stats.current_processes ≡ 2 ^ 64 - 1)
unfolding was_reset forked_once shell_record
exit_after_reset_example =
    exit_after_reset 1500 42 0 shell_record (Reach-refines toy-IsRbLib Reach-reset).0 refl refl refl

comm_filter_exact_example :
    record_matches toy
      (filter_command toy (codes "comm sleep") (record zero_filter { enabled = 1 }))
      (new_record toy 5 60 42 (codes "sleep"))
    ≡ str_eq (take 15 (codes "sleep")) (take 15 (codes "sleep"))
unfolding toy
comm_filter_exact_example =
    comm_filter_exact toy (codes "comm sleep") b's' (codes "leep") (codes "sleep") 14 5 60 42 refl
      refl refl refl refl

abbrev exited_shell : ProcessRecord
exited_shell = record {
  pid = 42;
  ppid = 1;
  comm = codes "bash";
  start_time = 1000;
  end_time = 1500;
  status = 0;
  cpu_time = 0;
  memory_usage = 0;
  exit_code = 0;
}

-- minlife -1
negative_minimum_rejects_example :
    record_matches toy (record zero_filter { min_lifetime = 2 ^ 32 - 1; enabled = 1 }) exited_shell
    ≡ false
unfolding toy lifetime_of
negative_minimum_rejects_example =
    negative_minimum_rejects toy (record zero_filter { min_lifetime = 2 ^ 32 - 1; enabled = 1 })
      exited_shell (omega arith) (omega arith) refl (omega arith)

pid_filter_exact_example :
    record_matches toy (record zero_filter { target_pid = 42; enabled = 1 }) exited_shell ≡ true
pid_filter_exact_example = pid_filter_exact toy 42 exited_shell

-- The kernel has no `_do_fork`; everything else succeeds.
recent_kernel : Boot
recent_kernel = record {
  proc_mkdir = true;
  proc_create = λ name. true;
  register_kprobe = λ symbol. if text.Mathlib.Text.◌==◌ symbol "_do_fork" then 2 ^ 32 - 2 else 0;
}

init_all_or_nothing_example :
    ((accepted recent_kernel ≡ true)
      × (complete_monitor_init recent_kernel initial
          ≡ (record initial { stats = zero_stats }, all_registered (chosen recent_kernel), none)))
    ⊎ ((accepted recent_kernel ≡ false)
        × (complete_monitor_init recent_kernel initial
            ≡ (record initial { stats = zero_stats }, nothing, some enomem)))
init_all_or_nothing_example = init_all_or_nothing recent_kernel initial

exit_frees_all_example :
    (m' : Monitor) × (complete_monitor_exit (all_registered "kernel_clone") forked_twice
      ≡ some (m', nothing, unload_messages forked_twice.stats))
    × (m'.process_list ≡ [])
    × ((a : ℕ) → is_live m'.heap a ≡ false)
    × (m'.stats ≡ forked_twice.stats)
exit_frees_all_example = exit_frees_all (all_registered "kernel_clone") twice-IsValid

-- "enable" reaches the filter before the report.
abbrev enable_event : Event
enable_event = write_filter 6 (some (codes "enable"))

filtering : Monitor
unfolding or_initial filter_write
filtering = or_initial (run_event toy enable_event forked_twice)

Reach-filtering : Reach toy (enable_event ∷ second_fork ∷ first_fork ∷ []) filtering
unfolding filtering forked_twice forked_once
Reach-filtering = after enable_event Reach-twice (refl, omega arith) refl

report_after_clear_example :
    (m' : Monitor) × (clear_records toy filtering ≡ some m')
    × (report_created toy 8 42 1 (codes "bash") m' ≡ none)
unfolding filtering forked_twice forked_once
report_after_clear_example =
    report_after_clear 8 42 1 (codes "bash") toy-IsRbLib
      (Reach-refines toy-IsRbLib Reach-filtering).0 refl
