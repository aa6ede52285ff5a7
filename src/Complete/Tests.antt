-- ===== src/Complete/Tests.antt =====
-- A concrete kernel, and states of experiments/05_complete_monitor.c that it reaches.
mod Runs
mod Rules
use model_lib.Prelude.{
  ℕ, zero, suc, ◌+◌, ◌-◌, ◌*◌, ◌^◌, ◌∙◌, ◌%◌, ◌≤◌, ◌<◌, ◌≡◌, ◌⊎◌, refl, sym, ap, inl, inr, Bool,
  true, false, List, [], ◌∷◌, ◌++◌, Option, none, some, String, reverse, arith, ◌==◌, if◌then◌else◌,
  ◌>>=◌, length, take, elem, unlink, keep, find_first,
}
use model_lib.Prelude.Text.{codes, str_eq}
use model_lib.Kernel.{Kernel, Task, Tree, leaf, node, in_order, Arg, num, str, Line, line, enomem}
use model_lib.Command.{command, receive}
use model_lib.Command.Receive.{spec_received, receive-received, receive_empty}
use model_lib.Complete.State.{
  ProcessRecord, MonitorStats, FilterConfig, Heap, Monitor, initial, zero_stats, zero_filter,
}
use model_lib.Complete.Matches.{lifetime_of, record_matches}
use model_lib.Complete.Index.{find_in_chain, find_process_by_pid, link_node}
use model_lib.Complete.Events.{
  new_record, count_exited, report_created, add_process_record, mark_process_exit, pre_handler_fork,
  pre_handler_exit,
}
use model_lib.Complete.Control.{filter_command, clear_records, control_write, filter_write}
use model_lib.Complete.Show.{processes_header, processes_show}
use model_lib.Complete.Module.{
  Boot, Registered, nothing, fork_symbol, complete_monitor_init, complete_monitor_exit,
  unload_messages,
}
use model_lib.Complete.Invariant.{IsRbLib, is_live, IsValid}
use model_lib.Complete.View.{view}
use model_lib.Complete.Safety.Planting.{place, link_node-place}
use model_lib.Complete.Safety.Search.{runs_at, find_process_by_pid-newest}
use model_lib.Complete.Safety.Add.{Added, passes, created_message, add_process_record_refines}
use model_lib.Complete.Safety.Exit.{Exited, newest_running, exit_message, mark_process_exit_refines}
use model_lib.Complete.Spec.{
  Abstract, abstract_of, Event, fork, exit, write_filter, write_control, run_event, spec_step,
}
use model_lib.Complete.Refinement.{
  Refines, Reach, loaded, after, spec_run, step-Refines, Reach-refines,
}
use model_lib.Complete.Stats.{
  HasMean, IsBalanced, after_exits, longest_of, shortest_of, count_exited-HasMean,
  after_exits_extremes, exit_after_reset,
}
use model_lib.Complete.History.{Reach-IsBalanced, Reach-no_cpu_time}
use model_lib.Complete.Filtering.{comm_filter_exact, negative_minimum_rejects, pid_filter_exact}
use model_lib.Complete.Listing.{rows_of, processes_show-rows}
use model_lib.Complete.Lifecycle.{
  all_registered, init_all_or_nothing, exit_frees_all, report_after_clear,
}

-- A tree with the given nodes in order.
spine : List ℕ → Tree
spine [] = leaf
spine (a ∷ xs) = node leaf a (spine xs)

in_order-spine : (xs : List ℕ) → in_order (spine xs) ≡ xs
unfolding spine
in_order-spine [] = refl
in_order-spine (a ∷ xs) = ap (λ ys. a ∷ ys) (in_order-spine xs)

-- The text before the first space and the text behind it.
before_space : List ℕ → List ℕ
before_space [] = []
before_space (b ∷ bs) = if b == 32 then [] else b ∷ before_space bs

after_space : List ℕ → List ℕ
after_space [] = []
after_space (b ∷ bs) = if b == 32 then bs else after_space bs

-- A kernel with trees that are never balanced.
toy : Kernel
unfolding spine before_space after_space
toy = record {
  hz = 100;
  task_comm_len = 16;
  hash_min = λ pid. pid % 256;
  rb_insert_color = λ a t. t;
  rb_erase = λ a t. spine (unlink a (in_order t));
  sscanf = λ f s. str (before_space s) ∷ str (after_space s) ∷ [];
  simple_strtol = λ s. length s;
}

toy-IsRbLib : IsRbLib toy
unfolding toy
toy-IsRbLib = record {
  in_order-color = λ a t. refl;
  in_order-erase = λ a t. in_order-spine (unlink a (in_order t));
}

abbrev shell : Task
shell = record { pid = 42; parent_pid = 1; comm = codes "bash"; code = 0 }

abbrev first_fork : Event
first_fork = fork 1000 (some 7) shell

abbrev second_fork : Event
second_fork = fork 1100 (some 8) shell

abbrev shell_exit : Event
shell_exit = exit 1500 shell

or_initial : Option Monitor → Monitor
or_initial none = initial
or_initial (some m) = m

-- The shell has forked once, and twice.
forked_once : Monitor
unfolding or_initial pre_handler_fork toy
forked_once = or_initial (run_event toy first_fork initial)

forked_twice : Monitor
unfolding or_initial pre_handler_fork toy
forked_twice = or_initial (run_event toy second_fork forked_once)

Reach-once : Reach toy (first_fork ∷ []) forked_once
unfolding forked_once
Reach-once = after first_fork loaded refl refl

Reach-twice : Reach toy (second_fork ∷ first_fork ∷ []) forked_twice
unfolding forked_once forked_twice
Reach-twice = after second_fork Reach-once refl refl

twice-IsValid : IsValid toy forked_twice
twice-IsValid = (Reach-refines toy-IsRbLib Reach-twice).0
