-- ===== src/Complete/Events.antt =====
-- What the probes do: `add_process_record` and `mark_process_exit`. `now` is `jiffies`.
use model_lib.Prelude.{
  ℕ, ◌/◌, List, [], ◌∷◌, ◌++◌, Option, none, some, ◌==◌, ltb, if◌then◌else◌, ◌>>=◌, unlink,
}
use model_lib.Prelude.Words.{inc32, dec32, inc64, dec64, add64, sub64, mul64, int_le}
use model_lib.Prelude.Text.{copy_str}
use model_lib.Kernel.{Kernel, Task, Line, line, say, num, str}
use model_lib.Complete.State.{ProcessRecord, MonitorStats, Monitor, update, max_process_records}
use model_lib.Complete.Matches.{lifetime_of, process_matches_filter}
use model_lib.Complete.Index.{find_process_by_pid, insert_process_rb_tree, remove_process_rb_tree}

unfoldable pub new_record : Kernel → ℕ → ℕ → ℕ → List ℕ → ProcessRecord
new_record k now pid ppid comm = record {
  pid = pid;
  ppid = ppid;
  comm = copy_str k.task_comm_len comm;
  start_time = now;
  end_time = 0;
  status = 1;
  cpu_time = 0;
  memory_usage = 0;
  exit_code = 0;
}

-- `list_del`, `hash_del`, `remove_process_rb_tree`, `kfree`: of one record, which has to be
-- allocated.
unfoldable pub release_record : Kernel → ℕ → Monitor → Option Monitor
unfolding remove_process_rb_tree
release_record k a m = m.heap a >>= λ _. some (record m {
  heap = update m.heap a none;
  process_list = unlink a m.process_list;
  process_hash = λ b. unlink a (m.process_hash b);
  process_tree = remove_process_rb_tree k a m.process_tree;
})

-- `list_first_entry` of an empty list is a bogus pointer.
unfoldable pub release_oldest : Kernel → List ℕ → Monitor → Option Monitor
unfolding release_record
release_oldest k [] m = none
release_oldest k (oldest ∷ rest) m =
    release_record k oldest m >>= λ m'. some (record m' { record_count = dec32 m'.record_count })

unfoldable pub make_room : Kernel → Monitor → Option Monitor
unfolding release_oldest
make_room k m =
    if int_le max_process_records m.record_count then release_oldest k m.process_list m else some m

unfoldable pub count_created : MonitorStats → MonitorStats
count_created s = record s {
  total_processes_created = inc64 s.total_processes_created;
  current_processes = inc64 s.current_processes;
  peak_processes =
      if ltb s.peak_processes (inc64 s.current_processes)
      then inc64 s.current_processes
      else s.peak_processes;
}

-- `list_add_tail`, `hash_add` (at the head of its chain), `insert_process_rb_tree`, the counters.
unfoldable pub link_record : Kernel → ℕ → ℕ → Monitor → Option Monitor
unfolding insert_process_rb_tree count_created
link_record k a pid m = insert_process_rb_tree k m.heap a m.process_tree >>= λ t. some (record m {
  process_list = m.process_list ++ a ∷ [];
  process_hash = λ b. if b == k.hash_min pid then a ∷ m.process_hash b else m.process_hash b;
  process_tree = t;
  record_count = inc32 m.record_count;
  stats = count_created m.stats;
})

-- The part under `process_lock`, with the record that `kmalloc` gave at `a` filled in.
unfoldable pub add_locked : Kernel → ℕ → ProcessRecord → Monitor → Option Monitor
unfolding make_room link_record
add_locked k a r m =
    make_room k (record m { heap = update m.heap a (some r) }) >>= λ m'. link_record k a r.pid m'

-- The test and the message after the lock is released.
unfoldable pub report_created : Kernel → ℕ → ℕ → ℕ → List ℕ → Monitor → Option (List Line)
unfolding process_matches_filter
report_created k a pid ppid comm m = process_matches_filter k m a >>= λ ok. some (
    if ok
    then line "process_monitor: Process created - PID: %d, PPID: %d, COMM: %s\n"
        (num pid ∷ num ppid ∷ str comm ∷ [])
      ∷ []
    else [])

-- `alloc` is what `kmalloc` returns.
unfoldable pub add_process_record :
    Kernel → ℕ → Option ℕ → ℕ → ℕ → List ℕ → Monitor → Option (Monitor × List Line)
unfolding add_locked report_created new_record
add_process_record k now none pid ppid comm m = some (
  m,
  if m.monitoring_enabled == 0
      then []
      else say "process_monitor: Failed to allocate memory for process record\n" ∷ [],
)
add_process_record k now (some a) pid ppid comm m =
    if m.monitoring_enabled == 0
    then some (m, [])
    else add_locked k a (new_record k now pid ppid comm) m >>= λ m'.
        report_created k a pid ppid comm m' >>= λ out. some (m', out)

-- The statistics after one more exit, of a process that lived for `lifetime` seconds.
unfoldable pub count_exited : ℕ → ℕ → MonitorStats → MonitorStats
count_exited cpu lifetime s = record s {
  total_processes_exited = exited;
  current_processes = dec64 s.current_processes;
  total_cpu_time = add64 s.total_cpu_time cpu;
  longest_lifetime =
      if exited == 1
      then lifetime
      else if ltb s.longest_lifetime lifetime
      then lifetime
      else s.longest_lifetime;
  shortest_lifetime =
      if exited == 1
      then lifetime
      else if ltb lifetime s.shortest_lifetime
      then lifetime
      else s.shortest_lifetime;
  avg_lifetime =
      if ltb 0 exited
      then add64 (mul64 s.avg_lifetime (sub64 exited 1)) lifetime / exited
      else s.avg_lifetime;
}
  where
    exited : ℕ
    exited = inc64 s.total_processes_exited

abbrev pub exited_record : ℕ → ℕ → ProcessRecord → ProcessRecord
exited_record now code r = record r { end_time = now; status = 0; exit_code = code }

-- The part under `process_lock`: the new state, and the record that was found with its lifetime.
unfoldable pub exit_locked : Kernel → ℕ → ℕ → ℕ → Monitor → Option (Monitor × Option (ℕ × ℕ))
unfolding find_process_by_pid lifetime_of count_exited
exit_locked k now pid code m = find_process_by_pid k m pid >>= λ found. elim found [
  | none ↦ some (m, none)
  | some a ↦ m.heap a >>= λ r.
      let r' = exited_record now code r in
      some (
        record m {
          heap = update m.heap a (some r');
          stats = count_exited r'.cpu_time (lifetime_of k r') m.stats;
        },
        some (a, lifetime_of k r'),
      )
]

-- The test and the message after the lock is released.
unfoldable pub report_exited : Kernel → ℕ → ℕ → Option (ℕ × ℕ) → Monitor → Option (List Line)
unfolding process_matches_filter
report_exited k pid code none m = some []
report_exited k pid code (some (a, lifetime)) m = process_matches_filter k m a >>= λ ok. some (
    if ok
    then line "process_monitor: Process exited - PID: %d, Exit Code: %d, Lifetime: %lu sec\n"
        (num pid ∷ num code ∷ num lifetime ∷ [])
      ∷ []
    else [])

unfoldable pub mark_process_exit : Kernel → ℕ → ℕ → ℕ → Monitor → Option (Monitor × List Line)
unfolding exit_locked report_exited
mark_process_exit k now pid code m =
    if m.monitoring_enabled == 0
    then some (m, [])
    else exit_locked k now pid code m >>= λ (m', found).
        report_exited k pid code found m' >>= λ out. some (m', out)

-- The handlers run in the task that is about to fork or to exit.
unfoldable pub pre_handler_fork :
    Kernel → ℕ → Option ℕ → Task → Monitor → Option (Monitor × List Line)
unfolding add_process_record
pre_handler_fork k now alloc task m =
    add_process_record k now alloc task.pid task.parent_pid task.comm m

unfoldable pub pre_handler_exit : Kernel → ℕ → Task → Monitor → Option (Monitor × List Line)
unfolding mark_process_exit
pre_handler_exit k now task m = mark_process_exit k now task.pid task.code m
