-- ===== src/Monitor/Events.antt =====
-- What the probes of process_monitor.c do. `now` is `jiffies`.
use model_lib.Prelude.{
  ℕ, Bool, true, false, ◌&&◌, List, [], ◌∷◌, ◌++◌, Option, none, some, ◌==◌, ltb, if◌then◌else◌,
  ◌>>=◌,
}
use model_lib.Prelude.Words.{inc32, dec32, inc64, dec64, int_le}
use model_lib.Prelude.Text.{copy_str}
use model_lib.Kernel.{Kernel, Task, Line, line, say, num, str}
use model_lib.Monitor.State.{ProcessRecord, MonitorStats, Monitor, max_process_records}

unfoldable pub new_record : Kernel → ℕ → ℕ → ℕ → List ℕ → ProcessRecord
new_record k now pid ppid comm = record {
  pid = pid;
  ppid = ppid;
  comm = copy_str k.task_comm_len comm;
  start_time = now;
  end_time = 0;
  status = 1;
}

-- `list_first_entry` of an empty list is a bogus pointer.
unfoldable pub remove_oldest : List ProcessRecord → Monitor → Option Monitor
remove_oldest [] m = none
remove_oldest (oldest ∷ rest) m =
    some (record m { process_list = rest; record_count = dec32 m.record_count })

unfoldable pub make_room : Monitor → Option Monitor
unfolding remove_oldest
make_room m =
    if int_le max_process_records m.record_count then remove_oldest m.process_list m else some m

unfoldable pub count_created : MonitorStats → MonitorStats
count_created s = record s {
  total_processes_created = inc64 s.total_processes_created;
  current_processes = inc64 s.current_processes;
  peak_processes =
      if ltb s.peak_processes (inc64 s.current_processes)
      then inc64 s.current_processes
      else s.peak_processes;
}

-- The part under `process_lock`.
unfoldable pub add_locked : ProcessRecord → Monitor → Option Monitor
unfolding make_room count_created
add_locked r m = make_room m >>= λ m'. some (record m' {
  process_list = m'.process_list ++ r ∷ [];
  record_count = inc32 m'.record_count;
  stats = count_created m'.stats;
})

-- `alloc` says whether `kmalloc` gives memory.
unfoldable pub add_process_record :
    Kernel → ℕ → Bool → ℕ → ℕ → List ℕ → Monitor → Option (Monitor × List Line)
unfolding add_locked new_record
add_process_record k now false pid ppid comm m =
    some (m, say "process_monitor: Failed to allocate memory for process record\n" ∷ [])
add_process_record k now true pid ppid comm m =
    add_locked (new_record k now pid ppid comm) m >>= λ m'. some (
      m',
      line "process_monitor: Process created - PID: %d, PPID: %d, COMM: %s\n"
            (num pid ∷ num ppid ∷ str comm ∷ [])
          ∷ [],
    )

-- `record->pid == pid && record->status == 1`
abbrev pub is_running : ℕ → ProcessRecord → Bool
is_running pid r = r.pid == pid && r.status == 1

abbrev pub exited_record : ℕ → ProcessRecord → ProcessRecord
exited_record now r = record r { end_time = now; status = 0 }

unfoldable pub count_exited : MonitorStats → MonitorStats
count_exited s = record s {
  total_processes_exited = inc64 s.total_processes_exited;
  current_processes = dec64 s.current_processes;
}

-- The loop over the list with its `break`.
unfoldable pub mark_loop :
    ℕ → ℕ → List ProcessRecord → MonitorStats → List ProcessRecord × MonitorStats
unfolding count_exited
mark_loop now pid [] s = ([], s)
mark_loop now pid (r ∷ rest) s = elim (is_running pid r) [
  | true ↦ (exited_record now r ∷ rest, count_exited s)
  | false ↦ let (rest', s') = mark_loop now pid rest s in (r ∷ rest', s')
]

-- The message is printed whether or not a record was found.
unfoldable pub mark_process_exit : ℕ → ℕ → Monitor → Monitor × List Line
unfolding mark_loop
mark_process_exit now pid m =
    let (rs, s) = mark_loop now pid m.process_list m.stats in
    (
      record m { process_list = rs; stats = s },
      line "process_monitor: Process exited - PID: %d\n" (num pid ∷ []) ∷ [],
    )

unfoldable pub pre_handler_fork : Kernel → ℕ → Bool → Task → Monitor → Option (Monitor × List Line)
unfolding add_process_record
pre_handler_fork k now alloc task m =
    add_process_record k now alloc task.pid task.parent_pid task.comm m

unfoldable pub pre_handler_exit : ℕ → Task → Monitor → Monitor × List Line
unfolding mark_process_exit
pre_handler_exit now task m = mark_process_exit now task.pid m
