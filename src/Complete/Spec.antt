-- ===== src/Complete/Spec.antt =====
-- The monitor as a sequence of events, and the abstract machine that it implements: a list of at
-- most 1000 records, the statistics, the filter and the switch.
use model_lib.Prelude.{ℕ, ◌<◌, ◌≡◌, false, List, [], Option, none, some, ◌==◌, if◌then◌else◌, ◌>>=◌}
use model_lib.Prelude.Text.{codes, str_eq}
use model_lib.Kernel.{Kernel, Task}
use model_lib.Command.{Received, command, rejected}
use model_lib.Command.Receive.{IsCopied, spec_received}
use model_lib.Complete.State.{ProcessRecord, MonitorStats, FilterConfig, Monitor, zero_stats}
use model_lib.Complete.Events.{
  new_record, count_created, exited_record, pre_handler_fork, pre_handler_exit,
}
use model_lib.Complete.Control.{filter_command, filter_write, control_write}
use model_lib.Complete.Invariant.{is_live}
use model_lib.Complete.View.{view, spec_add, spec_exit}
use model_lib.Complete.Safety.Exit.{newest_running, spec_stats}

pub record Abstract : Type 0 where
  pub rows : List ProcessRecord
  pub stats : MonitorStats
  pub filter : FilterConfig
  pub enabled : ℕ

abbrev pub abstract_of : Monitor → Abstract
abstract_of m = record {
  rows = view m;
  stats = m.stats;
  filter = m.filter;
  enabled = m.monitoring_enabled;
}

-- What reaches the module: a fork or an exit of a task, at a time, and the writes of a user.
pub data Event : Type 0 where
  fork : (now : ℕ) → (alloc : Option ℕ) → Task → Event
  exit : (now : ℕ) → Task → Event
  write_filter : (count : ℕ) → Option (List ℕ) → Event
  write_control : (count : ℕ) → Option (List ℕ) → Event

abbrev pub run_event : Kernel → Event → Monitor → Option Monitor
run_event k (fork now alloc task) m = pre_handler_fork k now alloc task m >>= λ (m', out). some m'
run_event k (exit now task) m = pre_handler_exit k now task m >>= λ (m', out). some m'
run_event k (write_filter count copied) m = filter_write k count copied m >>= λ (m', reply). some m'
run_event k (write_control count copied) m =
    control_write k count copied m >>= λ (m', out, reply). some m'

-- `kmalloc` gives NULL or memory that is not in use.
abbrev pub IsFresh : Monitor → Option ℕ → Type 0
IsFresh m none = Unit
IsFresh m (some a) = is_live m.heap a ≡ false

-- The kernel keeps its word, and no write is empty.
abbrev pub IsAllowed : Monitor → Event → Type 0
IsAllowed m (fork now alloc task) = IsFresh m alloc
IsAllowed m (exit now task) = Unit
IsAllowed m (write_filter count copied) = IsCopied count copied × (0 < count)
IsAllowed m (write_control count copied) = IsCopied count copied × (0 < count)

abbrev pub spec_fork : Kernel → ℕ → Option ℕ → Task → Abstract → Abstract
spec_fork k now none task s = s
spec_fork k now (some a) task s = if s.enabled == 0 then s else record s {
  rows = spec_add (new_record k now task.pid task.parent_pid task.comm) s.rows;
  stats = count_created s.stats;
}

abbrev pub spec_mark : Kernel → ℕ → Task → Abstract → Abstract
spec_mark k now task s = if s.enabled == 0 then s else record s {
  rows = spec_exit task.pid (exited_record now task.code) s.rows;
  stats = spec_stats k now task.code (newest_running task.pid s.rows) s.stats;
}

-- The four commands of the file `control`; any other text does nothing.
abbrev pub spec_control : List ℕ → Abstract → Abstract
spec_control cmd s =
    if str_eq cmd (codes "start")
    then record s { enabled = 1 }
    else if str_eq cmd (codes "stop")
    then record s { enabled = 0 }
    else if str_eq cmd (codes "clear")
    then record s { rows = [] }
    else if str_eq cmd (codes "reset_stats")
    then record s { stats = zero_stats }
    else s

abbrev pub spec_write_filter : Kernel → Received → Abstract → Abstract
spec_write_filter k (rejected e) s = s
spec_write_filter k (command cmd) s = record s { filter = filter_command k cmd s.filter }

abbrev pub spec_write_control : Received → Abstract → Abstract
spec_write_control (rejected e) s = s
spec_write_control (command cmd) s = spec_control cmd s

abbrev pub spec_step : Kernel → Event → Abstract → Abstract
spec_step k (fork now alloc task) s = spec_fork k now alloc task s
spec_step k (exit now task) s = spec_mark k now task s
spec_step k (write_filter count copied) s = spec_write_filter k (spec_received 128 count copied) s
spec_step k (write_control count copied) s = spec_write_control (spec_received 64 count copied) s
