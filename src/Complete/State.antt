-- ===== src/Complete/State.antt =====
-- The data of experiments/05_complete_monitor.c: records, statistics, filter and the global state.
use model_lib.Prelude.{ℕ, List, [], Option, none, ◌==◌, if◌then◌else◌}
use model_lib.Kernel.{Tree, leaf}

abbrev pub max_process_records : ℕ
max_process_records = 1000

-- The links `list`, `hash` and `rb_node` of a record are kept by the containers.
pub record ProcessRecord : Type 0 where
  pub pid : ℕ
  pub ppid : ℕ
  pub comm : List ℕ
  pub start_time : ℕ
  pub end_time : ℕ
  pub status : ℕ
  pub cpu_time : ℕ
  pub memory_usage : ℕ
  pub exit_code : ℕ

pub record MonitorStats : Type 0 where
  pub total_processes_created : ℕ
  pub total_processes_exited : ℕ
  pub current_processes : ℕ
  pub peak_processes : ℕ
  pub total_cpu_time : ℕ
  pub avg_lifetime : ℕ
  pub longest_lifetime : ℕ
  pub shortest_lifetime : ℕ

pub record FilterConfig : Type 0 where
  pub target_pid : ℕ
  pub target_ppid : ℕ
  pub target_comm : List ℕ
  pub min_lifetime : ℕ
  pub max_lifetime : ℕ
  pub enabled : ℕ

-- `memset(&stats, 0, sizeof(stats))`
abbrev pub zero_stats : MonitorStats
zero_stats = record {
  total_processes_created = 0;
  total_processes_exited = 0;
  current_processes = 0;
  peak_processes = 0;
  total_cpu_time = 0;
  avg_lifetime = 0;
  longest_lifetime = 0;
  shortest_lifetime = 0;
}

-- `memset(&filter, 0, sizeof(filter))`
abbrev pub zero_filter : FilterConfig
zero_filter = record {
  target_pid = 0;
  target_ppid = 0;
  target_comm = [];
  min_lifetime = 0;
  max_lifetime = 0;
  enabled = 0;
}

abbrev pub Heap : Type 0
Heap = ℕ → Option ProcessRecord

-- The global variables, and the records that are allocated: `none` is memory that is not ours.
pub record Monitor : Type 0 where
  pub heap : Heap
  pub process_list : List ℕ
  pub process_hash : ℕ → List ℕ
  pub process_tree : Tree
  pub record_count : ℕ
  pub stats : MonitorStats
  pub filter : FilterConfig
  pub monitoring_enabled : ℕ

-- The static initialisers.
abbrev pub initial : Monitor
initial = record {
  heap = λ _. none;
  process_list = [];
  process_hash = λ _. [];
  process_tree = leaf;
  record_count = 0;
  stats = zero_stats;
  filter = zero_filter;
  monitoring_enabled = 1;
}

abbrev pub update : Heap → ℕ → Option ProcessRecord → Heap
update h a o b = if b == a then o else h b
