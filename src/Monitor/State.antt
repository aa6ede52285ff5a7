-- ===== src/Monitor/State.antt =====
-- The data of process_monitor.c. The records hang on one list only, which is a list here.
use model_lib.Prelude.{ℕ, List, []}

abbrev pub max_process_records : ℕ
max_process_records = 1000

pub record ProcessRecord : Type 0 where
  pub pid : ℕ
  pub ppid : ℕ
  pub comm : List ℕ
  pub start_time : ℕ
  pub end_time : ℕ
  pub status : ℕ

pub record MonitorStats : Type 0 where
  pub total_processes_created : ℕ
  pub total_processes_exited : ℕ
  pub current_processes : ℕ
  pub peak_processes : ℕ

-- `memset(&stats, 0, sizeof(stats))`
abbrev pub zero_stats : MonitorStats
zero_stats = record {
  total_processes_created = 0;
  total_processes_exited = 0;
  current_processes = 0;
  peak_processes = 0;
}

pub record Monitor : Type 0 where
  pub process_list : List ProcessRecord
  pub record_count : ℕ
  pub stats : MonitorStats

abbrev pub initial : Monitor
initial = record { process_list = []; record_count = 0; stats = zero_stats }
