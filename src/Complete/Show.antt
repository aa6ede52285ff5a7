-- ===== src/Complete/Show.antt =====
-- The four files that are read: the calls of `seq_printf`, in order. `now` is `jiffies`.
use model_lib.Prelude.{
  ℕ, ◌+◌, ◌/◌, true, false, ◌&&◌, List, [], ◌∷◌, ◌++◌, Option, some, ◌==◌, ltb, leb, if◌then◌else◌,
  ◌>>=◌, length,
}
use model_lib.Prelude.Text.{codes}
use model_lib.Kernel.{Kernel, num, str, txt, Line, line, say}
use model_lib.Complete.State.{ProcessRecord, Monitor, max_process_records}
use model_lib.Complete.Matches.{lifetime_of, process_matches_filter}

unfoldable pub turnover_rate : Kernel → ℕ → ℕ → List Line
turnover_rate k now exited =
    if ltb 0 exited && ltb 0 now && ltb 0 (now / k.hz)
    then line "Process Turnover Rate: %lu proc/sec\n" (num (exited / (now / k.hz)) ∷ []) ∷ []
    else []

unfoldable pub stats_show : Kernel → ℕ → Monitor → List Line
unfolding turnover_rate
stats_show k now m =
    say "=== Process Monitor Statistics ===\n"
    ∷ line "Monitoring Status: %s\n"
        (txt (if m.monitoring_enabled == 0 then "DISABLED" else "ENABLED") ∷ [])
    ∷ line "Total Processes Created: %lu\n" (num m.stats.total_processes_created ∷ [])
    ∷ line "Total Processes Exited: %lu\n" (num m.stats.total_processes_exited ∷ [])
    ∷ line "Current Active Processes: %lu\n" (num m.stats.current_processes ∷ [])
    ∷ line "Peak Processes: %lu\n" (num m.stats.peak_processes ∷ [])
    ∷ line "Records in Memory: %d/%d\n" (num m.record_count ∷ num max_process_records ∷ [])
    ∷ say "\n=== Performance Statistics ===\n"
    ∷ line "Total CPU Time: %lu jiffies\n" (num m.stats.total_cpu_time ∷ [])
    ∷ line "Average Lifetime: %lu seconds\n" (num m.stats.avg_lifetime ∷ [])
    ∷ line "Longest Lifetime: %lu seconds\n" (num m.stats.longest_lifetime ∷ [])
    ∷ line "Shortest Lifetime: %lu seconds\n" (num m.stats.shortest_lifetime ∷ [])
    ∷ turnover_rate k now m.stats.total_processes_exited

abbrev pub max_shown : ℕ
max_shown = 50

unfoldable pub shown_lifetime : Kernel → ProcessRecord → ℕ
unfolding lifetime_of
shown_lifetime k r = if r.status == 0 && ltb r.start_time r.end_time then lifetime_of k r else 0

unfoldable pub record_row : Kernel → ProcessRecord → Line
unfolding shown_lifetime
record_row k r = line "%-8d %-8d %-16s %-12lu %-12lu %-8s %-8d %-12lu\n" (
    num r.pid
    ∷ num r.ppid
    ∷ str r.comm
    ∷ num r.start_time
    ∷ num r.end_time
    ∷ txt (if r.status == 0 then "EXITED" else "RUNNING")
    ∷ num r.exit_code
    ∷ num (shown_lifetime k r)
    ∷ [])

abbrev pub more_line : Line
more_line = say "... (showing first 50 matching records)\n"

-- The loop over the list, with `count` rows written: the further lines, and the final count.
unfoldable pub show_records : Kernel → Monitor → List ℕ → ℕ → Option (List Line × ℕ)
unfolding process_matches_filter record_row
show_records k m [] count = some ([], count)
show_records k m (a ∷ rest) count = process_matches_filter k m a >>= λ ok. elim ok [
  | false ↦ show_records k m rest count
  | true ↦ m.heap a >>= λ r. elim (leb max_shown (count + 1)) [
    | true ↦ some (record_row k r ∷ more_line ∷ [], count + 1)
    | false ↦ show_records k m rest (count + 1) >>= λ (rows, n). some (record_row k r ∷ rows, n)
  ]
]

abbrev pub processes_header : List Line
processes_header =
    say "=== Process Records ===\n"
    ∷ line "%-8s %-8s %-16s %-12s %-12s %-8s %-8s %-12s\n" (
        txt "PID"
        ∷ txt "PPID"
        ∷ txt "COMMAND"
        ∷ txt "START_TIME"
        ∷ txt "END_TIME"
        ∷ txt "STATUS"
        ∷ txt "EXIT_CODE"
        ∷ txt "LIFETIME"
        ∷ [])
    ∷ say "--------------------------------------------------------------------------------\n"
    ∷ []

unfoldable pub processes_show : Kernel → Monitor → Option (List Line)
unfolding show_records
processes_show k m = show_records k m m.process_list 0 >>= λ (rows, count).
    some (processes_header ++ rows ++ line "\nTotal matching records: %d\n" (num count ∷ []) ∷ [])

unfoldable pub filter_show : Monitor → List Line
filter_show m =
    say "=== Process Filter Configuration ===\n"
    ∷ line "Filter Enabled: %s\n" (txt (if m.filter.enabled == 0 then "NO" else "YES") ∷ [])
    ∷ line "Target PID: %d (0 = any)\n" (num m.filter.target_pid ∷ [])
    ∷ line "Target PPID: %d (0 = any)\n" (num m.filter.target_ppid ∷ [])
    ∷ line "Target Command: %s (empty = any)\n" (
        str (if length m.filter.target_comm == 0 then codes "(any)" else m.filter.target_comm) ∷ [])
    ∷ line "Min Lifetime: %d seconds (0 = no limit)\n" (num m.filter.min_lifetime ∷ [])
    ∷ line "Max Lifetime: %d seconds (0 = no limit)\n" (num m.filter.max_lifetime ∷ [])
    ∷ say "\n=== Filter Commands ===\n"
    ∷ say "enable           - Enable filtering\n"
    ∷ say "disable          - Disable filtering\n"
    ∷ say "pid <pid>        - Filter by PID\n"
    ∷ say "ppid <ppid>      - Filter by parent PID\n"
    ∷ say "comm <command>   - Filter by command name\n"
    ∷ say "minlife <sec>    - Minimum lifetime filter\n"
    ∷ say "maxlife <sec>    - Maximum lifetime filter\n"
    ∷ say "reset            - Reset all filters\n"
    ∷ []

unfoldable pub control_show : Monitor → List Line
control_show m =
    say "=== Process Monitor Control ===\n"
    ∷ line "Monitoring: %s\n"
        (txt (if m.monitoring_enabled == 0 then "DISABLED" else "ENABLED") ∷ [])
    ∷ line "Records: %d/%d\n" (num m.record_count ∷ num max_process_records ∷ [])
    ∷ say "\n=== Control Commands ===\n"
    ∷ say "start            - Start monitoring\n"
    ∷ say "stop             - Stop monitoring\n"
    ∷ say "clear            - Clear all records\n"
    ∷ say "reset_stats      - Reset statistics\n"
    ∷ []
