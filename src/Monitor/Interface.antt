-- ===== src/Monitor/Interface.antt =====
-- The file /proc/process_monitor: `process_monitor_show` and `process_monitor_write`.
use model_lib.Prelude.{ℕ, List, [], ◌∷◌, ◌++◌, Option, none, some, map, ◌==◌, leb, if◌then◌else◌}
use model_lib.Prelude.Text.{codes, c_str, strn_eq}
use model_lib.Kernel.{Reply, written, refused, einval, efault, Line, line, say, num, str, txt}
use model_lib.Monitor.State.{ProcessRecord, Monitor, zero_stats}

abbrev pub record_row : ProcessRecord → Line
record_row r = line "%-8d %-8d %-16s %-12lu %-12lu %-8s\n" (
    num r.pid
    ∷ num r.ppid
    ∷ str r.comm
    ∷ num r.start_time
    ∷ num r.end_time
    ∷ txt (if r.status == 0 then "EXITED" else "RUNNING")
    ∷ [])

unfoldable pub process_monitor_show : Monitor → List Line
process_monitor_show m =
    say "=== Process Monitor Statistics ===\n"
    ∷ line "Total Processes Created: %lu\n" (num m.stats.total_processes_created ∷ [])
    ∷ line "Total Processes Exited: %lu\n" (num m.stats.total_processes_exited ∷ [])
    ∷ line "Current Active Processes: %lu\n" (num m.stats.current_processes ∷ [])
    ∷ line "Peak Processes: %lu\n" (num m.stats.peak_processes ∷ [])
    ∷ line "Records in Memory: %d\n" (num m.record_count ∷ [])
    ∷ say "\n=== Recent Process Records ===\n"
    ∷ line "%-8s %-8s %-16s %-12s %-12s %-8s\n" (
        txt "PID"
        ∷ txt "PPID"
        ∷ txt "COMMAND"
        ∷ txt "START_TIME"
        ∷ txt "END_TIME"
        ∷ txt "STATUS"
        ∷ [])
    ∷ say "------------------------------------------------------------------------\n"
    ∷ map record_row m.process_list

-- The loop of "clear" frees every record of the list, and the counters are set to 0.
unfoldable pub clear_monitor : Monitor → Monitor
clear_monitor m = record { process_list = []; record_count = 0; stats = zero_stats }

-- `strncmp(cmd, "clear", 5) == 0`: any text that begins so.
unfoldable pub run_command : List ℕ → Monitor → Monitor × List Line
unfolding clear_monitor
run_command cmd m =
    if strn_eq cmd (codes "clear") 5
    then (clear_monitor m, say "process_monitor: Statistics cleared\n" ∷ [])
    else (m, [])

-- `copied` is what `copy_from_user` brings, `none` if it fails.
unfoldable pub process_monitor_write : ℕ → Option (List ℕ) → Monitor → Monitor × List Line × Reply
unfolding run_command
process_monitor_write count none m = (m, [], refused (if leb 32 count then einval else efault))
process_monitor_write count (some bytes) m =
    if leb 32 count
    then (m, [], refused einval)
    else let (m', out) = run_command (c_str (bytes ++ 0 ∷ [])) m in (m', out, written count)
