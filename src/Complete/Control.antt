-- ===== src/Complete/Control.antt =====
-- `filter_write` and `control_write`.
use model_lib.Prelude.{ℕ, List, [], ◌∷◌, Option, none, some, if◌then◌else◌, ◌>>=◌}
use model_lib.Prelude.Words.{truncate32}
use model_lib.Prelude.Text.{codes, str_eq, copy_str}
use model_lib.Kernel.{Kernel, Reply, written, refused, Line, say}
use model_lib.Command.{Received, command, rejected, receive, two_words}
use model_lib.Complete.State.{FilterConfig, Monitor, zero_stats, zero_filter}
use model_lib.Complete.Events.{release_record}

-- `simple_strtol` returns a `long`, which is stored in an `int`.
unfoldable pub set_option : Kernel → Option (List ℕ × List ℕ) → FilterConfig → FilterConfig
set_option k none f = f
set_option k (some (op, value)) f =
    if str_eq op (codes "pid")
    then record f { target_pid = truncate32 (k.simple_strtol value) }
    else if str_eq op (codes "ppid")
    then record f { target_ppid = truncate32 (k.simple_strtol value) }
    else if str_eq op (codes "comm")
    then record f { target_comm = copy_str k.task_comm_len value }
    else if str_eq op (codes "minlife")
    then record f { min_lifetime = truncate32 (k.simple_strtol value) }
    else if str_eq op (codes "maxlife")
    then record f { max_lifetime = truncate32 (k.simple_strtol value) }
    else f

unfoldable pub filter_command : Kernel → List ℕ → FilterConfig → FilterConfig
unfolding set_option
filter_command k cmd f =
    if str_eq cmd (codes "enable")
    then record f { enabled = 1 }
    else if str_eq cmd (codes "disable")
    then record f { enabled = 0 }
    else if str_eq cmd (codes "reset")
    then zero_filter
    else set_option k (two_words (k.sscanf "%31s %63s" cmd)) f

unfoldable pub filter_received : Kernel → ℕ → Monitor → Received → Monitor × Reply
unfolding filter_command
filter_received k count m (rejected e) = (m, refused e)
filter_received k count m (command cmd) =
    (record m { filter = filter_command k cmd m.filter }, written count)

unfoldable pub filter_write : Kernel → ℕ → Option (List ℕ) → Monitor → Option (Monitor × Reply)
unfolding filter_received receive
filter_write k count copied m = receive 128 count copied >>= λ r. some (filter_received k count m r)

-- The loop of "clear" over the list as it stands.
unfoldable pub release_all : Kernel → List ℕ → Monitor → Option Monitor
unfolding release_record
release_all k [] m = some m
release_all k (a ∷ rest) m = release_record k a m >>= λ m'. release_all k rest m'

unfoldable pub clear_records : Kernel → Monitor → Option Monitor
unfolding release_all
clear_records k m = release_all k m.process_list m >>= λ m'. some (record m' { record_count = 0 })

unfoldable pub control_command : Kernel → List ℕ → Monitor → Option (Monitor × List Line)
unfolding clear_records
control_command k cmd m =
    if str_eq cmd (codes "start")
    then some
        (record m { monitoring_enabled = 1 }, say "process_monitor: Monitoring started\n" ∷ [])
    else if str_eq cmd (codes "stop")
    then some
        (record m { monitoring_enabled = 0 }, say "process_monitor: Monitoring stopped\n" ∷ [])
    else if str_eq cmd (codes "clear")
    then (clear_records k m >>= λ m'. some (m', say "process_monitor: All records cleared\n" ∷ []))
    else if str_eq cmd (codes "reset_stats")
    then some (record m { stats = zero_stats }, say "process_monitor: Statistics reset\n" ∷ [])
    else some (m, [])

unfoldable pub control_received :
    Kernel → ℕ → Monitor → Received → Option (Monitor × List Line × Reply)
unfolding control_command
control_received k count m (rejected e) = some (m, [], refused e)
control_received k count m (command cmd) =
    control_command k cmd m >>= λ (m', out). some (m', out, written count)

unfoldable pub control_write :
    Kernel → ℕ → Option (List ℕ) → Monitor → Option (Monitor × List Line × Reply)
unfolding control_received receive
control_write k count copied m = receive 64 count copied >>= λ r. control_received k count m r
