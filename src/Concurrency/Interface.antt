-- ===== src/Concurrency/Interface.antt =====
-- The file /proc/concurrency_demo, and loading and unloading of
-- experiments/04_concurrency_control.c.
use model_lib.Prelude.{
  ℕ, ◌+◌, ◌-◌, ◌%◌, ◌^◌, Bool, true, false, List, [], ◌∷◌, ◌++◌, Option, none, some, ◌==◌,
  if◌then◌else◌, ◌>>=◌,
}
use model_lib.Prelude.Words.{inc32, int_le, int_lt}
use model_lib.Prelude.Text.{codes, str_eq}
use model_lib.Kernel.{
  Kernel, Errno, enomem, Reply, written, refused, Line, line, say, num, str, txt,
}
use model_lib.Command.{Received, command, rejected, receive, word_number}
use model_lib.Concurrency.State.{SharedData, Demo, World, max_data_items}
use model_lib.Concurrency.Items.{
  spinlock_add_data, mutex_add_data, rwlock_read_data, rwlock_write_data, clear_all_data,
}
use model_lib.Concurrency.Workers.{start_worker_threads, stop_worker_threads}

abbrev pub item_row : SharedData → Line
item_row d = line "%-8d %-12lu\n" (num d.value ∷ num d.access_count ∷ [])

-- The loop over the list with its `break`.
unfoldable pub show_loop : List SharedData → ℕ → List Line
show_loop [] count = []
show_loop (d ∷ rest) count = elim (int_le 10 count) [
  | true ↦ []
  | false ↦ item_row d ∷ show_loop rest (inc32 count)
]

unfoldable pub show_items : List SharedData → ℕ → List Line
unfolding show_loop
show_items [] data_count = say "No data items\n" ∷ []
show_items (d ∷ rest) data_count =
    show_loop (d ∷ rest) 0
    ++ (if int_lt 10 data_count
        then line "... and %d more items\n" (num ((data_count + 2 ^ 32 - 10) % 2 ^ 32) ∷ []) ∷ []
        else [])

abbrev pub show_header : Demo → List Line
show_header m =
    say "=== Concurrency Control Demo ===\n"
    ∷ line "Data items: %d/%d\n" (num m.data_count ∷ num max_data_items ∷ [])
    ∷ line "Worker threads: %s\n"
        (txt (if m.worker_running == 0 then "STOPPED" else "RUNNING") ∷ [])
    ∷ say "\n=== Lock Statistics ===\n"
    ∷ line "Spinlock operations: %lu\n" (num m.stats.spinlock_ops ∷ [])
    ∷ line "Mutex operations: %lu\n" (num m.stats.mutex_ops ∷ [])
    ∷ line "RWLock read operations: %lu\n" (num m.stats.rwlock_read_ops ∷ [])
    ∷ line "RWLock write operations: %lu\n" (num m.stats.rwlock_write_ops ∷ [])
    ∷ line "Contention count: %lu\n" (num m.stats.contention_count ∷ [])
    ∷ say "\n=== Data List (first 10 items) ===\n"
    ∷ line "%-8s %-12s\n" (txt "VALUE" ∷ txt "ACCESS_COUNT" ∷ [])
    ∷ say "--------------------\n"
    ∷ []

abbrev pub show_commands : List Line
show_commands =
    say "\n=== Commands ===\n"
    ∷ say "start     - Start worker threads\n"
    ∷ say "stop      - Stop worker threads\n"
    ∷ say "clear     - Clear all data\n"
    ∷ say "spin N    - Add data using spinlock\n"
    ∷ say "mutex N   - Add data using mutex\n"
    ∷ say "rwlock N  - Add data using rwlock\n"
    ∷ say "read      - Read data using rwlock\n"
    ∷ []

unfoldable pub concurrency_show : Demo → List Line
unfolding show_items
concurrency_show m = show_header m ++ show_items m.data_list m.data_count ++ show_commands

-- A command of a word and a number, or what is no command.
unfoldable pub add_command : World → List ℕ → Option (List ℕ × ℕ) → Demo → Option (Demo × List Line)
unfolding spinlock_add_data mutex_add_data rwlock_write_data
add_command w cmd none m = some (m, line "concurrency: Unknown command: %s\n" (str cmd ∷ []) ∷ [])
add_command w cmd (some (op, value)) m =
    if str_eq op (codes "spin")
    then spinlock_add_data w.alloc value m
    else if str_eq op (codes "mutex")
    then mutex_add_data w.alloc w.interrupted value m
    else if str_eq op (codes "rwlock")
    then rwlock_write_data w.alloc value m
    else some (m, line "concurrency: Unknown operation: %s\n" (str op ∷ []) ∷ [])

unfoldable pub read_command : Demo → Demo × List Line
unfolding rwlock_read_data
read_command m =
    let (m', count) = rwlock_read_data m in
    (m', line "concurrency: Read %d data items\n" (num count ∷ []) ∷ [])

unfoldable pub run_command : Kernel → World → List ℕ → Demo → Option (Demo × List Line)
unfolding start_worker_threads stop_worker_threads clear_all_data read_command add_command
run_command k w cmd m =
    if str_eq cmd (codes "start")
    then some (start_worker_threads w.kthread_run m)
    else if str_eq cmd (codes "stop")
    then some (stop_worker_threads m)
    else if str_eq cmd (codes "clear")
    then some (clear_all_data m)
    else if str_eq cmd (codes "read")
    then some (read_command m)
    else add_command w cmd (word_number (k.sscanf "%15s %d" cmd)) m

unfoldable pub received_command :
    Kernel → World → ℕ → Demo → Received → Option (Demo × List Line × Reply)
unfolding run_command
received_command k w count m (rejected e) = some (m, [], refused e)
received_command k w count m (command cmd) =
    run_command k w cmd m >>= λ (m', out). some (m', out, written count)

unfoldable pub concurrency_write :
    Kernel → World → ℕ → Option (List ℕ) → Demo → Option (Demo × List Line × Reply)
unfolding received_command receive
concurrency_write k w count copied m =
    receive 64 count copied >>= λ r. received_command k w count m r

-- `entry` says whether `proc_create` gives an entry; the result says whether it is registered.
unfoldable pub concurrency_init : Bool → Bool × Option Errno
concurrency_init true = (true, none)
concurrency_init false = (false, some enomem)

unfoldable pub concurrency_exit : Demo → Demo × Bool × List Line
unfolding stop_worker_threads clear_all_data
concurrency_exit m =
    let (stopped, out) = stop_worker_threads m in
    let (cleared, more) = clear_all_data stopped in
    (
      cleared,
      false,
      say "concurrency: Unloading Concurrency Control Module\n" ∷ out
          ++ more
          ++ say "concurrency: Module unloaded successfully\n" ∷ [],
    )
