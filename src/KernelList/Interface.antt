-- ===== src/KernelList/Interface.antt =====
-- The file /proc/kernel_list_demo, and loading and unloading of experiments/02_kernel_list.c.
use model_lib.Prelude.{
  ℕ, Bool, List, [], ◌∷◌, ◌++◌, map, drop, Option, none, some, String, if◌then◌else◌, ◌>>=◌,
}
use model_lib.Prelude.Text.{codes, str_eq, strn_eq, copy_str}
use model_lib.Kernel.{
  Kernel, Reply, written, refused, enomem, Errno, Line, line, say, num, str, txt,
}
use model_lib.Command.{Received, command, rejected, receive, one_number}
use model_lib.KernelList.State.{DemoRecord, ListDemo, max_records}
use model_lib.KernelList.Records.{add_record, remove_record_by_id, clear_all_records}

unfoldable pub delete_command : Option ℕ → ListDemo → ListDemo × List Line
unfolding remove_record_by_id
delete_command none m = (m, say "kernel_list: Invalid delete command format\n" ∷ [])
delete_command (some id) m = remove_record_by_id id m

unfoldable pub list_command : Kernel → ℕ → Bool → List ℕ → ListDemo → Option (ListDemo × List Line)
unfolding add_record delete_command clear_all_records
list_command k now alloc cmd m =
    if strn_eq cmd (codes "add ") 4
    then add_record now alloc (copy_str 32 (drop 4 cmd)) m
    else if strn_eq cmd (codes "del ") 4
    then some (delete_command (one_number (k.sscanf "%d" (drop 4 cmd))) m)
    else if str_eq cmd (codes "clear")
    then some (clear_all_records m)
    else some (m, line "kernel_list: Unknown command: %s\n" (str cmd ∷ []) ∷ [])

unfoldable pub list_received :
    Kernel → ℕ → Bool → ℕ → ListDemo → Received → Option (ListDemo × List Line × Reply)
unfolding list_command
list_received k now alloc count m (rejected e) = some (m, [], refused e)
list_received k now alloc count m (command cmd) =
    list_command k now alloc cmd m >>= λ (m', out). some (m', out, written count)

unfoldable pub kernel_list_write :
    Kernel → ℕ → Bool → ℕ → Option (List ℕ) → ListDemo → Option (ListDemo × List Line × Reply)
unfolding list_received receive
kernel_list_write k now alloc count copied m =
    receive 64 count copied >>= λ r. list_received k now alloc count m r

abbrev pub record_row : DemoRecord → Line
record_row r = line "%-4d %-20s %-12lu\n" (num r.id ∷ str r.name ∷ num r.timestamp ∷ [])

abbrev pub record_rows : List DemoRecord → List Line
record_rows [] = say "No records found.\n" ∷ []
record_rows (r ∷ rest) = map record_row (r ∷ rest)

abbrev usage : String → Line
usage format = line format (txt "kernel_list_demo" ∷ [])

unfoldable pub kernel_list_show : ListDemo → List Line
kernel_list_show m =
    say "=== Kernel List Management Demo ===\n"
      ∷ line "Total Records: %d/%d\n" (num m.record_count ∷ num max_records ∷ [])
      ∷ line "Next ID: %d\n" (num m.next_id ∷ [])
      ∷ say "\n=== Record List ===\n"
      ∷ line "%-4s %-20s %-12s\n" (txt "ID" ∷ txt "NAME" ∷ txt "TIMESTAMP" ∷ [])
      ∷ say "----------------------------------------\n"
      ∷ record_rows m.record_list
    ++ say "\n=== Usage ===\n"
      ∷ usage "Add record: echo 'add <name>' > /proc/%s\n"
      ∷ usage "Remove record: echo 'del <id>' > /proc/%s\n"
      ∷ usage "Clear all: echo 'clear' > /proc/%s\n"
      ∷ []

-- `entry` says whether `proc_create` gives an entry; `first` and `second` whether the two calls of
-- `kmalloc` give memory. The result is the state, or ENOMEM with the state as it was.
unfoldable pub kernel_list_init :
    ℕ → Bool → Bool → Bool → ListDemo → Option (ListDemo × Option Errno)
unfolding add_record
kernel_list_init now entry first second m =
    if entry
    then (add_record now first (codes "initial_record") m >>= λ (m', out).
        add_record now second (codes "demo_entry") m' >>= λ (m'', more). some (m'', none))
    else some (m, some enomem)

unfoldable pub kernel_list_exit : ListDemo → ListDemo × List Line
unfolding clear_all_records
kernel_list_exit m =
    let (m', out) = clear_all_records m in
    (
      m',
      say "kernel_list: Unloading Kernel List Management Module\n" ∷ out
          ++ say "kernel_list: Module unloaded successfully\n" ∷ [],
    )
