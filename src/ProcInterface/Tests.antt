-- ===== src/ProcInterface/Tests.antt =====
-- Runs of experiments/03_proc_interface.c.
use model_lib.Prelude.{
  ℕ, ◌^◌, ◌%◌, ◌≡◌, ◌⊎◌, refl, true, false, List, [], ◌∷◌, none, some, arith, length, All,
  if◌then◌else◌, ◌>>=◌,
}
use model_lib.Prelude.Text.{codes, c_str}
use model_lib.Kernel.{Kernel, Line, line, str, num, written, enomem}
use model_lib.ProcInterface.State.{ProcData, initial, whole, fault}
use model_lib.ProcInterface.Files.{counter_write, message_write, message_show}
use model_lib.ProcInterface.Module.{Boot, nothing, proc_interface_init}
use model_lib.ProcInterface.Message.{IsTerminated, message_show-message_write}
use model_lib.ProcInterface.History.{
  Event, show_counter, write_counter, write_message, IsAllowed, run_events, run_events-IsTerminated,
}
use model_lib.ProcInterface.Counter.{after_reads, reset_then_reads}
use model_lib.ProcInterface.Lifecycle.{all_entries, created, proc_interface_init_undoes}

-- A kernel in which every number reads as 7.
abbrev plain : Kernel
plain = record {
  hz = 250;
  task_comm_len = 16;
  hash_min = λ pid. 0;
  rb_insert_color = λ a t. t;
  rb_erase = λ a t. t;
  sscanf = λ format text. num 7 ∷ [];
  simple_strtol = λ text. 0;
}

-- A failed copy of five bytes brings two.
abbrev history : List Event
history =
    show_counter 10
    ∷ write_counter 20 2 (some (codes "7\n"))
    ∷ write_message 5 (fault (codes "by"))
    ∷ []

history-IsAllowed : All IsAllowed history
history-IsAllowed = (tt, ((refl, omega arith), (omega arith, tt)))

run_events-IsTerminated_example :
    (d : ProcData) × (run_events plain history initial ≡ some d) × IsTerminated d.user_message
run_events-IsTerminated_example = run_events-IsTerminated plain history history-IsAllowed

-- Then the message begins with these two bytes and goes on as before.
message-fault :
    (message_write 5 (fault (codes "by")) initial >>= λ (d, out, reply). some (message_show d))
    ≡ some (line "%s" (str (codes "byllo from kernel!\n") ∷ []) ∷ [])
unfolding message_write message_show
message-fault = refl

message_show-message_write_example :
    (d' : ProcData) × (out : List Line) × (message_write 3 (whole (codes "bye")) initial
      ≡ some (d', out, written 3))
    × (message_show d' ≡ line "%s" (str (c_str (codes "bye")) ∷ []) ∷ [])
message_show-message_write_example =
    message_show-message_write (codes "bye") initial (omega arith) (refl, refl)

reset_then_reads_example :
    (d' : ProcData) × (out : List Line) × (counter_write plain 5 6 (some (codes "reset\n")) initial
      ≡ some (d', out, written 6))
    × ((after_reads (30 ∷ 20 ∷ []) d').counter ≡ length {A = ℕ} (30 ∷ 20 ∷ []) % 2 ^ 32)
reset_then_reads_example = reset_then_reads plain 5 (30 ∷ 20 ∷ []) initial

-- A kernel that refuses the last file.
abbrev no_time : Boot
no_time = record {
  proc_mkdir = true;
  proc_create = λ name. if text.Mathlib.Text.◌==◌ name "time" then false else true;
}

proc_interface_init_undoes_example :
    ((created no_time ≡ true) × (proc_interface_init no_time ≡ (all_entries, none)))
    ⊎ ((created no_time ≡ false) × (proc_interface_init no_time ≡ (nothing, some enomem)))
proc_interface_init_undoes_example = proc_interface_init_undoes no_time
