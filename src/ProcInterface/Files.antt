-- ===== src/ProcInterface/Files.antt =====
-- The four files of /proc/proc_demo. `now` is `jiffies`.
use model_lib.Prelude.{ℕ, List, [], ◌∷◌, Option, none, some, String, leb, if◌then◌else◌, ◌>>=◌}
use model_lib.Prelude.Words.{inc32}
use model_lib.Prelude.Text.{codes, c_str, str_eq}
use model_lib.Kernel.{
  Kernel, Reply, written, refused, einval, efault, Line, line, say, num, str, txt,
}
use model_lib.Command.{Received, command, rejected, receive, one_number}
use model_lib.ProcInterface.State.{ProcData, UserCopy, whole, fault, overwrite, store}

abbrev in_dir : String → Line
in_dir format = line format (txt "proc_demo" ∷ [])

unfoldable pub info_show : String → ProcData → List Line
info_show this_module d =
    say "=== Proc Interface Demo ===\n"
    ∷ line "Module: %s\n" (txt this_module ∷ [])
    ∷ line "Version: %s\n" (txt "1.0" ∷ [])
    ∷ say "Description: Demonstrates proc filesystem usage\n"
    ∷ say "\nAvailable interfaces:\n"
    ∷ in_dir "  /proc/%s/info     - This information (read-only)\n"
    ∷ in_dir "  /proc/%s/counter  - Access counter (read/write)\n"
    ∷ in_dir "  /proc/%s/message  - User message (read/write)\n"
    ∷ in_dir "  /proc/%s/time     - Current time (read-only)\n"
    ∷ say "\nCurrent status:\n"
    ∷ line "  Counter: %d\n" (num d.counter ∷ [])
    ∷ line "  Last access: %lu\n" (num d.last_access ∷ [])
    ∷ line "  Message: %s" (str (c_str d.user_message) ∷ [])
    ∷ []

-- What is read, and what is printed to the log. A read counts.
unfoldable pub counter_show : ℕ → ProcData → ProcData × List Line × List Line
counter_show now d = (
  record d { counter = inc32 d.counter; last_access = now },
  line "Access counter: %d\n" (num (inc32 d.counter) ∷ [])
      ∷ line "Last access time: %lu jiffies\n" (num now ∷ [])
      ∷ [],
  line "proc_demo: Counter accessed, value=%d\n" (num (inc32 d.counter) ∷ []) ∷ [],
)

unfoldable pub message_show : ProcData → List Line
message_show d = line "%s" (str (c_str d.user_message) ∷ []) ∷ []

-- `sec` and `nsec` are what `ktime_get_real_ts64` gives.
unfoldable pub time_show : Kernel → ℕ → ℕ → ℕ → List Line
time_show k now sec nsec =
    say "Current kernel time:\n"
    ∷ line "  Seconds since epoch: %lld\n" (num sec ∷ [])
    ∷ line "  Nanoseconds: %ld\n" (num nsec ∷ [])
    ∷ line "  Jiffies: %lu\n" (num now ∷ [])
    ∷ line "  HZ: %d\n" (num k.hz ∷ [])
    ∷ []

-- What `sscanf` finds in a command that is not "reset".
unfoldable pub set_counter : ℕ → ℕ → List ℕ → Option ℕ → ProcData → ProcData × List Line × Reply
set_counter now count cmd none d =
    (d, line "proc_demo: Invalid counter command: %s\n" (str cmd ∷ []) ∷ [], refused einval)
set_counter now count cmd (some new_value) d = (
  record d { counter = new_value; last_access = now },
  line "proc_demo: Counter set to %d\n" (num new_value ∷ []) ∷ [],
  written count,
)

unfoldable pub counter_received :
    Kernel → ℕ → ℕ → ProcData → Received → ProcData × List Line × Reply
unfolding set_counter
counter_received k now count d (rejected e) = (d, [], refused e)
counter_received k now count d (command cmd) =
    if str_eq cmd (codes "reset")
    then (
      record d { counter = 0; last_access = now },
      say "proc_demo: Counter reset to 0\n" ∷ [],
      written count,
    )
    else set_counter now count cmd (one_number (k.sscanf "%d" cmd)) d

unfoldable pub counter_write :
    Kernel → ℕ → ℕ → Option (List ℕ) → ProcData → Option (ProcData × List Line × Reply)
unfolding counter_received receive
counter_write k now count copied d =
    receive 32 count copied >>= λ r. some (counter_received k now count d r)

-- The bytes are copied straight into the message, so those before a fault stay there.
unfoldable pub copy_message : ℕ → UserCopy → ProcData → Option (ProcData × List Line × Reply)
copy_message count (fault bytes) d = overwrite bytes d.user_message >>= λ buf.
    some (record d { user_message = buf }, [], refused efault)
copy_message count (whole bytes) d = overwrite bytes d.user_message >>= λ buf.
    store buf count 0 >>= λ buf'. some (
      record d { user_message = buf' },
      line "proc_demo: User message updated: %s" (str (c_str buf') ∷ []) ∷ [],
      written count,
    )

unfoldable pub message_write : ℕ → UserCopy → ProcData → Option (ProcData × List Line × Reply)
unfolding copy_message
message_write count copied d =
    if leb 256 count then some (d, [], refused einval) else copy_message count copied d
