-- ===== src/ProcInterface/Module.antt =====
-- `proc_interface_init` and `proc_interface_exit`.
use model_lib.Prelude.{
  Bool, true, false, not, List, [], ◌∷◌, Option, none, some, String, if◌then◌else◌,
}
use model_lib.Kernel.{Errno, enomem, Line, line, say, num}
use model_lib.ProcInterface.State.{ProcData}

pub record Boot : Type 0 where
  pub proc_mkdir : Bool
  pub proc_create : String → Bool

-- Which entries stand in /proc.
pub record Entries : Type 0 where
  pub dir : Bool
  pub info : Bool
  pub counter : Bool
  pub message : Bool
  pub time : Bool

abbrev pub nothing : Entries
nothing = record { dir = false; info = false; counter = false; message = false; time = false }

-- The labels, each falling through to the next.
unfoldable pub cleanup_dir : Entries → Entries × Option Errno
cleanup_dir g = (record g { dir = false }, some enomem)

unfoldable pub cleanup_info : Entries → Entries × Option Errno
unfolding cleanup_dir
cleanup_info g = cleanup_dir (record g { info = false })

unfoldable pub cleanup_counter : Entries → Entries × Option Errno
unfolding cleanup_info
cleanup_counter g = cleanup_info (record g { counter = false })

unfoldable pub cleanup_message : Entries → Entries × Option Errno
unfolding cleanup_counter
cleanup_message g = cleanup_counter (record g { message = false })

unfoldable pub proc_interface_init : Boot → Entries × Option Errno
unfolding cleanup_message
proc_interface_init b =
    if not b.proc_mkdir
    then (nothing, some enomem)
    else if not (b.proc_create "info")
    then cleanup_dir (record nothing { dir = true })
    else if not (b.proc_create "counter")
    then cleanup_info (record nothing { dir = true; info = true })
    else if not (b.proc_create "message")
    then cleanup_counter (record nothing { dir = true; info = true; counter = true })
    else if not (b.proc_create "time")
    then cleanup_message
        (record nothing { dir = true; info = true; counter = true; message = true })
    else (record { dir = true; info = true; counter = true; message = true; time = true }, none)

unfoldable pub proc_interface_exit : ProcData → Entries → Entries × List Line
proc_interface_exit d g = (
  record g { time = false; message = false; counter = false; info = false; dir = false },
  say "proc_demo: Unloading Proc Interface Module\n"
      ∷ say "proc_demo: All proc entries removed\n"
      ∷ line "proc_demo: Final counter value: %d\n" (num d.counter ∷ [])
      ∷ say "proc_demo: Module unloaded successfully\n"
      ∷ [],
)
