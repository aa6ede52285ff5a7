-- ===== src/Complete/Module.antt =====
-- `complete_monitor_init` and `complete_monitor_exit`: what is registered with the kernel.
use model_lib.Prelude.{
  ℕ, ◌^◌, Bool, true, false, not, ◌||◌, List, [], ◌∷◌, Option, none, some, String, leb,
  if◌then◌else◌, ◌>>=◌, unlink,
}
use model_lib.Kernel.{Errno, enomem, Line, line, say, num}
use model_lib.Complete.State.{MonitorStats, Monitor, zero_stats, update}

-- What the kernel answers while a module is loaded: `proc_mkdir` and `proc_create` give an entry
-- or NULL, `register_kprobe` an `int` for the symbol.
pub record Boot : Type 0 where
  pub proc_mkdir : Bool
  pub proc_create : String → Bool
  pub register_kprobe : String → ℕ

-- What is registered; a probe is named by its symbol.
pub record Registered : Type 0 where
  pub dir : Bool
  pub stats : Bool
  pub processes : Bool
  pub filter : Bool
  pub control : Bool
  pub fork_probe : Option String
  pub exit_probe : Option String

abbrev pub nothing : Registered
nothing = record {
  dir = false;
  stats = false;
  processes = false;
  filter = false;
  control = false;
  fork_probe = none;
  exit_probe = none;
}

-- `ret < 0`
abbrev pub failed : ℕ → Bool
failed ret = leb (2 ^ 31) ret

-- `cleanup_proc`: each `proc_remove` under its test.
unfoldable pub cleanup_proc : Registered → Registered
cleanup_proc g = record g {
  control = if g.control then false else g.control;
  filter = if g.filter then false else g.filter;
  processes = if g.processes then false else g.processes;
  stats = if g.stats then false else g.stats;
  dir = if g.dir then false else g.dir;
}

-- The symbol under which the fork probe is registered, `_do_fork` first.
unfoldable pub fork_symbol : Boot → Option String
fork_symbol b =
    if failed (b.register_kprobe "_do_fork")
    then (if failed (b.register_kprobe "kernel_clone") then none else some "kernel_clone")
    else some "_do_fork"

unfoldable pub register_probes : Boot → Registered → Registered × Option Errno
unfolding cleanup_proc fork_symbol
register_probes b g = elim (fork_symbol b) [
  | none ↦ (cleanup_proc g, some enomem)
  | some symbol ↦
      if failed (b.register_kprobe "do_exit")
      then (cleanup_proc (record g { fork_probe = none }), some enomem)
      else (record g { fork_probe = some symbol; exit_probe = some "do_exit" }, none)
]

-- The new state, what is registered, and the error if there is one.
unfoldable pub complete_monitor_init : Boot → Monitor → Monitor × Registered × Option Errno
unfolding register_probes cleanup_proc
complete_monitor_init b m =
    if not b.proc_mkdir
    then (m', nothing, some enomem)
    else if not entries.stats || not entries.processes || not entries.filter || not entries.control
    then (m', cleanup_proc entries, some enomem)
    else let (g, e) = register_probes b entries in (m', g, e)
  where
    m' : Monitor
    m' = record m { stats = zero_stats }

    entries : Registered
    entries = record nothing {
      dir = true;
      stats = b.proc_create "stats";
      processes = b.proc_create "processes";
      filter = b.proc_create "filter";
      control = b.proc_create "control";
    }

-- The loop of the exit function: `list_del` and `kfree`.
unfoldable pub free_all : List ℕ → Monitor → Option Monitor
free_all [] m = some m
free_all (a ∷ rest) m = m.heap a >>= λ _.
    free_all rest (record m { heap = update m.heap a none; process_list = unlink a m.process_list })

unfoldable pub unload_messages : MonitorStats → List Line
unload_messages s =
    say "process_monitor: Unloading Complete Process Monitor Module\n"
    ∷ line "process_monitor: Final statistics - Created: %lu, Exited: %lu\n"
        (num s.total_processes_created ∷ num s.total_processes_exited ∷ [])
    ∷ say "process_monitor: Module unloaded successfully\n"
    ∷ []

unfoldable pub complete_monitor_exit :
    Registered → Monitor → Option (Monitor × Registered × List Line)
unfolding free_all unload_messages
complete_monitor_exit g m = free_all m.process_list m >>= λ m'. some (
  m',
  record g {
    fork_probe = none;
    exit_probe = none;
    control = false;
    filter = false;
    processes = false;
    stats = false;
    dir = false;
  },
  unload_messages m'.stats,
)
