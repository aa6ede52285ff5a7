-- ===== src/Monitor/Lifecycle.antt =====
-- Loading process_monitor.c.
use model_lib.Prelude.{
  ◌≡◌, ◌≢◌, ◌⊎◌, inl, inr, Bool, true, false, not, ◌&&◌, some, String, arith, if◌then◌else◌,
  Bool-cases,
}
use model_lib.Monitor.State.{Monitor, zero_stats}
use model_lib.Monitor.Module.{
  Boot, Registered, nothing, InitResult, done, no_memory, probe_error, failed, process_monitor_init,
}

-- The symbols under which the fork probe is tried: the second if the first is refused.
abbrev pub fork_symbol : Boot → String
fork_symbol b = if failed (b.register_kprobe "_do_fork") then "kernel_clone" else "_do_fork"

abbrev pub all_registered : String → Registered
all_registered symbol = record {
  entry = true;
  fork_probe = some symbol;
  exit_probe = some "do_exit";
}

-- The kernel gives the file and both probes.
abbrev pub accepted : Boot → Bool
accepted b =
    b.proc_create
    && not (failed (b.register_kprobe (fork_symbol b)))
    && not (failed (b.register_kprobe "do_exit"))

-- What loading returns: that of the first step that the kernel refuses.
abbrev pub outcome : Boot → InitResult
outcome b =
    if not b.proc_create
    then no_memory
    else if failed (b.register_kprobe (fork_symbol b))
    then probe_error (b.register_kprobe (fork_symbol b))
    else if failed (b.register_kprobe "do_exit")
    then probe_error (b.register_kprobe "do_exit")
    else done

-- Loading is all or nothing. If the kernel gives the file, a fork probe under one of its two
-- symbols and the exit probe, it returns 0 with all three registered, the fork probe under the
-- first symbol that is not refused; if it refuses one of them, nothing stays registered and the
-- error is ENOMEM for the file, else that of the first probe that is refused. The statistics are
-- zero either way.
pub load_all_or_nothing :
    (b : Boot) (m : Monitor)
    → ((accepted b ≡ true)
        × (process_monitor_init b m
            ≡ (record m { stats = zero_stats }, all_registered (fork_symbol b), done)))
      ⊎ ((accepted b ≡ false)
          × (process_monitor_init b m ≡ (record m { stats = zero_stats }, nothing, outcome b))
          × (outcome b ≢ done))
unfolding process_monitor_init
load_all_or_nothing b m = elim (Bool-cases (accepted b)) [
  | inl e ↦ inl (e, ground arith)
  | inr e ↦ inr (e, ground arith, ground arith)
]
