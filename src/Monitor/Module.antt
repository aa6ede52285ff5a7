-- ===== src/Monitor/Module.antt =====
-- `process_monitor_init` and `process_monitor_exit`.
use model_lib.Prelude.{
  ℕ, ◌^◌, Bool, true, false, not, List, [], ◌∷◌, Option, none, some, String, leb, if◌then◌else◌,
}
use model_lib.Kernel.{Line, say}
use model_lib.Monitor.State.{Monitor, zero_stats}

-- What the kernel answers: `proc_create` an entry or NULL, `register_kprobe` an `int`.
pub record Boot : Type 0 where
  pub proc_create : Bool
  pub register_kprobe : String → ℕ

pub record Registered : Type 0 where
  pub entry : Bool
  pub fork_probe : Option String
  pub exit_probe : Option String

abbrev pub nothing : Registered
nothing = record { entry = false; fork_probe = none; exit_probe = none }

-- What the function returns: 0, -ENOMEM or what `register_kprobe` returned.
pub data InitResult : Type 0 where
  done : InitResult
  no_memory : InitResult
  probe_error : ℕ → InitResult

-- `ret < 0`
abbrev pub failed : ℕ → Bool
failed ret = leb (2 ^ 31) ret

-- With the file created: the fork probe under `symbol`, then the exit probe.
unfoldable pub register_exit : Boot → String → Registered → Registered × InitResult
register_exit b symbol g =
    if failed (b.register_kprobe "do_exit")
    then (record g { fork_probe = none; entry = false }, probe_error (b.register_kprobe "do_exit"))
    else (record g { fork_probe = some symbol; exit_probe = some "do_exit" }, done)

unfoldable pub register_fork : Boot → Registered → Registered × InitResult
unfolding register_exit
register_fork b g =
    if failed (b.register_kprobe "_do_fork")
    then (if failed (b.register_kprobe "kernel_clone")
        then (record g { entry = false }, probe_error (b.register_kprobe "kernel_clone"))
        else register_exit b "kernel_clone" g)
    else register_exit b "_do_fork" g

unfoldable pub process_monitor_init : Boot → Monitor → Monitor × Registered × InitResult
unfolding register_fork
process_monitor_init b m =
    if not b.proc_create
    then (record m { stats = zero_stats }, nothing, no_memory)
    else (let (g, e) = register_fork b (record nothing { entry = true }) in
        (record m { stats = zero_stats }, g, e))

unfoldable pub process_monitor_exit : Registered → Monitor → Monitor × Registered × List Line
process_monitor_exit g m = (
  record m { process_list = [] },
  record g { fork_probe = none; exit_probe = none; entry = false },
  say "process_monitor: Unloading Process Monitor Module\n"
      ∷ say "process_monitor: Module unloaded successfully\n"
      ∷ [],
)
