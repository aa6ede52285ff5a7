-- ===== src/ProcInterface/Lifecycle.antt =====
-- Loading experiments/03_proc_interface.c.
use model_lib.Prelude.{◌≡◌, ◌⊎◌, inl, inr, Bool, true, false, ◌&&◌, none, some, arith, Bool-cases}
use model_lib.Kernel.{enomem}
use model_lib.ProcInterface.Module.{Boot, Entries, nothing, proc_interface_init}

abbrev pub all_entries : Entries
all_entries = record { dir = true; info = true; counter = true; message = true; time = true }

-- The directory and all four files can be created.
abbrev pub created : Boot → Bool
created b =
    b.proc_mkdir
    && b.proc_create "info"
    && b.proc_create "counter"
    && b.proc_create "message"
    && b.proc_create "time"

-- Loading creates everything if the kernel lets it; otherwise it fails with ENOMEM, and whatever
-- had been created by then is removed again.
pub proc_interface_init_undoes :
    (b : Boot)
    → ((created b ≡ true) × (proc_interface_init b ≡ (all_entries, none)))
      ⊎ ((created b ≡ false) × (proc_interface_init b ≡ (nothing, some enomem)))
unfolding proc_interface_init
proc_interface_init_undoes b = elim (Bool-cases (created b)) [
  | inl e ↦ inl (e, ground arith)
  | inr e ↦ inr (e, ground arith)
]
