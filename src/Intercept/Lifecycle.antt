-- ===== src/Intercept/Lifecycle.antt =====
-- Loading experiments/01_syscall_intercept.c.
use model_lib.Prelude.{
  ℕ, ◌≡◌, ◌⊎◌, inl, inr, Bool, true, false, not, ◌&&◌, arith, some, String, if◌then◌else◌,
  Bool-cases,
}
use model_lib.Intercept.Probes.{nothing, failed, syscall_intercept_init}

-- The fork probe goes to the first of its symbols that is not refused.
abbrev pub fork_symbol : (String → ℕ) → String
fork_symbol register_kprobe =
    if failed (register_kprobe "_do_fork") then "kernel_clone" else "_do_fork"

-- The kernel refuses neither probe.
abbrev pub accepted : (String → ℕ) → Bool
accepted register_kprobe =
    not (failed (register_kprobe (fork_symbol register_kprobe)))
    && not (failed (register_kprobe "do_exit"))

-- The answer for the first probe that is refused.
abbrev pub refusal : (String → ℕ) → ℕ
refusal register_kprobe =
    if failed (register_kprobe (fork_symbol register_kprobe))
    then register_kprobe (fork_symbol register_kprobe)
    else register_kprobe "do_exit"

-- If the kernel refuses neither the fork probe, under one of its two symbols, nor the exit probe,
-- loading returns 0 with both registered, the fork probe under the first symbol that is not
-- refused; if it refuses one, loading returns its negative answer for the first that is refused,
-- and no probe stays registered.
pub syscall_intercept_init_atomic :
    (register_kprobe : String → ℕ)
    → ((accepted register_kprobe ≡ true)
        × (syscall_intercept_init register_kprobe ≡ (
          record { fork_probe = some (fork_symbol register_kprobe); exit_probe = some "do_exit" },
          0,
        )))
      ⊎ ((accepted register_kprobe ≡ false)
          × (syscall_intercept_init register_kprobe ≡ (nothing, refusal register_kprobe))
          × (failed (refusal register_kprobe) ≡ true))
unfolding syscall_intercept_init
syscall_intercept_init_atomic r = elim (Bool-cases (accepted r)) [
  | inl e ↦ inl (e, ground arith)
  | inr e ↦ inr (e, ground arith, ground arith)
]
