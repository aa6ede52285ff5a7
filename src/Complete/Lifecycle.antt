-- ===== src/Complete/Lifecycle.antt =====
-- Loading and unloading experiments/05_complete_monitor.c.
use model_lib.Prelude.{
  ℕ, ◌≡◌, refl, sym, ap, ◌∙◌, ◌⊎◌, inl, inr, Bool, true, false, not, if◌then◌else◌, ◌&&◌, List, [],
  ◌∷◌, none, some, String, arith, ◌==◌, elem, unlink, IsDistinct, unlink_absent, Bool-cases,
  Option-cases, ==_refl, ==_iff,
}
use model_lib.Kernel.{Kernel, enomem}
use model_lib.Complete.State.{Monitor, zero_stats, update}
use model_lib.Complete.Events.{report_created}
use model_lib.Complete.Control.{clear_records}
use model_lib.Complete.Module.{
  Boot, Registered, nothing, failed, fork_symbol, complete_monitor_init, free_all, unload_messages,
  complete_monitor_exit,
}
use model_lib.Complete.Invariant.{IsRbLib, is_live, IsValid}
use model_lib.Complete.Safety.Clear.{clear_records-Emptied}

-- What a loaded module has registered, with the symbol of its fork probe.
abbrev pub all_registered : String → Registered
all_registered symbol = record {
  dir = true;
  stats = true;
  processes = true;
  filter = true;
  control = true;
  fork_probe = some symbol;
  exit_probe = some "do_exit";
}

-- The kernel gives the directory and the four files.
abbrev pub created : Boot → Bool
created b =
    b.proc_mkdir
    && b.proc_create "stats"
    && b.proc_create "processes"
    && b.proc_create "filter"
    && b.proc_create "control"

-- The symbol of the fork probe that counts: the second if the kernel refuses the first.
abbrev pub chosen : Boot → String
chosen b = if failed (b.register_kprobe "_do_fork") then "kernel_clone" else "_do_fork"

-- The kernel gives all that the module asks for.
abbrev pub accepted : Boot → Bool
accepted b =
    created b
    && not (failed (b.register_kprobe (chosen b)))
    && not (failed (b.register_kprobe "do_exit"))

-- Loading is all or nothing. If the kernel gives the directory, the four files, a fork probe under
-- one of its two symbols and the exit probe, it returns 0 with all of them registered, the fork
-- probe under the first symbol that is not refused; if it refuses any of them, loading fails with
-- ENOMEM and nothing stays registered. The statistics are zero either way.
pub init_all_or_nothing :
    (b : Boot) (m : Monitor)
    → ((accepted b ≡ true)
        × (complete_monitor_init b m
            ≡ (record m { stats = zero_stats }, all_registered (chosen b), none)))
      ⊎ ((accepted b ≡ false)
          × (complete_monitor_init b m ≡ (record m { stats = zero_stats }, nothing, some enomem)))
unfolding complete_monitor_init fork_symbol
init_all_or_nothing b m = elim (Bool-cases (accepted b)) [
  | inl e ↦ inl (e, ground arith)
  | inr e ↦ inr (e, ground arith)
]

free_all-empties :
    (xs : List ℕ) (m : Monitor)
    → m.process_list ≡ xs
    → IsDistinct xs
    → ((a : ℕ) → is_live m.heap a ≡ elem a xs)
    → (m' : Monitor) × (free_all xs m ≡ some m')
      × (m'.process_list ≡ [])
      × ((a : ℕ) → is_live m'.heap a ≡ false)
      × (m'.stats ≡ m.stats)
unfolding free_all
free_all-empties [] m e d v = (m, refl, e, v, refl)
free_all-empties (x ∷ xs) m e d v = elim (Option-cases (m.heap x)) [
  | inl h ↦ absurd (ground (arith, v x, ==_refl x))
  | inr (r, h) ↦
      let freed : Monitor = record m {
        heap = update m.heap x none;
        process_list = unlink x m.process_list;
      } in
      let (m', q, w, u, s) =
        free_all-empties xs freed
          (ap (unlink x) e ∙ ground (arith, ==_refl x, unlink_absent x xs d.0)) d.1
          (λ a. elim (Bool-cases (a == x)) [
            | inl y ↦ rw y (sym (ap (λ c. elem c xs) ((==_iff a x).0 y) ∙ d.0))
            | inr y ↦ rw y (v a ∙ ground arith)
          ]) in
      (m', rw h q, w, u, s)
]

-- Unloading a valid monitor makes no bad access and leaks nothing: no record stays allocated or
-- listed, nothing stays registered, and the statistics are those that it prints.
pub exit_frees_all :
    {k : Kernel} {m : Monitor} (g : Registered)
    → IsValid k m
    → (m' : Monitor) × (complete_monitor_exit g m ≡ some (m', nothing, unload_messages m.stats))
      × (m'.process_list ≡ [])
      × ((a : ℕ) → is_live m'.heap a ≡ false)
      × (m'.stats ≡ m.stats)
unfolding complete_monitor_exit
exit_frees_all {m} g v =
    let (m', e, w, u, s) =
      free_all-empties m.process_list m refl v.stored.distinct (λ a. v.stored.live a) in
    (m', rw e (ap (λ t. some (m', nothing, unload_messages t)) s), w, u, s)

dead_report :
    (k : Kernel) (a pid ppid : ℕ) (comm : List ℕ) (m : Monitor)
    → (m.filter.enabled == 0) ≡ false
    → is_live m.heap a ≡ false
    → report_created k a pid ppid comm m ≡ none
unfolding report_created
dead_report k a pid ppid comm m on dead = elim (Option-cases (m.heap a)) [
  | inl e ↦ rw (on, e)
  | inr (r, e) ↦ absurd (ground arith)
]

-- The test after the lock of `add_process_record` is released reads the record. If "clear" runs
-- between the two, and the filter is enabled, that record is already freed.
pub report_after_clear :
    {k : Kernel} {m : Monitor} (a pid ppid : ℕ) (comm : List ℕ)
    → IsRbLib k
    → IsValid k m
    → (m.filter.enabled == 0) ≡ false
    → (m' : Monitor) × (clear_records k m ≡ some m') × (report_created k a pid ppid comm m' ≡ none)
report_after_clear {k} {m} a pid ppid comm rb v on =
    let (m', e, w, u) = clear_records-Emptied rb v in
    (
      m',
      e,
      dead_report k a pid ppid comm m' (rw w.same_filter on)
          (w.stored.live a ∙ ap (elem a) w.empty),
    )
