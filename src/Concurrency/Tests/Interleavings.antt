-- ===== src/Concurrency/Tests/Interleavings.antt =====
-- Threads of experiments/04_concurrency_control.c that interleave.
use model_lib.Prelude.{
  ℕ, ◌*◌, ◌≤◌, ◌<◌, ◌≡◌, ◌≢◌, refl, sym, subst, ap, inl, inr, true, false, List, [], ◌∷◌, ◌++◌,
  arith, ◌==◌, length, Bool-cases,
}
use model_lib.Prelude.Words.{inc32, inc64}
use model_lib.Concurrency.State.{zero_stats, max_data_items}
use model_lib.Concurrency.Threads.Moves.{
  Lock, spin, mutex, rwlock, Memory, held, set_held, Pc, idle, want, test, fault, Move, start_add,
  lock, room, add_tail, inc_loads, inc_stores, ops_loads, ops_stores, release,
}
use model_lib.Concurrency.Threads.System.{
  System, moved, by_thread, unlocked, loaded, Reach, start, later, Anything,
}
use model_lib.Concurrency.Threads.Held.{holds, reads}
use model_lib.Concurrency.Threads.Locks.{mutual_exclusion}
use model_lib.Concurrency.Threads.Local.{Uses}
use model_lib.Concurrency.Threads.Discipline.{one_lock}
use model_lib.Concurrency.Threads.Window.{entered, Trace, begin, more, latest, one_lock_window}
use model_lib.Concurrency.Threads.Progress.{remaining}
use model_lib.Concurrency.Threads.Finish.{Run, no_deadlock, one_lock_finishes}
use model_lib.Concurrency.Threads.Turns.{IsQuiet, moved-twice}
use model_lib.Concurrency.Threads.Calls.{Call, add, read, clear}
use model_lib.Concurrency.Threads.Races.{lost_update}
use model_lib.Concurrency.Threads.Faults.{clear_race_faults, filled}
use model_lib.Concurrency.Threads.Readers.{lost_read}

-- Thread 0 has begun to add under the spinlock, and then has it.
abbrev wanting : System
wanting = record { mem = unlocked; pc = moved (λ i. idle) 0 (want spin 7) }

abbrev inside : System
inside = record { mem = set_held spin true unlocked; pc = moved wanting.pc 0 (test spin 7) }

wanting-Uses : (i : ℕ) → Uses spin (wanting.pc i)
wanting-Uses i = elim (Bool-cases (i == 0)) [ inl e ↦ rw e refl | inr e ↦ rw e tt ]

inside-Uses : (i : ℕ) → Uses spin (inside.pc i)
inside-Uses i = elim (Bool-cases (i == 0)) [ inl e ↦ rw e refl | inr e ↦ rw e tt ]

inside-Reach : Reach 2 (Uses spin) inside
inside-Reach =
    later (later start (by_thread 0 (omega arith) (start_add spin 7)) wanting-Uses)
      (by_thread 0 (omega arith) (lock refl)) inside-Uses

inside-anyhow : Reach 2 Anything inside
inside-anyhow =
    later (later start (by_thread 0 (omega arith) (start_add spin 7)) (λ i. tt))
      (by_thread 0 (omega arith) (lock refl)) (λ i. tt)

mutual_exclusion_example :
    ((holds spin (inside.pc 1) ≡ 1) → ◌≡◌ {A = ℕ} 0 1) × ((spin ≡ rwlock) → reads (inside.pc 1) ≡ 0)
mutual_exclusion_example = mutual_exclusion 0 1 spin inside-anyhow (omega arith) (omega arith) refl

one_lock_example :
    (length inside.mem.data_list ≤ max_data_items)
    × ((i : ℕ) (k : Lock) → i < 2 → inside.pc i ≢ fault k)
    × (held spin inside.mem ≡ false → inside.mem.data_count ≡ length inside.mem.data_list)
one_lock_example = one_lock spin inside-Reach

one_lock_finishes_example :
    ((k : ℕ) (t : System) → Run 2 inside k t → k ≤ 11 * 2)
    × ((k : ℕ) × (t : System) × Run 2 inside k t
        × ((i : ℕ) → i < 2 → t.pc i ≡ idle)
        × (t.mem.data_count ≡ length t.mem.data_list))
one_lock_finishes_example = one_lock_finishes spin inside-Reach

-- The run in which the addition ends.
abbrev to_end :
    (k : ℕ) × (t : System) × Run 2 inside k t
    × ((i : ℕ) → i < 2 → t.pc i ≡ idle)
    × (t.mem.data_count ≡ length t.mem.data_list)
to_end = (one_lock_finishes spin inside-Reach).1

to_end-stuck :
    (j : ℕ) (m : Memory) (p : Pc)
    → j < 2
    → 0 < remaining (to_end.1.pc j)
    → Move to_end.1.mem (to_end.1.pc j) m p
    → ⊥
to_end-stuck j m p lt busy mv = absurd (omega (arith, busy, ap remaining (to_end.3 j lt)))

no_deadlock_example :
    ((i : ℕ) → i < 2 → to_end.1.pc i ≡ idle)
    × (to_end.1.mem.data_count ≡ length to_end.1.mem.data_list)
no_deadlock_example = no_deadlock spin inside-Reach to_end.2 to_end-stuck

abbrev turns : List (ℕ × Call)
turns = (0, add spin 7) ∷ (1, read) ∷ (1, add mutex 8) ∷ (0, clear) ∷ (1, add rwlock 9) ∷ []

lost_update_example :
    (t : System) × Reach 2 Anything t
    × IsQuiet t
    × (t.mem.data_list ≡ (loaded.mem.data_list ++ 7 ∷ []) ++ 8 ∷ [])
    × (t.mem.data_count ≡ inc32 loaded.mem.data_count)
lost_update_example =
    lost_update {s = loaded} 0 1 spin mutex 7 8 (omega arith) (omega arith) refl refl start
      (λ i. refl) refl

abbrev nearly_full : (s : System) × Reach 2 Anything s × IsQuiet s × (s.mem.data_count ≡ 99)
nearly_full = filled 99 (omega arith)

clear_race_faults_example : (t : System) × Reach 2 Anything t × (t.pc 0 ≡ fault mutex)
clear_race_faults_example =
    clear_race_faults {s = nearly_full.0} 0 1 mutex 9 (omega arith) (omega arith) refl refl
      nearly_full.1 nearly_full.2 nearly_full.3

lost_read_example :
    (t : System) × Reach 2 Anything t
    × IsQuiet t
    × (t.mem.stats.rwlock_read_ops ≡ inc64 loaded.mem.stats.rwlock_read_ops)
lost_read_example = lost_read {s = loaded} 0 1 (omega arith) (omega arith) refl start (λ i. refl)

-- Thread 0 adds 7 under the spinlock, from the lock to the end.
abbrev only : Memory → Pc → System
only m p = record { mem = m; pc = moved (λ i. idle) 0 p }

only-Uses : (p : Pc) → Uses spin p → (i : ℕ) → Uses spin (moved (λ i. idle) 0 p i)
only-Uses p u i = elim (Bool-cases (i == 0)) [ inl e ↦ rw e u | inr e ↦ rw e tt ]

only_goes :
    {m m' : Memory} {p p' : Pc} {seen : List ℕ}
    → Uses spin p'
    → Move m p m' p'
    → Trace 2 (Uses spin) (only m p) seen
    → Trace 2 (Uses spin) (only m' p') (entered p seen)
only_goes {m' = m'} {p} {p'} {seen} u mv t =
    subst (λ pc. Trace 2 (Uses spin) (record { mem = m'; pc = pc }) (entered p seen))
      (moved-twice (λ i. idle) 0 p p')
      (more 0 t (omega arith) mv (λ i.
        subst (λ pc. Uses spin (pc i)) (sym (moved-twice (λ i. idle) 0 p p')) (only-Uses p' u i)))

abbrev seven_added : Memory
seven_added = record unlocked {
  data_list = 7 ∷ [];
  data_count = 1;
  stats = record zero_stats { spinlock_ops = 1 };
}

seven_added-Trace : Trace 2 (Uses spin) (only seven_added idle) (7 ∷ [])
seven_added-Trace = only_goes tt release (
    only_goes refl ops_stores (
      only_goes refl ops_loads (
        only_goes refl inc_stores (
          only_goes refl inc_loads (
            only_goes refl add_tail (
              only_goes refl (room refl) (
                only_goes refl (lock refl) (
                  more 0 begin (omega arith) (start_add spin 7)
                    (only-Uses (want spin 7) refl)))))))))

one_lock_window_example :
    (seven_added.data_list ≡ latest max_data_items (7 ∷ []))
    × (seven_added.data_count ≡ length (latest max_data_items (7 ∷ [])))
one_lock_window_example = one_lock_window spin seven_added-Trace refl
