-- ===== src/Concurrency/Threads/Readers.antt =====
-- Readers of experiments/04_concurrency_control.c share a lock and write under it.
use model_lib.Prelude.{ℕ, ◌+◌, ◌-◌, ◌<◌, ◌≡◌, refl, false, ◌==◌}
use model_lib.Prelude.Words.{inc64}
use model_lib.Concurrency.Threads.Moves.{
  Memory, Pc, idle, store_read, start_read, read_lock, read_items, read_loads, read_stores,
  read_unlock,
}
use model_lib.Concurrency.Threads.System.{System, moved, Reach, Anything}
use model_lib.Concurrency.Threads.Turns.{
  IsQuiet, at_pc, Unlocked, quiet-Unlocked, At, go, quiet_turn, swap, moved-quiet,
}

module _ {n i : ℕ} {pc : ℕ → Pc} (lt : i < n) where
  run_reader :
      {m : Memory}
      → m.write_held ≡ false
      → At n i pc m idle
      → At n i pc (record m { readers = m.readers + 1 }) (store_read m.stats.rwlock_read_ops)
  run_reader e r = go lt read_loads (go lt read_items (go lt (read_lock e) (go lt start_read r)))

  run_leave :
      {m : Memory} {c : ℕ}
      → At n i pc m (store_read c)
      → At n i pc
          (record m {
            stats = record m.stats { rwlock_read_ops = inc64 c };
            readers = m.readers - 1;
          })
          idle
  run_leave r = go lt read_unlock (go lt read_stores r)

-- Two threads that read at the same time can count one read only: from every state in which nobody
-- is in a function they reach one in which both have read and `rwlock_read_ops` has grown by one.
pub lost_read :
    {n : ℕ} {s : System} (i j : ℕ)
    → i < n
    → j < n
    → (j == i) ≡ false
    → Reach n Anything s
    → IsQuiet s
    → (t : System) × Reach n Anything t
      × IsQuiet t
      × (t.mem.stats.rwlock_read_ops ≡ inc64 s.mem.stats.rwlock_read_ops)
lost_read {n} {s} i j hi hj ne r q = (
  at_pc _ (moved (moved s.pc j idle) i idle),
  (run_leave hi (swap s.pc ne second)).reached,
  moved-quiet (moved s.pc j idle) i (moved-quiet s.pc j q),
  refl,
)
  where
    free : Unlocked s.mem
    free = quiet-Unlocked r q

    c : ℕ
    c = s.mem.stats.rwlock_read_ops

    first : At n i s.pc (record s.mem { readers = s.mem.readers + 1 }) (store_read c)
    first = run_reader hi free.no_write (quiet_turn i r (q i))

    outside : moved s.pc i (store_read c) j ≡ idle
    outside = rw ne (q j)

    second :
        At n j
          (moved s.pc i (store_read c))
          (record s.mem {
            stats = record s.mem.stats { rwlock_read_ops = inc64 c };
            readers = s.mem.readers + 1 + 1 - 1;
          })
          idle
    second = run_leave hj (run_reader hj free.no_write (quiet_turn j first.reached outside))
