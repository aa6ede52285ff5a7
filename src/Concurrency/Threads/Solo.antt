-- ===== src/Concurrency/Threads/Solo.antt =====
-- One thread of experiments/04_concurrency_control.c that runs alone inside a function.
use model_lib.Prelude.{ℕ, ◌+◌, ◌-◌, ◌<◌, ◌≡◌, true, false, List, [], ◌∷◌, ◌++◌, arith}
use model_lib.Prelude.Words.{inc32, dec32, inc64, int_le}
use model_lib.Concurrency.State.{zero_stats, max_data_items}
use model_lib.Concurrency.Threads.Moves.{
  Lock, Memory, is_free, set_held, ops, set_ops, Pc, idle, want, test, insert, want_read,
  want_clear, Move, lock, full, room, take_first, dec_loads, dec_stores, add_tail, inc_loads,
  inc_stores, ops_loads, ops_stores, release, read_lock, read_items, read_loads, read_stores,
  read_unlock, clear_lock, frees_list, clears_count, clears_stats,
}
use model_lib.Concurrency.Threads.Progress.{remaining}

-- The moves of a thread that goes from a place to another and begins no new function.
pub data Solo (m : Memory) (p : Pc) : Memory → Pc → Type 0 where
  here : Solo m p m p
  on :
      {m' m'' : Memory} {p' p'' : Pc}
      → 0 < remaining p'
      → Move m' p' m'' p''
      → Solo m p m' p'
      → Solo m p m'' p''

-- The memory after the part of an addition that follows the test.
abbrev pub finished : Lock → ℕ → Memory → Memory
finished l value m = set_held l false (record m {
  data_list = m.data_list ++ value ∷ [];
  data_count = inc32 m.data_count;
  stats = set_ops l (inc64 (ops l m.stats)) m.stats;
})

-- The memory after a reader, and after "clear".
abbrev pub read_once : Memory → Memory
read_once m = record m {
  stats = record m.stats { rwlock_read_ops = inc64 m.stats.rwlock_read_ops };
  readers = m.readers + 1 - 1;
}

abbrev pub cleared : Memory → Memory
cleared m = record m { data_list = []; data_count = 0; stats = zero_stats; spin_held = false }

module _ {m0 : Memory} {p0 : Pc} (l : Lock) (value : ℕ) where
  pub Solo-lock :
      {m : Memory}
      → is_free l m ≡ true
      → Solo m0 p0 m (want l value)
      → Solo m0 p0 (set_held l true m) (test l value)
  Solo-lock free r = on (omega arith) (lock free) r

  Solo-insert : {m : Memory} → Solo m0 p0 m (insert l value) → Solo m0 p0 (finished l value m) idle
  Solo-insert r = on (omega arith) release (
      on (omega arith) ops_stores (
        on (omega arith) ops_loads
          (on (omega arith) inc_stores (on (omega arith) inc_loads (on (omega arith) add_tail r)))))

  pub Solo-room :
      {m : Memory}
      → int_le max_data_items m.data_count ≡ false
      → Solo m0 p0 m (test l value)
      → Solo m0 p0 (finished l value m) idle
  Solo-room e r = Solo-insert (on (omega arith) (room e) r)

  pub Solo-full :
      {m : Memory} (x : ℕ) (rest : List ℕ)
      → int_le max_data_items m.data_count ≡ true
      → m.data_list ≡ x ∷ rest
      → Solo m0 p0 m (test l value)
      → Solo m0 p0
          (finished l value (record m { data_list = rest; data_count = dec32 m.data_count }))
          idle
  Solo-full x rest e q r = Solo-insert (
      on (omega arith) dec_stores (
        on (omega arith) dec_loads
          (on (omega arith) (take_first x rest q) (on (omega arith) (full e) r))))

pub Solo-read_once : {m : Memory} → m.write_held ≡ false → Solo m want_read (read_once m) idle
Solo-read_once e = on (omega arith) read_unlock (
    on (omega arith) read_stores (
      on (omega arith) read_loads
        (on (omega arith) read_items (on (omega arith) (read_lock e) here))))

pub Solo-cleared : {m : Memory} → m.spin_held ≡ false → Solo m want_clear (cleared m) idle
Solo-cleared e = on (omega arith) release (
    on (omega arith) clears_stats (
      on (omega arith) clears_count
        (on (omega arith) frees_list (on (omega arith) (clear_lock e) here))))
