-- ===== src/Concurrency/Threads/Moves.antt =====
-- One thread inside a function of experiments/04_concurrency_control.c, one access to shared data
-- at a time; but taking the first item off the list (with its `kfree`), adding at the tail, the
-- loop of clear and the loop of the reader are one move each.
use model_lib.Prelude.{ℕ, ◌+◌, ◌-◌, ◌≡◌, Bool, true, false, ◌&&◌, not, List, [], ◌∷◌, ◌++◌, ◌==◌}
use model_lib.Prelude.Words.{inc32, dec32, inc64, int_le}
use model_lib.Concurrency.State.{LockStats, zero_stats, max_data_items}

-- `data_spinlock`, `data_mutex`, `data_rwlock`
pub data Lock : Type 0 where
  spin mutex rwlock : Lock

-- The shared variables and the locks. Of an item its value is kept.
pub record Memory : Type 0 where
  pub data_list : List ℕ
  pub data_count : ℕ
  pub stats : LockStats
  pub spin_held : Bool
  pub mutex_held : Bool
  pub write_held : Bool
  pub readers : ℕ

-- Whether some thread has the lock for itself.
abbrev pub held : Lock → Memory → Bool
held spin m = m.spin_held
held mutex m = m.mutex_held
held rwlock m = m.write_held

abbrev pub is_free : Lock → Memory → Bool
is_free spin m = not m.spin_held
is_free mutex m = not m.mutex_held
is_free rwlock m = not m.write_held && m.readers == 0

abbrev pub set_held : Lock → Bool → Memory → Memory
set_held spin b m = record m { spin_held = b }
set_held mutex b m = record m { mutex_held = b }
set_held rwlock b m = record m { write_held = b }

-- The counter that a function which adds under the lock increments.
abbrev pub ops : Lock → LockStats → ℕ
ops spin s = s.spinlock_ops
ops mutex s = s.mutex_ops
ops rwlock s = s.rwlock_write_ops

abbrev pub set_ops : Lock → ℕ → LockStats → LockStats
set_ops spin n s = record s { spinlock_ops = n }
set_ops mutex n s = record s { mutex_ops = n }
set_ops rwlock n s = record s { rwlock_write_ops = n }

-- Where a thread stands, with the local values that it still needs.
pub data Pc : Type 0 where
  idle : Pc
  -- `spinlock_add_data`, `mutex_add_data` and `rwlock_write_data`, from the lock on
  want : Lock → ℕ → Pc
  test : Lock → ℕ → Pc
  evict : Lock → ℕ → Pc
  load_dec : Lock → ℕ → Pc
  store_dec : Lock → ℕ → ℕ → Pc
  insert : Lock → ℕ → Pc
  load_inc : Lock → Pc
  store_inc : Lock → ℕ → Pc
  load_ops : Lock → Pc
  store_ops : Lock → ℕ → Pc
  unlock : Lock → Pc
  -- `rwlock_read_data`
  want_read : Pc
  pass : Pc
  load_read : Pc
  store_read : ℕ → Pc
  unlock_read : Pc
  -- `clear_all_data`
  want_clear : Pc
  clear_list : Pc
  clear_count : Pc
  clear_stats : Pc
  -- the first entry of an empty list was taken
  fault : Lock → Pc

pub data Move (m : Memory) : Pc → Memory → Pc → Type 0 where
  start_add : (l : Lock) (value : ℕ) → Move m idle m (want l value)
  start_read : Move m idle m want_read
  start_clear : Move m idle m want_clear
  -- `mutex_lock_interruptible` fails.
  signal : {value : ℕ} {l : Lock} → l ≡ mutex → Move m (want l value) m idle
  lock :
      {l : Lock} {value : ℕ}
      → is_free l m ≡ true
      → Move m (want l value) (set_held l true m) (test l value)
  full :
      {l : Lock} {value : ℕ}
      → int_le max_data_items m.data_count ≡ true
      → Move m (test l value) m (evict l value)
  room :
      {l : Lock} {value : ℕ}
      → int_le max_data_items m.data_count ≡ false
      → Move m (test l value) m (insert l value)
  take_first :
      {l : Lock} {value : ℕ} (x : ℕ) (rest : List ℕ)
      → m.data_list ≡ x ∷ rest
      → Move m (evict l value) (record m { data_list = rest }) (load_dec l value)
  take_none : {l : Lock} {value : ℕ} → m.data_list ≡ [] → Move m (evict l value) m (fault l)
  dec_loads : {l : Lock} {value : ℕ} → Move m (load_dec l value) m (store_dec l value m.data_count)
  dec_stores :
      {l : Lock} {value c : ℕ}
      → Move m (store_dec l value c) (record m { data_count = dec32 c }) (insert l value)
  add_tail :
      {l : Lock} {value : ℕ}
      → Move m (insert l value) (record m { data_list = m.data_list ++ value ∷ [] }) (load_inc l)
  inc_loads : {l : Lock} → Move m (load_inc l) m (store_inc l m.data_count)
  inc_stores :
      {l : Lock} {c : ℕ} → Move m (store_inc l c) (record m { data_count = inc32 c }) (load_ops l)
  ops_loads : {l : Lock} → Move m (load_ops l) m (store_ops l (ops l m.stats))
  ops_stores :
      {l : Lock} {c : ℕ}
      → Move m (store_ops l c) (record m { stats = set_ops l (inc64 c) m.stats }) (unlock l)
  release : {l : Lock} → Move m (unlock l) (set_held l false m) idle
  read_lock : m.write_held ≡ false → Move m want_read (record m { readers = m.readers + 1 }) pass
  read_items : Move m pass m load_read
  read_loads : Move m load_read m (store_read m.stats.rwlock_read_ops)
  read_stores :
      {c : ℕ}
      → Move m
          (store_read c)
          (record m { stats = record m.stats { rwlock_read_ops = inc64 c } })
          unlock_read
  read_unlock : Move m unlock_read (record m { readers = m.readers - 1 }) idle
  clear_lock : m.spin_held ≡ false → Move m want_clear (record m { spin_held = true }) clear_list
  frees_list : Move m clear_list (record m { data_list = [] }) clear_count
  clears_count : Move m clear_count (record m { data_count = 0 }) clear_stats
  clears_stats : Move m clear_stats (record m { stats = zero_stats }) (unlock spin)
