-- ===== src/Concurrency/State.antt =====
-- The data of experiments/04_concurrency_control.c.
use model_lib.Prelude.{ℕ, List, [], ◌∷◌, Option, none, Bool}

abbrev pub max_workers : ℕ
max_workers = 5

abbrev pub max_data_items : ℕ
max_data_items = 100

pub record SharedData : Type 0 where
  pub value : ℕ
  pub access_count : ℕ

pub record LockStats : Type 0 where
  pub spinlock_ops : ℕ
  pub mutex_ops : ℕ
  pub rwlock_read_ops : ℕ
  pub rwlock_write_ops : ℕ
  pub contention_count : ℕ

abbrev pub zero_stats : LockStats
zero_stats = record {
  spinlock_ops = 0;
  mutex_ops = 0;
  rwlock_read_ops = 0;
  rwlock_write_ops = 0;
  contention_count = 0;
}

-- `alive` are the threads that `kthread_run` has started and `kthread_stop` has not ended.
pub record Demo : Type 0 where
  pub data_list : List SharedData
  pub data_count : ℕ
  pub stats : LockStats
  pub worker_threads : List (Option ℕ)
  pub worker_running : ℕ
  pub next_value : ℕ
  pub alive : List ℕ

abbrev pub initial : Demo
initial = record {
  data_list = [];
  data_count = 0;
  stats = zero_stats;
  worker_threads = none ∷ none ∷ none ∷ none ∷ none ∷ [];
  worker_running = 0;
  next_value = 1;
  alive = [];
}

-- The kernel's answers to one call: whether `kmalloc` gives memory, whether a signal comes before
-- the mutex, and the thread that `kthread_run` makes for each index, if it makes one.
pub record World : Type 0 where
  pub alloc : Bool
  pub interrupted : Bool
  pub kthread_run : ℕ → Option ℕ
