-- ===== src/Concurrency/Items.antt =====
-- The operations on the list of experiments/04_concurrency_control.c, each as one step.
use model_lib.Prelude.{
  ℕ, String, Bool, true, false, List, [], ◌∷◌, ◌++◌, Option, none, some, if◌then◌else◌, ◌>>=◌,
}
use model_lib.Prelude.Words.{inc32, dec32, inc64, int_le}
use model_lib.Kernel.{Line, line, say, num}
use model_lib.Concurrency.State.{SharedData, LockStats, Demo, zero_stats, max_data_items}

-- `list_first_entry` of an empty list is a bogus pointer.
unfoldable pub remove_oldest : List SharedData → Demo → Option Demo
remove_oldest [] m = none
remove_oldest (oldest ∷ rest) m =
    some (record m { data_list = rest; data_count = dec32 m.data_count })

unfoldable pub make_room : Demo → Option Demo
unfolding remove_oldest
make_room m = if int_le max_data_items m.data_count then remove_oldest m.data_list m else some m

abbrev pub new_data : ℕ → SharedData
new_data value = record { value = value; access_count = 0 }

-- What the three functions do under their locks, but for the statistics.
unfoldable pub insert_item : ℕ → Demo → Option Demo
unfolding make_room
insert_item value m = make_room m >>= λ m'. some (record m' {
  data_list = m'.data_list ++ new_data value ∷ [];
  data_count = inc32 m'.data_count;
})

abbrev pub count_spinlock : LockStats → LockStats
count_spinlock s = record s { spinlock_ops = inc64 s.spinlock_ops }

abbrev pub count_mutex : LockStats → LockStats
count_mutex s = record s { mutex_ops = inc64 s.mutex_ops }

abbrev pub count_write : LockStats → LockStats
count_write s = record s { rwlock_write_ops = inc64 s.rwlock_write_ops }

abbrev pub count_read : LockStats → LockStats
count_read s = record s { rwlock_read_ops = inc64 s.rwlock_read_ops }

abbrev pub no_memory : List Line
no_memory = say "concurrency: Failed to allocate memory\n" ∷ []

abbrev pub added : String → ℕ → List Line
added format value = line format (num value ∷ []) ∷ []

unfoldable pub spinlock_add_data : Bool → ℕ → Demo → Option (Demo × List Line)
unfolding insert_item
spinlock_add_data false value m = some (m, no_memory)
spinlock_add_data true value m = insert_item value m >>= λ m'. some (
  record m' { stats = count_spinlock m'.stats },
  added "concurrency: Added data %d using spinlock\n" value,
)

-- A signal before the mutex is held frees the new item again.
unfoldable pub mutex_add_data : Bool → Bool → ℕ → Demo → Option (Demo × List Line)
unfolding insert_item
mutex_add_data false interrupted value m = some (m, no_memory)
mutex_add_data true true value m = some (m, [])
mutex_add_data true false value m = insert_item value m >>= λ m'. some (
  record m' { stats = count_mutex m'.stats },
  added "concurrency: Added data %d using mutex\n" value,
)

unfoldable pub rwlock_write_data : Bool → ℕ → Demo → Option (Demo × List Line)
unfolding insert_item
rwlock_write_data false value m = some (m, no_memory)
rwlock_write_data true value m = insert_item value m >>= λ m'. some (
  record m' { stats = count_write m'.stats },
  added "concurrency: Added data %d using rwlock\n" value,
)

-- The loop over the list, with `count`.
unfoldable pub read_loop : List SharedData → ℕ → List SharedData × ℕ
read_loop [] count = ([], count)
read_loop (d ∷ rest) count =
    let (rest', count') = read_loop rest (inc32 count) in
    (record d { access_count = inc64 d.access_count } ∷ rest', count')

unfoldable pub rwlock_read_data : Demo → Demo × ℕ
unfolding read_loop
rwlock_read_data m =
    let (items, count) = read_loop m.data_list 0 in
    (record m { data_list = items; stats = count_read m.stats }, count)

unfoldable pub clear_all_data : Demo → Demo × List Line
clear_all_data m = (
  record m { data_list = []; data_count = 0; stats = zero_stats },
  say "concurrency: Cleared all data and statistics\n" ∷ [],
)
