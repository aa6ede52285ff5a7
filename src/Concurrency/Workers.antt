-- ===== src/Concurrency/Workers.antt =====
-- The worker threads of experiments/04_concurrency_control.c.
use model_lib.Prelude.{
  ℕ, zero, suc, ◌-◌, ◌%◌, ◌^◌, List, [], ◌∷◌, ◌++◌, Option, none, some, ◌==◌, ltb, if◌then◌else◌,
  ◌>>=◌, unlink,
}
use model_lib.Prelude.Words.{inc32}
use model_lib.Kernel.{Line, line, say, num}
use model_lib.Concurrency.State.{Demo, World, max_workers}
use model_lib.Concurrency.Items.{
  spinlock_add_data, mutex_add_data, rwlock_read_data, rwlock_write_data,
}

-- `operation % 4` of an `int`: the remainder takes the sign of `operation`.
unfoldable pub rem4 : ℕ → ℕ
rem4 w = if ltb w (2 ^ 31) then w % 4 else (2 ^ 32 - (2 ^ 32 - w) % 4) % 2 ^ 32

-- `next_value++`
abbrev pub take_value : Demo → Demo
take_value m = record m { next_value = inc32 m.next_value }

-- The body of the loop, for the four random bytes `bits`. A switch without its case does nothing.
unfoldable pub worker_round : World → ℕ → Demo → Option (Demo × List Line)
unfolding rem4 spinlock_add_data mutex_add_data rwlock_read_data rwlock_write_data
worker_round w bits m =
    if rem4 bits == 0
    then spinlock_add_data w.alloc m.next_value (take_value m)
    else if rem4 bits == 1
    then mutex_add_data w.alloc w.interrupted m.next_value (take_value m)
    else if rem4 bits == 2
    then some ((rwlock_read_data m).0, [])
    else if rem4 bits == 3
    then rwlock_write_data w.alloc m.next_value (take_value m)
    else some (m, [])

-- The rounds that a worker makes before it is told to stop.
unfoldable pub worker_rounds : List (World × ℕ) → Demo → Option (Demo × List Line)
unfolding worker_round
worker_rounds [] m = some (m, [])
worker_rounds ((w, bits) ∷ rounds) m = worker_round w bits m >>= λ (m', out).
    worker_rounds rounds m' >>= λ (m'', more). some (m'', out ++ more)

unfoldable pub worker_thread_func : ℕ → List (World × ℕ) → Demo → Option (Demo × List Line)
unfolding worker_rounds
worker_thread_func id rounds m = worker_rounds rounds m >>= λ (m', out). some (
  m',
  line "concurrency: Worker thread %d started\n" (num id ∷ []) ∷ out
      ++ line "concurrency: Worker thread %d stopped\n" (num id ∷ []) ∷ [],
)

-- What one turn of the loop in `start_worker_threads` prints, and the thread that then runs.
abbrev pub start_lines : Option ℕ → ℕ → List Line
start_lines none i = line "concurrency: Failed to create worker thread %d\n" (num i ∷ []) ∷ []
start_lines (some t) i = []

abbrev pub thread_ids : List (Option ℕ) → List ℕ
thread_ids [] = []
thread_ids (none ∷ ts) = thread_ids ts
thread_ids (some t ∷ ts) = t ∷ thread_ids ts

-- The loop from index `i`, with `left` turns to go: the entries of the array, and the messages.
unfoldable pub start_loop : (ℕ → Option ℕ) → ℕ → ℕ → List (Option ℕ) × List Line
start_loop run zero i = ([], [])
start_loop run (suc left) i =
    let (ts, out) = start_loop run left (suc i) in (run i ∷ ts, start_lines (run i) i ++ out)

-- What `start_worker_threads` does after its test.
unfoldable pub start_threads : (ℕ → Option ℕ) → Demo → Demo × List Line
unfolding start_loop
start_threads run m =
    let (ts, out) = start_loop run max_workers 0 in
    (
      record m { worker_threads = ts; worker_running = 1; alive = m.alive ++ thread_ids ts },
      out ++ line "concurrency: Started %d worker threads\n" (num max_workers ∷ []) ∷ [],
    )

unfoldable pub start_worker_threads : (ℕ → Option ℕ) → Demo → Demo × List Line
unfolding start_threads
start_worker_threads run m =
    if m.worker_running == 0
    then start_threads run m
    else (m, say "concurrency: Worker threads already running\n" ∷ [])

-- The loop of `stop_worker_threads` over the array: each thread is stopped, and its entry NULL.
unfoldable pub stop_loop : List (Option ℕ) → List ℕ → List (Option ℕ) × List ℕ
stop_loop [] alive = ([], alive)
stop_loop (none ∷ ts) alive = let (ts', alive') = stop_loop ts alive in (none ∷ ts', alive')
stop_loop (some t ∷ ts) alive =
    let (ts', alive') = stop_loop ts (unlink t alive) in (none ∷ ts', alive')

unfoldable pub stop_worker_threads : Demo → Demo × List Line
unfolding stop_loop
stop_worker_threads m =
    if m.worker_running == 0
    then (m, say "concurrency: Worker threads not running\n" ∷ [])
    else (let (ts, alive) = stop_loop m.worker_threads m.alive in
        (
          record m { worker_threads = ts; worker_running = 0; alive = alive },
          say "concurrency: Stopped all worker threads\n" ∷ [],
        ))
