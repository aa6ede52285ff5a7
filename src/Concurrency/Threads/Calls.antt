-- ===== src/Concurrency/Threads/Calls.antt =====
-- Threads of experiments/04_concurrency_control.c that run one after the other.
use model_lib.Prelude.{ℕ, ◌<◌, ◌≡◌, List, [], ◌∷◌, Option, none, some, ◌>>=◌}
use model_lib.Kernel.{Line}
use model_lib.Concurrency.State.{Demo}
use model_lib.Concurrency.Items.{rwlock_read_data, clear_all_data}
use model_lib.Concurrency.Invariant.{IsSound}
use model_lib.Concurrency.Threads.Moves.{Lock, Memory, Pc, idle, want, want_read, want_clear, Move}
use model_lib.Concurrency.Threads.System.{System, Reach, Anything}
use model_lib.Concurrency.Threads.Progress.{remaining}
use model_lib.Concurrency.Threads.Finish.{stepped}
use model_lib.Concurrency.Threads.Solo.{Solo}
use model_lib.Concurrency.Threads.Turns.{IsQuiet}
use model_lib.Concurrency.Threads.Alone.{Shows, add_under}

-- The functions that the threads run, with the lock of an addition.
pub data Call : Type 0 where
  add : Lock → (value : ℕ) → Call
  read clear : Call

-- A function as one step.
abbrev pub run_call : Call → Demo → Option Demo
run_call (add l value) d = add_under l value d >>= λ (d', out). some d'
run_call read d = some (rwlock_read_data d).0
run_call clear d = some (clear_all_data d).0

-- Each thread's function as one step, in turn.
abbrev pub run_calls : List (ℕ × Call) → Demo → Option Demo
run_calls [] d = some d
run_calls ((i, c) ∷ cs) d = run_call c d >>= λ d'. run_calls cs d'

abbrev state_of : Demo → Option (Demo × List Line) → Demo
state_of d none = d
state_of d (some (d', out)) = d'

-- Where a thread begins a function.
abbrev pub entry : Call → Pc
entry (add l value) = want l value
entry read = want_read
entry clear = want_clear

-- Moves of thread `i` and no other, while it is in a function.
pub data Turn (i : ℕ) (s : System) : System → Type 0 where
  stays : Turn i s s
  goes :
      {t : System} {m : Memory} {p : Pc}
      → Turn i s t
      → 0 < remaining (t.pc i)
      → Move t.mem (t.pc i) m p
      → Turn i s (stepped t i m p)

-- The calls in order, each by its thread: the thread begins the function and makes all its moves
-- to the end before the next call begins.
pub data Ran (n : ℕ) : System → List (ℕ × Call) → System → Type 0 where
  no_calls : {s : System} → Ran n s [] s
  calls :
      {s t u : System} {i : ℕ} {c : Call} {cs : List (ℕ × Call)}
      → i < n
      → s.pc i ≡ idle
      → Turn i (stepped s i s.mem (entry c)) t
      → t.pc i ≡ idle
      → Ran n t cs u
      → Ran n s ((i, c) ∷ cs) u

-- What a state of the threads and a state of the functions as one step have to do with each other
-- when nobody is in a function.
record Stands (n : ℕ) (s : System) (d : Demo) : Type 0 where
  reached : Reach n Anything s
  quiet : IsQuiet s
  sound : IsSound d
  shown : Shows d s.mem
