-- ===== src/Concurrency/Threads/System.antt =====
-- Threads that interleave over the shared data of experiments/04_concurrency_control.c.
use model_lib.Prelude.{ℕ, ◌<◌, ◌≡◌, refl, ==_refl, [], ◌==◌, if◌then◌else◌, false}
use model_lib.Concurrency.State.{zero_stats}
use model_lib.Concurrency.Threads.Moves.{Memory, Pc, idle, Move}

pub record System : Type 0 where
  pub mem : Memory
  pub pc : ℕ → Pc

-- Thread `i` goes to `p`.
abbrev pub moved : (ℕ → Pc) → ℕ → Pc → ℕ → Pc
moved pc i p j = if j == i then p else pc j

pub moved_self : (pc : ℕ → Pc) (i : ℕ) (p : Pc) → moved pc i p i ≡ p
moved_self pc i p = rw (==_refl i) refl

-- One access of one of `n` threads.
pub data Step (n : ℕ) (s : System) : System → Type 0 where
  by_thread :
      (i : ℕ) {m : Memory} {p : Pc}
      → i < n
      → Move s.mem (s.pc i) m p
      → Step n s (record { mem = m; pc = moved s.pc i p })

abbrev pub unlocked : Memory
unlocked = record {
  data_list = [];
  data_count = 0;
  stats = zero_stats;
  spin_held = false;
  mutex_held = false;
  write_held = false;
  readers = 0;
}

-- The module just loaded.
abbrev pub loaded : System
loaded = record { mem = unlocked; pc = λ i. idle }

-- The states that `n` threads reach while every thread is in a place that `Allowed` allows.
pub data Reach (n : ℕ) (Allowed : Pc → Type 0) : System → Type 0 where
  start : Reach n Allowed loaded
  later :
      {s t : System}
      → Reach n Allowed s
      → Step n s t
      → ((i : ℕ) → Allowed (t.pc i))
      → Reach n Allowed t

-- Any function, under any lock.
abbrev pub Anything : Pc → Type 0
Anything p = Unit
