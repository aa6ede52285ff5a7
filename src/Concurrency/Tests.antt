-- ===== src/Concurrency/Tests.antt =====
-- Runs of experiments/04_concurrency_control.c, one operation after the other.
mod Interleavings
use model_lib.Prelude.{
  ℕ, suc, set, length, ◌≤◌, ◌+◌, ◌-◌, ◌^◌, ◌<◌, ◌≡◌, refl, Bool, true, false, List, [], ◌∷◌, ◌++◌,
  Option, none, elem, some, arith, ◌==◌, if◌then◌else◌, All,
}
use model_lib.Prelude.Text.{codes}
use model_lib.Kernel.{Kernel, num, str}
use model_lib.Concurrency.State.{SharedData, Demo, World, initial, max_workers}
use model_lib.Concurrency.Items.{spinlock_add_data}
use model_lib.Concurrency.Workers.{rem4, start_loop, start_threads}
use model_lib.Concurrency.Interface.{
  concurrency_write, concurrency_show, concurrency_exit, show_header, show_commands,
}
use model_lib.Concurrency.Invariant.{IsSound, initial-IsSound}
use model_lib.Concurrency.Starts.{
  Reach, start, first, second, at_index, ended, passes, sets_running, makes, stores, ends,
  concurrency_exit-two_starts,
}
use model_lib.Concurrency.Listing.{spec_rows, concurrency_show-rows}
use model_lib.Concurrency.History.{
  Event, write, round, IsAllowed, run_events, concurrency_exit-run_events,
}

-- A kernel that reads every command as "spin 5".
abbrev plain : Kernel
plain = record {
  hz = 250;
  task_comm_len = 16;
  hash_min = λ pid. 0;
  rb_insert_color = λ a t. t;
  rb_erase = λ a t. t;
  sscanf = λ format text. str (codes "spin") ∷ num 5 ∷ [];
  simple_strtol = λ text. 0;
}

-- The third thread cannot be made.
abbrev world : World
world = record {
  alloc = true;
  interrupted = false;
  kthread_run = λ i. if i == 2 then none else some (100 + i);
}

abbrev history : List Event
history =
    write world 6 (some (codes "start\n"))
    ∷ round world 7
    ∷ round world (2 ^ 32 - 1)
    ∷ write world 6 (some (codes "spin 5"))
    ∷ []

history-IsAllowed : All IsAllowed history
history-IsAllowed = ((refl, omega arith), (tt, (tt, ((refl, omega arith), tt))))

concurrency_exit-run_events_example :
    (m : Demo) × (run_events plain history initial ≡ some m)
    × IsSound m
    × let (m', registered, out) = concurrency_exit m in
      (m'.data_list ≡ []) × (m'.data_count ≡ 0) × (m'.alive ≡ []) × (registered ≡ false)
concurrency_exit-run_events_example = concurrency_exit-run_events plain history history-IsAllowed

abbrev two_items : Demo
two_items = record initial {
  data_list = record { value = 5; access_count = 1 } ∷ record { value = 6; access_count = 0 } ∷ [];
  data_count = 2;
}

two_items-IsSound : IsSound two_items
two_items-IsSound = record {
  counted = refl;
  bounded = omega arith;
  owned = refl;
  stopped = λ e. refl;
}

concurrency_show-rows_example :
    concurrency_show two_items
    ≡ show_header two_items ++ spec_rows two_items.data_list ++ show_commands
concurrency_show-rows_example = concurrency_show-rows two_items-IsSound

-- Two starts make and store their threads `a` and `b` for the same index in turn.
abbrev both_made : ℕ → ℕ → ℕ → Demo → Demo
both_made i a b m = record m {
  worker_threads = set (set m.worker_threads i (some a)) i (some b);
  alive = (m.alive ++ a ∷ []) ++ b ∷ [];
}

both_made-Reach :
    {m : Demo} {i k k' : ℕ} (a b : ℕ)
    → i < max_workers
    → elem a m.alive ≡ false
    → elem b (m.alive ++ a ∷ []) ≡ false
    → Reach initial m (at_index i k) (at_index i k')
    → Reach initial (both_made i a b m) (at_index (suc i) (suc k)) (at_index (suc i) (suc k'))
both_made-Reach a b lt new new' r =
    second (first (second (first r (makes a lt new)) (makes b lt new')) stores) stores

abbrev both_running : Demo
both_running = record initial { worker_running = 1 }

abbrev all_made : Demo
all_made = both_made 4 104 204 (
    both_made 3 103 203
      (both_made 2 102 202 (both_made 1 101 201 (both_made 0 100 200 both_running))))

all_made-Reach : Reach initial all_made (ended 5) (ended 5)
all_made-Reach =
    second
      (first
        (both_made-Reach 104 204 (omega arith) refl refl (
          both_made-Reach 103 203 (omega arith) refl refl (
            both_made-Reach 102 202 (omega arith) refl refl (
              both_made-Reach 101 201 (omega arith) refl refl (
                both_made-Reach 100 200 (omega arith) refl refl (
                  second (first (second (first start (passes refl)) (passes refl)) sets_running)
                    sets_running))))))
        ends)
      ends

concurrency_exit-two_starts_example :
    5 + 5 ≤ length (concurrency_exit all_made).0.alive + max_workers
concurrency_exit-two_starts_example =
    concurrency_exit-two_starts initial-IsSound refl refl all_made-Reach

-- A remainder takes the sign of the random number: -1 % 4 is -1, and no case of the switch.
rem4_negative : rem4 (2 ^ 32 - 1) ≡ 2 ^ 32 - 1
unfolding rem4
rem4_negative = refl
