-- ===== src/KernelList/Tests.antt =====
-- Runs of experiments/02_kernel_list.c.
use model_lib.Prelude.{
  ℕ, zero, suc, ◌+◌, ◌≤◌, ◌≡◌, refl, true, false, not, List, [], ◌∷◌, Option, some, arith, ◌==◌,
  length, keep, All,
}
use model_lib.Prelude.Text.{codes}
use model_lib.Kernel.{Kernel, Errno, Line, num}
use model_lib.KernelList.State.{DemoRecord, ListDemo, initial}
use model_lib.KernelList.Records.{add_record, remove_record_by_id}
use model_lib.KernelList.Interface.{kernel_list_init}
use model_lib.KernelList.Removal.{IsRising, remove_record_by_id-exact}
use model_lib.KernelList.Invariant.{IsSound}
use model_lib.KernelList.History.{Event, IsAllowed, run_events, loaded-IsSound}
use model_lib.KernelList.Eviction.{add_record_loses_oldest}

-- A kernel in which every number reads as 2.
abbrev plain : Kernel
plain = record {
  hz = 250;
  task_comm_len = 16;
  hash_min = λ pid. 0;
  rb_insert_color = λ a t. t;
  rb_erase = λ a t. t;
  sscanf = λ format text. num 2 ∷ [];
  simple_strtol = λ text. 0;
}

abbrev writes : List Event
writes =
    record { now = 10; alloc = true; count = 7; copied = some (codes "add bob") }
    ∷ record { now = 20; alloc = true; count = 6; copied = some (codes "del 2\n") }
    ∷ []

writes-IsAllowed : All IsAllowed writes
writes-IsAllowed = ((refl, omega arith), ((refl, omega arith), tt))

loaded-IsSound_example :
    (m m' : ListDemo) × (e : Option Errno) × (kernel_list_init 5 true true true initial
      ≡ some (m, e))
    × (run_events plain writes m ≡ some m')
    × IsSound (2 + length writes) m'
loaded-IsSound_example = loaded-IsSound plain 5 true true true writes writes-IsAllowed (omega arith)

abbrev entry : ℕ → DemoRecord
entry id = record { id = id; name = codes "demo_entry"; timestamp = 5 }

abbrev three : ListDemo
three = record { record_list = entry 1 ∷ entry 2 ∷ entry 4 ∷ []; record_count = 3; next_id = 5 }

three-IsRising : IsRising 1 three.record_list 5
three-IsRising = (omega arith, (omega arith, (omega arith, omega arith)))

remove_record_by_id-exact_example :
    ((remove_record_by_id 2 three).0.record_list ≡ keep (λ r. not (r.id == 2)) three.record_list)
    × ((remove_record_by_id 2 three).0.next_id ≡ three.next_id)
remove_record_by_id-exact_example = remove_record_by_id-exact 2 1 5 three three-IsRising

-- The entries from `id` on, `n` of them.
abbrev entries : ℕ → ℕ → List DemoRecord
entries id zero = []
entries id (suc n) = entry id ∷ entries (suc id) n

entries-IsRising : (id n hi : ℕ) → id + n ≤ hi → IsRising id (entries id n) hi
entries-IsRising id zero hi h = omega (arith, h)
entries-IsRising id (suc n) hi h = (omega arith, entries-IsRising (suc id) n hi (omega (arith, h)))

abbrev full : ListDemo
full = record { record_list = entries 1 20; record_count = 20; next_id = 21 }

full-IsSound : IsSound 20 full
full-IsSound = record {
  counted = refl;
  bounded = omega arith;
  rising = entries-IsRising 1 20 21 (omega arith);
  few = omega arith;
}

add_record_loses_oldest_example :
    (m' : ListDemo) × (out : List Line) × (add_record 30 false (codes "bob") full ≡ some (m', out))
    × (m'.record_list ≡ entries 2 19)
    × (m'.record_count ≡ 19)
    × (m'.next_id ≡ full.next_id)
add_record_loses_oldest_example =
    add_record_loses_oldest 30 (codes "bob") (entry 1) (entries 2 19) full-IsSound refl refl
