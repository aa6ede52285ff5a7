-- ===== src/KernelList/Eviction.antt =====
-- What an addition to a full list of experiments/02_kernel_list.c costs.
use model_lib.Prelude.{ℕ, ◌≡◌, refl, ◌∙◌, false, true, List, ◌∷◌, some, arith, length}
use model_lib.Prelude.Words.{int_le, int_le_small}
use model_lib.Kernel.{Line}
use model_lib.KernelList.State.{DemoRecord, ListDemo, max_records}
use model_lib.KernelList.Records.{removed_line, insert_record, add_record}
use model_lib.KernelList.Invariant.{IsSound}

-- If the list is full and `kmalloc` gives no memory, the oldest record is gone and none is added.
pub add_record_loses_oldest :
    {n : ℕ} {m : ListDemo} (now : ℕ) (name : List ℕ) (r : DemoRecord) (rs : List DemoRecord)
    → IsSound n m
    → m.record_list ≡ r ∷ rs
    → length m.record_list ≡ max_records
    → (m' : ListDemo) × (out : List Line) × (add_record now false name m ≡ some (m', out))
      × (m'.record_list ≡ rs)
      × (m'.record_count ≡ 19)
      × (m'.next_id ≡ m.next_id)
unfolding add_record
add_record_loses_oldest {n} {m} now name r rs v q full = (
  record m { record_list = rs; record_count = 19 },
  removed_line "kernel_list: Removed oldest record ID=%d, Name=%s\n" r
      ∷ (insert_record now false name m).1,
  rw (test, q, v.counted, full) refl,
  refl,
  refl,
  refl,
)
  where
    test : int_le max_records m.record_count ≡ true
    test =
        int_le_small max_records m.record_count (omega arith) (omega (arith, v.counted, full))
        ∙ ground (arith, v.counted, full)
