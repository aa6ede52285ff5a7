-- ===== src/KernelList/Records.antt =====
-- The operations on the list of experiments/02_kernel_list.c. `now` is `jiffies`.
use model_lib.Prelude.{
  ℕ, String, Bool, true, false, List, [], ◌∷◌, ◌++◌, Option, none, some, ◌==◌, if◌then◌else◌, ◌>>=◌,
}
use model_lib.Prelude.Words.{inc32, dec32, int_le}
use model_lib.Prelude.Text.{copy_str}
use model_lib.Kernel.{Line, line, say, num, str}
use model_lib.KernelList.State.{DemoRecord, ListDemo, max_records}

abbrev pub removed_line : String → DemoRecord → Line
removed_line format r = line format (num r.id ∷ str r.name ∷ [])

-- `list_first_entry` of an empty list is a bogus pointer.
unfoldable pub remove_oldest : List DemoRecord → ListDemo → Option (ListDemo × List Line)
remove_oldest [] m = none
remove_oldest (oldest ∷ rest) m = some (
  record m { record_list = rest; record_count = dec32 m.record_count },
  removed_line "kernel_list: Removed oldest record ID=%d, Name=%s\n" oldest ∷ [],
)

unfoldable pub make_room : ListDemo → Option (ListDemo × List Line)
unfolding remove_oldest
make_room m =
    if int_le max_records m.record_count then remove_oldest m.record_list m else some (m, [])

unfoldable pub append_record : ℕ → List ℕ → ListDemo → ListDemo
append_record now name m = record {
  record_list =
      m.record_list ++ record { id = m.next_id; name = copy_str 32 name; timestamp = now } ∷ [];
  record_count = inc32 m.record_count;
  next_id = inc32 m.next_id;
}

-- With or without memory from `kmalloc`.
unfoldable pub insert_record : ℕ → Bool → List ℕ → ListDemo → ListDemo × List Line
unfolding append_record
insert_record now false name m = (m, say "kernel_list: Failed to allocate memory\n" ∷ [])
insert_record now true name m = (
  append_record now name m,
  line "kernel_list: Added record ID=%d, Name=%s, Count=%d\n"
        (num m.next_id ∷ str (copy_str 32 name) ∷ num (inc32 m.record_count) ∷ [])
      ∷ [],
)

-- Room is made before the memory is asked for.
unfoldable pub add_record : ℕ → Bool → List ℕ → ListDemo → Option (ListDemo × List Line)
unfolding make_room insert_record
add_record now alloc name m = make_room m >>= λ (m', out).
    let (m'', more) = insert_record now alloc name m' in some (m'', out ++ more)

-- The loop with its `return`: the record that is removed, if one is, and the others.
unfoldable pub remove_loop : ℕ → List DemoRecord → Option DemoRecord × List DemoRecord
remove_loop id [] = (none, [])
remove_loop id (r ∷ rest) = elim (r.id == id) [
  | true ↦ (some r, rest)
  | false ↦ let (found, others) = remove_loop id rest in (found, r ∷ others)
]

unfoldable pub report_removal :
    ℕ → Option DemoRecord × List DemoRecord → ListDemo → ListDemo × List Line
report_removal id (none, others) m =
    (m, line "kernel_list: Record with ID=%d not found\n" (num id ∷ []) ∷ [])
report_removal id (some r, others) m = (
  record m { record_list = others; record_count = dec32 m.record_count },
  removed_line "kernel_list: Removed record ID=%d, Name=%s\n" r ∷ [],
)

unfoldable pub remove_record_by_id : ℕ → ListDemo → ListDemo × List Line
unfolding remove_loop report_removal
remove_record_by_id id m = report_removal id (remove_loop id m.record_list) m

-- `cleared` after the loop.
unfoldable pub count_cleared : List DemoRecord → ℕ → ℕ
count_cleared [] cleared = cleared
count_cleared (r ∷ rest) cleared = count_cleared rest (inc32 cleared)

unfoldable pub clear_all_records : ListDemo → ListDemo × List Line
unfolding count_cleared
clear_all_records m = (
  record m { record_list = []; record_count = 0 },
  line "kernel_list: Cleared %d records\n" (num (count_cleared m.record_list 0) ∷ []) ∷ [],
)
