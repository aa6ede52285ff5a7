-- ===== src/Complete/Invariant.antt =====
-- The representation invariant of the record store: the list, the hash table and the tree hold the
-- same live records. What it needs of <linux/rbtree.h> is a parameter.
use model_lib.Prelude.{
  ℕ, ◌≤◌, ◌≡◌, Bool, true, false, ◌||◌, List, [], ◌∷◌, Option, none, some, reverse, ◌==◌, length,
  keep, elem, unlink, IsDistinct,
}
use model_lib.Kernel.{Kernel, Tree, in_order}
use model_lib.Complete.State.{ProcessRecord, Heap, Monitor, max_process_records}

-- What <linux/rbtree.h> documents: `rb_insert_color` rebalances, `rb_erase` takes a node out, and
-- both keep the order of the other nodes.
pub record IsRbLib (k : Kernel) : Type 0 where
  pub in_order-color : (a : ℕ) (t : Tree) → in_order (k.rb_insert_color a t) ≡ in_order t
  pub in_order-erase : (a : ℕ) (t : Tree) → in_order (k.rb_erase a t) ≡ unlink a (in_order t)

abbrev pub allocated : Option ProcessRecord → Bool
allocated none = false
allocated (some _) = true

-- The fields of the record at an address; 0 where there is none.
abbrev pub pid_of : Option ProcessRecord → ℕ
pid_of none = 0
pid_of (some r) = r.pid

abbrev pub start_of : Option ProcessRecord → ℕ
start_of none = 0
start_of (some r) = r.start_time

abbrev pub is_live : Heap → ℕ → Bool
is_live h a = allocated (h a)

abbrev pub start_at : Heap → ℕ → ℕ
start_at h a = start_of (h a)

-- The record at an address belongs in bucket `b`.
abbrev pub in_bucket : Kernel → Heap → ℕ → ℕ → Bool
in_bucket k h b a = k.hash_min (pid_of (h a)) == b

-- Start times do not fall along a list of records; `bound` is below them all.
abbrev pub IsSorted : Heap → ℕ → List ℕ → Type 0
IsSorted h bound [] = Unit
IsSorted h bound (a ∷ rest) = (bound ≤ start_at h a) × IsSorted h (start_at h a) rest

-- The containers agree, with the records at `spare` allocated and in none of them.
pub record IsStored (k : Kernel) (spare : List ℕ) (m : Monitor) : Type 0 where
  pub distinct : IsDistinct m.process_list
  -- Apart from the spare ones a record is allocated exactly while it is in the list.
  pub live : (a : ℕ) → is_live m.heap a ≡ (elem a spare || elem a m.process_list)
  pub apart : (a : ℕ) → elem a spare ≡ true → elem a m.process_list ≡ false
  -- A chain holds the records of its bucket, the newest first.
  pub hashed : (b : ℕ) → m.process_hash b ≡ reverse (keep (in_bucket k m.heap b) m.process_list)
  -- The tree holds the listed records in the order of their start times.
  pub planted : (a : ℕ) → elem a (in_order m.process_tree) ≡ elem a m.process_list
  pub planted_once : IsDistinct (in_order m.process_tree)
  pub sorted : IsSorted m.heap 0 (in_order m.process_tree)

pub record IsValid (k : Kernel) (m : Monitor) : Type 0 where
  pub counted : m.record_count ≡ length m.process_list
  pub bounded : length m.process_list ≤ max_process_records
  pub stored : IsStored k [] m
