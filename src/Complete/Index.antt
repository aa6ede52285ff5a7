-- ===== src/Complete/Index.antt =====
-- The hash table and the tree of records.
use model_lib.Prelude.{
  ℕ, Bool, true, false, ◌&&◌, List, [], ◌∷◌, Option, none, some, ◌==◌, ltb, ◌>>=◌,
}
use model_lib.Kernel.{Kernel, Tree, leaf, node}
use model_lib.Complete.State.{ProcessRecord, Heap, Monitor}

-- `record->pid == pid && record->status == 1`
abbrev pub is_running : ℕ → ProcessRecord → Bool
is_running pid r = r.pid == pid && r.status == 1

-- The loop over one chain of the hash table.
unfoldable pub find_in_chain : Heap → ℕ → List ℕ → Option (Option ℕ)
find_in_chain h pid [] = some none
find_in_chain h pid (a ∷ chain) = h a >>= λ r. elim (is_running pid r) [
  | true ↦ some (some a)
  | false ↦ find_in_chain h pid chain
]

-- The outer option is a fault, the inner one is NULL.
unfoldable pub find_process_by_pid : Kernel → Monitor → ℕ → Option (Option ℕ)
find_process_by_pid k m pid = find_in_chain m.heap pid (m.process_hash (k.hash_min pid))

-- The descent of `insert_process_rb_tree` and `rb_link_node`.
unfoldable pub link_node : Heap → ℕ → ℕ → Tree → Option Tree
link_node h a start leaf = some (node leaf a leaf)
link_node h a start (node l b r) = h b >>= λ this. elim (ltb start this.start_time) [
  | true ↦ link_node h a start l >>= λ l'. some (node l' b r)
  | false ↦ link_node h a start r >>= λ r'. some (node l b r')
]

unfoldable pub insert_process_rb_tree : Kernel → Heap → ℕ → Tree → Option Tree
unfolding link_node
insert_process_rb_tree k h a t =
    h a >>= λ new. link_node h a new.start_time t >>= λ t'. some (k.rb_insert_color a t')

unfoldable pub remove_process_rb_tree : Kernel → ℕ → Tree → Tree
remove_process_rb_tree k a t = k.rb_erase a t
