-- ===== src/Complete/Safety/Link.antt =====
-- `link_record`: a new record enters the list, the hash table and the tree.
use model_lib.Prelude.{
  ℕ, ◌≡◌, sym, ap, ◌∙◌, inl, inr, true, false, List, [], ◌∷◌, ◌++◌, some, reverse, arith, ◌==◌,
  if◌then◌else◌, keep, elem, IsDistinct-snoc, Bool-cases, elem-append, keep-append, ==_refl,
}
use mathlib.Core.List.{reverse-append, append-nil}
use model_lib.Prelude.Words.{inc32}
use model_lib.Kernel.{Kernel, Tree, in_order}
use model_lib.Complete.State.{ProcessRecord, Monitor}
use model_lib.Complete.Events.{count_created, link_record}
use model_lib.Complete.Invariant.{IsRbLib, in_bucket, IsStored}
use model_lib.Complete.View.{view, records-append}
use model_lib.Complete.Safety.Planting.{
  AllLive, Plants, place, link_node-place, elem-place, IsDistinct-place, IsSorted-place,
}

-- The state after the record at `a`, of process `pid`, is linked with the tree `t`.
abbrev pub linked : Kernel → ℕ → ℕ → Tree → Monitor → Monitor
linked k a pid t m = record m {
  process_list = m.process_list ++ a ∷ [];
  process_hash = λ b. if b == k.hash_min pid then a ∷ m.process_hash b else m.process_hash b;
  process_tree = t;
  record_count = inc32 m.record_count;
  stats = count_created m.stats;
}

module _ {k : Kernel} (rb : IsRbLib k) {m : Monitor} (a : ℕ) (r : ProcessRecord)
    (v : IsStored k (a ∷ []) m) (here : m.heap a ≡ some r) where
  absent : elem a m.process_list ≡ false
  absent = v.apart a (ground (arith, ==_refl a))

  tree_live : AllLive m.heap r.start_time a (in_order m.process_tree)
  tree_live x e = ground (arith, v.live x, v.planted x)

  planting : Plants m.heap r.start_time a m.process_tree
  planting = link_node-place m.heap r.start_time a 0 m.process_tree tree_live v.sorted

  abbrev placed : List ℕ
  placed = place m.heap r.start_time a (in_order m.process_tree)

  chain-linked :
      (b : ℕ)
      → (if b == k.hash_min r.pid then a ∷ m.process_hash b else m.process_hash b)
        ≡ reverse (keep (in_bucket k m.heap b) (m.process_list ++ a ∷ []))
  chain-linked b =
      rw (keep-append (in_bucket k m.heap b) m.process_list (a ∷ []), here, v.hashed b)
        (elim (Bool-cases (b == k.hash_min r.pid)) [
          | inl q ↦
              rw (q, eq_comm q)
                (sym (reverse-append (keep (in_bucket k m.heap b) m.process_list) (a ∷ [])))
          | inr q ↦
              rw (q, ne_comm q)
                (ap reverse (sym (append-nil (keep (in_bucket k m.heap b) m.process_list))))
        ])
    where
      eq_comm : (b == k.hash_min r.pid) ≡ true → (k.hash_min r.pid == b) ≡ true
      eq_comm q = ground arith

      ne_comm : (b == k.hash_min r.pid) ≡ false → (k.hash_min r.pid == b) ≡ false
      ne_comm q = ground arith

  module _ (t : Tree) (order : in_order t ≡ placed) where
    pub linked-IsStored : IsStored k [] (linked k a r.pid t m)
    linked-IsStored = record {
      distinct = IsDistinct-snoc a m.process_list v.distinct absent;
      live = λ b. v.live b ∙ rw (elem-append b m.process_list (a ∷ [])) (ground arith);
      apart = λ b e. cc;
      hashed = chain-linked;
      planted = λ b.
          ap (elem b) order
          ∙ elem-place m.heap r.start_time a b (in_order m.process_tree)
          ∙ rw (v.planted b, elem-append b m.process_list (a ∷ [])) (ground arith);
      planted_once = rw order (
          IsDistinct-place m.heap r.start_time a (in_order m.process_tree) v.planted_once
            (v.planted a ∙ absent));
      sorted = rw order (
          IsSorted-place m.heap r.start_time a 0 (in_order m.process_tree) (rw here) (omega arith)
            v.sorted);
    }

  -- Linking makes no bad access, and the containers agree afterwards.
  pub link_record-IsStored :
      (t : Tree) × (link_record k a r.pid m ≡ some (linked k a r.pid t m))
      × IsStored k [] (linked k a r.pid t m)
  unfolding link_record
  link_record-IsStored =
      let (t, e, w) = planting in
      (
        k.rb_insert_color a t,
        rw here (rw e),
        linked-IsStored (k.rb_insert_color a t) (rb.in_order-color a t ∙ w),
      )

  pub view-linked : (t : Tree) → view (linked k a r.pid t m) ≡ view m ++ r ∷ []
  view-linked t = rw (records-append m.heap m.process_list (a ∷ []), here)
