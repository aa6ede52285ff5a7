-- ===== src/Complete/Safety/Release.antt =====
-- `release_record` frees a listed record and keeps the containers in agreement.
use model_lib.Prelude.{
  ℕ, ◌≡◌, sym, ap, ◌∙◌, inl, inr, true, false, not, ◌&&◌, ◌||◌, List, none, some, reverse, arith,
  ◌==◌, keep, elem, unlink, IsDistinct-keep, Bool-cases, Option-cases, elem-keep, keep-keep,
  keep-reverse, ==_iff,
}
use model_lib.Kernel.{Kernel, in_order}
use model_lib.Complete.State.{Heap, Monitor, update}
use model_lib.Complete.Events.{release_record}
use model_lib.Complete.Invariant.{IsRbLib, is_live, pid_of, start_of, in_bucket, IsSorted, IsStored}
use model_lib.Complete.Safety.Lemmas.{keep_congr, IsSorted-congr, IsSorted-keep}

abbrev pub released : Kernel → ℕ → Monitor → Monitor
released k a m = record m {
  heap = update m.heap a none;
  process_list = unlink a m.process_list;
  process_hash = λ b. unlink a (m.process_hash b);
  process_tree = k.rb_erase a m.process_tree;
}

module _ {k : Kernel} (rb : IsRbLib k) {spare : List ℕ} {m : Monitor} (v : IsStored k spare m)
    (a : ℕ) (listed : elem a m.process_list ≡ true) where
  open v use {distinct, live, apart, hashed, planted, planted_once, sorted}

  abbrev heap' : Heap
  heap' = update m.heap a none

  elem-unlink : (b : ℕ) (xs : List ℕ) → elem b (unlink a xs) ≡ (not (b == a) && elem b xs)
  elem-unlink b xs = elem-keep (λ x. not (x == a)) b xs

  kept : (b : ℕ) (xs : List ℕ) → elem b (unlink a xs) ≡ true → heap' b ≡ m.heap b
  kept b xs e = ground (arith, elem-unlink b xs)

  spared : (b : ℕ) → (b == a) ≡ true → elem b spare ≡ false
  spared b q = elim (Bool-cases (elem b spare)) [
    | inl e ↦ absurd (ground (arith, apart b e, ap (λ x. elem x m.process_list) ((==_iff b a).0 q)))
    | inr e ↦ e
  ]

  live' : (b : ℕ) → is_live heap' b ≡ (elem b spare || elem b (unlink a m.process_list))
  live' b = elim (Bool-cases (b == a)) [
    | inl q ↦ rw (q, elem-unlink b m.process_list, q, spared b q)
    | inr q ↦ rw (q, elem-unlink b m.process_list, q) (live b)
  ]

  hashed' :
      (b : ℕ)
      → unlink a (m.process_hash b) ≡ reverse (keep (in_bucket k heap' b) (unlink a m.process_list))
  hashed' b =
      ap (unlink a) (hashed b)
      ∙ keep-reverse (λ x. not (x == a)) (keep (in_bucket k m.heap b) m.process_list)
      ∙ ap reverse (keep-keep (λ x. not (x == a)) (in_bucket k m.heap b) m.process_list)
      ∙ ap reverse (
          keep_congr (in_bucket k m.heap b) (in_bucket k heap' b) (unlink a m.process_list)
            (λ c e. ap (λ o. k.hash_min (pid_of o) == b) (sym (kept c m.process_list e))))

  erased : in_order (k.rb_erase a m.process_tree) ≡ unlink a (in_order m.process_tree)
  erased = rb.in_order-erase a m.process_tree

  planted' :
      (b : ℕ) → elem b (in_order (k.rb_erase a m.process_tree)) ≡ elem b (unlink a m.process_list)
  planted' b =
      rw (erased, elem-unlink b (in_order m.process_tree), elem-unlink b m.process_list, planted b)

  sorted' : IsSorted heap' 0 (in_order (k.rb_erase a m.process_tree))
  sorted' = rw erased (
      IsSorted-congr m.heap heap' 0 (unlink a (in_order m.process_tree))
        (λ c e. ap start_of (kept c (in_order m.process_tree) e))
        (IsSorted-keep m.heap (λ x. not (x == a)) 0 (in_order m.process_tree) sorted))

  pub released-IsStored : IsStored k spare (released k a m)
  released-IsStored = record {
    distinct = IsDistinct-keep _ m.process_list distinct;
    live = live';
    apart = λ b e. ground (arith, elem-unlink b m.process_list, apart b e);
    hashed = hashed';
    planted = planted';
    planted_once = rw erased (IsDistinct-keep _ (in_order m.process_tree) planted_once);
    sorted = sorted';
  }

  pub release_record-released : release_record k a m ≡ some (released k a m)
  unfolding release_record
  release_record-released = elim (Option-cases (m.heap a)) [
    | inl e ↦ absurd (ground (arith, live a))
    | inr (r, e) ↦ rw e
  ]
