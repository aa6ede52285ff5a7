-- ===== src/Complete/Safety/Clear.antt =====
-- "clear" frees every record and leaves the containers empty.
use model_lib.Prelude.{
  ℕ, ◌≡◌, refl, sym, ap, ◌∙◌, true, List, [], ◌∷◌, some, arith, length, elem, unlink, IsDistinct,
  unlink_absent, ==_refl,
}
use model_lib.Kernel.{Kernel}
use model_lib.Complete.State.{Monitor}
use model_lib.Complete.Control.{release_all, clear_records}
use model_lib.Complete.Invariant.{IsRbLib, IsStored, IsValid}
use model_lib.Complete.Safety.Release.{released, released-IsStored, release_record-released}

-- `m'` holds no record, and is otherwise as `m`.
pub record Emptied (k : Kernel) (m m' : Monitor) : Type 0 where
  pub stored : IsStored k [] m'
  pub empty : m'.process_list ≡ []
  pub same_stats : m'.stats ≡ m.stats
  pub same_filter : m'.filter ≡ m.filter
  pub same_enabled : m'.monitoring_enabled ≡ m.monitoring_enabled

module _ {k : Kernel} (rb : IsRbLib k) where
  release_all-Emptied :
      (xs : List ℕ) (m : Monitor)
      → IsStored k [] m
      → m.process_list ≡ xs
      → (m' : Monitor) × (release_all k xs m ≡ some m') × Emptied k m m'
  unfolding release_all
  release_all-Emptied [] m v e = (
    m,
    refl,
    record { stored = v; empty = e; same_stats = refl; same_filter = refl; same_enabled = refl },
  )
  release_all-Emptied (x ∷ xs) m v e =
      let d : IsDistinct (x ∷ xs) = rw e at v.distinct in
      let listed : elem x m.process_list ≡ true = rw e (ground (arith, ==_refl x)) in
      let rest : unlink x m.process_list ≡ xs =
        ap (unlink x) e ∙ ground (arith, ==_refl x, unlink_absent x xs d.0) in
      let (m', q, w) =
        release_all-Emptied xs (released k x m) (released-IsStored rb v x listed) rest in
      (
        m',
        rw (release_record-released rb v x listed) q,
        record {
          stored = w.stored;
          empty = w.empty;
          same_stats = w.same_stats;
          same_filter = w.same_filter;
          same_enabled = w.same_enabled;
        },
      )

  pub clear_records-Emptied :
      {m : Monitor}
      → IsValid k m
      → (m' : Monitor) × (clear_records k m ≡ some m') × Emptied k m m' × IsValid k m'
  unfolding clear_records
  clear_records-Emptied {m} v =
      let (m', e, w) = release_all-Emptied m.process_list m v.stored refl in
      let stored : IsStored k [] (record m' { record_count = 0 }) = record {
        distinct = w.stored.distinct;
        live = w.stored.live;
        apart = w.stored.apart;
        hashed = w.stored.hashed;
        planted = w.stored.planted;
        planted_once = w.stored.planted_once;
        sorted = w.stored.sorted;
      } in
      (
        record m' { record_count = 0 },
        rw e,
        record {
          stored = stored;
          empty = w.empty;
          same_stats = w.same_stats;
          same_filter = w.same_filter;
          same_enabled = w.same_enabled;
        },
        record {
          counted = sym (ap length w.empty);
          bounded = omega (arith, ap length w.empty);
          stored = stored;
        },
      )
