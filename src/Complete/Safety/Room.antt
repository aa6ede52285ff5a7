-- ===== src/Complete/Safety/Room.antt =====
-- `make_room`: an allocation, and the eviction of the oldest record of a full monitor.
use model_lib.Prelude.{
  ℕ, ◌≤◌, ◌<◌, ◌≡◌, refl, sym, ap, ◌∙◌, inl, inr, true, false, ◌||◌, List, [], ◌∷◌, none, some,
  reverse, arith, ◌==◌, leb, length, elem, unlink, IsDistinct, Bool-cases, Option-cases,
  unlink_absent, ==_refl, ==_iff,
}
use model_lib.Prelude.Words.{int_le, int_le_small, dec32}
use model_lib.Kernel.{Kernel, in_order}
use model_lib.Complete.State.{ProcessRecord, Monitor, update, max_process_records}
use model_lib.Complete.Events.{release_oldest, make_room}
use model_lib.Complete.Invariant.{IsRbLib, is_live, start_of, pid_of, IsStored}
use model_lib.Complete.View.{cons_record, records, view, trim, records_congr, length-records}
use model_lib.Complete.Safety.Lemmas.{update_absent, keep_congr, IsSorted-congr}
use model_lib.Complete.Safety.Release.{released, released-IsStored, release_record-released}

-- `kmalloc` at an address that is not in use, and the stores into the new record.
abbrev pub allocate : ℕ → ProcessRecord → Monitor → Monitor
allocate a r m = record m { heap = update m.heap a (some r) }

module _ {k : Kernel} {m : Monitor} (v : IsStored k [] m) (a : ℕ) (r : ProcessRecord)
    (free : is_live m.heap a ≡ false) where
  open v use {live, hashed, planted, sorted}

  absent : elem a m.process_list ≡ false
  absent = sym (live a) ∙ free

  other : (b : ℕ) → elem b m.process_list ≡ true → update m.heap a (some r) b ≡ m.heap b
  other b e = elim (Bool-cases (b == a)) [
    | inl q ↦ absurd (ground (arith, absent, e, ap (λ x. elem x m.process_list) ((==_iff b a).0 q)))
    | inr q ↦ rw q refl
  ]

  live_allocate :
      (b : ℕ) → is_live (update m.heap a (some r)) b ≡ (elem b (a ∷ []) || elem b m.process_list)
  live_allocate b = elim (Bool-cases (b == a)) [
    | inl q ↦ rw (q, (==_iff b a).0 q, ==_refl a)
    | inr q ↦ rw q (live b ∙ ground arith)
  ]

  pub allocate-IsStored : IsStored k (a ∷ []) (allocate a r m)
  allocate-IsStored = record {
    distinct = v.distinct;
    live = live_allocate;
    apart = λ b e. ap (λ x. elem x m.process_list) (sym ((==_iff a b).0 (ground arith))) ∙ absent;
    hashed = λ b.
        hashed b
        ∙ ap reverse (
            keep_congr _ _ m.process_list
              (λ c e. ap (λ o. k.hash_min (pid_of o) == b) (sym (other c e))));
    planted = planted;
    planted_once = v.planted_once;
    sorted =
        IsSorted-congr m.heap (update m.heap a (some r)) 0 (in_order m.process_tree)
          (λ c e. ap start_of (other c (sym (planted c) ∙ e))) sorted;
  }

  pub view-allocate : view (allocate a r m) ≡ view m
  view-allocate = records_congr m.heap _ m.process_list other

-- What `make_room` does to a stored monitor.
pub record HasRoom (k : Kernel) (spare : List ℕ) (m m' : Monitor) : Type 0 where
  pub stored : IsStored k spare m'
  pub counted : m'.record_count ≡ length m'.process_list
  pub room : length m'.process_list < max_process_records
  pub seen : view m' ≡ trim (view m)
  pub same_stats : m'.stats ≡ m.stats
  pub same_filter : m'.filter ≡ m.filter
  pub same_enabled : m'.monitoring_enabled ≡ m.monitoring_enabled
  pub same_spare : (a : ℕ) → elem a spare ≡ true → m'.heap a ≡ m.heap a

module _ {k : Kernel} (rb : IsRbLib k) {spare : List ℕ} {m : Monitor} (v : IsStored k spare m)
    (counted : m.record_count ≡ length m.process_list)
    (bounded : length m.process_list ≤ max_process_records) where
  all_live : (a : ℕ) → elem a m.process_list ≡ true → is_live m.heap a ≡ true
  all_live a e = ground (arith, v.live a)

  view-length : length (view m) ≡ length m.process_list
  view-length = length-records m.heap m.process_list all_live

  evicts : int_le max_process_records m.record_count ≡ leb max_process_records (length (view m))
  evicts =
      int_le_small max_process_records m.record_count (omega arith) (omega arith)
      ∙ ap (leb max_process_records) (counted ∙ sym view-length)

  trim_small :
      (rs : List ProcessRecord) → leb max_process_records (length rs) ≡ false → trim rs ≡ rs
  trim_small [] e = refl
  trim_small (r ∷ rs) e = rw e

  -- The monitor without its oldest record.
  abbrev evicted : ℕ → Monitor
  evicted x = record (released k x m) { record_count = dec32 m.record_count }

  head_absent : (x : ℕ) (rest : List ℕ) → m.process_list ≡ x ∷ rest → elem x rest ≡ false
  head_absent x rest e = let d : IsDistinct (x ∷ rest) = rw e at v.distinct in d.0

  unlink-cons : (x : ℕ) (rest : List ℕ) → m.process_list ≡ x ∷ rest → unlink x m.process_list ≡ rest
  unlink-cons x rest e =
      ap (unlink x) e ∙ ground (arith, ==_refl x, unlink_absent x rest (head_absent x rest e))

  view-evicted :
      (x : ℕ) (rest : List ℕ) (r : ProcessRecord)
      → m.process_list ≡ x ∷ rest
      → m.heap x ≡ some r
      → leb max_process_records (length (view m)) ≡ true
      → view (evicted x) ≡ trim (view m)
  view-evicted x rest r e h c =
      ap (records (update m.heap x none)) (unlink-cons x rest e)
      ∙ records_congr m.heap (update m.heap x none) rest
          (λ b q. update_absent m.heap x b none rest (head_absent x rest e) q)
      ∙ sym (ap trim whole ∙ trimmed)
    where
      whole : view m ≡ r ∷ records m.heap rest
      whole = ap (records m.heap) e ∙ ap (λ o. cons_record o (records m.heap rest)) h

      trimmed : trim (r ∷ records m.heap rest) ≡ records m.heap rest
      trimmed = rw (sym (ap (λ rs. leb max_process_records (length rs)) whole) ∙ c)

  release_oldest-HasRoom :
      (xs : List ℕ)
      → m.process_list ≡ xs
      → leb max_process_records (length (view m)) ≡ true
      → (m' : Monitor) × (release_oldest k xs m ≡ some m') × HasRoom k spare m m'
  unfolding release_oldest
  release_oldest-HasRoom [] e c = absurd (ground (arith, view-length, ap length e))
  release_oldest-HasRoom (x ∷ rest) e c = (
    evicted x,
    rw (release_record-released rb v x listed),
    record {
      stored = evicted-IsStored;
      counted = omega (arith, length_rest, ap length e, ap length (unlink-cons x rest e));
      room = omega (arith, ap length e, ap length (unlink-cons x rest e));
      seen = elim (Option-cases (m.heap x)) [
        | inl h ↦ absurd (ground (arith, all_live x listed))
        | inr (r, h) ↦ view-evicted x rest r e h c
      ];
      same_stats = refl;
      same_filter = refl;
      same_enabled = refl;
      same_spare = λ a q. spare_kept a q;
    },
  )
    where
      listed : elem x m.process_list ≡ true
      listed = rw e (ground (arith, ==_refl x))

      length_rest : dec32 m.record_count ≡ length rest
      length_rest = omega (arith, ap length e)

      evicted-IsStored : IsStored k spare (evicted x)
      evicted-IsStored =
          let s = released-IsStored rb v x listed in
          record {
            distinct = s.distinct;
            live = s.live;
            apart = s.apart;
            hashed = s.hashed;
            planted = s.planted;
            planted_once = s.planted_once;
            sorted = s.sorted;
          }

      spare_kept : (a : ℕ) → elem a spare ≡ true → update m.heap x none a ≡ m.heap a
      spare_kept a q = elim (Bool-cases (a == x)) [
        | inl w ↦ absurd (
            ground (arith, v.apart a q, listed, ap (λ y. elem y m.process_list) ((==_iff a x).0 w)))
        | inr w ↦ rw w refl
      ]

  pub make_room-HasRoom : (m' : Monitor) × (make_room k m ≡ some m') × HasRoom k spare m m'
  unfolding make_room
  make_room-HasRoom = elim (Bool-cases (leb max_process_records (length (view m)))) [
    | inl c ↦
        let (m', e, r) = release_oldest-HasRoom m.process_list refl c in (m', rw (evicts ∙ c) e, r)
    | inr c ↦ (
      m,
      rw (evicts ∙ c),
      record {
        stored = v;
        counted = counted;
        room = ground (arith, view-length);
        seen = sym (trim_small (view m) c);
        same_stats = refl;
        same_filter = refl;
        same_enabled = refl;
        same_spare = λ a q. refl;
      },
    )
  ]
