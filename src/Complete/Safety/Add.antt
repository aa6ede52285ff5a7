-- ===== src/Complete/Safety/Add.antt =====
-- `add_process_record` as a whole, against the abstract monitor.
use model_lib.Prelude.{
  ℕ, ◌≡◌, ap, ◌∙◌, Bool, false, ◌||◌, List, [], ◌∷◌, ◌++◌, some, arith, ◌==◌, if◌then◌else◌,
  length-append, ==_refl,
}
use model_lib.Kernel.{Kernel, Line, line, num, str}
use model_lib.Complete.State.{ProcessRecord, FilterConfig, Monitor}
use model_lib.Complete.Matches.{record_matches, process_matches_filter}
use model_lib.Complete.Events.{new_record, count_created, make_room, add_locked, add_process_record}
use model_lib.Complete.Invariant.{IsRbLib, is_live, IsValid}
use model_lib.Complete.View.{view, trim, spec_add}
use model_lib.Complete.Safety.Lemmas.{update_self}
use model_lib.Complete.Safety.Room.{
  allocate, allocate-IsStored, view-allocate, HasRoom, make_room-HasRoom,
}
use model_lib.Complete.Safety.Link.{linked, link_record-IsStored, view-linked}

-- The filter lets a record through if it is off or if the record matches.
abbrev pub passes : Kernel → FilterConfig → ProcessRecord → Bool
passes k f r = f.enabled == 0 || record_matches k f r

-- `m'` is `m` with the record `r` added at address `a`.
pub record Added (k : Kernel) (a : ℕ) (r : ProcessRecord) (m m' : Monitor) : Type 0 where
  pub valid : IsValid k m'
  pub seen : view m' ≡ spec_add r (view m)
  pub counted : m'.stats ≡ count_created m.stats
  pub same_filter : m'.filter ≡ m.filter
  pub same_enabled : m'.monitoring_enabled ≡ m.monitoring_enabled
  pub here : m'.heap a ≡ some r

pub process_matches_filter-passes :
    (k : Kernel) (m : Monitor) (a : ℕ) (r : ProcessRecord)
    → m.heap a ≡ some r
    → process_matches_filter k m a ≡ some (passes k m.filter r)
unfolding process_matches_filter
process_matches_filter-passes k m a r e = rw e (ground arith)

module _ {k : Kernel} (rb : IsRbLib k) {m : Monitor} (v : IsValid k m) (a : ℕ)
    (free : is_live m.heap a ≡ false) where
  module _ (r : ProcessRecord) where
    roomy :
        (m' : Monitor) × (make_room k (allocate a r m) ≡ some m')
        × HasRoom k (a ∷ []) (allocate a r m) m'
    roomy = make_room-HasRoom rb (allocate-IsStored v.stored a r free) v.counted v.bounded

    add_locked-Added : (m' : Monitor) × (add_locked k a r m ≡ some m') × Added k a r m m'
    unfolding add_locked
    add_locked-Added =
        let (m₁, e₁, h) = roomy in
        let here : m₁.heap a ≡ some r =
          h.same_spare a (ground (arith, ==_refl a)) ∙ update_self m.heap a (some r) in
        let (t, e₂, w) = link_record-IsStored rb a r h.stored here in
        (
          linked k a r.pid t m₁,
          rw e₁ e₂,
          record {
            valid = record {
              counted = omega (arith, h.counted, h.room, length-append m₁.process_list (a ∷ []));
              bounded = omega (arith, h.room, length-append m₁.process_list (a ∷ []));
              stored = w;
            };
            seen =
                view-linked rb a r h.stored here t
                ∙ ap (λ rs. rs ++ r ∷ []) (h.seen ∙ ap trim (view-allocate v.stored a r free));
            counted = ap count_created h.same_stats;
            same_filter = h.same_filter;
            same_enabled = h.same_enabled;
            here = here;
          },
        )

  module _ (now pid ppid : ℕ) (comm : List ℕ) (enabled : (m.monitoring_enabled == 0) ≡ false) where
    abbrev added : ProcessRecord
    added = new_record k now pid ppid comm

    abbrev pub created_message : List Line
    created_message =
        line "process_monitor: Process created - PID: %d, PPID: %d, COMM: %s\n"
          (num pid ∷ num ppid ∷ str comm ∷ [])
        ∷ []

    -- While monitoring is on and memory is given, a record enters a valid monitor with no bad
    -- access. The monitor stays valid; its records are the old ones, without the oldest if there
    -- were 1000, and the new one at the end; the statistics count one creation; filter and switch
    -- stay; and the message is printed exactly if the filter lets the new record through.
    pub add_process_record_refines :
        (m' : Monitor) × (add_process_record k now (some a) pid ppid comm m
          ≡ some (
            m',
            if passes k m.filter (new_record k now pid ppid comm) then created_message else [],
          ))
        × Added k a (new_record k now pid ppid comm) m m'
    unfolding add_process_record
    add_process_record_refines =
        let (m₁, e, h) = add_locked-Added added in
        (
          m₁,
          rw (enabled, e) (rw (process_matches_filter-passes k m₁ a added h.here, h.same_filter)),
          h,
        )
