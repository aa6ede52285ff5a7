-- ===== src/Complete/Safety/Exit.antt =====
-- `mark_process_exit` as a whole, against the abstract monitor.
use model_lib.Prelude.{
  ℕ, ◌≡◌, refl, sym, ap, ◌∙◌, inl, inr, false, List, [], ◌∷◌, Option, none, some, reverse, arith,
  ◌==◌, if◌then◌else◌, ◌>>=◌, find_first, change_first, IsDistinct-reverse, Bool-cases,
  Option-cases, elem-reverse, ==_iff,
}
use mathlib.Core.List.{reverse-reverse}
use model_lib.Kernel.{Kernel, Line, line, num, in_order}
use model_lib.Complete.State.{ProcessRecord, MonitorStats, Heap, Monitor, update}
use model_lib.Complete.Matches.{lifetime_of}
use model_lib.Complete.Index.{is_running, find_process_by_pid}
use model_lib.Complete.Events.{
  count_exited, exited_record, exit_locked, report_exited, mark_process_exit,
}
use model_lib.Complete.Invariant.{allocated, pid_of, start_of, in_bucket, IsStored, IsValid}
use model_lib.Complete.View.{records, view, spec_exit, records-reverse}
use model_lib.Complete.Safety.Lemmas.{keep_congr, IsSorted-congr, update_self}
use model_lib.Complete.Safety.Add.{passes, process_matches_filter-passes}
use model_lib.Complete.Safety.Search.{
  runs_at, find_process_by_pid-newest, find_first-records, find_first-elem, records-change,
  change_first-none,
}

-- The record that an exit of `pid` is about: of its running records the newest.
abbrev pub newest_running : ℕ → List ProcessRecord → Option ProcessRecord
newest_running pid rs = find_first (is_running pid) (reverse rs)

module _ {k : Kernel} {m : Monitor} (v : IsStored k [] m) (a : ℕ) (r r' : ProcessRecord)
    (here : m.heap a ≡ some r) (same_pid : r'.pid ≡ r.pid)
    (same_start : r'.start_time ≡ r.start_time) (s : MonitorStats) where
  abbrev heap' : Heap
  heap' = update m.heap a (some r')

  kept {ℓ} :
      {B : Type ℓ} (g : Option ProcessRecord → B)
      → g (some r') ≡ g (some r)
      → (b : ℕ) → g (heap' b) ≡ g (m.heap b)
  kept g e b = elim (Bool-cases (b == a)) [
    | inl q ↦ rw q (e ∙ ap g (sym here) ∙ ap (λ c. g (m.heap c)) (sym ((==_iff b a).0 q)))
    | inr q ↦ rw q refl
  ]

  -- A store that keeps a record's process and start time keeps the containers in agreement.
  pub store-IsStored : IsStored k [] (record m { heap = heap'; stats = s })
  store-IsStored = record {
    distinct = v.distinct;
    live = λ b. kept allocated refl b ∙ v.live b;
    apart = v.apart;
    hashed = λ b.
        v.hashed b
        ∙ ap reverse (
            keep_congr (in_bucket k m.heap b) (in_bucket k heap' b) m.process_list
              (λ c e. sym (ap (λ p. k.hash_min p == b) (kept pid_of same_pid c))));
    planted = v.planted;
    planted_once = v.planted_once;
    sorted =
        IsSorted-congr m.heap heap' 0 (in_order m.process_tree) (λ c e. kept start_of same_start c)
          v.sorted;
  }

-- What the exit of `pid` does to the statistics.
abbrev pub spec_stats : Kernel → ℕ → ℕ → Option ProcessRecord → MonitorStats → MonitorStats
spec_stats k now code none s = s
spec_stats k now code (some r) s =
    count_exited r.cpu_time (lifetime_of k (exited_record now code r)) s

-- What the exit of `pid` prints.
abbrev pub exit_message : Kernel → ℕ → ℕ → ℕ → Monitor → Option ProcessRecord → List Line
exit_message k now pid code m none = []
exit_message k now pid code m (some r) =
    if passes k m.filter (exited_record now code r)
    then line "process_monitor: Process exited - PID: %d, Exit Code: %d, Lifetime: %lu sec\n"
        (num pid ∷ num code ∷ num (lifetime_of k (exited_record now code r)) ∷ [])
      ∷ []
    else []

report_some :
    (k : Kernel) (pid code a lifetime : ℕ) (m : Monitor) (r : ProcessRecord)
    → m.heap a ≡ some r
    → report_exited k pid code (some (a, lifetime)) m
      ≡ some (
          if passes k m.filter r
          then line "process_monitor: Process exited - PID: %d, Exit Code: %d, Lifetime: %lu sec\n"
              (num pid ∷ num code ∷ num lifetime ∷ [])
            ∷ []
          else [])
unfolding report_exited
report_some k pid code a lifetime m r h = rw (process_matches_filter-passes k m a r h)

-- `m'` is `m` after the exit of `pid`.
pub record Exited (k : Kernel) (now pid code : ℕ) (m m' : Monitor) : Type 0 where
  pub valid : IsValid k m'
  pub seen : view m' ≡ spec_exit pid (exited_record now code) (view m)
  pub counted : m'.stats ≡ spec_stats k now code (newest_running pid (view m)) m.stats
  pub same_filter : m'.filter ≡ m.filter
  pub same_enabled : m'.monitoring_enabled ≡ m.monitoring_enabled

module _ {k : Kernel} {m : Monitor} (v : IsValid k m) (now pid code : ℕ) where
  abbrev newest_first : List ℕ
  newest_first = reverse m.process_list

  found : find_process_by_pid k m pid ≡ some (find_first (runs_at m.heap pid) newest_first)
  found = find_process_by_pid-newest pid v.stored

  newest-found :
      newest_running pid (view m)
      ≡ elim (find_first (runs_at m.heap pid) newest_first) [ none ↦ none | some a ↦ m.heap a ]
  newest-found =
      ap (find_first (is_running pid)) (sym (records-reverse m.heap m.process_list))
      ∙ find_first-records m.heap pid newest_first

  -- The new records, from what becomes of them in the order of the search.
  seen-from :
      (h' : Heap)
      → records h' newest_first
        ≡ change_first (is_running pid) (exited_record now code) (records m.heap newest_first)
      → records h' m.process_list ≡ spec_exit pid (exited_record now code) (view m)
  seen-from h' e =
      ap (records h') (sym (reverse-reverse m.process_list))
      ∙ records-reverse h' newest_first
      ∙ ap reverse (
          e
          ∙ ap (change_first (is_running pid) (exited_record now code))
              (records-reverse m.heap m.process_list))

  none_running :
      find_first (runs_at m.heap pid) newest_first ≡ none
      → (exit_locked k now pid code m ≡ some (m, none)) × Exited k now pid code m m
  unfolding exit_locked
  none_running e = (
    rw (found ∙ ap some e),
    record {
      valid = v;
      seen =
          seen-from m.heap
            (sym (change_first-none m.heap pid (exited_record now code) newest_first e));
      counted = rw (newest-found, e);
      same_filter = refl;
      same_enabled = refl;
    },
  )

  -- The state after the record `r` at `a` has exited.
  abbrev marked : ℕ → ProcessRecord → Monitor
  marked a r = record m {
    heap = update m.heap a (some (exited_record now code r));
    stats = count_exited r.cpu_time (lifetime_of k (exited_record now code r)) m.stats;
  }

  some_running :
      (a : ℕ) (r : ProcessRecord)
      → find_first (runs_at m.heap pid) newest_first ≡ some a
      → m.heap a ≡ some r
      → (exit_locked k now pid code m
          ≡ some (marked a r, some (a, lifetime_of k (exited_record now code r))))
        × Exited k now pid code m (marked a r)
  unfolding exit_locked
  some_running a r e h = (
    rw (found ∙ ap some e) (rw h),
    record {
      valid = record {
        counted = v.counted;
        bounded = v.bounded;
        stored = store-IsStored v.stored a r (exited_record now code r) h refl refl _;
      };
      seen = seen-from (update m.heap a (some (exited_record now code r))) (
          records-change m.heap pid a r (exited_record now code) newest_first
            (IsDistinct-reverse m.process_list v.stored.distinct) e h);
      counted = rw (newest-found, e, h);
      same_filter = refl;
      same_enabled = refl;
    },
  )

  newest :
      (a : ℕ) (r : ProcessRecord)
      → find_first (runs_at m.heap pid) newest_first ≡ some a
      → m.heap a ≡ some r
      → newest_running pid (view m) ≡ some r
  newest a r e h = rw (newest-found, e) h

  abbrev after_report : Monitor → Option (List Line) → Option (Monitor × List Line)
  after_report m' o = o >>= λ out. some (m', out)

  -- While monitoring is on, the exit of `pid` makes no bad access on a valid monitor, which stays
  -- valid. Of the running records of `pid` the newest becomes exited, with the time and the code,
  -- and no other record changes; the statistics count its lifetime, or stay if there is none;
  -- filter and switch stay; and the message is printed exactly if there is such a record and the
  -- filter lets it through.
  pub mark_process_exit_refines :
      (m.monitoring_enabled == 0) ≡ false
      → (m' : Monitor) × (mark_process_exit k now pid code m
          ≡ some (m', exit_message k now pid code m (newest_running pid (view m))))
        × Exited k now pid code m m'
  unfolding mark_process_exit
  mark_process_exit_refines on =
      elim (Option-cases (find_first (runs_at m.heap pid) newest_first)) [
        | inl e ↦ let (q, x) = none_running e in (m, rw (on, q, newest-found, e), x)
        | inr (a, e) ↦ elim (Option-cases (m.heap a)) [
          | inl h ↦ absurd (dead a e h)
          | inr (r, h) ↦
              let (q, x) = some_running a r e h in
              (
                marked a r,
                rw (on, q)
                    (ap (after_report (marked a r)) (
                        report_some k pid code a (lifetime_of k (exited_record now code r))
                          (marked a r) (exited_record now code r)
                          (update_self m.heap a (some (exited_record now code r))))
                      ∙ ap (λ o. some (marked a r, exit_message k now pid code m o))
                          (sym (newest a r e h))),
                x,
              )
        ]
      ]
    where
      dead : (a : ℕ) → find_first (runs_at m.heap pid) newest_first ≡ some a → m.heap a ≡ none → ⊥
      dead a e h = ground (
        arith,
        v.stored.live a,
        elem-reverse a m.process_list,
        find_first-elem (runs_at m.heap pid) a newest_first e,
      )
