-- ===== src/Monitor/Marking.antt =====
-- Which record an exit changes.
use model_lib.Prelude.{
  ℕ, ◌+◌, ◌-◌, ◌%◌, ◌^◌, ◌&&◌, Bool, ◌≡◌, refl, ap, ◌⊎◌, inl, inr, List, [], ◌∷◌, Option, none,
  some, arith, ◌==◌, length, keep, find_first, change_first, Bool-cases,
}
use model_lib.Monitor.State.{ProcessRecord, MonitorStats, Monitor}
use model_lib.Monitor.Events.{is_running, count_exited, mark_loop, mark_process_exit}

-- The number of records that are still running.
abbrev pub running : List ProcessRecord → ℕ
running rs = length (keep (λ r. r.status == 1) rs)

-- A record of `pid` that is still running, and the same record once it has exited.
abbrev pub spec_running : ℕ → ProcessRecord → Bool
spec_running pid r = r.pid == pid && r.status == 1

abbrev pub spec_exited : ℕ → ProcessRecord → ProcessRecord
spec_exited now r = record r { end_time = now; status = 0 }

-- What the exit does to the statistics, if a record is found: one exit more, one process less.
abbrev pub spec_stats : Option ProcessRecord → MonitorStats → MonitorStats
spec_stats none s = s
spec_stats (some r) s = record s {
  total_processes_exited = (s.total_processes_exited + 1) % 2 ^ 64;
  current_processes = (s.current_processes + 2 ^ 64 - 1) % 2 ^ 64;
}

mark_loop-first :
    (now pid : ℕ) (rs : List ProcessRecord) (s : MonitorStats)
    → ((mark_loop now pid rs s).0 ≡ change_first (spec_running pid) (spec_exited now) rs)
      × ((mark_loop now pid rs s).1 ≡ spec_stats (find_first (spec_running pid) rs) s)
unfolding mark_loop count_exited
mark_loop-first now pid [] s = (refl, refl)
mark_loop-first now pid (r ∷ rs) s = elim (Bool-cases (is_running pid r)) [
  | inl e ↦ (ground arith, ground arith)
  | inr e ↦
      (ground (arith, mark_loop-first now pid rs s), ground (arith, mark_loop-first now pid rs s))
]

mark_loop-running :
    (now pid : ℕ) (rs : List ProcessRecord) (s : MonitorStats)
    → (mark_loop now pid rs s ≡ (rs, s))
      ⊎ ((length (mark_loop now pid rs s).0 ≡ length rs)
          × ((mark_loop now pid rs s).1 ≡ count_exited s)
          × (running (mark_loop now pid rs s).0 + 1 ≡ running rs))
unfolding mark_loop
mark_loop-running now pid [] s = inl refl
mark_loop-running now pid (r ∷ rs) s = elim (Bool-cases (is_running pid r)) [
  | inl e ↦ inr (ground arith, ground arith, ground arith)
  | inr e ↦ elim (mark_loop-running now pid rs s) [
    | inl q ↦ inl (ground arith)
    | inr (p, q, w) ↦ inr (ground arith, ground arith, ground arith)
  ]
]

-- The exit of `pid` gives the oldest running record of `pid` its end time and status 0 and changes
-- no other; then the number of exits goes up by one and that of current processes down by one,
-- modulo 2 ^ 64, and nothing else of the statistics changes. If there is none, records and
-- statistics stay. (The complete monitor changes the newest.)
pub mark_process_exit-oldest :
    (now pid : ℕ) (m : Monitor)
    → ((mark_process_exit now pid m).0.process_list
        ≡ change_first (spec_running pid) (spec_exited now) m.process_list)
      × ((mark_process_exit now pid m).0.stats
          ≡ spec_stats (find_first (spec_running pid) m.process_list) m.stats)
      × ((mark_process_exit now pid m).0.record_count ≡ m.record_count)
unfolding mark_process_exit
mark_process_exit-oldest now pid m =
    let (p, q) = mark_loop-first now pid m.process_list m.stats in (p, q, refl)

-- An exit leaves the records alone or ends one of those that run.
pub mark_process_exit-running :
    (now pid : ℕ) (m : Monitor)
    → ((mark_process_exit now pid m).0 ≡ m)
      ⊎ ((length (mark_process_exit now pid m).0.process_list ≡ length m.process_list)
          × ((mark_process_exit now pid m).0.stats ≡ count_exited m.stats)
          × (running (mark_process_exit now pid m).0.process_list + 1 ≡ running m.process_list))
unfolding mark_process_exit
mark_process_exit-running now pid m = elim (mark_loop-running now pid m.process_list m.stats) [
  | inl q ↦ inl (ap (λ t. record m { process_list = t.0; stats = t.1 }) q)
  | inr q ↦ inr q
]
