-- ===== src/Complete/Stats.antt =====
-- What the statistics of experiments/05_complete_monitor.c say.
use Prim.Native.Nat.{min, max}
use model_lib.Prelude.{
  ℕ, ◌+◌, ◌-◌, ◌*◌, ◌/◌, ◌%◌, ◌^◌, ◌≤◌, ◌<◌, ◌≡◌, refl, ap, ◌∙◌, ◌⊎◌, inl, inr, true, false, List,
  [], ◌∷◌, some, arith, ◌==◌, ltb, length, Bool-cases,
}
use model_lib.Prelude.Words.{inc64, sub64}
use model_lib.Kernel.{Kernel, Line}
use model_lib.Complete.State.{ProcessRecord, MonitorStats, Monitor, zero_stats}
use model_lib.Complete.Matches.{lifetime_of}
use model_lib.Complete.Events.{count_created, count_exited, exited_record, mark_process_exit}
use model_lib.Complete.Invariant.{IsValid}
use model_lib.Complete.View.{view}
use model_lib.Complete.Safety.Exit.{newest_running, mark_process_exit_refines}

-- The average lies between the shortest and the longest lifetime, once there is one.
abbrev pub HasMean : MonitorStats → Type 0
HasMean s =
    (s.total_processes_exited ≡ 0)
    ⊎ ((s.shortest_lifetime ≤ s.avg_lifetime) × (s.avg_lifetime ≤ s.longest_lifetime))

mean_bounds :
    (lo hi avg n l : ℕ)
    → lo ≤ avg
    → avg ≤ hi
    → lo ≤ l
    → l ≤ hi
    → (lo ≤ (avg * n + l) / (n + 1)) × ((avg * n + l) / (n + 1) ≤ hi)
mean_bounds lo hi avg n l p q r s = grind arith

-- Without overflow the new average is the mean of the old one, so often counted, and the new value.
avg-count_exited :
    (cpu lifetime : ℕ) (s : MonitorStats)
    → s.total_processes_exited + 1 < 2 ^ 64
    → s.avg_lifetime * s.total_processes_exited + lifetime < 2 ^ 64
    → (count_exited cpu lifetime s).avg_lifetime
      ≡ (s.avg_lifetime * s.total_processes_exited + lifetime) / (s.total_processes_exited + 1)
unfolding count_exited
avg-count_exited cpu lifetime s n o = rw (one_more, counted, back, product, total)
  where
    one_more : (s.total_processes_exited + 1) % 2 ^ 64 ≡ s.total_processes_exited + 1
    one_more = omega arith

    counted : ltb 0 (s.total_processes_exited + 1) ≡ true
    counted = ground arith

    back : (s.total_processes_exited + 1 + 2 ^ 64 - 1) % 2 ^ 64 ≡ s.total_processes_exited
    back = omega arith

    product :
        s.avg_lifetime * s.total_processes_exited % 2 ^ 64
        ≡ s.avg_lifetime * s.total_processes_exited
    product = omega arith

    total :
        (s.avg_lifetime * s.total_processes_exited + lifetime) % 2 ^ 64
        ≡ s.avg_lifetime * s.total_processes_exited + lifetime
    total = omega arith

-- One more exit keeps the average between the shortest and the longest lifetime, while the count
-- of exits and the sum under the division stay below 2 ^ 64.
pub count_exited-HasMean :
    (cpu lifetime : ℕ) (s : MonitorStats)
    → HasMean s
    → s.total_processes_exited + 1 < 2 ^ 64
    → s.avg_lifetime * s.total_processes_exited + lifetime < 2 ^ 64
    → HasMean (count_exited cpu lifetime s)
unfolding count_exited
count_exited-HasMean cpu lifetime s h n o = inr (mean (lo_hi h))
  where
    t : MonitorStats
    t = count_exited cpu lifetime s

    -- The new extremes enclose the new value, and the old average if it counts.
    lo_hi :
        HasMean s
        → (t.shortest_lifetime ≤ lifetime)
          × (lifetime ≤ t.longest_lifetime)
          × ((s.total_processes_exited ≡ 0)
              ⊎ ((t.shortest_lifetime ≤ s.avg_lifetime) × (s.avg_lifetime ≤ t.longest_lifetime)))
    lo_hi (inl z) = (ground arith, ground arith, inl z)
    lo_hi (inr w) = (
      ground arith,
      ground arith,
      elim (Bool-cases (inc64 s.total_processes_exited == 1)) [
        | inl q ↦ inl (ground arith)
        | inr q ↦ inr (ground arith, ground arith)
      ],
    )

    -- The first lifetime is the average.
    avg_first : s.total_processes_exited ≡ 0 → t.avg_lifetime ≡ lifetime
    avg_first z =
        avg-count_exited cpu lifetime s n o
        ∙ ap (λ e. (s.avg_lifetime * e + lifetime) / (e + 1)) z
        ∙ omega arith

    mean :
        (t.shortest_lifetime ≤ lifetime)
          × (lifetime ≤ t.longest_lifetime)
          × ((s.total_processes_exited ≡ 0)
              ⊎ ((t.shortest_lifetime ≤ s.avg_lifetime) × (s.avg_lifetime ≤ t.longest_lifetime)))
        → (t.shortest_lifetime ≤ t.avg_lifetime) × (t.avg_lifetime ≤ t.longest_lifetime)
    mean (a, b, inl z) = rw (avg_first z) (a, b)
    mean (a, b, inr (c, d)) = rw (avg-count_exited cpu lifetime s n o) (
        mean_bounds t.shortest_lifetime t.longest_lifetime s.avg_lifetime s.total_processes_exited
          lifetime c d a b)

-- The statistics after exits with the given lifetimes, the last one first.
abbrev pub after_exits : List ℕ → MonitorStats
after_exits [] = zero_stats
after_exits (l ∷ ls) = count_exited 0 l (after_exits ls)

abbrev pub longest_of : ℕ → List ℕ → ℕ
longest_of l [] = l
longest_of l (k ∷ ls) = max l (longest_of k ls)

abbrev pub shortest_of : ℕ → List ℕ → ℕ
shortest_of l [] = l
shortest_of l (k ∷ ls) = min l (shortest_of k ls)

-- After exits with the lifetimes `l ∷ ls`, fewer than 2 ^ 64, the statistics hold their number,
-- the longest and the shortest of them.
pub after_exits_extremes :
    (l : ℕ) (ls : List ℕ)
    → length (l ∷ ls) < 2 ^ 64
    → ((after_exits (l ∷ ls)).total_processes_exited ≡ length (l ∷ ls))
      × ((after_exits (l ∷ ls)).longest_lifetime ≡ longest_of l ls)
      × ((after_exits (l ∷ ls)).shortest_lifetime ≡ shortest_of l ls)
unfolding count_exited
after_exits_extremes l [] h = ground arith
after_exits_extremes l (k ∷ ls) h = ground (arith, after_exits_extremes k ls (omega arith))

-- `current_processes` is the number of creations less the number of exits, modulo 2 ^ 64.
abbrev pub IsBalanced : MonitorStats → Type 0
IsBalanced s =
    (s.total_processes_created < 2 ^ 64)
    × (s.total_processes_exited < 2 ^ 64)
    × (s.current_processes ≡ sub64 s.total_processes_created s.total_processes_exited)

pub count_created-IsBalanced : (s : MonitorStats) → IsBalanced s → IsBalanced (count_created s)
unfolding count_created
count_created-IsBalanced s b = omega arith

pub count_exited-IsBalanced :
    (cpu lifetime : ℕ) (s : MonitorStats) → IsBalanced s → IsBalanced (count_exited cpu lifetime s)
unfolding count_exited
count_exited-IsBalanced cpu lifetime s b = omega arith

wrapped : (cpu lifetime : ℕ) → (count_exited cpu lifetime zero_stats).current_processes ≡ 2 ^ 64 - 1
unfolding count_exited
wrapped cpu lifetime = refl

-- The exit of a running process that was created before the statistics were reset makes the
-- number of current processes wrap: it becomes 2 ^ 64 - 1.
pub exit_after_reset :
    {k : Kernel} {m : Monitor} (now pid code : ℕ) (r : ProcessRecord)
    → IsValid k m
    → (m.monitoring_enabled == 0) ≡ false
    → m.stats ≡ zero_stats
    → newest_running pid (view m) ≡ some r
    → (m' : Monitor) × (out : List Line) × (mark_process_exit k now pid code m ≡ some (m', out))
      × (m'.stats.current_processes ≡ 2 ^ 64 - 1)
exit_after_reset {k} {m} now pid code r v on z e =
    let (m', q, w) = mark_process_exit_refines v now pid code on in
    (
      m',
      _,
      q,
      ap (λ s. s.current_processes) w.counted
          ∙ rw (e, z) (wrapped r.cpu_time (lifetime_of k (exited_record now code r))),
    )
