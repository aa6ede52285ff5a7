-- ===== src/Monitor/Invariant.antt =====
-- After any history the counters of process_monitor.c are right.
use model_lib.Prelude.{
  ℕ, ◌+◌, ◌^◌, ◌≤◌, ◌<◌, ◌≡◌, refl, sym, ap, ◌∙◌, inl, inr, Bool, true, false, List, [], ◌∷◌, ◌++◌,
  Option, none, some, arith, ◌==◌, leb, ◌>>=◌, length, keep, Bool-cases, keep-append, length-append,
}
use model_lib.Prelude.Words.{inc32, dec32, inc64, dec64, int_le, int_le_small}
use model_lib.Prelude.Text.{codes, c_str, strn_eq}
use model_lib.Kernel.{Kernel, Task}
use model_lib.Monitor.State.{ProcessRecord, Monitor, max_process_records, initial}
use model_lib.Monitor.Events.{
  new_record, make_room, count_created, count_exited, add_locked, mark_process_exit,
  pre_handler_fork, pre_handler_exit,
}
use model_lib.Monitor.Interface.{clear_monitor, process_monitor_write}
use model_lib.Monitor.Marking.{running, mark_process_exit-running}

-- What reaches the module: a fork or an exit of a task, at a time, and a write.
pub data Event : Type 0 where
  fork : (now : ℕ) → (alloc : Bool) → Task → Event
  exit : (now : ℕ) → Task → Event
  write : (count : ℕ) → Option (List ℕ) → Event

abbrev pub run_event : Kernel → Event → Monitor → Option Monitor
run_event k (fork now alloc task) m = pre_handler_fork k now alloc task m >>= λ (m', out). some m'
run_event k (exit now task) m = some (pre_handler_exit now task m).0
run_event k (write count copied) m = some (process_monitor_write count copied m).0

abbrev pub run_events : Kernel → List Event → Monitor → Option Monitor
run_events k [] m = some m
run_events k (e ∷ es) m = run_event k e m >>= λ m'. run_events k es m'

-- The counters after at most `n` events.
pub record IsSound (n : ℕ) (m : Monitor) : Type 0 where
  pub counted : m.record_count ≡ length m.process_list
  pub bounded : length m.process_list ≤ max_process_records
  -- Each record that runs is counted as current.
  pub covered : running m.process_list ≤ m.stats.current_processes
  pub balanced :
      m.stats.total_processes_created ≡ m.stats.current_processes + m.stats.total_processes_exited
  pub peaked : m.stats.current_processes ≤ m.stats.peak_processes
  pub reached : m.stats.peak_processes ≤ m.stats.total_processes_created
  pub few : m.stats.total_processes_created ≤ n

running-append :
    (rs : List ProcessRecord) (r : ProcessRecord) → running (rs ++ r ∷ []) ≤ running rs + 1
running-append rs r = ground (
  arith,
  keep-append (λ r. r.status == 1) rs (r ∷ []),
  length-append (keep (λ r. r.status == 1) rs) (keep (λ r. r.status == 1) (r ∷ [])),
)

running-rest : (r : ProcessRecord) (rs : List ProcessRecord) → running rs ≤ running (r ∷ rs)
running-rest r rs = ground arith

-- `make_room` on a sound monitor.
make_room-IsSound :
    {n : ℕ} {m : Monitor}
    → IsSound n m
    → (m' : Monitor) × (make_room m ≡ some m')
      × IsSound n m'
      × (length m'.process_list < max_process_records)
unfolding make_room
make_room-IsSound {n} {m} v = elim (Bool-cases (leb max_process_records m.record_count)) [
  | inl e ↦ go m.process_list refl e
  | inr e ↦ (m, rw (test ∙ e), v, ground arith)
]
  where
    test : int_le max_process_records m.record_count ≡ leb max_process_records m.record_count
    test = int_le_small max_process_records m.record_count (omega arith) (omega arith)

    go :
        (rs : List ProcessRecord)
        → m.process_list ≡ rs
        → leb max_process_records m.record_count ≡ true
        → (m' : Monitor) × (make_room m ≡ some m')
          × IsSound n m'
          × (length m'.process_list < max_process_records)
    go [] q e = absurd (ground (arith, ap length q))
    go (r ∷ rs) q e = (
      record m { process_list = rs; record_count = dec32 m.record_count },
      rw (test ∙ e) (rw q refl),
      record {
        counted = omega (arith, v.counted, ap length q, v.bounded);
        bounded = omega (arith, ap length q, v.bounded);
        covered = omega (arith, running-rest r rs, ap running q, v.covered);
        balanced = v.balanced;
        peaked = v.peaked;
        reached = v.reached;
        few = v.few;
      },
      omega (arith, ap length q, v.bounded),
    )

-- The monitor with one record more.
abbrev pub pushed : ProcessRecord → Monitor → Monitor
pushed r m = record m {
  process_list = m.process_list ++ r ∷ [];
  record_count = inc32 m.record_count;
  stats = count_created m.stats;
}

pushed-IsSound :
    {n : ℕ} {m : Monitor} (r : ProcessRecord)
    → IsSound n m
    → n + 1 < 2 ^ 64
    → length m.process_list < max_process_records
    → IsSound (n + 1) (pushed r m)
unfolding count_created
pushed-IsSound {n} {m} r v small room = record {
  counted = omega (arith, v.counted, room, length-append m.process_list (r ∷ []));
  bounded = omega (arith, room, length-append m.process_list (r ∷ []));
  covered = omega (arith, running-append m.process_list r, v.covered, one_more);
  balanced = omega (arith, v.balanced, one_more, created);
  peaked = ground (arith, one_more);
  reached = ground (arith, one_more, created, v.reached, v.balanced);
  few = omega (arith, created, v.few);
}
  where
    one_more : inc64 m.stats.current_processes ≡ m.stats.current_processes + 1
    one_more = omega (arith, v.balanced, v.few)

    created : inc64 m.stats.total_processes_created ≡ m.stats.total_processes_created + 1
    created = omega (arith, v.few)

add_locked-IsSound :
    {n : ℕ} {m : Monitor} (r : ProcessRecord)
    → IsSound n m
    → n + 1 < 2 ^ 64
    → (m' : Monitor) × (add_locked r m ≡ some m') × IsSound (n + 1) m'
unfolding add_locked
add_locked-IsSound r v small =
    let (m', e, w, room) = make_room-IsSound v in
    (pushed r m', rw e refl, pushed-IsSound r w small room)

grow : {n n' : ℕ} {m : Monitor} → n ≤ n' → IsSound n m → IsSound n' m
grow le v = record {
  counted = v.counted;
  bounded = v.bounded;
  covered = v.covered;
  balanced = v.balanced;
  peaked = v.peaked;
  reached = v.reached;
  few = omega (arith, v.few);
}

weaken : {n : ℕ} {m : Monitor} → IsSound n m → IsSound (n + 1) m
weaken v = grow (omega arith) v

fork-IsSound :
    {n : ℕ} {m : Monitor} (k : Kernel) (now : ℕ) (alloc : Bool) (task : Task)
    → IsSound n m
    → n + 1 < 2 ^ 64
    → (m' : Monitor) × (run_event k (fork now alloc task) m ≡ some m') × IsSound (n + 1) m'
unfolding pre_handler_fork
fork-IsSound {m = m} k now false task v small = (m, refl, weaken v)
fork-IsSound k now true task v small =
    let (m', e, w) =
      add_locked-IsSound (new_record k now task.pid task.parent_pid task.comm) v small in
    (m', rw e refl, w)

exit-IsSound :
    {n : ℕ} {m : Monitor} (now : ℕ) (pid : ℕ)
    → IsSound n m
    → n + 1 < 2 ^ 64
    → IsSound (n + 1) (mark_process_exit now pid m).0
unfolding mark_process_exit count_exited
exit-IsSound {n} {m} now pid v small = elim (mark_process_exit-running now pid m) [
  | inl q ↦ rw q (weaken v)
  | inr (l, s, r) ↦ record {
    counted = v.counted ∙ sym l;
    bounded = omega (arith, l, v.bounded);
    covered =
        omega (arith, r, v.covered, one_less (omega (arith, r)), ap (λ t. t.current_processes) s);
    balanced = omega (
      arith,
      v.balanced,
      v.few,
      one_less (omega (arith, r)),
      one_more,
      ap (λ t. t.current_processes) s,
      ap (λ t. t.total_processes_created) s,
      ap (λ t. t.total_processes_exited) s,
    );
    peaked = omega (
      arith,
      v.peaked,
      one_less (omega (arith, r)),
      ap (λ t. t.current_processes) s,
      ap (λ t. t.peak_processes) s,
    );
    reached =
        omega
          (arith, v.reached, ap (λ t. t.peak_processes) s, ap (λ t. t.total_processes_created) s);
    few = omega (arith, v.few, ap (λ t. t.total_processes_created) s);
  }
]
  where
    one_less :
        1 ≤ running m.process_list → dec64 m.stats.current_processes + 1 ≡ m.stats.current_processes
    one_less r = omega (arith, r, v.covered, v.few, v.balanced)

    one_more : inc64 m.stats.total_processes_exited ≡ m.stats.total_processes_exited + 1
    one_more = omega (arith, v.few, v.balanced)

cleared-IsSound : {n : ℕ} (m : Monitor) → IsSound n (clear_monitor m)
unfolding clear_monitor
cleared-IsSound m = record {
  counted = refl;
  bounded = omega arith;
  covered = omega arith;
  balanced = refl;
  peaked = omega arith;
  reached = omega arith;
  few = omega arith;
}

write-IsSound :
    {n : ℕ} {m : Monitor} (count : ℕ) (copied : Option (List ℕ))
    → IsSound n m
    → IsSound (n + 1) (process_monitor_write count copied m).0
unfolding process_monitor_write
write-IsSound count none v = weaken v
write-IsSound {m = m} count (some bytes) v = elim (Bool-cases (leb 32 count)) [
  | inl e ↦ rw e (weaken v)
  | inr e ↦ elim (Bool-cases (strn_eq (c_str (bytes ++ 0 ∷ [])) (codes "clear") 5)) [
    | inl f ↦ rw (e, f) (cleared-IsSound m)
    | inr f ↦ rw (e, f) (weaken v)
  ]
]

pub initial-IsSound : IsSound 0 initial
initial-IsSound = record {
  counted = refl;
  bounded = omega arith;
  covered = omega arith;
  balanced = refl;
  peaked = omega arith;
  reached = omega arith;
  few = omega arith;
}

pub run_event-IsSound :
    {n : ℕ} {m : Monitor} (k : Kernel) (e : Event)
    → IsSound n m
    → n + 1 < 2 ^ 64
    → (m' : Monitor) × (run_event k e m ≡ some m') × IsSound (n + 1) m'
unfolding pre_handler_exit
run_event-IsSound k (fork now alloc task) v small = fork-IsSound k now alloc task v small
run_event-IsSound k (exit now task) v small = (_, refl, exit-IsSound now task.pid v small)
run_event-IsSound k (write count copied) v small = (_, refl, write-IsSound count copied v)

run_events-IsSound_from :
    (k : Kernel) (es : List Event) {n : ℕ} {m : Monitor}
    → IsSound n m
    → n + length es < 2 ^ 64
    → (m' : Monitor) × (run_events k es m ≡ some m') × IsSound (n + length es) m'
run_events-IsSound_from k [] {n} {m} v small = (m, refl, grow (omega arith) v)
run_events-IsSound_from k (e ∷ es) {n} v small =
    let (m', q, w) = run_event-IsSound k e v (omega (arith, small)) in
    let (m'', p, u) = run_events-IsSound_from k es w (omega (arith, small)) in
    (m'', rw q p, grow (omega arith) u)

-- After any history of fewer than 2 ^ 64 events no bad access was made, the list holds as many
-- records as are counted, at most 1000, and the statistics agree: running records ≤ current ≤
-- peak ≤ created = current + exited, with nothing wrapped.
pub run_events-IsSound :
    (k : Kernel) (es : List Event)
    → length es < 2 ^ 64
    → (m : Monitor) × (run_events k es initial ≡ some m) × IsSound (length es) m
run_events-IsSound k es small =
    (let (m, e, w) = run_events-IsSound_from k es initial-IsSound (omega (arith, small)) in
      (m, e, grow (omega arith) w))
