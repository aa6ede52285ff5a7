-- ===== src/Monitor/Window.antt =====
-- Which records process_monitor.c keeps: those that entered last.
use model_lib.Prelude.{
  ℕ, zero, suc, ◌+◌, ◌^◌, ◌≤◌, ◌<◌, ◌≡◌, refl, sym, ap, ◌∙◌, inl, inr, Bool, true, false, List, [],
  ◌∷◌, ◌++◌, map, reverse, Option, none, some, arith, leb, if◌then◌else◌, length, take, Bool-cases,
  length-reverse, length-take, tail, tail-reverse-take,
}
use mathlib.Core.List.{reverse-cons}
use model_lib.Prelude.Words.{dec32, int_le, int_le_small}
use model_lib.Prelude.Text.{codes, c_str, strn_eq}
use model_lib.Kernel.{Kernel}
use model_lib.Monitor.State.{ProcessRecord, Monitor, max_process_records, initial}
use model_lib.Monitor.Events.{
  new_record, make_room, add_locked, mark_loop, pre_handler_fork, pre_handler_exit, is_running,
}
use model_lib.Monitor.Interface.{process_monitor_write}
use model_lib.Monitor.Invariant.{
  Event, pushed, fork, exit, write, run_event, run_events, IsSound, initial-IsSound,
  run_event-IsSound,
}

abbrev pub pids : Monitor → List ℕ
pids m = map (λ r. r.pid) m.process_list

abbrev pids_of : Option Monitor → List ℕ
pids_of none = []
pids_of (some m) = pids m

-- A write that clears: it fits, can be copied and begins with "clear".
abbrev pub clears : ℕ → Option (List ℕ) → Bool
clears count none = false
clears count (some bytes) =
    if leb 32 count then false else strn_eq (c_str (bytes ++ 0 ∷ [])) (codes "clear") 5

-- The pids entered since the last clear, the newest first, after one event more.
abbrev pub entered : Event → List ℕ → List ℕ
entered (fork now false task) seen = seen
entered (fork now true task) seen = task.pid ∷ seen
entered (exit now task) seen = seen
entered (write count copied) seen = if clears count copied then [] else seen

abbrev pub all_entered : List Event → List ℕ → List ℕ
all_entered [] seen = seen
all_entered (e ∷ es) seen = all_entered es (entered e seen)

-- The latest 1000, the oldest of them first.
abbrev pub window : List ℕ → List ℕ
window seen = reverse (take max_process_records seen)

mark_loop-pids :
    (now pid : ℕ) (rs : List ProcessRecord) (s : model_lib.Monitor.State.MonitorStats)
    → map (λ r. r.pid) (mark_loop now pid rs s).0 ≡ map (λ r. r.pid) rs
unfolding mark_loop
mark_loop-pids now pid [] s = refl
mark_loop-pids now pid (r ∷ rs) s = elim (Bool-cases (is_running pid r)) [
  | inl e ↦ ground arith
  | inr e ↦ ground (arith, mark_loop-pids now pid rs s)
]

-- The pids that `make_room` leaves.
make_room-pids :
    {n : ℕ} {m : Monitor}
    → IsSound n m
    → (m' : Monitor) × (make_room m ≡ some m')
      × (pids m'
          ≡ (if leb max_process_records (length m.process_list) then tail (pids m) else pids m))
unfolding make_room
make_room-pids {n} {m} v = go m.process_list refl
  where
    test :
        int_le max_process_records m.record_count ≡ leb max_process_records (length m.process_list)
    test =
        int_le_small max_process_records m.record_count (omega arith)
          (omega (arith, v.counted, v.bounded))
        ∙ ap (leb max_process_records) v.counted

    go :
        (rs : List ProcessRecord)
        → m.process_list ≡ rs
        → (m' : Monitor) × (make_room m ≡ some m')
          × (pids m'
              ≡ (if leb max_process_records (length m.process_list) then tail (pids m) else pids m))
    go [] q = (m, rw (test, q) refl, rw q refl)
    go (r ∷ rs) q = elim (Bool-cases (leb max_process_records (length m.process_list))) [
      | inl e ↦ (
        record m { process_list = rs; record_count = dec32 m.record_count },
        rw (test ∙ e) (rw q refl),
        rw e (rw q refl),
      )
      | inr e ↦ (m, rw (test ∙ e) refl, rw e refl)
    ]

length-pids : (rs : List ProcessRecord) → length (map (λ r. r.pid) rs) ≡ length rs
length-pids [] = refl
length-pids (r ∷ rs) = ap suc (length-pids rs)

map-append :
    (rs : List ProcessRecord) (r : ProcessRecord)
    → map (λ q. q.pid) (rs ++ r ∷ []) ≡ map (λ q. q.pid) rs ++ r.pid ∷ []
map-append [] r = refl
map-append (q ∷ rs) r = ap (λ t. q.pid ∷ t) (map-append rs r)

take_short :
    (n : ℕ) (seen : List ℕ) → length (take (suc n) seen) ≤ n → take (suc n) seen ≡ take n seen
take_short zero [] h = refl
take_short (suc n) [] h = refl
take_short zero (x ∷ seen) h = absurd (omega (arith, h))
take_short (suc n) (x ∷ seen) h = ap (λ t. x ∷ t) (take_short n seen (omega (arith, h)))

leb_le : (a b : ℕ) → leb a b ≡ true → a ≤ b
leb_le a b e = ground arith

leb_gt : (a b : ℕ) → leb a b ≡ false → b < a
leb_gt a b e = ground arith

-- The window moves on by one.
window-push :
    (x : ℕ) (seen : List ℕ)
    → (if leb max_process_records (length (window seen)) then tail (window seen) else window seen)
        ++ x ∷ []
      ≡ window (x ∷ seen)
window-push x seen = elim (Bool-cases (leb max_process_records (length (window seen)))) [
  | inl e ↦ rw e (
      ap (λ t. t ++ x ∷ []) (tail-reverse-take 999 seen (full e))
      ∙ sym (reverse-cons x (take 999 seen)))
  | inr e ↦ rw e (
      sym (reverse-cons x (take 1000 seen))
      ∙ ap (λ t. reverse (x ∷ t)) (take_short 999 seen (room e)))
]
  where
    full : leb max_process_records (length (window seen)) ≡ true → length (take 1000 seen) ≡ 1000
    full e = omega (
      arith,
      leb_le max_process_records (length (window seen)) e,
      length-reverse (take 1000 seen),
      length-take 1000 seen,
    )

    room : leb max_process_records (length (window seen)) ≡ false → length (take 1000 seen) ≤ 999
    room e = omega (
      arith,
      leb_gt max_process_records (length (window seen)) e,
      length-reverse (take 1000 seen),
    )

add_locked-window :
    {n : ℕ} {m : Monitor} (r : ProcessRecord) (seen : List ℕ)
    → IsSound n m
    → pids m ≡ window seen
    → (m' : Monitor) × (add_locked r m ≡ some m') × (pids m' ≡ window (r.pid ∷ seen))
unfolding add_locked
add_locked-window {m = m} r seen v w =
    let (m', q, p) = make_room-pids v in
    let h : length m.process_list ≡ length (window seen) =
      sym (length-pids m.process_list) ∙ ap length w in
    (
      pushed r m',
      rw q refl,
      map-append m'.process_list r
          ∙ ap (λ t. t ++ r.pid ∷ [])
              (p ∙ (λ i. if leb max_process_records (h i) then tail (w i) else w i))
          ∙ window-push r.pid seen,
    )

step-window :
    {n : ℕ} {m m' : Monitor} (k : Kernel) (e : Event) (seen : List ℕ)
    → IsSound n m
    → pids m ≡ window seen
    → run_event k e m ≡ some m'
    → pids m' ≡ window (entered e seen)
unfolding pre_handler_fork pre_handler_exit process_monitor_write
step-window k (fork now false task) seen v w q = sym (ap pids_of q) ∙ w
step-window {m = m} k (fork now true task) seen v w q =
    let (m'', e, u) =
      add_locked-window (new_record k now task.pid task.parent_pid task.comm) seen v w in
    let run : run_event k (fork now true task) m ≡ some m'' = rw e refl in
    sym (ap pids_of (sym run ∙ q)) ∙ u
step-window {m = m} k (exit now task) seen v w q =
    sym (ap pids_of q) ∙ mark_loop-pids now task.pid m.process_list m.stats ∙ w
step-window k (write count none) seen v w q = sym (ap pids_of q) ∙ w
step-window {m = m} k (write count (some bytes)) seen v w q =
    sym (ap pids_of q) ∙ elim (Bool-cases (leb 32 count)) [
      | inl e ↦ rw e w
      | inr e ↦ elim (Bool-cases (strn_eq (c_str (bytes ++ 0 ∷ [])) (codes "clear") 5)) [
        | inl f ↦ rw (e, f) refl
        | inr f ↦ rw (e, f) w
      ]
    ]

run_events-window_from :
    (k : Kernel) (es : List Event) (seen : List ℕ) {n : ℕ} {m : Monitor}
    → IsSound n m
    → n + length es < 2 ^ 64
    → pids m ≡ window seen
    → (m' : Monitor) × (run_events k es m ≡ some m') × (pids m' ≡ window (all_entered es seen))
run_events-window_from k [] seen {n} {m} v small w = (m, refl, w)
run_events-window_from k (e ∷ es) seen v small w =
    let (m', q, u) = run_event-IsSound k e v (omega (arith, small)) in
    let (m'', p, t) =
      run_events-window_from k es (entered e seen) u (omega (arith, small))
        (step-window k e seen v w q) in
    (m'', rw q p, t)

-- After any history of fewer than 2 ^ 64 events from the loaded state, the pids on the list are
-- those of the latest 1000 processes recorded since the last "clear", in the order of their
-- creation: the eviction removes exactly the oldest, and exits neither remove nor move a record.
pub run_events-window :
    (k : Kernel) (es : List Event)
    → length es < 2 ^ 64
    → (m : Monitor) × (run_events k es initial ≡ some m) × (pids m ≡ window (all_entered es []))
run_events-window k es small =
    run_events-window_from k es [] initial-IsSound (omega (arith, small)) refl
