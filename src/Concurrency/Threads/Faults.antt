-- ===== src/Concurrency/Threads/Faults.antt =====
-- "clear" and an addition of experiments/04_concurrency_control.c under another lock.
use model_lib.Prelude.{ℕ, zero, suc, ◌≤◌, ◌<◌, ◌≡◌, refl, ap, ◌∙◌, true, false, [], arith, ◌==◌}
use model_lib.Prelude.Words.{inc32, inc64, int_le}
use model_lib.Concurrency.State.{zero_stats, max_data_items}
use model_lib.Concurrency.Threads.Moves.{
  Lock, spin, mutex, rwlock, Memory, is_free, set_held, ops, set_ops, Pc, idle, store_inc, fault,
  full, take_none, start_clear,
}
use model_lib.Concurrency.Threads.System.{System, moved, moved_self, Reach, start, loaded, Anything}
use model_lib.Concurrency.Threads.Held.{same_lock}
use model_lib.Concurrency.Threads.Turns.{
  IsQuiet, at_pc, Unlocked, quiet-Unlocked, Unlocked-free, At, go, quiet_turn, swap, set_held-keeps,
  follow, run_enter, run_room, moved-quiet,
}
use model_lib.Concurrency.Threads.Solo.{finished, cleared, Solo-cleared}
use model_lib.Concurrency.Threads.Races.{mid, counted, run_half, run_rest}

run_clear :
    {n i : ℕ} {pc : ℕ → Pc} {m : Memory}
    → i < n
    → m.spin_held ≡ false
    → At n i pc m idle
    → At n i pc (cleared m) idle
run_clear lt e r = follow lt (Solo-cleared e) (go lt start_clear r)

others_kept :
    (l : Lock) (m : Memory)
    → same_lock spin l ≡ 0
    → ((set_held l true m).spin_held ≡ m.spin_held) × ((set_held l true m).readers ≡ m.readers)
others_kept spin m e = absurd (omega (arith, e))
others_kept mutex m e = (refl, refl)
others_kept rwlock m e = (refl, refl)

given_back : (l : Lock) (m : Memory) → m.readers ≡ 0 → is_free l (set_held l false m) ≡ true
given_back spin m e = refl
given_back mutex m e = refl
given_back rwlock m e = ground arith

-- "clear" takes the spinlock only, so it does not keep out an addition under another lock: from
-- every state in which nobody is in a function and there are 99 items counted, two threads reach
-- one in which an addition takes the first entry of an empty list.
pub clear_race_faults :
    {n : ℕ} {s : System} (i j : ℕ) (l : Lock) (value : ℕ)
    → i < n
    → j < n
    → (j == i) ≡ false
    → same_lock spin l ≡ 0
    → Reach n Anything s
    → IsQuiet s
    → s.mem.data_count ≡ 99
    → (t : System) × Reach n Anything t × (t.pc i ≡ fault l)
clear_race_faults {n} {s} i j l value hi hj ne other r q ninety_nine = (
  at_pc m7 (moved (moved s.pc j idle) i (fault l)),
  (go hi (take_none empty) (go hi (full reached) (run_enter hi l value free_again third))).reached,
  moved_self (moved s.pc j idle) i (fault l),
)
  where
    free : Unlocked s.mem
    free = quiet-Unlocked r q

    c : ℕ
    c = (set_held l true s.mem).data_count

    m2 : Memory
    m2 = mid l value s.mem

    x : Memory
    x = record (cleared m2) {
      data_count = inc32 c;
      stats = set_ops l (inc64 (ops l zero_stats)) zero_stats;
    }

    m7 : Memory
    m7 = set_held l true (counted l c (cleared m2))

    first : At n i s.pc m2 (store_inc l c)
    first =
        run_half hi l value (Unlocked-free l s.mem free) (ap (int_le max_data_items) ninety_nine)
          (quiet_turn i r (q i))

    outside : moved s.pc i (store_inc l c) j ≡ idle
    outside = rw ne (q j)

    second : At n j (moved s.pc i (store_inc l c)) (cleared m2) idle
    second =
        run_clear hj ((others_kept l s.mem other).0 ∙ free.no_spin)
          (quiet_turn j first.reached outside)

    third : At n i (moved s.pc j idle) (counted l c (cleared m2)) idle
    third = run_rest hi l c (swap s.pc ne second)

    free_again : is_free l (counted l c (cleared m2)) ≡ true
    free_again = given_back l x ((others_kept l s.mem other).1 ∙ free.no_reader)

    empty : m7.data_list ≡ []
    empty = (set_held-keeps l true (counted l c (cleared m2))).0 ∙ (set_held-keeps l false x).0

    reached : int_le max_data_items m7.data_count ≡ true
    reached = ap (int_le max_data_items) (
        (set_held-keeps l true (counted l c (cleared m2))).1
        ∙ (set_held-keeps l false x).1
        ∙ ap inc32 ((set_held-keeps l true s.mem).1 ∙ ninety_nine))

-- From the loaded module a thread can add any number of items up to the limit.
pub filled :
    (k : ℕ)
    → k ≤ max_data_items
    → (s : System) × Reach 2 Anything s × IsQuiet s × (s.mem.data_count ≡ k)
filled zero h = (loaded, start, λ i. refl, refl)
filled (suc k) h =
    let (s, r, q, e) = filled k (omega (arith, h)) in
    let m : Memory = set_held spin true s.mem in
    (
      at_pc (finished spin 7 m) (moved s.pc 0 idle),
      (run_room (omega arith) spin 7 (ground (arith, e)) (
          run_enter (omega arith) spin 7 (Unlocked-free spin s.mem (quiet-Unlocked r q))
            (quiet_turn 0 r (q 0)))).reached,
      moved-quiet s.pc 0 q,
      omega (arith, e, h),
    )
