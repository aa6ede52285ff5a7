-- ===== src/Concurrency/Threads/Races.antt =====
-- Additions of experiments/04_concurrency_control.c under different locks.
use model_lib.Prelude.{ℕ, ◌<◌, ◌≡◌, ap, ◌∙◌, true, false, List, [], ◌∷◌, ◌++◌, arith, ◌==◌}
use model_lib.Prelude.Words.{inc32, inc64, int_le}
use model_lib.Concurrency.State.{max_data_items}
use model_lib.Concurrency.Threads.Moves.{
  Lock, spin, mutex, rwlock, Memory, is_free, set_held, ops, set_ops, Pc, idle, store_inc, room,
  add_tail, inc_loads, inc_stores, ops_loads, ops_stores, release,
}
use model_lib.Concurrency.Threads.System.{System, moved, Reach, Anything}
use model_lib.Concurrency.Threads.Held.{same_lock}
use model_lib.Concurrency.Threads.Solo.{finished}
use model_lib.Concurrency.Threads.Turns.{
  IsQuiet, at_pc, Unlocked, quiet-Unlocked, Unlocked-free, At, go, quiet_turn, swap, set_held-keeps,
  run_enter, run_room, moved-quiet,
}

-- Of two locks one is free while the other is held.
other_free :
    (l l' : Lock) (m : Memory) (items : List ℕ)
    → same_lock l l' ≡ 0
    → Unlocked m
    → is_free l' (record (set_held l true m) { data_list = items }) ≡ true
other_free spin mutex m items e u = ground arith
other_free spin rwlock m items e u = ground arith
other_free mutex spin m items e u = ground arith
other_free mutex rwlock m items e u = ground arith
other_free rwlock spin m items e u = ground arith
other_free rwlock mutex m items e u = ground arith
other_free spin spin m items e u = absurd (omega (arith, e))
other_free mutex mutex m items e u = absurd (omega (arith, e))
other_free rwlock rwlock m items e u = absurd (omega (arith, e))

-- Thread `i` of a quiet system enters, adds to the list, and has read the count.
abbrev pub mid : Lock → ℕ → Memory → Memory
mid l value m = record (set_held l true m) {
  data_list = (set_held l true m).data_list ++ value ∷ [];
}

-- The memory once thread `i` has counted from `c` and left.
abbrev pub counted : Lock → ℕ → Memory → Memory
counted l c m =
    set_held l false
      (record m { data_count = inc32 c; stats = set_ops l (inc64 (ops l m.stats)) m.stats })

module _ {n i : ℕ} {pc : ℕ → Pc} (lt : i < n) (l : Lock) where
  pub run_half :
      {m : Memory} (value : ℕ)
      → is_free l m ≡ true
      → int_le max_data_items m.data_count ≡ false
      → At n i pc m idle
      → At n i pc (mid l value m) (store_inc l (set_held l true m).data_count)
  run_half {m} value free e r = go lt inc_loads (
      go lt add_tail (
        go lt (room (ap (int_le max_data_items) (set_held-keeps l true m).1 ∙ e))
          (run_enter lt l value free r)))

  pub run_rest : {m : Memory} (c : ℕ) → At n i pc m (store_inc l c) → At n i pc (counted l c m) idle
  run_rest c r = go lt release (go lt ops_stores (go lt ops_loads (go lt inc_stores r)))

-- Two additions under different locks can lose an update: from every state in which nobody is in a
-- function and there is room, two threads reach one in which both items are on the list and the
-- count has grown by one only.
pub lost_update :
    {n : ℕ} {s : System} (i j : ℕ) (l l' : Lock) (value value' : ℕ)
    → i < n
    → j < n
    → (j == i) ≡ false
    → same_lock l l' ≡ 0
    → Reach n Anything s
    → IsQuiet s
    → int_le max_data_items s.mem.data_count ≡ false
    → (t : System) × Reach n Anything t
      × IsQuiet t
      × (t.mem.data_list ≡ (s.mem.data_list ++ value ∷ []) ++ value' ∷ [])
      × (t.mem.data_count ≡ inc32 s.mem.data_count)
lost_update {n} {s} i j l l' value value' hi hj ne diff r q e = (
  at_pc (counted l c m4) (moved (moved s.pc j idle) i idle),
  (run_rest hi l c (swap s.pc ne second)).reached,
  moved-quiet (moved s.pc j idle) i (moved-quiet s.pc j q),
  (set_held-keeps l false x).0
      ∙ (set_held-keeps l' false y).0
      ∙ ap (λ t. t ++ value' ∷ [])
          ((set_held-keeps l' true m2).0
            ∙ ap (λ t. t ++ value ∷ []) (set_held-keeps l true s.mem).0),
  (set_held-keeps l false x).1 ∙ ap inc32 (set_held-keeps l true s.mem).1,
)
  where
    free : Unlocked s.mem
    free = quiet-Unlocked r q

    c : ℕ
    c = (set_held l true s.mem).data_count

    m2 : Memory
    m2 = mid l value s.mem

    m3 : Memory
    m3 = set_held l' true m2

    m4 : Memory
    m4 = finished l' value' m3

    x : Memory
    x = record m4 { data_count = inc32 c; stats = set_ops l (inc64 (ops l m4.stats)) m4.stats }

    y : Memory
    y = record m3 {
      data_list = m3.data_list ++ value' ∷ [];
      data_count = inc32 m3.data_count;
      stats = set_ops l' (inc64 (ops l' m3.stats)) m3.stats;
    }

    first : At n i s.pc m2 (store_inc l c)
    first = run_half hi l value (Unlocked-free l s.mem free) e (quiet_turn i r (q i))

    outside : moved s.pc i (store_inc l c) j ≡ idle
    outside = rw ne (q j)

    second : At n j (moved s.pc i (store_inc l c)) m4 idle
    second =
        run_room hj l' value'
          (ap (int_le max_data_items)
              ((set_held-keeps l' true m2).1 ∙ (set_held-keeps l true s.mem).1)
            ∙ e)
          (run_enter hj l' value' (other_free l l' s.mem (m2.data_list) diff free)
            (quiet_turn j first.reached outside))
