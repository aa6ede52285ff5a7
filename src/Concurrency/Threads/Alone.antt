-- ===== src/Concurrency/Threads/Alone.antt =====
-- A thread of experiments/04_concurrency_control.c that runs alone does what the function does as
-- one step.
use model_lib.Prelude.{
  ℕ, ◌≡◌, refl, sym, ap, ◌∙◌, inl, inr, true, false, List, [], ◌∷◌, ◌++◌, map, Option, some, arith,
  ◌>>=◌, length, Bool-cases,
}
use model_lib.Prelude.Words.{inc32, dec32, inc64, int_le}
use model_lib.Kernel.{Line}
use model_lib.Concurrency.State.{SharedData, Demo, max_data_items}
use model_lib.Concurrency.Items.{
  new_data, insert_item, added, spinlock_add_data, mutex_add_data, rwlock_write_data,
}
use model_lib.Concurrency.Invariant.{IsSound}
use model_lib.Concurrency.Threads.Moves.{
  Lock, spin, mutex, rwlock, Memory, set_held, ops, set_ops, idle, want, test,
}
use model_lib.Concurrency.Threads.Solo.{Solo, here, finished, Solo-lock, Solo-room, Solo-full}
use model_lib.Concurrency.Threads.Turns.{Unlocked, Unlocked-free, set_held-keeps}

-- The memory and the state of the functions as one step show the same.
pub record Shows (d : Demo) (m : Memory) : Type 0 where
  pub values : m.data_list ≡ map (λ x. x.value) d.data_list
  pub count : m.data_count ≡ d.data_count
  pub statistics : m.stats ≡ d.stats

-- The function that adds under a lock, if `kmalloc` gives memory and no signal comes.
abbrev pub add_under : Lock → ℕ → Demo → Option (Demo × List Line)
add_under spin value d = spinlock_add_data true value d
add_under mutex value d = mutex_add_data true false value d
add_under rwlock value d = rwlock_write_data true value d

abbrev message : Lock → ℕ → List Line
message spin value = added "concurrency: Added data %d using spinlock\n" value
message mutex value = added "concurrency: Added data %d using mutex\n" value
message rwlock value = added "concurrency: Added data %d using rwlock\n" value

-- The three functions are one, but for the counter and the message.
add_under-insert_item :
    (l : Lock) (value : ℕ) (d : Demo)
    → add_under l value d ≡ (
        insert_item value d >>= λ d'.
        some (record d' { stats = set_ops l (inc64 (ops l d'.stats)) d'.stats }, message l value))
unfolding spinlock_add_data mutex_add_data rwlock_write_data
add_under-insert_item spin value d = refl
add_under-insert_item mutex value d = refl
add_under-insert_item rwlock value d = refl

map-append :
    (xs : List SharedData) (value : ℕ)
    → map (λ x. x.value) (xs ++ new_data value ∷ []) ≡ map (λ x. x.value) xs ++ value ∷ []
map-append [] value = refl
map-append (x ∷ xs) value = ap (λ t. x.value ∷ t) (map-append xs value)

-- The state after the part of an addition that follows the test.
abbrev finished_item : Lock → ℕ → Demo → Demo
finished_item l value d = record d {
  data_list = d.data_list ++ new_data value ∷ [];
  data_count = inc32 d.data_count;
  stats = set_ops l (inc64 (ops l d.stats)) d.stats;
}

Shows-finished :
    (l : Lock) (value : ℕ) (d : Demo) (m : Memory)
    → Shows d m
    → Shows (finished_item l value d) (finished l value m)
Shows-finished l value d m h = record {
  values = same.0 ∙ ap (λ t. t ++ value ∷ []) h.values ∙ sym (map-append d.data_list value);
  count = same.1 ∙ ap inc32 h.count;
  statistics = same.2 ∙ ap (λ t. set_ops l (inc64 (ops l t)) t) h.statistics;
}
  where
    m' : Memory
    m' = record m {
      data_list = m.data_list ++ value ∷ [];
      data_count = inc32 m.data_count;
      stats = set_ops l (inc64 (ops l m.stats)) m.stats;
    }

    same :
        ((set_held l false m').data_list ≡ m'.data_list)
        × ((set_held l false m').data_count ≡ m'.data_count)
        × ((set_held l false m').stats ≡ m'.stats)
    same = set_held-keeps l false m'

Shows-set_held : (l : Lock) (d : Demo) (m : Memory) → Shows d m → Shows d (set_held l true m)
Shows-set_held l d m h =
    let (a, b, c) = set_held-keeps l true m in
    record { values = a ∙ h.values; count = b ∙ h.count; statistics = c ∙ h.statistics }

-- A thread that runs one of the three additions alone, from a sound state, comes to its end, and
-- the memory is then that of the function as one step.
pub add_alone :
    {m : Memory} {d : Demo} (l : Lock) (value : ℕ)
    → Unlocked m
    → IsSound d
    → Shows d m
    → (d' : Demo) × (out : List Line) × (m' : Memory) × (add_under l value d ≡ some (d', out))
      × Solo m (want l value) m' idle
      × Shows d' m'
unfolding insert_item
add_alone {m = m0} {d} l value free v h = elim (Bool-cases (int_le max_data_items d.data_count)) [
  | inl e ↦ go d.data_list refl e
  | inr e ↦ (
    finished_item l value d,
    message l value,
    finished l value m,
    add_under-insert_item l value d ∙ rw e refl,
    Solo-room l value (ap (int_le max_data_items) shown.count ∙ e) entered,
    Shows-finished l value d m shown,
  )
]
  where
    m : Memory
    m = set_held l true m0

    shown : Shows d m
    shown = Shows-set_held l d m0 h

    entered : Solo m0 (want l value) m (test l value)
    entered = Solo-lock l value (Unlocked-free l m0 free) here

    go :
        (items : List SharedData)
        → d.data_list ≡ items
        → int_le max_data_items d.data_count ≡ true
        → (d' : Demo) × (out : List Line) × (m' : Memory) × (add_under l value d ≡ some (d', out))
          × Solo m0 (want l value) m' idle
          × Shows d' m'
    go [] p e = absurd (ground (arith, v.counted, ap length p))
    go (x ∷ rest) p e =
        let d1 : Demo = record d { data_list = rest; data_count = dec32 d.data_count } in
        let m1 : Memory = record m {
          data_list = map (λ y. y.value) rest;
          data_count = dec32 m.data_count;
        } in
        (
          finished_item l value d1,
          message l value,
          finished l value m1,
          add_under-insert_item l value d ∙ rw e (rw p refl),
          Solo-full l value x.value (map (λ y. y.value) rest)
              (ap (int_le max_data_items) shown.count ∙ e)
              (shown.values ∙ ap (map (λ y. y.value)) p) entered,
          Shows-finished l value d1 m1 (record {
            values = refl;
            count = ap dec32 shown.count;
            statistics = shown.statistics;
          }),
        )
