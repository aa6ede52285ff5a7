-- ===== src/Concurrency/Invariant.antt =====
-- What holds of experiments/04_concurrency_control.c between operations that do not overlap.
use model_lib.Prelude.{
  ℕ, suc, ◌≤◌, ◌<◌, ◌≡◌, refl, sym, ap, ◌∙◌, inl, inr, Bool, true, false, List, [], ◌∷◌, ◌++◌,
  Option, none, some, arith, ◌==◌, leb, length, elem, unlink, Bool-cases, length-append, elem-keep,
  not, ◌>>=◌, ==_iff,
}
use model_lib.Prelude.Words.{inc32, dec32, int_le, int_le_small}
use model_lib.Kernel.{Line}
use model_lib.Concurrency.State.{SharedData, LockStats, Demo, initial, max_data_items}
use model_lib.Concurrency.Items.{
  make_room, new_data, insert_item, spinlock_add_data, mutex_add_data, no_memory, added,
  count_spinlock, count_mutex, count_write, rwlock_write_data, read_loop, rwlock_read_data,
  clear_all_data,
}
use model_lib.Concurrency.Workers.{
  thread_ids, start_threads, start_worker_threads, stop_loop, stop_worker_threads,
}

pub record IsSound (m : Demo) : Type 0 where
  pub counted : m.data_count ≡ length m.data_list
  pub bounded : length m.data_list ≤ max_data_items
  -- The array names the threads that are alive, and there are none unless they are running.
  pub owned : m.alive ≡ thread_ids m.worker_threads
  pub stopped : m.worker_running ≡ 0 → m.alive ≡ []

pub initial-IsSound : IsSound initial
initial-IsSound = record {
  counted = refl;
  bounded = omega arith;
  owned = refl;
  stopped = λ e. refl;
}

-- The same threads, and a list that is counted.
pub counted-IsSound :
    {m : Demo} (m' : Demo)
    → IsSound m
    → m'.data_count ≡ length m'.data_list
    → length m'.data_list ≤ max_data_items
    → m'.worker_threads ≡ m.worker_threads
    → m'.worker_running ≡ m.worker_running
    → m'.alive ≡ m.alive
    → IsSound m'
counted-IsSound m' v c b t r a = record {
  counted = c;
  bounded = b;
  owned = a ∙ v.owned ∙ ap thread_ids (sym t);
  stopped = λ e. a ∙ v.stopped (sym r ∙ e);
}

-- What an operation on the list leaves: no bad access, and a sound state.
abbrev pub Keeps : Option (Demo × List Line) → Type 0
Keeps r = (m' : Demo) × (out : List Line) × (r ≡ some (m', out)) × IsSound m'

make_room-IsSound :
    {m : Demo}
    → IsSound m
    → (m' : Demo) × (make_room m ≡ some m') × IsSound m' × (length m'.data_list < max_data_items)
unfolding make_room
make_room-IsSound {m} v = go m.data_list refl
  where
    test : int_le max_data_items m.data_count ≡ leb max_data_items m.data_count
    test =
        int_le_small max_data_items m.data_count (omega arith) (omega (arith, v.counted, v.bounded))

    go :
        (items : List SharedData)
        → m.data_list ≡ items
        → (m' : Demo) × (make_room m ≡ some m')
          × IsSound m'
          × (length m'.data_list < max_data_items)
    go [] q = (m, rw (test, v.counted) (rw q refl), v, omega (arith, ap length q))
    go (d ∷ items) q = elim (Bool-cases (leb max_data_items m.data_count)) [
      | inl e ↦
          let m' : Demo = record m { data_list = items; data_count = dec32 m.data_count } in
          (
            m',
            rw (test ∙ e) (rw q refl),
            counted-IsSound m' v (omega (arith, v.counted, ap length q, v.bounded))
                (omega (arith, ap length q, v.bounded)) refl refl refl,
            omega (arith, ap length q, v.bounded),
          )
      | inr e ↦ (m, rw (test ∙ e) refl, v, ground arith)
    ]

insert_item-IsSound :
    {m : Demo} (value : ℕ) → IsSound m → (m' : Demo) × (insert_item value m ≡ some m') × IsSound m'
unfolding insert_item
insert_item-IsSound value v =
    let (m', e, w, room) = make_room-IsSound v in
    let m'' : Demo = record m' {
      data_list = m'.data_list ++ new_data value ∷ [];
      data_count = inc32 m'.data_count;
    } in
    (
      m'',
      rw e refl,
      counted-IsSound m'' w
          (omega (arith, w.counted, room, length-append m'.data_list (new_data value ∷ [])))
          (omega (arith, room, length-append m'.data_list (new_data value ∷ []))) refl refl refl,
    )

-- With the statistics changed too, and a message.
inserted-IsSound :
    {m : Demo} (value : ℕ) (f : LockStats → LockStats) (out : List Line)
    → IsSound m
    → Keeps (insert_item value m >>= λ m'. some (record m' { stats = f m'.stats }, out))
inserted-IsSound value f out v =
    let (m', e, w) = insert_item-IsSound value v in
    let m'' : Demo = record m' { stats = f m'.stats } in
    (m'', out, rw e refl, counted-IsSound m'' w w.counted w.bounded refl refl refl)

pub spinlock_add_data-IsSound :
    {m : Demo} (alloc : Bool) (value : ℕ) → IsSound m → Keeps (spinlock_add_data alloc value m)
unfolding spinlock_add_data
spinlock_add_data-IsSound {m} false value v = (m, no_memory, refl, v)
spinlock_add_data-IsSound true value v =
    inserted-IsSound value count_spinlock
      (added "concurrency: Added data %d using spinlock\n" value) v

pub mutex_add_data-IsSound :
    {m : Demo} (alloc interrupted : Bool) (value : ℕ)
    → IsSound m
    → Keeps (mutex_add_data alloc interrupted value m)
unfolding mutex_add_data
mutex_add_data-IsSound {m} false interrupted value v = (m, no_memory, refl, v)
mutex_add_data-IsSound {m} true true value v = (m, [], refl, v)
mutex_add_data-IsSound true false value v =
    inserted-IsSound value count_mutex (added "concurrency: Added data %d using mutex\n" value) v

pub rwlock_write_data-IsSound :
    {m : Demo} (alloc : Bool) (value : ℕ) → IsSound m → Keeps (rwlock_write_data alloc value m)
unfolding rwlock_write_data
rwlock_write_data-IsSound {m} false value v = (m, no_memory, refl, v)
rwlock_write_data-IsSound true value v =
    inserted-IsSound value count_write (added "concurrency: Added data %d using rwlock\n" value) v

length-read_loop :
    (items : List SharedData) (count : ℕ) → length (read_loop items count).0 ≡ length items
unfolding read_loop
length-read_loop [] count = refl
length-read_loop (d ∷ items) count = ap suc (length-read_loop items (inc32 count))

pub rwlock_read_data-IsSound : {m : Demo} → IsSound m → IsSound (rwlock_read_data m).0
unfolding rwlock_read_data
rwlock_read_data-IsSound {m} v =
    counted-IsSound _ v (v.counted ∙ sym (length-read_loop m.data_list 0))
      (omega (arith, length-read_loop m.data_list 0, v.bounded)) refl refl refl

pub clear_all_data-IsSound : {m : Demo} → IsSound m → IsSound (clear_all_data m).0
unfolding clear_all_data
clear_all_data-IsSound v = counted-IsSound _ v refl (omega arith) refl refl refl

-- No thread is left of those that the array names, nor is any named.
stop_loop-empties :
    (ts : List (Option ℕ)) (alive : List ℕ)
    → ((a : ℕ) → elem a alive ≡ true → elem a (thread_ids ts) ≡ true)
    → (thread_ids (stop_loop ts alive).0 ≡ []) × ((stop_loop ts alive).1 ≡ [])
unfolding stop_loop
stop_loop-empties [] [] h = (refl, refl)
stop_loop-empties [] (a ∷ alive) h = absurd (ground (arith, h a))
stop_loop-empties (none ∷ ts) alive h = stop_loop-empties ts alive h
stop_loop-empties (some t ∷ ts) alive h =
    stop_loop-empties ts (unlink t alive)
      (λ a e. ground (arith, h a, elem-keep (λ x. not (x == t)) a alive))

pub start_worker_threads-IsSound :
    {m : Demo} (run : ℕ → Option ℕ) → IsSound m → IsSound (start_worker_threads run m).0
unfolding start_worker_threads start_threads
start_worker_threads-IsSound {m} run v = elim (Bool-cases (m.worker_running == 0)) [
  | inl e ↦ rw e (record {
    counted = v.counted;
    bounded = v.bounded;
    owned = rw (v.stopped ((==_iff m.worker_running 0).0 e)) refl;
    stopped = λ q. cc;
  })
  | inr e ↦ rw e v
]

pub stop_worker_threads-IsSound :
    {m : Demo}
    → IsSound m
    → IsSound (stop_worker_threads m).0 × ((stop_worker_threads m).0.alive ≡ [])
unfolding stop_worker_threads
stop_worker_threads-IsSound {m} v = elim (Bool-cases (m.worker_running == 0)) [
  | inl e ↦ rw e (v, v.stopped ((==_iff m.worker_running 0).0 e))
  | inr e ↦
      let (ts, gone) = stop_loop-empties m.worker_threads m.alive (λ a q. rw v.owned at q) in
      rw e (
        record {
          counted = v.counted;
          bounded = v.bounded;
          owned = gone ∙ sym ts;
          stopped = λ q. gone;
        },
        gone,
      )
]
