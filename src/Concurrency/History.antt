-- ===== src/Concurrency/History.antt =====
-- Histories of experiments/04_concurrency_control.c in which no two operations overlap.
use model_lib.Prelude.{
  ℕ, ◌<◌, ◌≡◌, refl, inl, inr, false, List, [], ◌∷◌, Option, none, some, ◌==◌, ◌>>=◌, All,
  Bool-cases,
}
use model_lib.Prelude.Text.{codes, str_eq}
use model_lib.Kernel.{Kernel, line, str}
use model_lib.Command.{Received, command, rejected, word_number}
use model_lib.Command.Receive.{IsCopied, spec_received, receive-received}
use model_lib.Concurrency.State.{Demo, World, initial}
use model_lib.Concurrency.Items.{rwlock_read_data, clear_all_data}
use model_lib.Concurrency.Workers.{
  rem4, take_value, worker_round, start_worker_threads, stop_worker_threads,
}
use model_lib.Concurrency.Interface.{
  add_command, read_command, run_command, received_command, concurrency_write, concurrency_exit,
}
use model_lib.Concurrency.Invariant.{
  IsSound, Keeps, counted-IsSound, initial-IsSound, spinlock_add_data-IsSound,
  mutex_add_data-IsSound, rwlock_write_data-IsSound, rwlock_read_data-IsSound,
  clear_all_data-IsSound, start_worker_threads-IsSound, stop_worker_threads-IsSound,
}

-- A write to the file, or one turn of the loop of a worker thread on four random bytes.
pub data Event : Type 0 where
  write : World → (count : ℕ) → Option (List ℕ) → Event
  round : World → (bits : ℕ) → Event

abbrev pub run_event : Kernel → Event → Demo → Option Demo
run_event k (write w count copied) m =
    concurrency_write k w count copied m >>= λ (m', out, reply). some m'
run_event k (round w bits) m = worker_round w bits m >>= λ (m', out). some m'

abbrev pub run_events : Kernel → List Event → Demo → Option Demo
run_events k [] m = some m
run_events k (e ∷ es) m = run_event k e m >>= λ m'. run_events k es m'

-- Empty writes are left out, for they access `cmd[-1]`.
abbrev pub IsAllowed : Event → Type 0
IsAllowed (write w count copied) = IsCopied count copied × (0 < count)
IsAllowed (round w bits) = Unit

take_value-IsSound : {m : Demo} → IsSound m → IsSound (take_value m)
take_value-IsSound {m} v = counted-IsSound (take_value m) v v.counted v.bounded refl refl refl

worker_round-IsSound : {m : Demo} (w : World) (bits : ℕ) → IsSound m → Keeps (worker_round w bits m)
unfolding worker_round
worker_round-IsSound {m} w bits v = elim (Bool-cases (rem4 bits == 0)) [
  | inl a ↦ rw a (spinlock_add_data-IsSound w.alloc m.next_value u)
  | inr a ↦ elim (Bool-cases (rem4 bits == 1)) [
    | inl b ↦ rw (a, b) (mutex_add_data-IsSound w.alloc w.interrupted m.next_value u)
    | inr b ↦ elim (Bool-cases (rem4 bits == 2)) [
      | inl c ↦ rw (a, b, c) ((rwlock_read_data m).0, [], refl, rwlock_read_data-IsSound v)
      | inr c ↦ elim (Bool-cases (rem4 bits == 3)) [
        | inl d ↦ rw (a, b, c, d) (rwlock_write_data-IsSound w.alloc m.next_value u)
        | inr d ↦ rw (a, b, c, d) (m, [], refl, v)
      ]
    ]
  ]
]
  where
    u : IsSound (take_value m)
    u = take_value-IsSound v

add_command-IsSound :
    {m : Demo} (w : World) (cmd : List ℕ) (found : Option (List ℕ × ℕ))
    → IsSound m
    → Keeps (add_command w cmd found m)
unfolding add_command
add_command-IsSound {m} w cmd none v =
    (m, line "concurrency: Unknown command: %s\n" (str cmd ∷ []) ∷ [], refl, v)
add_command-IsSound {m} w cmd (some (op, value)) v = elim (Bool-cases (str_eq op (codes "spin"))) [
  | inl a ↦ rw a (spinlock_add_data-IsSound w.alloc value v)
  | inr a ↦ elim (Bool-cases (str_eq op (codes "mutex"))) [
    | inl b ↦ rw (a, b) (mutex_add_data-IsSound w.alloc w.interrupted value v)
    | inr b ↦ elim (Bool-cases (str_eq op (codes "rwlock"))) [
      | inl c ↦ rw (a, b, c) (rwlock_write_data-IsSound w.alloc value v)
      | inr c ↦
          rw (a, b, c) (m, line "concurrency: Unknown operation: %s\n" (str op ∷ []) ∷ [], refl, v)
    ]
  ]
]

run_command-IsSound :
    {m : Demo} (k : Kernel) (w : World) (cmd : List ℕ) → IsSound m → Keeps (run_command k w cmd m)
unfolding run_command
run_command-IsSound {m} k w cmd v = elim (Bool-cases (str_eq cmd (codes "start"))) [
  | inl a ↦
      let r = start_worker_threads w.kthread_run m in
      rw a (r.0, r.1, refl, start_worker_threads-IsSound w.kthread_run v)
  | inr a ↦ elim (Bool-cases (str_eq cmd (codes "stop"))) [
    | inl b ↦
        let r = stop_worker_threads m in
        rw (a, b) (r.0, r.1, refl, (stop_worker_threads-IsSound v).0)
    | inr b ↦ elim (Bool-cases (str_eq cmd (codes "clear"))) [
      | inl c ↦ let r = clear_all_data m in rw (a, b, c) (r.0, r.1, refl, clear_all_data-IsSound v)
      | inr c ↦ elim (Bool-cases (str_eq cmd (codes "read"))) [
        | inl d ↦
            let r = read_command m in rw (a, b, c, d) (r.0, r.1, refl, rwlock_read_data-IsSound v)
        | inr d ↦
            rw (a, b, c, d) (add_command-IsSound w cmd (word_number (k.sscanf "%15s %d" cmd)) v)
      ]
    ]
  ]
]

-- After one event.
abbrev Continues : Option Demo → Type 0
Continues r = (m' : Demo) × (r ≡ some m') × IsSound m'

received-IsSound :
    {m : Demo} (k : Kernel) (w : World) (count : ℕ) (r : Received)
    → IsSound m
    → Continues (received_command k w count m r >>= λ (m', out, reply). some m')
unfolding received_command
received-IsSound {m} k w count (rejected e) v = (m, refl, v)
received-IsSound k w count (command cmd) v =
    let (m', out, e, u) = run_command-IsSound k w cmd v in (m', rw e refl, u)

run_event-IsSound :
    {m : Demo} (k : Kernel) (e : Event) → IsAllowed e → IsSound m → Continues (run_event k e m)
unfolding concurrency_write
run_event-IsSound k (write w count copied) h v =
    rw (receive-received 64 count copied h.0 h.1)
      (received-IsSound k w count (spec_received 64 count copied) v)
run_event-IsSound k (round w bits) h v =
    let (m', out, e, u) = worker_round-IsSound w bits v in (m', rw e refl, u)

run_events-IsSound :
    (k : Kernel) (es : List Event) {m : Demo}
    → All IsAllowed es
    → IsSound m
    → Continues (run_events k es m)
run_events-IsSound k [] {m} h v = (m, refl, v)
run_events-IsSound k (e ∷ es) h v =
    let (m', p, u) = run_event-IsSound k e h.0 v in
    let (m'', q, w) = run_events-IsSound k es h.1 u in (m'', rw p q, w)

-- After any history, from loading on, of writes that are not empty and of turns of worker threads,
-- one after the other, no bad access was made, `data_count` is the length of the list and at most
-- 100, and the array names exactly the threads that are alive; and unloading then leaves no item
-- and no thread.
pub concurrency_exit-run_events :
    (k : Kernel) (es : List Event)
    → All IsAllowed es
    → (m : Demo) × (run_events k es initial ≡ some m)
      × IsSound m
      × let (m', registered, out) = concurrency_exit m in
        (m'.data_list ≡ []) × (m'.data_count ≡ 0) × (m'.alive ≡ []) × (registered ≡ false)
unfolding concurrency_exit
concurrency_exit-run_events k es h =
    let (m, e, v) = run_events-IsSound k es h initial-IsSound in
    (m, e, v, (refl, refl, (stop_worker_threads-IsSound v).1, refl))
