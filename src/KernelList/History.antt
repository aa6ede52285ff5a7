-- ===== src/KernelList/History.antt =====
-- Histories of writes to the list of experiments/02_kernel_list.c.
use model_lib.Prelude.{
  ℕ, ◌+◌, ◌^◌, ◌<◌, ◌≡◌, refl, inl, inr, Bool, true, false, List, [], ◌∷◌, drop, Option, none, some,
  arith, ◌>>=◌, length, All, Bool-cases,
}
use model_lib.Prelude.Text.{codes, str_eq, strn_eq, copy_str}
use model_lib.Kernel.{Kernel, Errno, enomem}
use model_lib.Command.{Received, command, rejected, one_number}
use model_lib.Command.Receive.{IsCopied, spec_received, receive-received}
use model_lib.KernelList.State.{ListDemo, initial}
use model_lib.KernelList.Records.{clear_all_records}
use model_lib.KernelList.Interface.{
  delete_command, list_command, list_received, kernel_list_write, kernel_list_init,
}
use model_lib.KernelList.Invariant.{
  IsSound, Keeps, grow, add_record-IsSound, remove_record_by_id-IsSound, clear_all_records-IsSound,
}

delete_command-IsSound :
    {n : ℕ} {m : ListDemo} (id : Option ℕ) → IsSound n m → IsSound n (delete_command id m).0
unfolding delete_command
delete_command-IsSound none v = v
delete_command-IsSound (some id) v = remove_record_by_id-IsSound id v

list_command-IsSound :
    {n : ℕ} {m : ListDemo} (k : Kernel) (now : ℕ) (alloc : Bool) (cmd : List ℕ)
    → IsSound n m
    → n + 1 < 2 ^ 31
    → Keeps (n + 1) (list_command k now alloc cmd m)
unfolding list_command
list_command-IsSound {n} {m} k now alloc cmd v small =
    elim (Bool-cases (strn_eq cmd (codes "add ") 4)) [
      | inl a ↦ rw a (add_record-IsSound now alloc (copy_str 32 (drop 4 cmd)) v small)
      | inr a ↦ elim (Bool-cases (strn_eq cmd (codes "del ") 4)) [
        | inl d ↦ rw (a, d) (deleted (one_number (k.sscanf "%d" (drop 4 cmd))))
        | inr d ↦ elim (Bool-cases (str_eq cmd (codes "clear"))) [
          | inl c ↦ rw (a, d, c) cleared
          | inr c ↦ rw (a, d, c) (m, _, refl, grow (omega arith) v)
        ]
      ]
    ]
  where
    deleted : (id : Option ℕ) → Keeps (n + 1) (some (delete_command id m))
    deleted id = (_, _, refl, grow (omega arith) (delete_command-IsSound id v))

    cleared : Keeps (n + 1) (some (clear_all_records m))
    cleared = (_, _, refl, grow (omega arith) (clear_all_records-IsSound v))

-- A write: the time, whether `kmalloc` would give memory, the length and what is copied.
pub record Event : Type 0 where
  pub now : ℕ
  pub alloc : Bool
  pub count : ℕ
  pub copied : Option (List ℕ)

abbrev pub run_event : Kernel → Event → ListDemo → Option ListDemo
run_event k e m =
    kernel_list_write k e.now e.alloc e.count e.copied m >>= λ (m', out, reply). some m'

abbrev pub run_events : Kernel → List Event → ListDemo → Option ListDemo
run_events k [] m = some m
run_events k (e ∷ es) m = run_event k e m >>= λ m'. run_events k es m'

-- Empty writes are left out, for they access `cmd[-1]`.
abbrev pub IsAllowed : Event → Type 0
IsAllowed e = IsCopied e.count e.copied × (0 < e.count)

received-IsSound :
    {n : ℕ} {m : ListDemo} (k : Kernel) (now : ℕ) (alloc : Bool) (count : ℕ) (r : Received)
    → IsSound n m
    → n + 1 < 2 ^ 31
    → (m' : ListDemo) × ((list_received k now alloc count m r >>= λ (m', out, reply). some m')
        ≡ some m')
      × IsSound (n + 1) m'
unfolding list_received
received-IsSound {m = m} k now alloc count (rejected e) v small = (m, refl, grow (omega arith) v)
received-IsSound k now alloc count (command cmd) v small =
    let (m', out, e, w) = list_command-IsSound k now alloc cmd v small in (m', rw e refl, w)

run_event-IsSound :
    {n : ℕ} {m : ListDemo} (k : Kernel) (e : Event)
    → IsAllowed e
    → IsSound n m
    → n + 1 < 2 ^ 31
    → (m' : ListDemo) × (run_event k e m ≡ some m') × IsSound (n + 1) m'
unfolding kernel_list_write
run_event-IsSound k e h v small =
    rw (receive-received 64 e.count e.copied h.0 h.1)
      (received-IsSound k e.now e.alloc e.count (spec_received 64 e.count e.copied) v small)

run_events-IsSound_from :
    (k : Kernel) (es : List Event) {n : ℕ} {m : ListDemo}
    → All IsAllowed es
    → IsSound n m
    → n + length es < 2 ^ 31
    → (m' : ListDemo) × (run_events k es m ≡ some m') × IsSound (n + length es) m'
run_events-IsSound_from k [] {n} {m} h v small = (m, refl, grow (omega arith) v)
run_events-IsSound_from k (e ∷ es) {n} h v small =
    let (m', q, w) = run_event-IsSound k e h.0 v (omega (arith, small)) in
    let (m'', p, u) = run_events-IsSound_from k es h.1 w (omega (arith, small)) in
    (m'', rw q p, grow (omega arith) u)

start : IsSound 0 initial
start = record { counted = refl; bounded = omega arith; rising = omega arith; few = omega arith }

init-IsSound :
    {m : ListDemo} (now : ℕ) (entry first second : Bool)
    → IsSound 0 m
    → (m' : ListDemo) × (e : Option Errno) × (kernel_list_init now entry first second m
        ≡ some (m', e))
      × IsSound 2 m'
unfolding kernel_list_init
init-IsSound {m} now false first second v = (m, some enomem, refl, grow (omega arith) v)
init-IsSound now true first second v =
    let (m', o, p, w) = add_record-IsSound now first (codes "initial_record") v (omega arith) in
    let (m'', o', q, u) = add_record-IsSound now second (codes "demo_entry") w (omega arith) in
    (m'', none, rw p (rw q refl), grow (omega arith) u)

-- Loading, whether it succeeds or not, and then any history of writes that are not empty, with
-- fewer than 2 ^ 31 - 2 of them: no bad access is made, the count is the length of the list, at
-- most 20, and the identifiers rise from 1 and stay below the next one, so none stands twice.
pub loaded-IsSound :
    (k : Kernel) (now : ℕ) (entry first second : Bool) (es : List Event)
    → All IsAllowed es
    → 2 + length es < 2 ^ 31
    → (m m' : ListDemo) × (e : Option Errno) × (kernel_list_init now entry first second initial
        ≡ some (m, e))
      × (run_events k es m ≡ some m')
      × IsSound (2 + length es) m'
loaded-IsSound k now entry first second es h small =
    let (m, e, p, v) = init-IsSound now entry first second start in
    let (m', q, w) = run_events-IsSound_from k es h v small in (m, m', e, p, q, w)
