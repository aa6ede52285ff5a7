-- ===== src/Concurrency/Threads/Finish.antt =====
-- Every schedule of what the threads of experiments/04_concurrency_control.c have begun ends.
use model_lib.Prelude.{
  ℕ, zero, suc, ◌+◌, ◌*◌, ◌≤◌, ◌<◌, ◌≡◌, ◌⊎◌, refl, ap, inl, inr, false, arith, ◌==◌, length,
  Bool-cases,
}
use model_lib.Concurrency.Threads.Moves.{Lock, Memory, held, Pc, idle, fault, Move}
use model_lib.Concurrency.Threads.System.{System, moved, by_thread, Reach, later}
use model_lib.Concurrency.Threads.Tally.{tally, tally-moved, tally-le, tally-some}
use model_lib.Concurrency.Threads.Held.{holds, bit}
use model_lib.Concurrency.Threads.Locks.{Reach-Locked}
use model_lib.Concurrency.Threads.Local.{Uses}
use model_lib.Concurrency.Threads.Discipline.{Reach-Uses, one_lock}
use model_lib.Concurrency.Threads.Progress.{remaining, Move-remaining, Move-Uses, thread-GoesOn}

abbrev pub stepped : System → ℕ → Memory → Pc → System
stepped s i m p = record { mem = m; pc = moved s.pc i p }

-- A run of `k` moves of threads that are in a function: no thread begins a new one.
pub data Run (n : ℕ) : System → ℕ → System → Type 0 where
  done : {s : System} → Run n s zero s
  next :
      {s t : System} {k : ℕ} (i : ℕ) {m : Memory} {p : Pc}
      → i < n
      → 0 < remaining (s.pc i)
      → Move s.mem (s.pc i) m p
      → Run n (stepped s i m p) k t
      → Run n s (suc k) t

-- The length of such a run is bounded, whatever the schedule.
run_bound :
    {n k : ℕ} {s t : System} → Run n s k t → k + tally remaining n t.pc ≤ tally remaining n s.pc
run_bound done = omega arith
run_bound {n} (next {s = s} i {p = p} lt busy mv run) =
    omega (arith, run_bound run, tally-moved remaining n s.pc i p lt, Move-remaining mv busy)

Reach-stepped :
    {n : ℕ} (l : Lock) {s : System} (i : ℕ) {m : Memory} {p : Pc}
    → Reach n (Uses l) s
    → i < n
    → 0 < remaining (s.pc i)
    → Move s.mem (s.pc i) m p
    → Reach n (Uses l) (stepped s i m p)
Reach-stepped l {s} i {m} {p} r lt busy mv = later r (by_thread i lt mv) λ j.
    elim (Bool-cases (j == i)) [
      | inl q ↦ rw q (Move-Uses l mv busy (Reach-Uses l r i))
      | inr q ↦ rw q (Reach-Uses l r j)
    ]

finish :
    {n : ℕ} (l : Lock) (fuel : ℕ) {s : System}
    → Reach n (Uses l) s
    → tally remaining n s.pc ≤ fuel
    → (k : ℕ) × (t : System) × Run n s k t × Reach n (Uses l) t × (tally remaining n t.pc ≡ 0)
finish l zero {s} r h = (0, s, done, r, omega (arith, h))
finish {n} l (suc fuel) {s} r h = elim (Bool-cases (tally remaining n s.pc == 0)) [
  | inl e ↦ (0, s, done, r, ground arith)
  | inr e ↦
      let (i, lt, busy) = tally-some remaining n s.pc (ground arith) in
      elim (thread-GoesOn (Reach-Locked r) i (s.pc i) lt refl busy) [
        | inl (j, lt', busy', (m, p, mv)) ↦
            let r' = Reach-stepped l j r lt' busy' mv in
            let (k, t, run, r'', z) =
              finish l fuel r'
                (omega (arith, h, tally-moved remaining n s.pc j p lt', Move-remaining mv busy')) in
            (suc k, t, next j lt' busy' mv run, r'', z)
        | inr (j, k, lt', bad) ↦ absurd ((one_lock l r).1 j k lt' bad)
      ]
]

remaining-zero : (p : Pc) → remaining p ≡ 0 → (p ≡ idle) ⊎ ((k : Lock) × (p ≡ fault k))
remaining-zero idle e = inl refl
remaining-zero (fault k) e = inr (k, refl)
remaining-zero p e = absurd (omega (arith, e))

remaining-le : (p : Pc) → remaining p ≤ 11
remaining-le idle = omega arith
remaining-le p = omega arith

tally-remaining-le : (n : ℕ) (pc : ℕ → Pc) → tally remaining n pc ≤ 11 * n
unfolding tally
tally-remaining-le zero pc = omega arith
tally-remaining-le (suc n) pc = omega (arith, remaining-le (pc n), tally-remaining-le n pc)

module _ {n : ℕ} {s : System} (l : Lock) (r : Reach n (Uses l) s)
    (z : tally remaining n s.pc ≡ 0) where
  all_idle : (i : ℕ) → i < n → s.pc i ≡ idle
  all_idle i lt =
      elim (remaining-zero (s.pc i) (omega (arith, tally-le remaining n s.pc i lt, z))) [
        | inl e ↦ e
        | inr (k, bad) ↦ absurd ((one_lock l r).1 i k lt bad)
      ]

  released : held l s.mem ≡ false
  released = elim (Bool-cases (held l s.mem)) [
    | inr e ↦ e
    | inl e ↦
        let (i, lt, some_hold) =
          tally-some (holds l) n s.pc (omega (arith, (Reach-Locked r).owned l, ap bit e)) in
        absurd (omega (arith, some_hold, ap (holds l) (all_idle i lt)))
  ]

  counted : s.mem.data_count ≡ length s.mem.data_list
  counted = (one_lock l r).2 released

Run-Reach :
    {n k : ℕ} (l : Lock) {s t : System} → Reach n (Uses l) s → Run n s k t → Reach n (Uses l) t
Run-Reach l r done = r
Run-Reach l r (next i lt busy mv run) = Run-Reach l (Reach-stepped l i r lt busy mv) run

-- No deadlock: while all threads use one and the same lock, wherever the scheduler takes them, if
-- no thread that is in a function can make a move, then every thread is out of its function, and
-- `data_count` is the length of the list.
pub no_deadlock :
    {n k : ℕ} {s t : System} (l : Lock)
    → Reach n (Uses l) s
    → Run n s k t
    → ((j : ℕ) (m : Memory) (p : Pc) → j < n → 0 < remaining (t.pc j) → Move t.mem (t.pc j) m p → ⊥)
    → ((i : ℕ) → i < n → t.pc i ≡ idle) × (t.mem.data_count ≡ length t.mem.data_list)
no_deadlock {n} {t = t} l r run stuck = (all_idle l r' over, counted l r' over)
  where
    r' : Reach n (Uses l) t
    r' = Run-Reach l r run

    over : tally remaining n t.pc ≡ 0
    over = elim (Bool-cases (tally remaining n t.pc == 0)) [
      | inl e ↦ ground arith
      | inr e ↦
          let (i, lt, busy) = tally-some remaining n t.pc (ground arith) in
          elim (thread-GoesOn (Reach-Locked r') i (t.pc i) lt refl busy) [
            | inl (j, lt', busy', (m, p, mv)) ↦ absurd (stuck j m p lt' busy' mv)
            | inr (j, k, lt', bad) ↦ absurd ((one_lock l r').1 j k lt' bad)
          ]
    ]

-- While all threads use one and the same lock and none begins a new function, every schedule of
-- `n` threads has at most 11 n moves; and there is one after which every thread is out of its
-- function and `data_count` is the length of the list.
pub one_lock_finishes :
    {n : ℕ} {s : System} (l : Lock)
    → Reach n (Uses l) s
    → ((k : ℕ) (t : System) → Run n s k t → k ≤ 11 * n)
      × ((k : ℕ) × (t : System) × Run n s k t
          × ((i : ℕ) → i < n → t.pc i ≡ idle)
          × (t.mem.data_count ≡ length t.mem.data_list))
one_lock_finishes {n} {s} l r =
    let (k, t, run, r', z) = finish l (tally remaining n s.pc) r (omega arith) in
    (
      λ k t run. omega (arith, run_bound run, tally-remaining-le n s.pc),
      (k, t, run, all_idle l r' z, counted l r' z),
    )
