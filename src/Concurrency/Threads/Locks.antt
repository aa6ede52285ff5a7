-- ===== src/Concurrency/Threads/Locks.antt =====
-- The locks of experiments/04_concurrency_control.c exclude the threads that hold them.
use model_lib.Prelude.{
  ℕ, ◌≤◌, ◌<◌, ◌≡◌, refl, subst, inl, inr, Bool, true, false, arith, ◌==◌, Bool-cases, ==_iff,
}
use model_lib.Concurrency.Threads.Moves.{Lock, spin, mutex, rwlock, Memory, held, Pc, idle}
use model_lib.Concurrency.Threads.System.{
  System, Step, by_thread, unlocked, Reach, start, later, Anything,
}
use model_lib.Concurrency.Threads.Tally.{tally, tally-moved, tally-zero, tally-pair, tally-le}
use model_lib.Concurrency.Threads.Held.{holds, reads, bit, Move-holds, Move-reads, Move-excluded}

-- What holds of the locks in every reachable state.
pub record Locked (n : ℕ) (m : Memory) (pc : ℕ → Pc) : Type 0 where
  pub owned : (l : Lock) → tally (holds l) n pc ≡ bit (held l m)
  pub shared : tally reads n pc ≡ m.readers
  pub excluded : m.write_held ≡ true → m.readers ≡ 0

loaded-Locked : (n : ℕ) → Locked n unlocked (λ i. idle)
loaded-Locked n = record {
  owned = owned;
  shared = tally-zero reads n (λ i. idle) (λ i. refl);
  excluded = λ e. cc;
}
  where
    owned : (l : Lock) → tally (holds l) n (λ i. idle) ≡ bit (held l unlocked)
    owned spin = tally-zero (holds spin) n (λ i. idle) (λ i. refl)
    owned mutex = tally-zero (holds mutex) n (λ i. idle) (λ i. refl)
    owned rwlock = tally-zero (holds rwlock) n (λ i. idle) (λ i. refl)

-- A lock that a thread has is held.
pub holds-le :
    {n : ℕ} {m : Memory} {pc : ℕ → Pc} (l : Lock) (i : ℕ)
    → Locked n m pc
    → i < n
    → holds l (pc i) ≤ bit (held l m)
holds-le {n} {pc = pc} l i v lt = omega (arith, v.owned l, tally-le (holds l) n pc i lt)

pub Step-Locked : {n : ℕ} {s t : System} → Step n s t → Locked n s.mem s.pc → Locked n t.mem t.pc
Step-Locked {n} {s} (by_thread i {m = m'} {p = p'} lt mv) v = record {
  owned =
      λ l. omega (arith, v.owned l, tally-moved (holds l) n s.pc i p' lt, Move-holds mv l (own l));
  shared = omega (arith, v.shared, tally-moved reads n s.pc i p' lt, Move-reads mv reading);
  excluded = Move-excluded mv v.excluded reading;
}
  where
    own : (l : Lock) → holds l (s.pc i) ≤ bit (held l s.mem)
    own l = holds-le l i v lt

    reading : reads (s.pc i) ≤ s.mem.readers
    reading = omega (arith, v.shared, tally-le reads n s.pc i lt)

pub Reach-Locked : {n : ℕ} {A : Pc → Type 0} {s : System} → Reach n A s → Locked n s.mem s.pc
Reach-Locked {n} start = loaded-Locked n
Reach-Locked (later r st a) = Step-Locked st (Reach-Locked r)

pub bit-le : (b : Bool) → bit b ≤ 1
bit-le true = omega arith
bit-le false = omega arith

pub true_of_bit : (b : Bool) → 0 < bit b → b ≡ true
true_of_bit true h = refl
true_of_bit false h = absurd (omega (arith, h))

pub holds_once :
    {n : ℕ} {m : Memory} {pc : ℕ → Pc} (l : Lock) (i j : ℕ)
    → Locked n m pc
    → i < n
    → j < n
    → holds l (pc i) ≡ 1
    → holds l (pc j) ≡ 1
    → i ≡ j
holds_once {n} {m} {pc} l i j v hi hj e f = elim (Bool-cases (i == j)) [
  | inl q ↦ (==_iff i j).0 q
  | inr q ↦ absurd (
      omega (
        arith,
        tally-pair (holds l) n pc i j hi hj (ground arith),
        v.owned l,
        bit-le (held l m),
        e,
        f,
      ))
]

-- Whatever the threads do, two of them never have the same lock at once, and none has the rwlock
-- for writing while one reads under it.
pub mutual_exclusion :
    {n : ℕ} {s : System} (i j : ℕ) (l : Lock)
    → Reach n Anything s
    → i < n
    → j < n
    → holds l (s.pc i) ≡ 1
    → ((holds l (s.pc j) ≡ 1) → i ≡ j) × ((l ≡ rwlock) → reads (s.pc j) ≡ 0)
mutual_exclusion {n} {s} i j l r hi hj e = (holds_once l i j v hi hj e, alone)
  where
    v : Locked n s.mem s.pc
    v = Reach-Locked r

    alone : (l ≡ rwlock) → reads (s.pc j) ≡ 0
    alone q =
        let writes : holds rwlock (s.pc i) ≡ 1 = subst (λ k. holds k (s.pc i) ≡ 1) q e in
        let written : s.mem.write_held ≡ true =
          true_of_bit s.mem.write_held (omega (arith, writes, holds-le rwlock i v hi)) in
        omega (arith, tally-le reads n s.pc j hj, v.shared, v.excluded written)
